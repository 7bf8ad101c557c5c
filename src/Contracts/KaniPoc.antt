-- ===== src/Contracts/KaniPoc.antt =====
-- contracts/kani-poc/src/lib.rs: the arithmetic of a token on single balances.
pub mod Supply
mod Tests
use Prim.Native.String.{String}
use sanctifier.Base.{ℕ, Bool, true, false, Option, some, none, if◌then◌else◌}
use sanctifier.Base.Int.{ℤ, pos, ltb_ℤ, ◌+ℤ◌, ◌-ℤ◌, checked_add, checked_sub}
use sanctifier.Base.Results.{Result, ok, err, ◌>>=◌, ok_or}
use sanctifier.Host.{Outcome, unwrap_or, trap, conversion, missing_value}
use sanctifier.Host

pub initialize_pure : Bool → Result String (Unit {0})
initialize_pure true = err "already initialized"
initialize_pure false = ok tt

-- `if amount <= 0 { return Err(e) }`
abbrev pub positive : ℤ → String → Result String (Unit {0})
positive amount e = if ltb_ℤ (pos 0) amount then ok tt else err e

pub transfer_pure : ℤ → ℤ → ℤ → Result String (ℤ × ℤ)
transfer_pure balance_from balance_to amount = do
  _ ← positive amount "Amount must be positive"
  new_from ← ok_or (checked_sub balance_from amount) "Insufficient balance"
  new_to ← ok_or (checked_add balance_to amount) "Receiver balance overflow"
  ok (new_from, new_to)

pub mint_pure : ℤ → ℤ → Result String ℤ
mint_pure balance amount = do
  _ ← positive amount "Mint amount must be positive"
  ok_or (checked_add balance amount) "Mint overflow"

pub burn_pure : ℤ → ℤ → Result String ℤ
burn_pure balance amount = do
  _ ← positive amount "Burn amount must be positive"
  ok_or (checked_sub balance amount) "Insufficient balance to burn"

pub transfer_from_pure : ℤ → ℤ → ℤ → Result String (ℤ × ℤ)
transfer_from_pure balance_from balance_to amount = transfer_pure balance_from balance_to amount

pub burn_from_pure : ℤ → ℤ → Result String ℤ
burn_from_pure balance_from amount = burn_pure balance_from amount

pub approve_pure_no_balance_change : ℤ → ℤ → ℤ → ℤ → ℤ × ℤ × ℤ
approve_pure_no_balance_change balance_from balance_to total_supply new_allowance =
    (balance_from, balance_to, total_supply)

pub mint_pure_with_total_supply : ℤ → ℤ → ℤ → Result String (ℤ × ℤ)
mint_pure_with_total_supply total_supply balance amount = do
  new_balance ← mint_pure balance amount
  new_total ← ok_or (checked_add total_supply amount) "Total supply overflow"
  ok (new_total, new_balance)

pub burn_pure_with_total_supply : ℤ → ℤ → ℤ → Result String (ℤ × ℤ)
burn_pure_with_total_supply total_supply balance amount = do
  new_balance ← burn_pure balance amount
  new_total ← ok_or (checked_sub total_supply amount) "Total supply underflow"
  ok (new_total, new_balance)

-- The storage: the flag and the admin.
pub record Storage : Type 0 where
  pub init : Option Bool
  pub admin : Option String

-- `r.expect(msg)`
abbrev pub expect : {A : Type 0} → Result String A → Outcome String A
expect (ok a) = Host.ok a
expect (err e) = Host.panic e

pub transfer : ℤ → ℤ → ℤ → Outcome String (ℤ × ℤ)
transfer balance_from balance_to amount = expect (transfer_pure balance_from balance_to amount)

pub initialize : Storage → Outcome String (Unit {0} × Storage)
initialize s =
    Host.◌>>=◌ (expect (initialize_pure (unwrap_or s.init false)))
      λ _. Host.ok (tt, record s { init = some true })

pub set_admin : String → Storage → Outcome String (Unit {0} × Storage)
set_admin new_admin s = Host.ok (tt, record s { admin = some new_admin })
