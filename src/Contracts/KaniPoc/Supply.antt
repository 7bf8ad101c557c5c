-- ===== src/Contracts/KaniPoc/Supply.antt =====
-- What the operations of contracts/kani-poc/src/lib.rs do to the total supply and to the balances.
use Prim.Native.String.{String}
use sanctifier.Base.{◌≡◌, sym, ap, ◌∙◌, Bool, true, false, ◌&&◌, arith}
use sanctifier.Base.Int.{ℤ, pos, ltb_ℤ, ◌+ℤ◌, ◌-ℤ◌, is_i128, checked_add, checked_sub}
use sanctifier.Base.Results.{Result, ok, err, ok_or}
use sanctifier.Contracts.KaniPoc.{
  transfer_pure, transfer_from_pure, mint_pure, burn_pure, burn_from_pure,
  mint_pure_with_total_supply, burn_pure_with_total_supply, approve_pure_no_balance_change,
}

abbrev pub is_ok_result : {A : Type 0} → Result String A → Bool
is_ok_result (ok a) = true
is_ok_result (err e) = false

-- The balances of two holders and the total supply.
pub record Ledger : Type 0 where
  pub a : ℤ
  pub b : ℤ
  pub total_supply : ℤ

-- The same with the holders exchanged.
abbrev pub exchanged : Ledger → Ledger
exchanged l = record { a = l.b; b = l.a; total_supply = l.total_supply }

-- One operation that succeeds, on the balance of the first holder or from the first to the second; or, as
-- `by_other`, of the second or from the second to the first. `burn_from_pure` gives no total supply, so a
-- burn on behalf of a holder takes it from `burn_pure_with_total_supply`.
pub data Step : Ledger → Ledger → Type 0 where
  transferred :
      {l : Ledger} (amount : ℤ) {na nb : ℤ}
      → transfer_pure l.a l.b amount ≡ ok (na, nb)
      → Step l (record l { a = na; b = nb })
  transferred_from :
      {l : Ledger} (amount : ℤ) {na nb : ℤ}
      → transfer_from_pure l.a l.b amount ≡ ok (na, nb)
      → Step l (record l { a = na; b = nb })
  burnt :
      {l : Ledger} (amount : ℤ) {nt na : ℤ}
      → burn_pure_with_total_supply l.total_supply l.a amount ≡ ok (nt, na)
      → Step l (record l { a = na; total_supply = nt })
  burnt_from :
      {l : Ledger} (amount : ℤ) {nt na na' : ℤ}
      → burn_from_pure l.a amount ≡ ok na
      → burn_pure_with_total_supply l.total_supply l.a amount ≡ ok (nt, na')
      → Step l (record l { a = na; total_supply = nt })
  minted :
      {l : Ledger} (amount : ℤ) {nt na : ℤ}
      → mint_pure_with_total_supply l.total_supply l.a amount ≡ ok (nt, na)
      → Step l (record l { a = na; total_supply = nt })
  approved :
      {l : Ledger} (allowance : ℤ) {na nb nt : ℤ}
      → approve_pure_no_balance_change l.a l.b l.total_supply allowance ≡ (na, nb, nt)
      → Step l (record { a = na; b = nb; total_supply = nt })
  by_other : {l m : Ledger} → Step (exchanged l) (exchanged m) → Step l m

-- Any number of operations.
pub data Steps : Ledger → Ledger → Type 0 where
  done : {l : Ledger} → Steps l l
  step : {l m n : Ledger} → Step l m → Steps m n → Steps l n

abbrev pub IsBacked : Ledger → Type 0
IsBacked l = l.total_supply ≡ l.a +ℤ l.b

exchanged-IsBacked : (l : Ledger) → IsBacked l → IsBacked (exchanged l)
unfolding ◌+ℤ◌
exchanged-IsBacked l backed = ground (arith, backed)

moved : (a b amount : ℤ) → (a -ℤ amount) +ℤ (b +ℤ amount) ≡ a +ℤ b
unfolding ◌+ℤ◌ ◌-ℤ◌
moved a b amount = ground arith

burnt_part : (a b amount : ℤ) → (a -ℤ amount) +ℤ b ≡ (a +ℤ b) -ℤ amount
unfolding ◌+ℤ◌ ◌-ℤ◌
burnt_part a b amount = ground arith

minted_part : (a b amount : ℤ) → (a +ℤ amount) +ℤ b ≡ (a +ℤ b) +ℤ amount
unfolding ◌+ℤ◌
minted_part a b amount = ground arith

-- What the operations that succeed give.
checked_add_lem : (a b c : ℤ) (e : String) → ok_or (checked_add a b) e ≡ ok c → c ≡ a +ℤ b
checked_add_lem a b c e h = ground arith

checked_sub_lem : (a b c : ℤ) (e : String) → ok_or (checked_sub a b) e ≡ ok c → c ≡ a -ℤ b
checked_sub_lem a b c e h = ground arith

transfer_pure_lem :
    (a b amount na nb : ℤ)
    → transfer_pure a b amount ≡ ok (na, nb)
    → (na ≡ a -ℤ amount) × (nb ≡ b +ℤ amount)
unfolding transfer_pure
transfer_pure_lem a b amount na nb h = ground arith

burn_lem :
    (t a amount nt na : ℤ)
    → burn_pure_with_total_supply t a amount ≡ ok (nt, na)
    → (nt ≡ t -ℤ amount) × (na ≡ a -ℤ amount)
unfolding burn_pure_with_total_supply burn_pure
burn_lem t a amount nt na h = ground arith

burn_from_lem : (a amount na : ℤ) → burn_from_pure a amount ≡ ok na → na ≡ a -ℤ amount
unfolding burn_from_pure burn_pure
burn_from_lem a amount na h = ground arith

mint_lem :
    (t a amount nt na : ℤ)
    → mint_pure_with_total_supply t a amount ≡ ok (nt, na)
    → (nt ≡ t +ℤ amount) × (na ≡ a +ℤ amount)
unfolding mint_pure_with_total_supply mint_pure
mint_lem t a amount nt na h = ground arith

step-IsBacked : {l m : Ledger} → Step l m → IsBacked l → IsBacked m
unfolding transfer_from_pure approve_pure_no_balance_change
step-IsBacked (transferred {l} amount {na} {nb} h) backed =
    let e = transfer_pure_lem l.a l.b amount na nb h in
    rw (e.0, e.1) (backed ∙ sym (moved l.a l.b amount))
step-IsBacked (transferred_from {l} amount {na} {nb} h) backed =
    let e = transfer_pure_lem l.a l.b amount na nb h in
    rw (e.0, e.1) (backed ∙ sym (moved l.a l.b amount))
step-IsBacked (burnt {l} amount {nt} {na} h) backed =
    let e = burn_lem l.total_supply l.a amount nt na h in
    rw (e.0, e.1) (ap (λ t. t -ℤ amount) backed ∙ sym (burnt_part l.a l.b amount))
step-IsBacked (burnt_from {l} amount {nt} {na} {na'} h k) backed =
    let e = burn_lem l.total_supply l.a amount nt na' k in
    rw (burn_from_lem l.a amount na h, e.0)
      (ap (λ t. t -ℤ amount) backed ∙ sym (burnt_part l.a l.b amount))
step-IsBacked (minted {l} amount {nt} {na} h) backed =
    let e = mint_lem l.total_supply l.a amount nt na h in
    rw (e.0, e.1) (ap (λ t. t +ℤ amount) backed ∙ sym (minted_part l.a l.b amount))
step-IsBacked (approved {l} allowance {na} {nb} {nt} h) backed = ground arith
step-IsBacked (by_other {l} {m} s) backed =
    exchanged-IsBacked (exchanged m) (step-IsBacked s (exchanged-IsBacked l backed))

-- From the balances of two holders that add up to the total supply, any number of successful operations leads
-- to balances that add up to the total supply: transfers and transfers on behalf, in either direction, burns
-- and mints with the total supply, of either holder, burns on behalf of either holder whose total supply is
-- that of a burn, and approvals.
pub steps-IsBacked : {l m : Ledger} → Steps l m → IsBacked l → IsBacked m
steps-IsBacked done backed = backed
steps-IsBacked (step s ss) backed = steps-IsBacked ss (step-IsBacked s backed)

-- A transfer succeeds exactly when the amount is positive and neither balance leaves the range of an i128: it is not
-- needed that the sender holds the amount.
pub transfer_pure_iff :
    (a b amount : ℤ)
    → (is_ok_result (transfer_pure a b amount))
      ≡ (ltb_ℤ (pos 0) amount && is_i128 (a -ℤ amount) && is_i128 (b +ℤ amount))
unfolding transfer_pure
transfer_pure_iff a b amount = ground arith
