-- ===== src/Contracts/Token.antt =====
-- contracts/my-contract/src/lib.rs: the SEP-41 token's storage and every entry point.
pub mod Transfers
pub mod Supply
pub mod Bounds
mod Tests
use Prim.Native.String.{String}
use sanctifier.Base.{
  ℕ, Bool, true, false, not, ◌&&◌, Option, none, some, ltb, leb, ◌==◌, if◌then◌else◌,
}
use sanctifier.Base.Int.{ℤ, pos, ltb_ℤ, checked_add, checked_sub}
use sanctifier.Host.{
  Address, Env, Outcome, ok, ◌>>=◌, ◌>>◌, panic_if, or_panic, unwrap_or, is_some, require_auth,
  update,
}

pub data TokenError : Type 0 where
  already_initialized not_initialized insufficient_balance insufficient_allowance : TokenError
  allowance_expired overflow negative_amount : TokenError

pub record AllowanceValue : Type 0 where
  pub amount : ℤ
  pub expiration_ledger : ℕ

-- The storage, by `DataKey`; an allowance is kept under its owner and its spender.
pub record Ledger : Type 0 where
  pub admin : Option Address
  pub decimals : Option ℕ
  pub name : Option String
  pub symbol : Option String
  pub balances : Address → Option ℤ
  pub allowances : Address → Address → Option AllowanceValue

pub initialize :
    Env → Address → ℕ → String → String → Ledger → Outcome TokenError (Unit {0} × Ledger)
initialize env admin decimals name symbol l = do
  require_auth env admin
  panic_if (is_some l.admin) already_initialized
  ok (
    tt,
    record l {
      admin = some admin;
      decimals = some decimals;
      name = some name;
      symbol = some symbol;
    },
  )

abbrev pub balance : Ledger → Address → ℤ
balance l id = unwrap_or (l.balances id) (pos 0)

abbrev pub set_balance : Address → ℤ → Ledger → Ledger
set_balance a v l = record l { balances = update l.balances a (some v) }

abbrev pub set_allowance : Address → Address → AllowanceValue → Ledger → Ledger
set_allowance from spender v l = record l {
  allowances = update l.allowances from (update (l.allowances from) spender (some v));
}

pub mint : Env → Address → ℤ → Ledger → Outcome TokenError (Unit {0} × Ledger)
mint env to amount l = do
  panic_if (ltb_ℤ amount (pos 0)) negative_amount
  admin ← or_panic l.admin not_initialized
  require_auth env admin
  new_balance ← or_panic (checked_add (balance l to) amount) overflow
  ok (tt, set_balance to new_balance l)

abbrev pub unexpired : Env → Option AllowanceValue → ℤ
unexpired env none = pos 0
unexpired env (some v) = if leb env.sequence v.expiration_ledger then v.amount else pos 0

abbrev pub allowance : Env → Address → Address → Ledger → ℤ
allowance env from spender l = unexpired env (l.allowances from spender)

pub approve : Env → Address → Address → ℤ → ℕ → Ledger → Outcome TokenError (Unit {0} × Ledger)
approve env from spender amount expiration_ledger l = do
  require_auth env from
  panic_if (ltb_ℤ amount (pos 0)) negative_amount
  ok (
    tt,
    set_allowance from spender (record { amount = amount; expiration_ledger = expiration_ledger })
        l,
  )

-- `Some(v) if v >= 0 => v`
abbrev pub covered : Option ℤ → Option ℤ
covered none = none
covered (some v) = if ltb_ℤ v (pos 0) then none else some v

-- The end of `burn` and of `burn_from`.
abbrev pub debit : Address → ℤ → Ledger → Outcome TokenError (Unit {0} × Ledger)
debit from amount l = do
  new_balance ← or_panic (covered (checked_sub (balance l from) amount)) insufficient_balance
  ok (tt, set_balance from new_balance l)

-- The end of `transfer` and of `transfer_from`: both balances are read before either is written.
abbrev pub move : Address → Address → ℤ → Ledger → Outcome TokenError (Unit {0} × Ledger)
move from to amount l = do
  new_from ← or_panic (covered (checked_sub (balance l from) amount)) insufficient_balance
  new_to ← or_panic (checked_add (balance l to) amount) overflow
  ok (tt, set_balance to new_to (set_balance from new_from l))

-- How `transfer_from` and `burn_from` draw on an allowance.
abbrev pub spend_allowance : Env → Address → Address → ℤ → Ledger → Outcome TokenError Ledger
spend_allowance env spender from amount l = do
  allow_val ← or_panic (l.allowances from spender) insufficient_allowance
  panic_if (ltb allow_val.expiration_ledger env.sequence) allowance_expired
  new_allowance ← or_panic (covered (checked_sub allow_val.amount amount)) insufficient_allowance
  ok (set_allowance from spender (record allow_val { amount = new_allowance }) l)

pub transfer : Env → Address → Address → ℤ → Ledger → Outcome TokenError (Unit {0} × Ledger)
transfer env from to amount l = do
  require_auth env from
  panic_if (ltb_ℤ amount (pos 0)) negative_amount
  move from to amount l

pub transfer_from :
    Env → Address → Address → Address → ℤ → Ledger → Outcome TokenError (Unit {0} × Ledger)
transfer_from env spender from to amount l = do
  require_auth env spender
  panic_if (ltb_ℤ amount (pos 0)) negative_amount
  l' ← spend_allowance env spender from amount l
  move from to amount l'

pub burn : Env → Address → ℤ → Ledger → Outcome TokenError (Unit {0} × Ledger)
burn env from amount l = do
  require_auth env from
  panic_if (ltb_ℤ amount (pos 0)) negative_amount
  debit from amount l

pub burn_from : Env → Address → Address → ℤ → Ledger → Outcome TokenError (Unit {0} × Ledger)
burn_from env spender from amount l = do
  require_auth env spender
  panic_if (ltb_ℤ amount (pos 0)) negative_amount
  l' ← spend_allowance env spender from amount l
  debit from amount l'

abbrev pub decimals : Ledger → ℕ
decimals l = unwrap_or l.decimals 7

abbrev pub name : Ledger → String
name l = unwrap_or l.name ""

abbrev pub symbol : Ledger → String
symbol l = unwrap_or l.symbol ""
