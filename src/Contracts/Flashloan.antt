-- ===== src/Contracts/Flashloan.antt =====
-- contracts/flashloan-token/src/lib.rs: the lender's storage and every entry point.
pub mod Loans
mod Tests
use sanctifier.Base.{
  ℕ, ◌-◌, Bool, true, false, not, Option, none, some, List, [], ◌∷◌, ◌++◌, ltb, if◌then◌else◌,
}
use sanctifier.Base.Int.{
  ℤ, pos, negsuc, ltb_ℤ, is_i128, i128_bound, ◌+ℤ◌, checked_add, checked_sub, checked_mul, ◌/ℤ◌,
}
use sanctifier.Host.{
  Address, Env, Outcome, ok, ◌>>=◌, ◌>>◌, panic, panic_if, or_panic, or_trap, unwrap_or, is_some,
  require_auth, overflow, callee_failed, saturating_suc,
}

abbrev pub default_fee_bps : ℕ
default_fee_bps = 9

abbrev pub max_fee_bps : ℕ
max_fee_bps = 100

abbrev pub bps_denom : ℤ
bps_denom = pos 10_000

-- The messages of the `panic!`, `assert!` and `expect` calls.
pub data Failure : Type 0 where
  already_initialised fee_exceeds_maximum not_initialised contract_paused reentrancy : Failure
  amount_not_positive fee_overflow repayment_overflow not_repaid : Failure

pub data Event : Type 0 where
  fee_set : ℕ → Event
  pause_set : Bool → Event
  loaned : Address → Address → ℤ → ℤ → Event

-- The storage, by its keys.
pub record Lender : Type 0 where
  pub admin : Option Address
  pub fee_bps : Option ℕ
  pub paused : Option Bool
  pub lock : Option Bool
  pub total_fees : Option ℤ
  pub total_loans : Option ℕ
  pub events : List Event

-- The contracts that a loan calls, with their state: the token and the receiver. `none` is a call
-- that failed. The receiver runs while the loan is open; the lender's storage as it is then is an
-- argument, so a receiver may read it. It cannot change it: the host forbids re-entry.
pub record World : Type 1 where
  pub State : Type 0
  pub balance : Address → Address → State → Option ℤ
  pub transfer : Address → Address → Address → ℤ → State → Option State
  pub execute_operation : Lender → Address → Address → ℤ → ℤ → List ℕ → State → Option State

pub initialize : Address → ℕ → Lender → Outcome Failure (Unit {0} × Lender)
initialize admin fee_bps l = do
  panic_if (is_some l.admin) already_initialised
  panic_if (ltb max_fee_bps fee_bps) fee_exceeds_maximum
  ok (
    tt,
    record l {
      admin = some admin;
      fee_bps = some fee_bps;
      paused = some false;
      lock = some false;
      total_fees = some (pos 0);
      total_loans = some 0;
    },
  )

abbrev pub require_admin : Env → Lender → Outcome Failure (Unit {0})
require_admin env l = do admin ← or_panic l.admin not_initialised; require_auth env admin

abbrev pub emit : Event → Lender → Lender
emit e l = record l { events = l.events ++ e ∷ [] }

pub set_fee : Env → ℕ → Lender → Outcome Failure (Unit {0} × Lender)
set_fee env new_fee_bps l = do
  require_admin env l
  panic_if (ltb max_fee_bps new_fee_bps) fee_exceeds_maximum
  ok (tt, emit (fee_set new_fee_bps) (record l { fee_bps = some new_fee_bps }))

pub set_paused : Env → Bool → Lender → Outcome Failure (Unit {0} × Lender)
set_paused env b l = do
  require_admin env l
  ok (tt, emit (pause_set b) (record l { paused = some b }))

abbrev pub assert_not_paused : Lender → Outcome Failure (Unit {0})
assert_not_paused l = panic_if (unwrap_or l.paused false) contract_paused

abbrev pub acquire_lock : Lender → Outcome Failure Lender
acquire_lock l = do panic_if (unwrap_or l.lock false) reentrancy; ok (record l { lock = some true })

abbrev pub release_lock : Lender → Lender
release_lock l = record l { lock = some false }

-- `amount.checked_mul(fee_bps as i128).expect(…) / BPS_DENOM`
pub fee_of : ℤ → ℕ → Outcome Failure ℤ
fee_of amount fee_bps = do
  scaled ← or_panic (checked_mul amount (pos fee_bps)) fee_overflow
  ok (scaled /ℤ bps_denom)

-- `i128::saturating_add`
abbrev pub saturating_add : ℤ → ℤ → ℤ
saturating_add a b =
    let c = a +ℤ b in
    if is_i128 c
    then c
    else if ltb_ℤ c (pos 0)
    then negsuc (i128_bound - 1)
    else pos (i128_bound - 1)

module _ (world : World) where
  open world use {State, balance, transfer, execute_operation}

  pub flashloan :
      Env → Address → Address → ℤ → List ℕ → State × Lender → Outcome Failure (ℤ × (State × Lender))
  flashloan env receiver token amount params (s, l) = do
    assert_not_paused l
    locked ← acquire_lock l
    panic_if (not (ltb_ℤ (pos 0) amount)) amount_not_positive
    fee ← fee_of amount (unwrap_or locked.fee_bps default_fee_bps)
    let self = env.current_contract_address
    balance_before ← or_trap (balance token self s) callee_failed
    lent ← or_trap (transfer token self receiver amount s) callee_failed
    returned ←
        or_trap (execute_operation locked receiver token amount fee params lent) callee_failed
    balance_after ← or_trap (balance token self returned) callee_failed
    required_repayment ← or_panic (checked_add balance_before fee) repayment_overflow
    panic_if (ltb_ℤ balance_after required_repayment) not_repaid
    collected_fee ← or_trap (checked_sub balance_after balance_before) overflow
    let counted : Lender = record locked {
      total_fees = some (saturating_add (unwrap_or locked.total_fees (pos 0)) collected_fee);
      total_loans = some (saturating_suc (unwrap_or locked.total_loans 0));
    }
    ok (
      collected_fee,
      (returned, release_lock (emit (loaned receiver token amount collected_fee) counted)),
    )

abbrev pub fee_bps : Lender → ℕ
fee_bps l = unwrap_or l.fee_bps default_fee_bps

abbrev pub is_paused : Lender → Bool
is_paused l = unwrap_or l.paused false

abbrev pub stats : Lender → ℤ × ℕ
stats l = (unwrap_or l.total_fees (pos 0), unwrap_or l.total_loans 0)
