-- ===== src/Contracts/Oracle.antt =====
-- contracts/oracle/src/lib.rs: the price oracle's storage and every entry point.
pub mod Approval
mod Tests
use sanctifier.Base.{
  ℕ, ◌+◌, ◌%◌, Bool, true, false, not, ◌&&◌, ◌||◌, Option, none, some, List, [], ◌∷◌, ◌++◌, length,
  contains, ltb, ◌==◌, if◌then◌else◌,
}
use sanctifier.Host.{
  Address, Env, Outcome, ok, ◌>>=◌, ◌>>◌, panic_if, or_panic, unwrap, is_some, require_auth,
  add_or_trap, u32_bound, u64_bound,
}

pub data Error : Type 0 where
  not_initialized already_initialized invalid_threshold insufficient_signers stale_price : Error

pub record PriceData : Type 0 where
  pub price : ℕ
  pub timestamp : ℕ

-- The storage, by `DataKey`; an event is the new price and its time.
pub record Oracle : Type 0 where
  pub validators : Option (List Address)
  pub threshold : Option ℕ
  pub price_data : Option PriceData
  pub events : List (ℕ × ℕ)

pub init : List Address → ℕ → Oracle → Outcome Error (Unit {0} × Oracle)
init validators threshold o = do
  panic_if (is_some o.threshold) already_initialized
  panic_if (threshold == 0 || ltb (length validators) threshold) invalid_threshold
  ok (tt, record o { validators = some validators; threshold = some threshold })

-- The loop of `update_price`: how many validators are trusted, not yet processed, and authorise.
pub count_valid : Env → List Address → List Address → ℕ → List Address → Outcome Error ℕ
count_valid env trusted processed valid_count [] = ok valid_count
count_valid env trusted processed valid_count (v ∷ vs) =
    let next = λ (n : ℕ). count_valid env trusted (processed ++ v ∷ []) n vs in
    let rest = count_valid env trusted processed valid_count vs in
    if contains v trusted && not (contains v processed)
    then require_auth env v >> (add_or_trap u32_bound valid_count 1 >>= next)
    else rest

pub update_price : Env → ℕ → ℕ → List Address → Oracle → Outcome Error (Unit {0} × Oracle)
update_price env price timestamp validators_approving o = do
  trusted_validators ← unwrap o.validators
  threshold ← unwrap o.threshold
  valid_count ← count_valid env trusted_validators [] 0 validators_approving
  panic_if (ltb valid_count threshold) insufficient_signers
  ok (
    tt,
    record o {
      price_data = some (record { price = price; timestamp = timestamp });
      events = o.events ++ (price, timestamp) ∷ [];
    },
  )

-- The crate is no member of the workspace and sets no profile, so a release build does not check `+`: the sum of
-- the time and the age wraps around.
pub get_price : Env → ℕ → Oracle → Outcome Error ℕ
get_price env max_age o = do
  data' ← or_panic o.price_data stale_price
  panic_if (ltb ((data'.timestamp + max_age) % u64_bound) env.timestamp) stale_price
  ok data'.price
