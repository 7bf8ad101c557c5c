-- ===== src/Contracts/RuntimeGuard.antt =====
-- contracts/runtime-guard-wrapper/src/lib.rs: the wrapper's storage and its guarded calls.
pub mod Steps
pub mod History
mod Tests
use Prim.Native.String.{String}
use text.Mathlib.Text.{◌==◌ as str_eq}
use sanctifier.Base.{
  ℕ, zero, suc, ◌+◌, ◌-◌, ◌*◌, ◌/◌, ◌%◌, ◌^◌, Bool, true, false, ◌&&◌, Option, none, some, List, [],
  ◌∷◌, ◌++◌, length, drop, ltb, ◌==◌, ◌!=◌, if◌then◌else◌,
}
use sanctifier.Base.Results.{Result, ok, err, ok_or}
use sanctifier.Host.{Address, Val, Env, unwrap_or, is_some, saturating_suc, u32_bound, u64_bound}

abbrev pub healthy_storage_limit : ℕ
healthy_storage_limit = 64

abbrev pub contract_version : ℕ
contract_version = 1

pub data RuntimeGuardError : Type 0 where
  wrapped_contract_not_set storage_integrity_failed unknown_function : RuntimeGuardError
  argument_count_mismatch : RuntimeGuardError

pub record GuardConfig : Type 0 where
  pub check_storage_invariants : Bool
  pub check_auth_guards : Bool
  pub check_overflow : Bool
  pub monitor_events : Bool
  pub max_execution_time_ms : ℕ

abbrev pub default_config : GuardConfig
default_config = record {
  check_storage_invariants = true;
  check_auth_guards = true;
  check_overflow = true;
  monitor_events = true;
  max_execution_time_ms = 5_000;
}

pub record ExecutionMetrics : Type 0 where
  pub call_hash : ℕ
  pub success : Bool
  pub timestamp : ℕ
  pub gas_used : ℕ

-- The storage, by its keys; an event is its name and its status.
pub record Guard : Type 0 where
  pub wrapped_contract : Option Address
  pub guard_config : Option (Bool × Bool × Bool × Bool)
  pub call_log : Option (List String)
  pub invariants_checked : Option ℕ
  pub guard_failures : Option (List String)
  pub execution_metrics : Option (List ExecutionMetrics)
  pub version : Option ℕ
  pub events : List (String × String)

-- The SDK's conversions. `u32_of` is `u32::try_from_val`.
pub record Sdk : Type 0 where
  pub symbol_val : String → Val
  pub payload : Val → ℕ
  pub u32_of : Val → Option ℕ
  pub u32_val : ℕ → Val
  pub void : Val

-- A step on the storage that may end with an error; the storage as the step leaves it is kept, the
-- host rolls it back only when the whole call has ended with an error.
abbrev pub Step : Type 0 → Type 0
Step A = Guard → Result RuntimeGuardError A × Guard

abbrev pub continue :
    {A B : Type 0}
    → Result RuntimeGuardError A × Guard
    → (A → Step B)
    → Result RuntimeGuardError B × Guard
continue (ok a, g) f = f a g
continue (err e, g) f = (err e, g)

infixl 5 ◌>>=◌ ◌>>◌
abbrev pub ◌>>=◌ : {A B : Type 0} → Step A → (A → Step B) → Step B
(m >>= f) g = continue (m g) f

abbrev pub ◌>>◌ : {B : Type 0} → Step (Unit {0}) → Step B → Step B
m >> k = m >>= λ _. k

abbrev pub return : {A : Type 0} → A → Step A
return a g = (ok a, g)

abbrev pub fail : {A : Type 0} → RuntimeGuardError → Step A
fail e g = (err e, g)

abbrev pub emit_guard_event : String → String → Step (Unit {0})
emit_guard_event event status g = (ok tt, record g { events = g.events ++ (event, status) ∷ [] })

pub init : Address → Step (Unit {0})
init wrapped g =
    if is_some g.wrapped_contract
    then emit_guard_event "wrapper_initialized" "idempotent" g
    else let config = default_config in
      emit_guard_event "wrapper_initialized" "success" (record g {
        wrapped_contract = some wrapped;
        guard_config = some (
          config.check_storage_invariants, config.check_auth_guards, config.check_overflow,
          config.monitor_events,
        );
        call_log = some [];
        invariants_checked = some 0;
        guard_failures = some [];
        execution_metrics = some [];
        version = some contract_version;
      })

abbrev pub get_version : Guard → ℕ
get_version g = unwrap_or g.version contract_version

pub validate_function_name : Sdk → String → Step (Unit {0})
validate_function_name sdk f =
    if sdk.payload (sdk.symbol_val f) == 0 then fail unknown_function else return tt

abbrev pub validate_storage_integrity : Step (Unit {0})
validate_storage_integrity g =
    if is_some g.wrapped_contract then return tt g else fail storage_integrity_failed g

pub pre_execution_guards : Step (Unit {0})
pre_execution_guards g =
    if is_some g.wrapped_contract
    then validate_storage_integrity g
    else (emit_guard_event "pre_exec_guard" "wrapped_contract_not_set"
          >> fail wrapped_contract_not_set)
        g

abbrev pub verify_storage_invariants : Step (Unit {0})
verify_storage_invariants g = (
  ok tt,
  record g { invariants_checked = some (saturating_suc (unwrap_or g.invariants_checked 0)) },
)

pub post_execution_guards : Step (Unit {0})
post_execution_guards = verify_storage_invariants >> emit_guard_event "post_exec_guard" "passed"

pub expected_arg_count : String → Option ℕ
expected_arg_count f =
    if str_eq f "ping"
    then some 0
    else if str_eq f "echo"
    then some 1
    else if str_eq f "sum"
    then some 2
    else none

-- `args.get(0)` and `args.get(1)`
abbrev pub first : List Val → Option Val
first [] = none
first (x ∷ xs) = some x

abbrev pub second : List Val → Option Val
second (x ∷ (y ∷ xs)) = some y
second _ = none

-- `u32::saturating_add`
abbrev pub saturating_add : ℕ → ℕ → ℕ
saturating_add a b = if ltb (a + b) u32_bound then a + b else u32_bound - 1

abbrev pub and_then :
    {A B : Type 0}
    → Result RuntimeGuardError A
    → (A → Result RuntimeGuardError B)
    → Result RuntimeGuardError B
and_then (ok a) f = f a
and_then (err e) f = err e

-- The answers that stand for the wrapped contract's.
pub simulate_wrapped_call : Sdk → String → List Val → Result RuntimeGuardError Val
simulate_wrapped_call sdk f args =
    if str_eq f "ping"
    then ok (sdk.symbol_val "pong")
    else if str_eq f "echo"
    then ok (unwrap_or (first args) sdk.void)
    else if str_eq f "sum"
    then and_then (ok_or (sdk.u32_of (unwrap_or (first args) sdk.void)) argument_count_mismatch)
        (λ left.
          and_then (ok_or (sdk.u32_of (unwrap_or (second args) sdk.void)) argument_count_mismatch)
            (λ right. ok (sdk.u32_val (saturating_add left right))))
    else err unknown_function

-- `^` on `bits` bits.
pub xor_bits : ℕ → ℕ → ℕ → ℕ
xor_bits zero a b = 0
xor_bits (suc bits) a b = (a + b) % 2 + 2 * xor_bits bits (a / 2) (b / 2)

pub hash_call : ℕ → ℕ → ℕ
hash_call payload start_tick =
    xor_bits 64 (payload * 31 % u64_bound) (start_tick * 17 % u64_bound) % u32_bound

-- The last `limit` of the entries, when there are more.
abbrev pub capped : {A : Type 0} → ℕ → List A → List A
capped limit xs = if ltb limit (length xs) then drop (length xs - limit) xs else xs

abbrev pub log_capped : List String → List String
log_capped log = if ltb 100 (length log) then drop 1 log else log

pub log_execution : String → Step (Unit {0})
log_execution f g =
    let log = unwrap_or g.call_log [] ++ f ∷ [] in
    emit_guard_event "execution_logged" "success" (record g { call_log = some (log_capped log) })

pub record_metrics : ExecutionMetrics → Step (Unit {0})
record_metrics m g =
    let metrics = unwrap_or g.execution_metrics [] ++ m ∷ [] in
    (ok tt, record g { execution_metrics = some (capped 1_000 metrics) })

pub record_guard_failure : String → Step (Unit {0})
record_guard_failure failure g =
    emit_guard_event "guard_failure" "recorded"
      (record g { guard_failures = some (unwrap_or g.guard_failures [] ++ failure ∷ []) })

-- The wrapped call, and its metrics.
pub monitored_call : Sdk → Env → String → List Val → Step Val
monitored_call sdk env f args g = elim (simulate_wrapped_call sdk f args) [
  | err e ↦ (record_guard_failure "wrapped_call_error" >> fail e) g
  | ok result ↦
      (record_metrics (record {
        call_hash = hash_call (sdk.payload (sdk.symbol_val f)) env.timestamp;
        success = true;
        timestamp = env.timestamp;
        gas_used = 0;
      })
          >> return result)
        g
]

pub execute_with_monitoring : Sdk → Env → String → List Val → Step Val
execute_with_monitoring sdk env f args g = elim (expected_arg_count f) [
  | none ↦ (record_guard_failure "missing_function" >> fail unknown_function) g
  | some count ↦
      if length args != count
      then (record_guard_failure "arg_mismatch" >> fail argument_count_mismatch) g
      else monitored_call sdk env f args g
]

pub execute_guarded : Sdk → Env → String → List Val → Step Val
execute_guarded sdk env f args = do
  validate_function_name sdk f
  pre_execution_guards
  result ← execute_with_monitoring sdk env f args
  post_execution_guards
  log_execution f
  return result

pub get_stats : Guard → ℕ × ℕ × ℕ
get_stats g = (
  unwrap_or g.invariants_checked 0,
  length (unwrap_or g.call_log []),
  length (unwrap_or g.guard_failures []),
)

pub health_check : Guard → Bool
health_check g =
    is_some g.wrapped_contract
    && ltb (length (unwrap_or g.execution_metrics [])) healthy_storage_limit
    && ltb (length (unwrap_or g.call_log [])) healthy_storage_limit
