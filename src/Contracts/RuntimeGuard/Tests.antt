-- ===== src/Contracts/RuntimeGuard/Tests.antt =====
-- Runs of contracts/runtime-guard-wrapper/src/lib.rs at concrete inputs, and the theorems at such inputs.
use sanctifier.Base.{ℕ, zero, suc, ◌≡◌, refl, false, none, some, List, [], ◌∷◌, arith}
use sanctifier.Base.Results.{ok, err}
use sanctifier.Host.{Env}
use sanctifier.Contracts.RuntimeGuard
use sanctifier.Contracts.RuntimeGuard.{
  Guard, Sdk, argument_count_mismatch, validate_function_name, pre_execution_guards,
  post_execution_guards, expected_arg_count, simulate_wrapped_call, xor_bits, hash_call,
  log_execution, record_metrics, record_guard_failure, monitored_call, execute_with_monitoring,
  execute_guarded, get_stats, health_check,
}
use sanctifier.Contracts.RuntimeGuard.History.{
  Call, apply, run, IsBounded, run-stats, run-unhealthy,
}

program : Unit {0}
unfolding RuntimeGuard.init validate_function_name pre_execution_guards post_execution_guards
    expected_arg_count simulate_wrapped_call xor_bits hash_call log_execution record_metrics
    record_guard_failure monitored_call execute_with_monitoring execute_guarded get_stats
    health_check apply run
program = tt

-- Every value is an u32, and every name has the payload 3.
abbrev sdk : Sdk
sdk = record {
  symbol_val = λ s. 3;
  payload = λ v. v;
  u32_of = λ v. some v;
  u32_val = λ n. n;
  void = 0;
}

abbrev env : Env
env = record { current_contract_address = 1; timestamp = 10; sequence = 0; authorised = λ a. false }

abbrev blank : Guard
blank = record {
  wrapped_contract = none;
  guard_config = none;
  call_log = none;
  invariants_checked = none;
  guard_failures = none;
  execution_metrics = none;
  version = none;
  events = [];
}

abbrev ready : Guard
ready = apply sdk env (Call.init 8) blank

adding : (execute_guarded sdk env "sum" (20 ∷ 22 ∷ []) ready).0 ≡ ok 42
unfolding program
adding = refl

wrong_arity : (execute_guarded sdk env "sum" (20 ∷ []) ready).0 ≡ err argument_count_mismatch
unfolding program
wrong_arity = refl

-- 3 * 31 is 93, 10 * 17 is 170.
hashing : hash_call 3 10 ≡ 247
unfolding program
hashing = refl

abbrev some_calls : List (Env × Call)
some_calls =
    (env, Call.init 8)
    ∷ (env, Call.execute_guarded "ping" [])
    ∷ (env, Call.execute_guarded "pong" [])
    ∷ (env, Call.execute_guarded "sum" (1 ∷ []))
    ∷ []

counting : get_stats (run sdk some_calls blank) ≡ (1, 1, 0)
unfolding program
counting = refl

blank-IsBounded : IsBounded blank
blank-IsBounded = record { log = omega arith; metrics = omega arith; failures = refl }

run-stats_example :
    IsBounded (run sdk some_calls blank) × ((get_stats (run sdk some_calls blank)).2 ≡ 0)
run-stats_example = run-stats sdk some_calls blank blank-IsBounded

repeat : {A : Type 0} → ℕ → A → List A
repeat zero a = []
repeat (suc n) a = a ∷ repeat n a

-- A wrapper that has logged 64 pings.
abbrev busy : Guard
busy = record ready { call_log = some (repeat 64 "ping") }

run-unhealthy_example : health_check (run sdk some_calls busy) ≡ false
unfolding program repeat
run-unhealthy_example = run-unhealthy sdk some_calls busy refl (omega arith)
