-- ===== src/Contracts/RuntimeGuard/Steps.antt =====
-- A guarded call of contracts/runtime-guard-wrapper/src/lib.rs.
use Prim.Native.String.{String}
use sanctifier.Base.{
  ℕ, zero, suc, ◌-◌, ◌≡◌, ◌≢◌, ap, ◌↔◌, true, some, List, [], ◌∷◌, ◌++◌, length, drop, arith,
  Option-cases, inl, inr,
}
use sanctifier.Base.Results.{ok, result_cases}
use sanctifier.Host.{Val, Env, unwrap_or, is_some, saturating_suc}
use sanctifier.Contracts.RuntimeGuard.{
  Guard, Sdk, ExecutionMetrics, hash_call, log_capped, capped, execute_guarded,
  execute_with_monitoring, monitored_call, validate_function_name, pre_execution_guards,
  post_execution_guards, log_execution, record_metrics, record_guard_failure, simulate_wrapped_call,
  expected_arg_count,
}

pub length-drop {ℓ} : {A : Type ℓ} (n : ℕ) (xs : List A) → length (drop n xs) ≡ length xs - n
length-drop zero xs = omega arith
length-drop (suc n) [] = omega arith
length-drop (suc n) (x ∷ xs) = omega (arith, length-drop n xs)

abbrev pub metrics_of : Sdk → Env → String → ExecutionMetrics
metrics_of sdk env f = record {
  call_hash = hash_call (sdk.payload (sdk.symbol_val f)) env.timestamp;
  success = true;
  timestamp = env.timestamp;
  gas_used = 0;
}

-- What a guarded call that ends well has checked and recorded.
pub record Executed (sdk : Sdk) (env : Env) (f : String) (args : List Val) (r : Val) (g g' : Guard)
    : Type 0 where
  pub wraps : is_some g.wrapped_contract ≡ true
  pub named : sdk.payload (sdk.symbol_val f) ≢ 0
  pub arity : expected_arg_count f ≡ some (length args)
  pub answered : simulate_wrapped_call sdk f args ≡ ok r
  pub logged : g'.call_log ≡ some (log_capped (unwrap_or g.call_log [] ++ f ∷ []))
  pub measured :
      g'.execution_metrics
      ≡ some (capped 1_000 (unwrap_or g.execution_metrics [] ++ metrics_of sdk env f ∷ []))
  pub checked : g'.invariants_checked ≡ some (saturating_suc (unwrap_or g.invariants_checked 0))
  pub failures : g'.guard_failures ≡ g.guard_failures
  pub same_contract : g'.wrapped_contract ≡ g.wrapped_contract
  pub same_version : g'.version ≡ g.version

pair_of : {A B : Type 0} (p : A × B) {a : A} → p.0 ≡ a → p ≡ (a, p.1)
pair_of p e = ap (λ a. (a, p.1)) e

module _ (sdk : Sdk) (env : Env) (f : String) (args : List Val) (r : Val) (g g' : Guard) where
  pub execute_guarded-Executed :
      execute_guarded sdk env f args g ≡ (ok r, g') → Executed sdk env f args r g g'
  unfolding execute_guarded execute_with_monitoring monitored_call validate_function_name
      pre_execution_guards post_execution_guards log_execution record_metrics record_guard_failure
  execute_guarded-Executed e = elim (Option-cases (expected_arg_count f)) [
    | inl missing ↦ absurd (ground arith)
    | inr (count, known) ↦ elim (result_cases (simulate_wrapped_call sdk f args)) [
      | inr (x, failed) ↦ absurd (ground arith)
      | inl (v, answered) ↦ record {
        wraps = ground arith;
        named = ground arith;
        arity = ground arith;
        answered = ground arith;
        logged = ground arith;
        measured = ground arith;
        checked = ground arith;
        failures = ground arith;
        same_contract = ground arith;
        same_version = ground arith;
      }
    ]
  ]

module _ (sdk : Sdk) (env : Env) (f : String) (args : List Val) (r : Val) (g : Guard) where
  -- A guarded call ends well exactly when the wrapper is set up, the name has a payload, the function
  -- is known and gets as many arguments as it takes, and the answer can be computed; that answer is
  -- the result.
  pub execute_guarded-answers : ((execute_guarded sdk env f args g).0 ≡ ok r) ↔ (
      (is_some g.wrapped_contract ≡ true)
      × (sdk.payload (sdk.symbol_val f) ≢ 0)
      × (expected_arg_count f ≡ some (length args))
      × (simulate_wrapped_call sdk f args ≡ ok r))
  unfolding execute_guarded execute_with_monitoring monitored_call validate_function_name
      pre_execution_guards post_execution_guards log_execution record_metrics record_guard_failure
  execute_guarded-answers = (
    λ e.
        let x =
          execute_guarded-Executed sdk env f args r g (execute_guarded sdk env f args g).1
            (pair_of (execute_guarded sdk env f args g) e) in
        (x.wraps, x.named, x.arity, x.answered),
    λ (wraps, named, arity, answered). ground arith,
  )
