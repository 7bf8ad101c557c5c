-- ===== src/Contracts/RuntimeGuard/History.antt =====
-- Any sequence of calls of the wrapper of contracts/runtime-guard-wrapper/src/lib.rs.
use Prim.Native.String.{String}
use sanctifier.Base.{
  ◌-◌, ◌≤◌, ◌≡◌, refl, true, false, List, [], ◌∷◌, ◌++◌, length, length-append, arith,
}
use sanctifier.Base.Results.{Result, ok, err}
use sanctifier.Host.{Address, Val, Env, unwrap_or, is_some}
use sanctifier.Contracts.RuntimeGuard
use sanctifier.Contracts.RuntimeGuard.{
  Guard, Sdk, ExecutionMetrics, RuntimeGuardError, log_capped, capped, health_check, get_stats,
}
use sanctifier.Contracts.RuntimeGuard.Steps.{length-drop, metrics_of, execute_guarded-Executed}

-- A call of an entry point that writes.
pub data Call : Type 0 where
  init : Address → Call
  execute_guarded : String → List Val → Call

-- The host rolls a call back that returns an error.
abbrev pub settle : {A : Type 0} → Guard → Result RuntimeGuardError A × Guard → Guard
settle g (ok a, g') = g'
settle g (err e, g') = g

unfoldable pub apply : Sdk → Env → Call → Guard → Guard
apply sdk env (Call.init wrapped) g = settle g (RuntimeGuard.init wrapped g)
apply sdk env (Call.execute_guarded f args) g =
    settle g (RuntimeGuard.execute_guarded sdk env f args g)

unfoldable pub run : Sdk → List (Env × Call) → Guard → Guard
run sdk [] g = g
run sdk ((env, call) ∷ calls) g = run sdk calls (apply sdk env call g)

settle-keeps :
    {A : Type 0} (P : Guard → Type 0) (g : Guard) (m : Result RuntimeGuardError A × Guard)
    → P g
    → ((a : A) (g' : Guard) → m ≡ (ok a, g') → P g')
    → P (settle g m)
settle-keeps P g (ok a, g') h k = k a g' refl
settle-keeps P g (err e, g') h k = h

-- The sizes of the stored lists; no guard failure is stored.
pub record IsBounded (g : Guard) : Type 0 where
  pub log : length (unwrap_or g.call_log []) ≤ 100
  pub metrics : length (unwrap_or g.execution_metrics []) ≤ 1_000
  pub failures : length (unwrap_or g.guard_failures []) ≡ 0

module _ (sdk : Sdk) where
  init-IsBounded :
      (wrapped : Address) (u : Unit {0}) (g g' : Guard)
      → IsBounded g
      → RuntimeGuard.init wrapped g ≡ (ok u, g')
      → IsBounded g'
  unfolding RuntimeGuard.init
  init-IsBounded wrapped u g g' b e = record {
    log = ground (arith, b.log);
    metrics = ground (arith, b.metrics);
    failures = ground (arith, b.failures);
  }

  execute_guarded-IsBounded :
      (env : Env) (f : String) (args : List Val) (r : Val) (g g' : Guard)
      → IsBounded g
      → RuntimeGuard.execute_guarded sdk env f args g ≡ (ok r, g')
      → IsBounded g'
  execute_guarded-IsBounded env f args r g g' b e =
      let x = execute_guarded-Executed sdk env f args r g g' e in
      let log = unwrap_or g.call_log [] in
      let metrics = unwrap_or g.execution_metrics [] in
      let m = metrics_of sdk env f in
      record {
        log =
            ground
              (arith, b.log, x.logged, length-append log (f ∷ []), length-drop 1 (log ++ f ∷ []));
        metrics = ground (
          arith,
          b.metrics,
          x.measured,
          length-append metrics (m ∷ []),
          length-drop (length (metrics ++ m ∷ []) - 1_000) (metrics ++ m ∷ []),
        );
        failures = ground (arith, b.failures, x.failures);
      }

  apply-IsBounded :
      (env : Env) (call : Call) (g : Guard) → IsBounded g → IsBounded (apply sdk env call g)
  unfolding apply
  apply-IsBounded env (Call.init wrapped) g b =
      settle-keeps IsBounded g (RuntimeGuard.init wrapped g) b
        (λ u g'. init-IsBounded wrapped u g g' b)
  apply-IsBounded env (Call.execute_guarded f args) g b =
      settle-keeps IsBounded g (RuntimeGuard.execute_guarded sdk env f args g) b
        (λ r g'. execute_guarded-IsBounded env f args r g g' b)

  run-IsBounded :
      (calls : List (Env × Call)) (g : Guard) → IsBounded g → IsBounded (run sdk calls g)
  unfolding run
  run-IsBounded [] g b = b
  run-IsBounded ((env, call) ∷ calls) g b =
      run-IsBounded calls (apply sdk env call g) (apply-IsBounded env call g b)

  -- After any sequence of calls on a bounded wrapper the log has at most 100 entries and the metrics
  -- at most 1000, and the statistics never count a guard failure: the call that would record one
  -- ends with an error, and is rolled back.
  pub run-stats :
      (calls : List (Env × Call)) (g : Guard)
      → IsBounded g
      → IsBounded (run sdk calls g) × ((get_stats (run sdk calls g)).2 ≡ 0)
  unfolding get_stats
  run-stats calls g b = let c = run-IsBounded calls g b in (c, c.failures)

-- The log has reached the limit of the health check.
record IsFull (g : Guard) : Type 0 where
  set_up : is_some g.wrapped_contract ≡ true
  full : 64 ≤ length (unwrap_or g.call_log [])

module _ (sdk : Sdk) where
  init-IsFull :
      (wrapped : Address) (u : Unit {0}) (g g' : Guard)
      → IsFull g
      → RuntimeGuard.init wrapped g ≡ (ok u, g')
      → IsFull g'
  unfolding RuntimeGuard.init
  init-IsFull wrapped u g g' b e = record {
    set_up = ground (arith, b.set_up);
    full = ground (arith, b.full, b.set_up);
  }

  execute_guarded-IsFull :
      (env : Env) (f : String) (args : List Val) (r : Val) (g g' : Guard)
      → IsFull g
      → RuntimeGuard.execute_guarded sdk env f args g ≡ (ok r, g')
      → IsFull g'
  execute_guarded-IsFull env f args r g g' b e =
      let x = execute_guarded-Executed sdk env f args r g g' e in
      let log = unwrap_or g.call_log [] in
      record {
        set_up = ground (arith, b.set_up, x.same_contract);
        full =
            ground
              (arith, b.full, x.logged, length-append log (f ∷ []), length-drop 1 (log ++ f ∷ []));
      }

  apply-IsFull : (env : Env) (call : Call) (g : Guard) → IsFull g → IsFull (apply sdk env call g)
  unfolding apply
  apply-IsFull env (Call.init wrapped) g b =
      settle-keeps IsFull g (RuntimeGuard.init wrapped g) b (λ u g'. init-IsFull wrapped u g g' b)
  apply-IsFull env (Call.execute_guarded f args) g b =
      settle-keeps IsFull g (RuntimeGuard.execute_guarded sdk env f args g) b
        (λ r g'. execute_guarded-IsFull env f args r g g' b)

  run-IsFull : (calls : List (Env × Call)) (g : Guard) → IsFull g → IsFull (run sdk calls g)
  unfolding run
  run-IsFull [] g b = b
  run-IsFull ((env, call) ∷ calls) g b =
      run-IsFull calls (apply sdk env call g) (apply-IsFull env call g b)

  -- Once an initialised wrapper has logged 64 calls, its health check fails for good, whatever calls
  -- follow.
  pub run-unhealthy :
      (calls : List (Env × Call)) (g : Guard)
      → is_some g.wrapped_contract ≡ true
      → 64 ≤ length (unwrap_or g.call_log [])
      → health_check (run sdk calls g) ≡ false
  unfolding health_check
  run-unhealthy calls g set_up full =
      let b = run-IsFull calls g (record { set_up = set_up; full = full }) in ground (arith, b.full)
