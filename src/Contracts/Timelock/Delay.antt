-- ===== src/Contracts/Timelock/Delay.antt =====
-- The waiting time that contracts/timelock/src/lib.rs puts between scheduling and execution.
use Prim.Native.String.{String}
use sanctifier.Base.{ℕ, ◌+◌, ◌≤◌, ◌≡◌, ◌≢◌, true, none, some, List, [], ◌∷◌, arith}
use sanctifier.Host.{Address, Val, Env, ok}
use sanctifier.Contracts.Timelock
use sanctifier.Contracts.Timelock.{
  Controller, Sdk, Digest, is_executor, get_min_delay, compute_hash, Event, emit, set_operation,
}
use sanctifier.Contracts.Timelock.Calls.{Call, apply, run, schedule-Scheduled, execute-Executed}

-- The call is made at time `start` or later, and sets no delay below `delay`.
abbrev pub IsLate : ℕ → ℕ → Env × Call → Type 0
IsLate start delay (env, Call.update_delay a d) = (start ≤ env.timestamp) × (delay ≤ d)
IsLate start delay (env, call) = start ≤ env.timestamp

abbrev pub AllLate : ℕ → ℕ → List (Env × Call) → Type 0
AllLate start delay [] = Unit
AllLate start delay (c ∷ cs) = IsLate start delay c × AllLate start delay cs

-- The operation is pending for no time before `start + delay`.
record Waits (start delay : ℕ) (h : Digest) (c : Controller) : Type 0 where
  initialised : c.admin ≢ none
  minimum : delay ≤ get_min_delay c
  ready : (r : ℕ) → c.operation h ≡ some r → start + delay ≤ r

module _ (start delay : ℕ) (h : Digest) (sdk : Sdk) (env : Env) (c : Controller)
    (w : Waits start delay h c) where
  schedule-Waits :
      (p target : Address) (f : String) (args : List Val) (salt d : ℕ)
      → start ≤ env.timestamp
      → Waits start delay h (apply sdk env (Call.schedule p target f args salt d) c)
  unfolding apply Timelock.schedule
  schedule-Waits p target f args salt d late = record {
    initialised = ground (arith, w.initialised);
    minimum = ground (arith, w.minimum);
    ready = λ r e. ground (arith, w.ready r, w.minimum);
  }

  apply-Waits :
      (call : Call) → IsLate start delay (env, call) → Waits start delay h (apply sdk env call c)
  unfolding apply Timelock.init Timelock.set_proposer Timelock.set_executor Timelock.set_canceller
      Timelock.update_delay Timelock.execute Timelock.cancel
  apply-Waits (Call.schedule p target f args salt d) late =
      schedule-Waits p target f args salt d late
  apply-Waits _ late = record {
    initialised = ground (arith, w.initialised);
    minimum = ground (arith, w.minimum, w.initialised);
    ready = λ r e. ground (arith, w.ready r, w.initialised);
  }

run-Waits :
    (start delay : ℕ) (h : Digest) (sdk : Sdk) (calls : List (Env × Call)) (c : Controller)
    → AllLate start delay calls
    → Waits start delay h c
    → Waits start delay h (run sdk calls c)
unfolding run
run-Waits start delay h sdk [] c late w = w
run-Waits start delay h sdk ((env, call) ∷ calls) c late w =
    run-Waits start delay h sdk calls (apply sdk env call c) late.1
      (apply-Waits start delay h sdk env c w call late.0)

module _ (sdk : Sdk) (env : Env) (a target : Address) (f : String) (args : List Val)
    (salt : ℕ) where
  -- An operation that is not pending at some time can be executed only after the minimum delay has
  -- passed since then, whatever calls are made in between, as long as the admin sets no shorter delay.
  pub execute-after_delay :
      (start delay : ℕ) (calls : List (Env × Call)) (c c' : Controller) (r : Val)
      → c.admin ≢ none
      → delay ≤ get_min_delay c
      → c.operation (compute_hash sdk target f args salt) ≡ none
      → AllLate start delay calls
      → Timelock.execute sdk env a target f args salt (run sdk calls c) ≡ ok (r, c')
      → start + delay ≤ env.timestamp
  execute-after_delay start delay calls c c' r set minimum new late e =
      let h = compute_hash sdk target f args salt in
      let x = execute-Executed sdk env a target f args salt (run sdk calls c) c' r e in
      let w =
        run-Waits start delay h sdk calls c late
          (record { initialised = set; minimum = minimum; ready = λ t et. cc }) in
      omega (arith, w.ready x.ready x.stored, x.due)

  execute_ready :
      (x r t : ℕ) (c : Controller)
      → env.authorised x ≡ true
      → is_executor x c ≡ true
      → c.operation (compute_hash sdk target f args salt) ≡ some t
      → t ≤ env.timestamp
      → sdk.invoke_contract target f args ≡ some r
      → let h = compute_hash sdk target f args salt in
        Timelock.execute sdk env x target f args salt c
        ≡ ok (r, emit (Event.executed h target f) (set_operation h none c))
  unfolding Timelock.execute
  execute_ready x r t c granted role stored due answers = ground arith

  schedule_keeps_executors :
      (x delay h : ℕ) (c c' : Controller)
      → Timelock.schedule sdk env a target f args salt delay c ≡ ok (h, c')
      → is_executor x c ≡ true
      → is_executor x c' ≡ true
  unfolding Timelock.schedule
  schedule_keeps_executors x delay h c c' e role = ground arith

module _ (sdk : Sdk) (env : Env) (a target : Address) (f : String) (args : List Val)
    (salt : ℕ) where
  -- Once the delay has passed, a scheduled operation that is left alone is executed for any
  -- authorised executor, if its target answers.
  pub schedule-execute :
      (env' : Env) (x delay : ℕ) (h r : ℕ) (c c' : Controller)
      → Timelock.schedule sdk env a target f args salt delay c ≡ ok (h, c')
      → env'.authorised x ≡ true
      → is_executor x c ≡ true
      → env.timestamp + delay ≤ env'.timestamp
      → sdk.invoke_contract target f args ≡ some r
      → (c'' : Controller) × (Timelock.execute sdk env' x target f args salt c' ≡ ok (r, c''))
        × (c''.operation h ≡ none)
  schedule-execute env' x delay h r c c' e granted role due answers =
      let (eh, s) = schedule-Scheduled sdk env a target f args salt c c' delay h e in
      let k = compute_hash sdk target f args salt in
      let stored : c'.operation k ≡ some (env.timestamp + delay) = rw eh at s.stored in
      (
        emit (Event.executed k target f) (set_operation k none c'),
        execute_ready sdk env' a target f args salt x r (env.timestamp + delay) c' granted
            (schedule_keeps_executors sdk env a target f args salt x delay h c c' e role) stored due
            answers,
        ground arith,
      )
