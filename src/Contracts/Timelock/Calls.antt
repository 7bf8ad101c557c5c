-- ===== src/Contracts/Timelock/Calls.antt =====
-- Sequences of calls of contracts/timelock/src/lib.rs, and what each call has checked.
use Prim.Native.String.{String}
use sanctifier.Base.{
  ℕ, ◌+◌, ◌≤◌, ◌<◌, ◌≡◌, ◌≢◌, Bool, true, none, some, List, [], ◌∷◌, arith, Option-cases, inl, inr,
}
use sanctifier.Host.{Address, Val, Env, ok, commit, u64_bound}
use sanctifier.Contracts.Timelock
use sanctifier.Contracts.Timelock.{
  Controller, Sdk, Digest, TimelockError, is_proposer, is_executor, get_min_delay, compute_hash,
}

-- A call of an entry point that writes.
pub data Call : Type 0 where
  init : Address → ℕ → List Address → List Address → Call
  set_proposer set_executor set_canceller : Address → Address → Bool → Call
  update_delay : Address → ℕ → Call
  schedule : Address → Address → String → List Val → ℕ → ℕ → Call
  execute : Address → Address → String → List Val → ℕ → Call
  cancel : Address → Digest → Call

unfoldable pub apply : Sdk → Env → Call → Controller → Controller
apply sdk env (Call.init a d ps es) c = commit c (Timelock.init a d ps es c)
apply sdk env (Call.set_proposer a x b) c = commit c (Timelock.set_proposer env a x b c)
apply sdk env (Call.set_executor a x b) c = commit c (Timelock.set_executor env a x b c)
apply sdk env (Call.set_canceller a x b) c = commit c (Timelock.set_canceller env a x b c)
apply sdk env (Call.update_delay a d) c = commit c (Timelock.update_delay env a d c)
apply sdk env (Call.schedule p target f args salt d) c =
    commit c (Timelock.schedule sdk env p target f args salt d c)
apply sdk env (Call.execute x target f args salt) c =
    commit c (Timelock.execute sdk env x target f args salt c)
apply sdk env (Call.cancel x h) c = commit c (Timelock.cancel env x h c)

unfoldable pub run : Sdk → List (Env × Call) → Controller → Controller
run sdk [] c = c
run sdk ((env, call) ∷ calls) c = run sdk calls (apply sdk env call c)

-- What `schedule` has checked, and the operation that it has stored.
pub record Scheduled (env : Env) (proposer : Address) (delay : ℕ) (h : Digest) (c c' : Controller)
    : Type 0 where
  pub authorised : env.authorised proposer ≡ true
  pub role : is_proposer proposer c ≡ true
  pub long_enough : get_min_delay c ≤ delay
  pub fits : env.timestamp + delay < u64_bound
  pub new : c.operation h ≡ none
  pub stored : c'.operation h ≡ some (env.timestamp + delay)
  pub others : (k : Digest) → k ≢ h → c'.operation k ≡ c.operation k

-- What `execute` has checked, and that it has removed the operation.
pub record Executed (env : Env) (executor : Address) (h : Digest) (c c' : Controller) : Type 0 where
  pub authorised : env.authorised executor ≡ true
  pub role : is_executor executor c ≡ true
  pub ready : ℕ
  pub stored : c.operation h ≡ some ready
  pub due : ready ≤ env.timestamp
  pub removed : c'.operation h ≡ none
  pub others : (k : Digest) → k ≢ h → c'.operation k ≡ c.operation k

module _ (sdk : Sdk) (env : Env) (a target : Address) (f : String) (args : List Val) (salt : ℕ)
    (c c' : Controller) where
  -- A call of `schedule` that ends was authorised by a proposer, with a delay of at least the
  -- minimum, for an operation that was not pending; it stores the time at which the operation is
  -- ready, and returns its digest.
  pub schedule-Scheduled :
      (delay : ℕ) (r : Digest)
      → Timelock.schedule sdk env a target f args salt delay c ≡ ok (r, c')
      → (r ≡ compute_hash sdk target f args salt) × Scheduled env a delay r c c'
  unfolding Timelock.schedule
  schedule-Scheduled delay r e = (
    ground arith,
    record {
      authorised = ground arith;
      role = ground arith;
      long_enough = ground arith;
      fits = ground arith;
      new = ground arith;
      stored = ground arith;
      others = λ k ne. ground arith;
    },
  )

  -- A call of `execute` that ends was authorised by an executor, for a pending operation whose time
  -- had come; the operation is then no longer pending, so it cannot be executed a second time.
  pub execute-Executed :
      (r : Val)
      → Timelock.execute sdk env a target f args salt c ≡ ok (r, c')
      → Executed env a (compute_hash sdk target f args salt) c c'
  unfolding Timelock.execute
  execute-Executed r e = elim (Option-cases (c.operation (compute_hash sdk target f args salt))) [
    | inl unknown ↦ absurd (ground arith)
    | inr (t, et) ↦ record {
      authorised = ground arith;
      role = ground arith;
      ready = t;
      stored = et;
      due = ground arith;
      removed = ground arith;
      others = λ k ne. ground arith;
    }
  ]
