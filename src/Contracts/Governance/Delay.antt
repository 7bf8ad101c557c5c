-- ===== src/Contracts/Governance/Delay.antt =====
-- The governor of contracts/governance/src/lib.rs over the controller of contracts/timelock/src/lib.rs.
use Prim.Native.String.{String}
use sanctifier.Base.{
  ℕ, ◌+◌, ◌≤◌, ◌≡◌, ◌≢◌, sym, ap, true, Option, none, some, List, [], ◌∷◌, arith, ◌==◌,
  if◌then◌else◌, Option-cases, inl, inr,
}
use sanctifier.Base.Int.{ℤ}
use sanctifier.Host.{Address, Val, Env, Outcome, ok, panic, trap, commit}
use sanctifier.Contracts.Governance
use sanctifier.Contracts.Governance.{World, Governor, Proposal, for_each_call}
use sanctifier.Contracts.Timelock
use sanctifier.Contracts.Timelock.{Controller, Sdk, get_min_delay}
use sanctifier.Contracts.Timelock.Calls.{Call, apply, run, schedule-Scheduled}
use sanctifier.Contracts.Timelock.Delay.{AllLate, execute-after_delay}

-- The environment of a call that the contract `self` makes: it has authorised the call itself.
abbrev pub invoked_by : Address → Env → Env
invoked_by self env = record env { authorised = λ a. if a == self then true else env.authorised a }

-- The storage after a call of the controller that ends.
abbrev pub after_call : {E A : Type 0} → Outcome E (A × Controller) → Option Controller
after_call (ok (a, c)) = some c
after_call (panic e) = none
after_call (trap t) = none

-- The world of a governor whose timelock is the controller, and whose token answers from a table.
abbrev pub controlled : Sdk → (Address → Option ℤ) → Option ℤ → (String → ℕ) → World
controlled sdk balances supply salt = record {
  State = Controller;
  balance = λ token a c. balances a;
  total_supply = λ token c. supply;
  get_min_delay = λ timelock c. some (get_min_delay c);
  schedule = λ timelock env self t f a s d c.
      after_call (Timelock.schedule sdk (invoked_by self env) self t f a s d c);
  execute = λ timelock env self t f a s c.
      after_call (Timelock.execute sdk (invoked_by self env) self t f a s c);
  salt = salt;
}

module _ (world : World) (env : Env) (id : ℕ) (s s' : world.State) (g g' : Governor) (p : Proposal)
    (t : Address) (f : String) (a : List Val) (found : g.proposal id ≡ some p)
    (targets : p.targets ≡ t ∷ []) (functions : p.functions ≡ f ∷ []) (args : p.args ≡ a ∷ []) where
  -- The one call that queueing makes.
  queue_call :
      Governance.queue world env id (s, g) ≡ ok (tt, (s', g'))
      → (timelock : Address) × (d : ℕ) × (world.get_min_delay timelock s ≡ some d)
        × (world.schedule timelock env env.current_contract_address t f a
              (world.salt p.description)
              d
              s
            ≡ some s')
  unfolding Governance.queue for_each_call
  queue_call e = elim (Option-cases g.config) [
    | inl missing ↦ absurd (ground arith)
    | inr (config, set) ↦ elim (Option-cases (world.get_min_delay config.timelock s)) [
      | inl missing ↦ absurd (ground arith)
      | inr (d, min_delay) ↦ (config.timelock, d, min_delay, ground arith)
    ]
  ]

  -- The one call that execution makes.
  execute_call :
      Governance.execute world env id (s, g) ≡ ok (tt, (s', g'))
      → (timelock : Address) × (world.execute timelock env env.current_contract_address t f a
            (world.salt p.description)
            s
          ≡ some s')
  unfolding Governance.execute for_each_call
  execute_call e = elim (Option-cases g.config) [
    | inl missing ↦ absurd (ground arith)
    | inr (config, set) ↦ (config.timelock, ground arith)
  ]

after_call-ended :
    {E A : Type 0} (m : Outcome E (A × Controller)) (c : Controller)
    → after_call m ≡ some c
    → (r : A) × (m ≡ ok (r, c))
after_call-ended (ok (r, d)) c e = (r, ground arith)
after_call-ended (panic x) c e = absurd (ground arith)
after_call-ended (trap x) c e = absurd (ground arith)

module _ (sdk : Sdk) (env : Env) (target : Address) (f : String) (args : List Val) (salt : ℕ) where
  -- Between a call of `schedule` at some time and one of `execute`, the controller's minimum delay
  -- has passed.
  scheduled_waits :
      (env' : Env) (a x d k r : ℕ) (c c' c'' : Controller) (calls : List (Env × Call))
      → c.admin ≢ none
      → AllLate env.timestamp (get_min_delay c) calls
      → Timelock.schedule sdk env a target f args salt d c ≡ ok (k, c')
      → Timelock.execute sdk env' x target f args salt (run sdk calls c') ≡ ok (r, c'')
      → env.timestamp + get_min_delay c ≤ env'.timestamp
  unfolding apply run
  scheduled_waits env' a x d k r c c' c'' calls set late scheduling execution =
      let (eh, s) = schedule-Scheduled sdk env a target f args salt c c' d k scheduling in
      let here : commit c (Timelock.schedule sdk env a target f args salt d c) ≡ c' =
        ap (commit c) scheduling in
      let all = (env, Call.schedule a target f args salt d) ∷ calls in
      let moved : run sdk all c ≡ run sdk calls c' = ap (run sdk calls) here in
      execute-after_delay sdk env' x target f args salt env.timestamp (get_min_delay c) all c c'' r
        set (omega arith) (rw eh at s.new) (omega arith, late) (rw (sym moved) at execution)

module _ (sdk : Sdk) (balances : Address → Option ℤ) (supply : Option ℤ) (salt : String → ℕ) where
  -- A governor over an initialised timelock: a proposal with one target that is queued at some time
  -- is executed only after the timelock's minimum delay, whatever calls the timelock gets in
  -- between, as long as none sets a shorter delay.
  pub queue-execute_waits :
      (env env' : Env) (id : ℕ) (c c' c'' : Controller) (calls : List (Env × Call))
      (g g' h h' : Governor) (p : Proposal) (t : Address) (f : String) (a : List Val)
      → g.proposal id ≡ some p
      → h.proposal id ≡ some (record p { queued = true })
      → p.targets ≡ t ∷ []
      → p.functions ≡ f ∷ []
      → p.args ≡ a ∷ []
      → c.admin ≢ none
      → AllLate env.timestamp (get_min_delay c) calls
      → Governance.queue (controlled sdk balances supply salt) env id (c, g) ≡ ok (tt, (c', g'))
      → Governance.execute (controlled sdk balances supply salt) env' id (run sdk calls c', h)
        ≡ ok (tt, (c'', h'))
      → env.timestamp + get_min_delay c ≤ env'.timestamp
  queue-execute_waits env env' id c c' c'' calls g g' h h' p t f a found stored ts fs as' set late
        queueing execution =
      let world = controlled sdk balances supply salt in
      let (timelock, d, minimum, scheduling) =
        queue_call world env id c c' g g' p t f a found ts fs as' queueing in
      let (other, running) =
        execute_call world env' id (run sdk calls c') c'' h h' (record p { queued = true }) t f a
          stored ts fs as' execution in
      let self = env.current_contract_address in
      let self' = env'.current_contract_address in
      let s = salt p.description in
      let (k, ended) =
        after_call-ended (Timelock.schedule sdk (invoked_by self env) self t f a s d c) c'
          scheduling in
      let (r, done) =
        after_call-ended
          (Timelock.execute sdk (invoked_by self' env') self' t f a s (run sdk calls c')) c''
          running in
      scheduled_waits sdk (invoked_by self env) t f a s (invoked_by self' env') self self' d k r c
        c' c'' calls set late ended done
