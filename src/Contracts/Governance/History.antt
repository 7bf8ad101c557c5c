-- ===== src/Contracts/Governance/History.antt =====
-- Any sequence of calls of the governor of contracts/governance/src/lib.rs.
use Prim.Native.String.{String}
use sanctifier.Base.{
  ℕ, ◌≡◌, ◌≢◌, refl, true, Option, none, some, Option-cases, inl, inr, List, [], ◌∷◌, arith,
}
use sanctifier.Host.{Address, Val, Env, ok, commit, commit-keeps}
use sanctifier.Contracts.Governance
use sanctifier.Contracts.Governance.{Event, Governor, Proposal, World, GovernanceConfig}
use sanctifier.Contracts.Governance.Tallies.{IsNoVote}
use sanctifier.Contracts.Governance.Votes.{
  IsCounted, cast_vote-Cast, tally-executed, init-IsCounted, propose-IsCounted, cast_vote-IsCounted,
  moved-IsCounted,
}
use sanctifier.Contracts.Governance.Execution.{queue-Moved, execute-Moved, execute-executed}

-- A call of an entry point that writes.
pub data Call : Type 0 where
  init : GovernanceConfig → Call
  propose : Address → List Address → List String → List (List Val) → String → Call
  cast_vote : Address → ℕ → ℕ → Call
  queue execute : ℕ → Call

module _ (world : World) where
  -- The governor after a call that finds the other contracts in the state `s`.
  unfoldable pub apply : Env → world.State → Call → Governor → Governor
  apply env s (Call.init config) g = commit g (Governance.init config g)
  apply env s (Call.propose a ts fs vs d) g =
      commit g (Governance.propose world env s a ts fs vs d g)
  apply env s (Call.cast_vote v id k) g = commit g (Governance.cast_vote world env s v id k g)
  apply env s (Call.queue id) g = (commit (s, g) (Governance.queue world env id (s, g))).1
  apply env s (Call.execute id) g = (commit (s, g) (Governance.execute world env id (s, g))).1

  unfoldable pub run : List (Env × (world.State × Call)) → Governor → Governor
  run [] g = g
  run ((env, (s, call)) ∷ calls) g = run calls (apply env s call g)

  queue-IsCounted :
      (env : Env) (id : ℕ) (s s' : world.State) (g g' : Governor)
      → IsCounted g
      → Governance.queue world env id (s, g) ≡ ok (tt, (s', g'))
      → IsCounted g'
  unfolding IsNoVote
  queue-IsCounted env id s s' g g' c e =
      let (p, m) = queue-Moved world env id s s' g g' e in
      moved-IsCounted g g' c id p (record p { queued = true }) (Event.queued id) tt m.found m.stored
        m.others m.recorded m.emitted m.latest m.configured (refl, refl, refl)

  execute-IsCounted :
      (env : Env) (id : ℕ) (s s' : world.State) (g g' : Governor)
      → IsCounted g
      → Governance.execute world env id (s, g) ≡ ok (tt, (s', g'))
      → IsCounted g'
  unfolding IsNoVote
  execute-IsCounted env id s s' g g' c e =
      let (p, m) = execute-Moved world env id s s' g g' e in
      moved-IsCounted g g' c id p (record p { executed = true }) (Event.executed id) tt m.found
        m.stored m.others m.recorded m.emitted m.latest m.configured (refl, refl, refl)

  apply-IsCounted :
      (env : Env) (s : world.State) (call : Call) (g : Governor)
      → IsCounted g
      → IsCounted (apply env s call g)
  unfolding apply
  apply-IsCounted env s (Call.init config) g c =
      commit-keeps IsCounted g (Governance.init config g) c (λ a g'. init-IsCounted g g' c config)
  apply-IsCounted env s (Call.propose a ts fs vs d) g c =
      commit-keeps IsCounted g (Governance.propose world env s a ts fs vs d g) c
        (λ id g'. propose-IsCounted g g' c world env s a ts fs vs d id)
  apply-IsCounted env s (Call.cast_vote v id k) g c =
      commit-keeps IsCounted g (Governance.cast_vote world env s v id k g) c
        (λ w g'. cast_vote-IsCounted g g' c world env s v id k w)
  apply-IsCounted env s (Call.queue id) g c =
      commit-keeps (λ sg. IsCounted sg.1) (s, g) (Governance.queue world env id (s, g)) c
        (λ u (s', g'). queue-IsCounted env id s s' g g' c)
  apply-IsCounted env s (Call.execute id) g c =
      commit-keeps (λ sg. IsCounted sg.1) (s, g) (Governance.execute world env id (s, g)) c
        (λ u (s', g'). execute-IsCounted env id s s' g g' c)

  -- After any sequence of calls, each tally of a stored proposal is the sum of the weights of the
  -- votes that were cast so on it, no voter has more than one vote on a proposal, and no proposal is
  -- stored beyond the latest id; if so before.
  pub run-IsCounted :
      (calls : List (Env × (world.State × Call))) (g : Governor)
      → IsCounted g
      → IsCounted (run calls g)
  unfolding run
  run-IsCounted [] g c = c
  run-IsCounted ((env, (s, call)) ∷ calls) g c =
      run-IsCounted calls (apply env s call g) (apply-IsCounted env s call g c)

-- The proposal is stored, and executed.
IsExecuted : Option Proposal → Type 0
IsExecuted none = ⊥
IsExecuted (some p) = p.executed ≡ true

module _ (world : World) (id : ℕ) where
  propose-IsExecuted :
      (env : Env) (s : world.State) (a : Address) (ts : List Address) (fs : List String)
      (vs : List (List Val)) (d : String) (r : ℕ) (g g' : Governor)
      → IsCounted g
      → IsExecuted (g.proposal id)
      → Governance.propose world env s a ts fs vs d g ≡ ok (r, g')
      → IsExecuted (g'.proposal id)
  unfolding Governance.propose IsExecuted
  propose-IsExecuted env s a ts fs vs d r g g' c x e = ground (arith, c.fresh id)

  init-IsExecuted :
      (config : GovernanceConfig) (g g' : Governor)
      → IsExecuted (g.proposal id)
      → Governance.init config g ≡ ok (tt, g')
      → IsExecuted (g'.proposal id)
  unfolding Governance.init
  init-IsExecuted config g g' x e = ground arith

  apply-IsExecuted :
      (env : Env) (s : world.State) (call : Call) (g : Governor)
      → IsCounted g
      → IsExecuted (g.proposal id)
      → IsExecuted ((apply world env s call g).proposal id)
  unfolding apply IsExecuted
  apply-IsExecuted env s (Call.init config) g c x =
      commit-keeps (λ g. IsExecuted (g.proposal id)) g (Governance.init config g) x
        (λ u g'. init-IsExecuted config g g' x)
  apply-IsExecuted env s (Call.propose a ts fs vs d) g c x =
      commit-keeps (λ g. IsExecuted (g.proposal id)) g
        (Governance.propose world env s a ts fs vs d g) x
        (λ r g'. propose-IsExecuted env s a ts fs vs d r g g' c x)
  apply-IsExecuted env s (Call.cast_vote v j k) g c x =
      commit-keeps (λ g. IsExecuted (g.proposal id)) g (Governance.cast_vote world env s v j k g) x
        (λ w g' e.
          let y = cast_vote-Cast world env s v j k w g g' e in
          ground (
            arith,
            y.found,
            y.stored,
            y.others id,
            tally-executed world k w y.before y.after y.tallied,
          ))
  apply-IsExecuted env s (Call.queue j) g c x =
      commit-keeps (λ sg. IsExecuted (sg.1.proposal id)) (s, g)
        (Governance.queue world env j (s, g)) x
        (λ u (s', g') e.
          let (p, m) = queue-Moved world env j s s' g g' e in
          ground (arith, m.found, m.stored, m.others id))
  apply-IsExecuted env s (Call.execute j) g c x =
      commit-keeps (λ sg. IsExecuted (sg.1.proposal id)) (s, g)
        (Governance.execute world env j (s, g)) x
        (λ u (s', g') e.
          let (p, m) = execute-Moved world env j s s' g g' e in
          ground (arith, m.found, m.stored, m.others id))

  run-IsExecuted :
      (calls : List (Env × (world.State × Call))) (g : Governor)
      → IsCounted g
      → IsExecuted (g.proposal id)
      → IsExecuted ((run world calls g).proposal id)
  unfolding run
  run-IsExecuted [] g c x = x
  run-IsExecuted ((env, (s, call)) ∷ calls) g c x =
      run-IsExecuted calls (apply world env s call g) (apply-IsCounted world env s call g c)
        (apply-IsExecuted env s call g c x)

module _ (world : World) (env env' : Env) (id : ℕ) where
  -- Whatever is called after a proposal of a counted governor has been executed, it is not executed
  -- again.
  pub execute-single :
      (s s' t t' : world.State) (g g' g'' : Governor) (calls : List (Env × (world.State × Call)))
      → IsCounted g
      → Governance.execute world env id (s, g) ≡ ok (tt, (s', g'))
      → Governance.execute world env' id (t, run world calls g') ≢ ok (tt, (t', g''))
  unfolding IsExecuted
  execute-single s s' t t' g g' g'' calls c e again =
      let (p, m) = execute-Moved world env id s s' g g' e in
      let done : IsExecuted (g'.proposal id) = ground (arith, m.stored) in
      let after : IsCounted g' = execute-IsCounted world env id s s' g g' c e in
      let h = run-IsExecuted world id calls g' after done in
      elim (Option-cases ((run world calls g').proposal id)) [
        | inl missing ↦ absurd (ground arith)
        | inr (q, found) ↦
            execute-executed world env' id t t' (run world calls g') g'' q found (ground arith)
              again
      ]
