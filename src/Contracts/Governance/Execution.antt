-- ===== src/Contracts/Governance/Execution.antt =====
-- Queueing and execution in contracts/governance/src/lib.rs.
use sanctifier.Base.{
  ℕ, ◌<◌, ◌≡◌, ◌≢◌, refl, true, false, some, [], ◌∷◌, arith, Option-cases, inl, inr, ◌⊎◌, ◌++◌,
}
use sanctifier.Base.Int.{ℤ, pos}
use sanctifier.Host.{outcome_cases, Env, ok}
use sanctifier.Contracts.Governance
use sanctifier.Contracts.Governance.{
  Event, Error, Governor, Proposal, ProposalState, World, GovernanceConfig, add_i128, verdict,
  is_queued, is_succeeded, basis_points,
}
use sanctifier.Contracts.Governance.Verdict.{IsCarried, Steps-IsCarried, verdict-Steps, queued_flag}

-- The vote on a proposal that is neither executed nor cancelled has ended.
pub record IsClosed (env : Env) (p : Proposal) : Type 0 where
  pub live : p.executed ≡ false
  pub standing : p.canceled ≡ false
  pub ended : p.end_time < env.timestamp

module _ (world : World) (env : Env) (id : ℕ) where
  -- A proposal whose state is `Succeeded` or `Queued`.
  record Passed (s : world.State) (g : Governor) (p : Proposal) (st : ProposalState) : Type 0 where
    config : GovernanceConfig
    supply : ℤ
    found : g.proposal id ≡ some p
    closed : IsClosed env p
    configured : g.config ≡ some config
    supplied : world.total_supply config.token s ≡ some supply
    judged : verdict world config supply p ≡ ok st

  state-Passed :
      (s : world.State) (g : Governor) (p : Proposal) (st : ProposalState)
      → g.proposal id ≡ some p
      → Governance.state world env s id g ≡ ok st
      → (is_succeeded world st ≡ true) ⊎ (is_queued world st ≡ true)
      → Passed s g p st
  unfolding Governance.state
  state-Passed s g p st found e passed = elim (Option-cases g.config) [
    | inl missing ↦ absurd (ground arith)
    | inr (config, set) ↦ elim (Option-cases (world.total_supply config.token s)) [
      | inl missing ↦ absurd (ground arith)
      | inr (supply, answered) ↦ record {
        config = config;
        supply = supply;
        found = found;
        closed = record { live = ground arith; standing = ground arith; ended = ground arith };
        configured = set;
        supplied = answered;
        judged = ground arith;
      }
    ]
  ]

  -- What `queue` and `execute` have checked and written: the proposal with its flag set.
  pub record Moved (st : ProposalState) (p p' : Proposal) (event : Event) (s : world.State)
      (g g' : Governor) : Type 0 where
    pub found : g.proposal id ≡ some p
    pub was : Governance.state world env s id g ≡ ok st
    pub stored : g'.proposal id ≡ some p'
    pub others : (j : ℕ) → j ≢ id → g'.proposal j ≡ g.proposal j
    pub recorded : g'.votes ≡ g.votes
    pub emitted : g'.events ≡ g.events ++ event ∷ []
    pub latest : g'.latest_id ≡ g.latest_id
    pub configured : g'.config ≡ g.config

  pub queue-Moved :
      (s s' : world.State) (g g' : Governor)
      → Governance.queue world env id (s, g) ≡ ok (tt, (s', g'))
      → (p : Proposal) × Moved ProposalState.succeeded p
          (record p { queued = true })
          (Event.queued id)
          s
          g
          g'
  unfolding Governance.queue
  queue-Moved s s' g g' e = elim (Option-cases (g.proposal id)) [
    | inl missing ↦ absurd (ground arith)
    | inr (p, found) ↦ elim (outcome_cases (Governance.state world env s id g)) [
      | inr stopped ↦ absurd (ground arith)
      | inl (st, was) ↦ (
        p,
        record {
          found = found;
          was = ground arith;
          stored = ground arith;
          others = λ j d. ground arith;
          recorded = ground arith;
          emitted = ground arith;
          latest = ground arith;
          configured = ground arith;
        },
      )
    ]
  ]

  pub execute-Moved :
      (s s' : world.State) (g g' : Governor)
      → Governance.execute world env id (s, g) ≡ ok (tt, (s', g'))
      → (p : Proposal) × Moved ProposalState.queued p
          (record p { executed = true })
          (Event.executed id)
          s
          g
          g'
  unfolding Governance.execute
  execute-Moved s s' g g' e = elim (Option-cases (g.proposal id)) [
    | inl missing ↦ absurd (ground arith)
    | inr (p, found) ↦ elim (outcome_cases (Governance.state world env s id g)) [
      | inr stopped ↦ absurd (ground arith)
      | inl (st, was) ↦ (
        p,
        record {
          found = found;
          was = ground arith;
          stored = ground arith;
          others = λ j d. ground arith;
          recorded = ground arith;
          emitted = ground arith;
          latest = ground arith;
          configured = ground arith;
        },
      )
    ]
  ]

  -- An executed proposal is in no other state.
  pub execute-executed :
      (s s' : world.State) (g g' : Governor) (p : Proposal)
      → g.proposal id ≡ some p
      → p.executed ≡ true
      → Governance.execute world env id (s, g) ≢ ok (tt, (s', g'))
  unfolding Governance.execute Governance.state
  execute-executed s s' g g' p found done e = ground arith

module _ (world : World) (env : Env) (id : ℕ) (s : world.State) (g : Governor) (p : Proposal)
    (config : GovernanceConfig) (supply f a b : ℕ) where
  carried :
      (st : ProposalState)
      → g.config ≡ some config
      → world.total_supply config.token s ≡ some (pos supply)
      → p.for_votes ≡ pos f
      → p.against_votes ≡ pos a
      → p.abstain_votes ≡ pos b
      → st ≢ ProposalState.defeated
      → Passed world env id s g p st
      → IsCarried config supply f a b
  carried st set supplied ef ea eb n x =
      let same : x.config ≡ config = ground (arith, x.configured) in
      let supplies : x.supply ≡ pos supply = ground (arith, x.supplied, supplied, same) in
      Steps-IsCarried config supply f a b p ef ea eb
        (verdict-Steps world config (pos supply) p st (rw (same, supplies) at x.judged) n)

  module _ (set : g.config ≡ some config)
      (supplied : world.total_supply config.token s ≡ some (pos supply))
      (found : g.proposal id ≡ some p) (ef : p.for_votes ≡ pos f) (ea : p.against_votes ≡ pos a)
      (eb : p.abstain_votes ≡ pos b) where
    -- A proposal with non-negative tallies is queued only when its vote has ended, it is neither
    -- executed nor cancelled, the turnout reaches the quorum of the current supply, and the votes in
    -- favour reach the threshold of those for and against.
    pub queue-IsCarried :
        (s' : world.State) (g' : Governor)
        → Governance.queue world env id (s, g) ≡ ok (tt, (s', g'))
        → IsClosed env p × IsCarried config supply f a b
    queue-IsCarried s' g' e =
        let (q, m) = queue-Moved world env id s s' g g' e in
        let x = state-Passed world env id s g p ProposalState.succeeded found m.was (inl refl) in
        (x.closed, carried ProposalState.succeeded set supplied ef ea eb (λ z. ground arith) x)

    -- The same holds of a proposal with non-negative tallies when it is executed, and the proposal
    -- has been queued.
    pub execute-IsCarried :
        (s' : world.State) (g' : Governor)
        → Governance.execute world env id (s, g) ≡ ok (tt, (s', g'))
        → IsClosed env p × IsCarried config supply f a b × (p.queued ≡ true)
    execute-IsCarried s' g' e =
        let (q, m) = execute-Moved world env id s s' g g' e in
        let x = state-Passed world env id s g p ProposalState.queued found m.was (inr refl) in
        (
          x.closed,
          carried ProposalState.queued set supplied ef ea eb (λ z. ground arith) x,
          queued_flag world x.config x.supply p x.judged,
        )
