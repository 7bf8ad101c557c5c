-- ===== src/Contracts/Governance/Votes.antt =====
-- The tallies of contracts/governance/src/lib.rs, against the votes that were cast.
use Prim.Native.String.{String}
use sanctifier.Base.{
  ℕ, zero, suc, ◌≤◌, ◌<◌, ◌≡◌, ◌≢◌, Bool, true, false, none, some, List, [], ◌∷◌, ◌++◌, arith, ◌==◌,
  if◌then◌else◌, Option-cases, inl, inr,
}
use sanctifier.Base.Int.{ℤ, pos, ◌+ℤ◌}
use sanctifier.Host.{outcome_cases, Val, Address, Env, ok, unwrap_or}
use sanctifier.Contracts.Governance
use sanctifier.Contracts.Governance.{
  Event, Governor, Proposal, World, add_i128, has_voted, tally, GovernanceConfig, init,
}
use sanctifier.Contracts.Governance.Tallies.{
  votes_by, sum_votes-append, votes_by-append, IsTallied, IsNoVote, votes_by-other, IsTallied-other,
}

abbrev pub indicator : Bool → ℕ
indicator true = 1
indicator false = 0

pub record IsCounted (g : Governor) : Type 0 where
  pub unstarted : g.config ≡ none → g.latest_id ≡ none
  pub fresh : (id : ℕ) → unwrap_or g.latest_id 0 < id → g.proposal id ≡ none
  pub tallied : (id : ℕ) → IsTallied id (g.proposal id) g.events
  pub recorded :
      (id : ℕ) (v : Address) → votes_by id v g.events ≡ indicator (has_voted id v g.votes)

-- The weight that a vote adds to the tally of `support`.
abbrev gain : ℕ → ℕ → ℤ → ℤ → ℤ
gain k support weight n = if k == support then n +ℤ weight else n

module _ (world : World) where
  pub tally_lem :
      (support : ℕ) (weight : ℤ) (p p' : Proposal)
      → tally world support weight p ≡ ok p'
      → (p'.against_votes ≡ gain support 0 weight p.against_votes)
        × (p'.for_votes ≡ gain support 1 weight p.for_votes)
        × (p'.abstain_votes ≡ gain support 2 weight p.abstain_votes)
  unfolding tally add_i128
  tally_lem zero weight p p' e = ground arith
  tally_lem (suc zero) weight p p' e = ground arith
  tally_lem (suc (suc zero)) weight p p' e = ground arith
  tally_lem (suc (suc (suc k))) weight p p' e = ground arith

  -- What `cast_vote` has checked, and what it has written.
  pub record Cast (env : Env) (voter : Address) (id support : ℕ) (w : ℤ) (g g' : Governor)
      : Type 0 where
    pub before : Proposal
    pub after : Proposal
    pub found : g.proposal id ≡ some before
    pub tallied : tally world support w before ≡ ok after
    pub new : has_voted id voter g.votes ≡ false
    pub opened : before.start_time ≤ env.timestamp
    pub closing : env.timestamp ≤ before.end_time
    pub weighs : w ≢ pos 0
    pub stored : g'.proposal id ≡ some after
    pub others : (j : ℕ) → j ≢ id → g'.proposal j ≡ g.proposal j
    pub recorded : g'.votes ≡ (id, voter) ∷ g.votes
    pub emitted : g'.events ≡ g.events ++ Event.voted id voter support w ∷ []
    pub latest : g'.latest_id ≡ g.latest_id
    pub configured : g'.config ≡ g.config

  pub tally-executed :
      (support : ℕ) (weight : ℤ) (p p' : Proposal)
      → tally world support weight p ≡ ok p'
      → p'.executed ≡ p.executed
  unfolding tally add_i128
  tally-executed zero weight p p' e = ground arith
  tally-executed (suc zero) weight p p' e = ground arith
  tally-executed (suc (suc zero)) weight p p' e = ground arith
  tally-executed (suc (suc (suc k))) weight p p' e = ground arith

  pub cast_vote-Cast :
      (env : Env) (s : world.State) (voter : Address) (id support : ℕ) (w : ℤ) (g g' : Governor)
      → Governance.cast_vote world env s voter id support g ≡ ok (w, g')
      → Cast env voter id support w g g'
  unfolding Governance.cast_vote
  cast_vote-Cast env s voter id support w g g' e = elim (Option-cases (g.proposal id)) [
    | inl missing ↦ absurd (ground arith)
    | inr (p, found) ↦ elim (Option-cases g.config) [
      | inl missing ↦ absurd (ground arith)
      | inr (config, set) ↦ elim (Option-cases (world.balance config.token voter s)) [
        | inl missing ↦ absurd (ground arith)
        | inr (funds, answered) ↦ elim (outcome_cases (tally world support funds p)) [
          | inl (p', voted) ↦ record {
            before = p;
            after = p';
            found = found;
            tallied = ground arith;
            new = ground arith;
            opened = ground arith;
            closing = ground arith;
            weighs = λ z. ground arith;
            stored = ground arith;
            others = λ j d. ground arith;
            recorded = ground arith;
            emitted = ground arith;
            latest = ground arith;
            configured = ground arith;
          }
          | inr stopped ↦ absurd (ground arith)
        ]
      ]
    ]
  ]

module _ (g g' : Governor) (c : IsCounted g) where
  pub init-IsCounted : (config : GovernanceConfig) → init config g ≡ ok (tt, g') → IsCounted g'
  unfolding init
  init-IsCounted config e = record {
    unstarted = ground (arith, c.unstarted);
    fresh = λ id l. ground (arith, c.fresh id, c.unstarted);
    tallied = λ id. ground (arith, c.tallied id);
    recorded = λ id v. ground (arith, c.recorded id v);
  }

  pub moved-IsCounted :
      (id : ℕ) (p p' : Proposal) (event : Event)
      → IsNoVote event
      → g.proposal id ≡ some p
      → g'.proposal id ≡ some p'
      → ((j : ℕ) → j ≢ id → g'.proposal j ≡ g.proposal j)
      → g'.votes ≡ g.votes
      → g'.events ≡ g.events ++ event ∷ []
      → g'.latest_id ≡ g.latest_id
      → g'.config ≡ g.config
      → (p'.against_votes ≡ p.against_votes)
        × (p'.for_votes ≡ p.for_votes)
        × (p'.abstain_votes ≡ p.abstain_votes)
      → IsCounted g'
  moved-IsCounted id p p' event n found stored others recorded emitted latest configured same =
      record {
        unstarted = λ h. ground (arith, c.unstarted);
        fresh = λ j l. ground (arith, c.fresh j, others j);
        tallied = λ j. ground (
          arith,
          c.tallied j,
          others j,
          IsTallied-other j (g.proposal j) g.events event n (c.tallied j),
        );
        recorded = λ j v. ground (arith, c.recorded j v, votes_by-other j v g.events event n);
      }

  module _ (world : World) (env : Env) (s : world.State) where
    pub propose-IsCounted :
        (a : Address) (ts : List Address) (fs : List String) (vs : List (List Val)) (d : String)
        (id : ℕ)
        → Governance.propose world env s a ts fs vs d g ≡ ok (id, g')
        → IsCounted g'
    unfolding Governance.propose IsNoVote
    propose-IsCounted a ts fs vs d id e =
        let new = Event.proposed id a in
        record {
          unstarted = ground arith;
          fresh = λ j l. ground (arith, c.fresh j);
          tallied = λ j. ground (
            arith,
            c.tallied j,
            c.fresh j,
            IsTallied-other j (g.proposal j) g.events new tt (c.tallied j),
          );
          recorded = λ j v. ground (arith, c.recorded j v, votes_by-other j v g.events new tt);
        }

    pub cast_vote-IsCounted :
        (voter : Address) (id support : ℕ) (w : ℤ)
        → Governance.cast_vote world env s voter id support g ≡ ok (w, g')
        → IsCounted g'
    cast_vote-IsCounted voter id support w e =
        let x = cast_vote-Cast world env s voter id support w g g' e in
        let new = Event.voted id voter support w in
        let t = tally_lem world support w x.before x.after x.tallied in
        record {
          unstarted = λ n. ground (arith, c.unstarted, x.configured, x.latest);
          fresh = λ j l. ground (arith, c.fresh j, x.others j, x.found, x.latest);
          tallied = λ j. ground (
            arith,
            c.tallied j,
            x.others j,
            x.found,
            x.stored,
            x.emitted,
            t,
            sum_votes-append j 0 (pos 0) g.events (new ∷ []),
            sum_votes-append j 1 (pos 0) g.events (new ∷ []),
            sum_votes-append j 2 (pos 0) g.events (new ∷ []),
          );
          recorded = λ j v. ground (
            arith,
            c.recorded j v,
            x.new,
            x.recorded,
            x.emitted,
            votes_by-append j v g.events (new ∷ []),
          );
        }
