-- ===== src/Contracts/Governance/Verdict.antt =====
-- Quorum and threshold in contracts/governance/src/lib.rs.
use sanctifier.Base.{ℕ, ◌+◌, ◌*◌, ◌/◌, ◌≤◌, ◌<◌, ◌≡◌, ◌≢◌, true, false, arith, inl, inr}
use sanctifier.Base.Products.{product-le_div}
use sanctifier.Base.Int.{ltb_ℤ, ℤ, pos, ◌+ℤ◌, ◌*ℤ◌, ◌/ℤ◌}
use sanctifier.Host.{outcome_cases, ok}
use sanctifier.Contracts.Governance.{
  Proposal, ProposalState, World, GovernanceConfig, add_i128, verdict, basis_points,
}

-- `n * 10000 / d` of numbers that are not negative.
basis_points-pos :
    (n d : ℕ) (r : ℤ) → basis_points (pos n) (pos d) ≡ ok r → (0 < d) × (r ≡ pos (n * 10_000 / d))
unfolding basis_points ◌*ℤ◌ ◌/ℤ◌
basis_points-pos n d r e = ground arith

-- A vote is decided: the turnout reaches the quorum, and the support the threshold.
pub record IsCarried (config : GovernanceConfig) (supply in_favour against abstained : ℕ)
    : Type 0 where
  pub quorum : config.quorum_bps * supply ≤ (in_favour + against + abstained) * 10_000
  pub decided : 0 < in_favour + against
  pub threshold : config.threshold_bps * (in_favour + against) ≤ in_favour * 10_000

add_i128-pos : (a b : ℕ) (r : ℤ) → add_i128 (pos a) (pos b) ≡ ok r → r ≡ pos (a + b)
unfolding add_i128 ◌+ℤ◌
add_i128-pos a b r e = ground arith

-- The steps of a verdict that is no defeat.
pub record Steps (config : GovernanceConfig) (supply : ℤ) (p : Proposal) : Type 0 where
  for_or_against : ℤ
  total_votes : ℤ
  turnout : ℤ
  support : ℤ
  adds : add_i128 p.for_votes p.against_votes ≡ ok for_or_against
  totals : add_i128 for_or_against p.abstain_votes ≡ ok total_votes
  turns_out : basis_points total_votes supply ≡ ok turnout
  supports : basis_points p.for_votes for_or_against ≡ ok support
  enough : ltb_ℤ turnout (pos config.quorum_bps) ≡ false
  most : ltb_ℤ support (pos config.threshold_bps) ≡ false

module _ (world : World) where
  pub queued_flag :
      (config : GovernanceConfig) (supply : ℤ) (p : Proposal)
      → verdict world config supply p ≡ ok ProposalState.queued
      → p.queued ≡ true
  unfolding verdict
  queued_flag config supply p e = elim (outcome_cases (add_i128 p.for_votes p.against_votes)) [
    | inr stopped ↦ absurd (ground arith)
    | inl (sv, e1) ↦ elim (outcome_cases (add_i128 sv p.abstain_votes)) [
      | inr stopped ↦ absurd (ground arith)
      | inl (tv, e2) ↦ ground arith
    ]
  ]

  pub verdict-Steps :
      (config : GovernanceConfig) (supply : ℤ) (p : Proposal) (st : ProposalState)
      → verdict world config supply p ≡ ok st
      → st ≢ ProposalState.defeated
      → Steps config supply p
  unfolding verdict
  verdict-Steps config supply p st e n =
      elim (outcome_cases (add_i128 p.for_votes p.against_votes)) [
        | inr stopped ↦ absurd (ground arith)
        | inl (sv, e1) ↦ elim (outcome_cases (add_i128 sv p.abstain_votes)) [
          | inr stopped ↦ absurd (ground arith)
          | inl (tv, e2) ↦ elim (outcome_cases (basis_points tv supply)) [
            | inr stopped ↦ absurd (ground arith)
            | inl (turnout, e3) ↦ elim (outcome_cases (basis_points p.for_votes sv)) [
              | inr stopped ↦ absurd (ground arith)
              | inl (support, e4) ↦ record {
                for_or_against = sv;
                total_votes = tv;
                turnout = turnout;
                support = support;
                adds = e1;
                totals = e2;
                turns_out = e3;
                supports = e4;
                enough = ground arith;
                most = ground arith;
              }
            ]
          ]
        ]
      ]

pub Steps-IsCarried :
    (config : GovernanceConfig) (supply f a b : ℕ) (p : Proposal)
    → p.for_votes ≡ pos f
    → p.against_votes ≡ pos a
    → p.abstain_votes ≡ pos b
    → Steps config (pos supply) p
    → IsCarried config supply f a b
Steps-IsCarried config supply f a b p ef ea eb x =
    let n1 : x.for_or_against ≡ pos (f + a) =
      add_i128-pos f a x.for_or_against (rw (ef, ea) at x.adds) in
    let n2 : x.total_votes ≡ pos (f + a + b) =
      add_i128-pos (f + a) b x.total_votes (rw (n1, eb) at x.totals) in
    let (positive, te) = basis_points-pos (f + a + b) supply x.turnout (rw n2 at x.turns_out) in
    let (some_votes, se) = basis_points-pos f (f + a) x.support (rw (ef, n1) at x.supports) in
    record {
      quorum =
          product-le_div config.quorum_bps ((f + a + b) * 10_000) supply positive
            (ground (arith, x.enough));
      decided = some_votes;
      threshold =
          product-le_div config.threshold_bps (f * 10_000) (f + a) some_votes
            (ground (arith, x.most));
    }
