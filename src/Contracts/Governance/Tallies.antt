-- ===== src/Contracts/Governance/Tallies.antt =====
-- Sums over the vote events of contracts/governance/src/lib.rs.
use sanctifier.Base.{
  ◌∙◌, sym, ℕ, ◌+◌, ◌≡◌, refl, ◌&&◌, Option, none, some, List, [], ◌∷◌, ◌++◌, arith, ◌==◌,
  if◌then◌else◌,
}
use sanctifier.Base.Int.{ℤ, pos, ◌+ℤ◌}
use sanctifier.Host.{Address}
use sanctifier.Contracts.Governance.{Event, Proposal}

-- `acc` with the weight of each vote for proposal `id` with this `support` added.
abbrev pub sum_votes : ℕ → ℕ → ℤ → List Event → ℤ
sum_votes id support acc [] = acc
sum_votes id support acc (Event.voted i v k w ∷ es) =
    sum_votes id support (if i == id && k == support then acc +ℤ w else acc) es
sum_votes id support acc (_ ∷ es) = sum_votes id support acc es

-- How many votes `voter` has cast on proposal `id`.
abbrev pub votes_by : ℕ → Address → List Event → ℕ
votes_by id voter [] = 0
votes_by id voter (Event.voted i v k w ∷ es) =
    if i == id && v == voter then 1 + votes_by id voter es else votes_by id voter es
votes_by id voter (_ ∷ es) = votes_by id voter es

pub sum_votes-append :
    (id support : ℕ) (acc : ℤ) (es es' : List Event)
    → sum_votes id support acc (es ++ es') ≡ sum_votes id support (sum_votes id support acc es) es'
sum_votes-append id support acc [] es' = refl
sum_votes-append id support acc (Event.voted i v k w ∷ es) es' =
    sum_votes-append id support (if i == id && k == support then acc +ℤ w else acc) es es'
sum_votes-append id support acc (Event.proposed i p ∷ es) es' =
    sum_votes-append id support acc es es'
sum_votes-append id support acc (Event.queued i ∷ es) es' = sum_votes-append id support acc es es'
sum_votes-append id support acc (Event.executed i ∷ es) es' = sum_votes-append id support acc es es'

pub votes_by-append :
    (id voter : ℕ) (es es' : List Event)
    → votes_by id voter (es ++ es') ≡ votes_by id voter es + votes_by id voter es'
votes_by-append id voter [] es' = omega arith
votes_by-append id voter (Event.voted i v k w ∷ es) es' =
    ground (arith, votes_by-append id voter es es')
votes_by-append id voter (Event.proposed i p ∷ es) es' = votes_by-append id voter es es'
votes_by-append id voter (Event.queued i ∷ es) es' = votes_by-append id voter es es'
votes_by-append id voter (Event.executed i ∷ es) es' = votes_by-append id voter es es'

-- The tallies of a proposal are the sums of its votes.
abbrev pub IsTallied : ℕ → Option Proposal → List Event → Type 0
IsTallied id none es =
    (sum_votes id 0 (pos 0) es ≡ pos 0)
    × (sum_votes id 1 (pos 0) es ≡ pos 0)
    × (sum_votes id 2 (pos 0) es ≡ pos 0)
IsTallied id (some p) es =
    (p.against_votes ≡ sum_votes id 0 (pos 0) es)
    × (p.for_votes ≡ sum_votes id 1 (pos 0) es)
    × (p.abstain_votes ≡ sum_votes id 2 (pos 0) es)

-- An event that is no vote leaves the sums as they were.
unfoldable pub IsNoVote : Event → Type 0
IsNoVote (Event.voted i v k w) = ⊥
IsNoVote _ = Unit

sum_votes-other :
    (id k : ℕ) (es : List Event) (e : Event)
    → IsNoVote e
    → sum_votes id k (pos 0) (es ++ e ∷ []) ≡ sum_votes id k (pos 0) es
unfolding IsNoVote
sum_votes-other id k es (Event.voted i v s w) n = absurd n
sum_votes-other id k es (Event.proposed i p) n =
    sum_votes-append id k (pos 0) es (Event.proposed i p ∷ [])
sum_votes-other id k es (Event.queued i) n = sum_votes-append id k (pos 0) es (Event.queued i ∷ [])
sum_votes-other id k es (Event.executed i) n =
    sum_votes-append id k (pos 0) es (Event.executed i ∷ [])

pub votes_by-other :
    (id v : ℕ) (es : List Event) (e : Event)
    → IsNoVote e
    → votes_by id v (es ++ e ∷ []) ≡ votes_by id v es
unfolding IsNoVote
votes_by-other id v es (Event.voted i u s w) n = absurd n
votes_by-other id v es (Event.proposed i p) n =
    omega (arith, votes_by-append id v es (Event.proposed i p ∷ []))
votes_by-other id v es (Event.queued i) n =
    omega (arith, votes_by-append id v es (Event.queued i ∷ []))
votes_by-other id v es (Event.executed i) n =
    omega (arith, votes_by-append id v es (Event.executed i ∷ []))

-- The tallies of a proposal agree with its old events, so with those and one that is no vote.
pub IsTallied-other :
    (id : ℕ) (o : Option Proposal) (es : List Event) (e : Event)
    → IsNoVote e
    → IsTallied id o es
    → IsTallied id o (es ++ e ∷ [])
IsTallied-other id none es e n t = (
  sum_votes-other id 0 es e n ∙ t.0,
  sum_votes-other id 1 es e n ∙ t.1,
  sum_votes-other id 2 es e n ∙ t.2,
)
IsTallied-other id (some p) es e n t = (
  t.0 ∙ sym (sum_votes-other id 0 es e n),
  t.1 ∙ sym (sum_votes-other id 1 es e n),
  t.2 ∙ sym (sum_votes-other id 2 es e n),
)
