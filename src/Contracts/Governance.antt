-- ===== src/Contracts/Governance.antt =====
-- contracts/governance/src/lib.rs: the governor's storage and its entry points.

pub mod Tallies
pub mod Votes
pub mod Verdict
pub mod Execution
pub mod History
pub mod Delay
mod Tests
mod DelayTests
use Prim.Native.String.{String}
use sanctifier.Base.{
  ℕ, zero, suc, ◌+◌, Bool, true, false, ◌&&◌, ◌||◌, not, Option, none, some, List, [], ◌∷◌, ◌++◌,
  ltb, leb, ◌==◌, if◌then◌else◌,
}
use sanctifier.Base.Int.{ℤ, pos, ltb_ℤ, eqb_ℤ, checked_add, checked_mul, checked_div}
use sanctifier.Host.{
  Address, Val, Env, Outcome, ok, ◌>>=◌, ◌>>◌, panic, trap, missing_value, panic_if, unwrap,
  or_panic, or_trap, unwrap_or, is_some, require_auth, overflow, division_by_zero, callee_failed,
  add_or_trap, update, u32_bound, u64_bound,
}

pub data Error : Type 0 where
  not_initialized already_initialized unauthorized proposal_not_found invalid_state : Error
  invalid_vote already_voted quorum_not_met proposal_threshold_not_met : Error

pub data ProposalState : Type 0 where
  pending active canceled defeated succeeded queued expired executed : ProposalState

pub record GovernanceConfig : Type 0 where
  pub token : Address
  pub timelock : Address
  pub quorum_bps : ℕ
  pub threshold_bps : ℕ
  pub voting_period : ℕ
  pub voting_delay : ℕ
  pub proposal_threshold : ℤ

pub record Proposal : Type 0 where
  pub id : ℕ
  pub proposer : Address
  pub targets : List Address
  pub functions : List String
  pub args : List (List Val)
  pub description : String
  pub start_time : ℕ
  pub end_time : ℕ
  pub for_votes : ℤ
  pub against_votes : ℤ
  pub abstain_votes : ℤ
  pub executed : Bool
  pub canceled : Bool
  pub queued : Bool

pub data Event : Type 0 where
  proposed : ℕ → Address → Event
  voted : ℕ → Address → ℕ → ℤ → Event
  queued : ℕ → Event
  executed : ℕ → Event

-- The storage, by `DataKey`: a key `Votes(id, voter)` is only ever set to `true`.
pub record Governor : Type 0 where
  pub config : Option GovernanceConfig
  pub latest_id : Option ℕ
  pub proposal : ℕ → Option Proposal
  pub votes : List (ℕ × Address)
  pub events : List Event

-- The contracts that the governor calls, each with its state in `State`: the token, and the timelock
-- that schedules and executes. `none` is a call that failed. The host forbids them to re-enter the
-- governor, so they leave its storage alone.
pub record World : Type 1 where
  pub State : Type 0
  pub balance : Address → Address → State → Option ℤ
  pub total_supply : Address → State → Option ℤ
  pub get_min_delay : Address → State → Option ℕ
  pub schedule :
      Address → Env → Address → Address → String → List Val → ℕ → ℕ → State → Option State
  pub execute : Address → Env → Address → Address → String → List Val → ℕ → State → Option State
  -- `sha256(description.to_xdr())`, the salt of a proposal's operations.
  pub salt : String → ℕ

abbrev pub emit : Event → Governor → Governor
emit e g = record g { events = g.events ++ e ∷ [] }

abbrev pub set_proposal : Proposal → ℕ → Governor → Governor
set_proposal p id g = record g { proposal = update g.proposal id (some p) }

-- `storage.has(Votes(id, voter))`
abbrev pub has_voted : ℕ → Address → List (ℕ × Address) → Bool
has_voted id voter [] = false
has_voted id voter ((i, v) ∷ vs) = (i == id && v == voter) || has_voted id voter vs

pub init : GovernanceConfig → Governor → Outcome Error (Unit {0} × Governor)
init config g =
    panic_if (is_some g.config) already_initialized
    >> ok (tt, record g { config = some config; latest_id = some 0 })

-- i128 arithmetic with overflow checks.
pub add_i128 : ℤ → ℤ → Outcome Error ℤ
add_i128 a b = or_trap (checked_add a b) overflow

-- `n * 10000 / d`
pub basis_points : ℤ → ℤ → Outcome Error ℤ
basis_points n d = do
  scaled ← or_trap (checked_mul n (pos 10_000)) overflow
  or_trap (checked_div scaled d) division_by_zero

module _ (world : World) where
  open world use {State, balance, total_supply, get_min_delay, salt}

  pub propose :
      Env
      → State
      → Address
      → List Address
      → List String
      → List (List Val)
      → String
      → Governor
      → Outcome Error (ℕ × Governor)
  propose env s proposer targets functions args description g = do
    require_auth env proposer
    config ← unwrap g.config
    funds ← or_trap (balance config.token proposer s) callee_failed
    panic_if (ltb_ℤ funds config.proposal_threshold) proposal_threshold_not_met
    id ← add_or_trap u32_bound (unwrap_or g.latest_id 0) 1
    start_time ← add_or_trap u64_bound env.timestamp config.voting_delay
    end_time ← add_or_trap u64_bound start_time config.voting_period
    let p : Proposal = record {
      id = id;
      proposer = proposer;
      targets = targets;
      functions = functions;
      args = args;
      description = description;
      start_time = start_time;
      end_time = end_time;
      for_votes = pos 0;
      against_votes = pos 0;
      abstain_votes = pos 0;
      executed = false;
      canceled = false;
      queued = false;
    }
    ok (id, emit (proposed id proposer) (set_proposal p id (record g { latest_id = some id })))

  -- The `match support` of `cast_vote`.
  pub tally : ℕ → ℤ → Proposal → Outcome Error Proposal
  tally zero weight p = do n ← add_i128 p.against_votes weight; ok (record p { against_votes = n })
  tally (suc zero) weight p = do n ← add_i128 p.for_votes weight; ok (record p { for_votes = n })
  tally (suc (suc zero)) weight p = do
    n ← add_i128 p.abstain_votes weight
    ok (record p { abstain_votes = n })
  tally (suc (suc (suc k))) weight p = panic invalid_vote

  pub cast_vote : Env → State → Address → ℕ → ℕ → Governor → Outcome Error (ℤ × Governor)
  cast_vote env s voter proposal_id support g = do
    require_auth env voter
    p ← or_panic (g.proposal proposal_id) proposal_not_found
    let now = env.timestamp
    panic_if (ltb now p.start_time || ltb p.end_time now) invalid_state
    panic_if (has_voted proposal_id voter g.votes) already_voted
    config ← unwrap g.config
    weight ← or_trap (balance config.token voter s) callee_failed
    panic_if (eqb_ℤ weight (pos 0)) unauthorized
    p' ← tally support weight p
    let stored = set_proposal p' proposal_id g
    ok (
      weight,
      emit (voted proposal_id voter support weight)
          (record stored { votes = (proposal_id, voter) ∷ g.votes }),
    )

  -- `state` after the voting period: the quorum, then the threshold.
  pub verdict : GovernanceConfig → ℤ → Proposal → Outcome Error ProposalState
  verdict config total_supply p = do
    for_or_against ← add_i128 p.for_votes p.against_votes
    total_votes ← add_i128 for_or_against p.abstain_votes
    turnout ← basis_points total_votes total_supply
    if ltb_ℤ turnout (pos config.quorum_bps)
        then ok defeated
        else if eqb_ℤ for_or_against (pos 0)
        then ok defeated
        else do
          support ← basis_points p.for_votes for_or_against
          if ltb_ℤ support (pos config.threshold_bps)
              then ok defeated
              else if p.queued
              then ok ProposalState.queued
              else ok succeeded

  pub state : Env → State → ℕ → Governor → Outcome Error ProposalState
  state env s proposal_id g = do
    p ← or_panic (g.proposal proposal_id) proposal_not_found
    let now = env.timestamp
    if p.canceled
        then ok canceled
        else if p.executed
        then ok ProposalState.executed
        else if ltb now p.start_time
        then ok pending
        else if leb now p.end_time
        then ok active
        else do
          config ← unwrap g.config
          supply ← or_trap (total_supply config.token s) callee_failed
          verdict config supply p

  -- A loop over the targets, with `functions.get(i).unwrap()` and `args.get(i).unwrap()`.
  pub for_each_call :
      (Address → String → List Val → State → Option State)
      → List Address
      → List String
      → List (List Val)
      → State
      → Outcome Error State
  for_each_call invoke [] fs as' s = ok s
  for_each_call invoke (t ∷ ts) [] as' s = trap missing_value
  for_each_call invoke (t ∷ ts) (f ∷ fs) [] s = trap missing_value
  for_each_call invoke (t ∷ ts) (f ∷ fs) (a ∷ as') s =
      or_trap (invoke t f a s) callee_failed >>= for_each_call invoke ts fs as'

  abbrev pub is_succeeded : ProposalState → Bool
  is_succeeded succeeded = true
  is_succeeded _ = false

  abbrev pub is_queued : ProposalState → Bool
  is_queued ProposalState.queued = true
  is_queued _ = false

  pub queue : Env → ℕ → State × Governor → Outcome Error (Unit {0} × (State × Governor))
  queue env proposal_id (s, g) = do
    p ← or_panic (g.proposal proposal_id) proposal_not_found
    st ← state env s proposal_id g
    panic_if (not (is_succeeded st)) invalid_state
    config ← unwrap g.config
    min_delay ← or_trap (get_min_delay config.timelock s) callee_failed
    let self = env.current_contract_address
    let schedule = λ (t : Address) (f : String) (a : List Val).
        world.schedule config.timelock env self t f a (salt p.description) min_delay
    s' ← for_each_call schedule p.targets p.functions p.args s
    ok (
      tt,
      (s', emit (queued proposal_id) (set_proposal (record p { queued = true }) proposal_id g)),
    )

  pub execute : Env → ℕ → State × Governor → Outcome Error (Unit {0} × (State × Governor))
  execute env proposal_id (s, g) = do
    p ← or_panic (g.proposal proposal_id) proposal_not_found
    st ← state env s proposal_id g
    panic_if (p.executed || not (is_queued st)) invalid_state
    config ← unwrap g.config
    let self = env.current_contract_address
    let execute_call = λ (t : Address) (f : String) (a : List Val).
        world.execute config.timelock env self t f a (salt p.description)
    s' ← for_each_call execute_call p.targets p.functions p.args s
    ok (
      tt,
      (s', emit (executed proposal_id) (set_proposal (record p { executed = true }) proposal_id g)),
    )
