-- ===== src/Contracts/Governance/Tests.antt =====
-- Runs of contracts/governance/src/lib.rs at concrete inputs, and the theorems at such inputs.
use sanctifier.Base.{ℕ, ◌+◌, ◌*◌, ◌≡◌, refl, true, false, some, none, List, [], ◌∷◌}
use sanctifier.Base.Int.{pos, ◌+ℤ◌, ◌*ℤ◌, ◌/ℤ◌}
use sanctifier.Host.{Env, ok, panic}
use sanctifier.Contracts.Governance
use sanctifier.Contracts.Governance.{
  World, Governor, GovernanceConfig, Proposal, Event, add_i128, basis_points, tally, verdict,
  for_each_call, already_voted, invalid_state,
}
use sanctifier.Contracts.Governance.Votes.{IsCounted}
use sanctifier.Contracts.Governance.Verdict.{IsCarried}
use sanctifier.Contracts.Governance.Execution.{IsClosed, queue-IsCarried}
use sanctifier.Contracts.Governance.History.{Call, apply, run, run-IsCounted}

program : Unit {0}
unfolding ◌+ℤ◌ ◌*ℤ◌ ◌/ℤ◌ add_i128 basis_points tally verdict for_each_call Governance.init
    Governance.propose Governance.cast_vote Governance.state Governance.queue Governance.execute
    apply run
program = tt

-- The state of the other contracts counts the calls that the timelock got.
abbrev world : World
world = record {
  State = ℕ;
  balance = λ token a s. some (pos (a * 100));
  total_supply = λ token s. some (pos 10_000);
  get_min_delay = λ timelock s. some 60;
  schedule = λ timelock env self t f a salt delay s. some (s + 1);
  execute = λ timelock env self t f a salt s. some (s + 1);
  salt = λ d. 7;
}

abbrev at_time : ℕ → Env
at_time t = record {
  current_contract_address = 1;
  timestamp = t;
  sequence = 0;
  authorised = λ a. true;
}

abbrev config : GovernanceConfig
config = record {
  token = 2;
  timelock = 3;
  quorum_bps = 1_000;
  threshold_bps = 5_000;
  voting_period = 100;
  voting_delay = 10;
  proposal_threshold = pos 500;
}

abbrev blank : Governor
blank = record { config = none; latest_id = none; proposal = λ id. none; votes = []; events = [] }

blank-IsCounted : IsCounted blank
blank-IsCounted = record {
  unstarted = λ e. refl;
  fresh = λ id l. refl;
  tallied = λ id. (refl, refl, refl);
  recorded = λ id v. refl;
}

abbrev voting : List (Env × (ℕ × Call))
voting =
    (at_time 0, (0, Call.init config))
    ∷ (at_time 1_000, (0, Call.propose 8 (5 ∷ []) ("pay" ∷ []) ([] ∷ []) "fund"))
    ∷ (at_time 1_020, (0, Call.cast_vote 8 1 1))
    ∷ (at_time 1_020, (0, Call.cast_vote 8 1 1))
    ∷ (at_time 1_030, (0, Call.cast_vote 6 1 0))
    ∷ (at_time 1_031, (0, Call.cast_vote 5 1 2))
    ∷ []

abbrev voted : Governor
voted = run world voting blank

abbrev tallies : Proposal
tallies = record {
  id = 1;
  proposer = 8;
  targets = 5 ∷ [];
  functions = "pay" ∷ [];
  args = [] ∷ [];
  description = "fund";
  start_time = 1_010;
  end_time = 1_110;
  for_votes = pos 800;
  against_votes = pos 600;
  abstain_votes = pos 500;
  executed = false;
  canceled = false;
  queued = false;
}

voting_counts : voted.proposal 1 ≡ some tallies
unfolding program
voting_counts = refl

voting_twice : Governance.cast_vote world (at_time 1_040) 0 8 1 1 voted ≡ panic already_voted
unfolding program
voting_twice = refl

voting_late : Governance.cast_vote world (at_time 1_111) 0 9 1 1 voted ≡ panic invalid_state
unfolding program
voting_late = refl

abbrev set_tallies : Proposal → Event → Governor → Governor
set_tallies p e g = Governance.emit e (Governance.set_proposal p 1 g)

abbrev waiting : Governor
waiting = set_tallies (record tallies { queued = true }) (Event.queued 1) voted

queueing : Governance.queue world (at_time 1_111) 1 (0, voted) ≡ ok (tt, (1, waiting))
unfolding program
queueing = refl

abbrev finished : Governor
finished =
    set_tallies (record tallies { queued = true; executed = true }) (Event.executed 1) waiting

execution : Governance.execute world (at_time 1_200) 1 (1, waiting) ≡ ok (tt, (2, finished))
unfolding program
execution = refl

run-IsCounted_example : IsCounted voted
run-IsCounted_example = run-IsCounted world voting blank blank-IsCounted

voted_config : voted.config ≡ some config
unfolding program
voted_config = refl

queue-IsCarried_example : IsClosed (at_time 1_111) tallies × IsCarried config 10_000 800 600 500
queue-IsCarried_example =
    queue-IsCarried world (at_time 1_111) 1 0 voted tallies config 10_000 800 600 500 voted_config
      refl voting_counts refl refl refl 1 waiting queueing
