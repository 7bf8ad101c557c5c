-- ===== src/Contracts/Governance/DelayTests.antt =====
-- A proposal of contracts/governance/src/lib.rs that goes through contracts/timelock/src/lib.rs.
use sanctifier.Base.{
  ℕ, ◌+◌, ◌≤◌, ◌≡◌, refl, true, false, some, none, List, [], ◌∷◌, ◌==◌, if◌then◌else◌,
}
use sanctifier.Base.Int.{pos, ◌+ℤ◌, ◌*ℤ◌, ◌/ℤ◌}
use sanctifier.Host.{Env, ok, trap, callee_failed}
use sanctifier.Contracts.Governance
use sanctifier.Contracts.Governance.{
  World, Governor, GovernanceConfig, Proposal, Event, add_i128, basis_points, verdict,
  for_each_call,
}
use sanctifier.Contracts.Governance.Delay.{controlled, queue-execute_waits}
use sanctifier.Contracts.Timelock
use sanctifier.Contracts.Timelock.{Controller, Sdk, compute_hash}
use sanctifier.Contracts.Timelock.Calls.{run}

program : Unit {0}
unfolding ◌+ℤ◌ ◌*ℤ◌ ◌/ℤ◌ add_i128 basis_points verdict for_each_call Governance.state
    Governance.queue Governance.execute compute_hash Timelock.schedule Timelock.execute run
program = tt

abbrev sum : List ℕ → ℕ
sum [] = 0
sum (x ∷ xs) = x + sum xs

abbrev sdk : Sdk
sdk = record {
  address_val = λ a. a;
  symbol_val = λ s. 0;
  salt_val = λ s. s;
  vec_xdr = λ vs. vs;
  sha256 = sum;
  invoke_contract = λ a f vs. some 42;
}

abbrev world : World
world = controlled sdk (λ a. none) (some (pos 10_000)) (λ d. 7)

abbrev at_time : ℕ → Env
at_time t = record {
  current_contract_address = 1;
  timestamp = t;
  sequence = 0;
  authorised = λ a. false;
}

abbrev proposal : Proposal
proposal = record {
  id = 1;
  proposer = 8;
  targets = 5 ∷ [];
  functions = "pay" ∷ [];
  args = [] ∷ [];
  description = "fund";
  start_time = 1_010;
  end_time = 1_110;
  for_votes = pos 800;
  against_votes = pos 600;
  abstain_votes = pos 500;
  executed = false;
  canceled = false;
  queued = false;
}

abbrev config : GovernanceConfig
config = record {
  token = 2;
  timelock = 3;
  quorum_bps = 1_000;
  threshold_bps = 5_000;
  voting_period = 100;
  voting_delay = 10;
  proposal_threshold = pos 500;
}

abbrev governor : Governor
governor = record {
  config = some config;
  latest_id = some 1;
  proposal = λ id. if id == 1 then some proposal else none;
  votes = [];
  events = [];
}

-- The governor, 1, is the only proposer and executor.
abbrev controller : Controller
controller = record {
  min_delay = some 60;
  admin = some 12;
  proposer = λ a. if a == 1 then some true else none;
  executor = λ a. if a == 1 then some true else none;
  canceller = λ a. none;
  operation = λ h. none;
  events = [];
}

abbrev pending : Controller
pending = record controller {
  operation = λ h. if h == 12 then some 1_171 else none;
  events = Timelock.Event.scheduled 12 5 "pay" 1_171 ∷ [];
}

abbrev waiting : Governor
waiting =
    Governance.emit (Event.queued 1)
      (Governance.set_proposal (record proposal { queued = true }) 1 governor)

queueing :
    Governance.queue world (at_time 1_111) 1 (controller, governor) ≡ ok (tt, (pending, waiting))
unfolding program
queueing = refl

too_early : Governance.execute world (at_time 1_170) 1 (pending, waiting) ≡ trap callee_failed
unfolding program
too_early = refl

abbrev finished : Controller
finished = record pending {
  operation = λ h. if h == 12 then none else pending.operation h;
  events = Timelock.Event.scheduled 12 5 "pay" 1_171 ∷ Timelock.Event.executed 12 5 "pay" ∷ [];
}

abbrev executed : Governor
executed =
    Governance.emit (Event.executed 1)
      (Governance.set_proposal (record proposal { queued = true; executed = true }) 1 waiting)

execution :
    Governance.execute world (at_time 1_200) 1 (run sdk [] pending, waiting)
    ≡ ok (tt, (finished, executed))
unfolding program
execution = refl

queue-execute_waits_example : 1_111 + 60 ≤ 1_200
queue-execute_waits_example =
    queue-execute_waits sdk (λ a. none) (some (pos 10_000)) (λ d. 7) (at_time 1_111) (at_time 1_200)
      1 controller pending finished [] governor waiting waiting executed proposal 5 "pay" [] refl
      refl refl refl refl (λ e. cc) tt queueing execution
