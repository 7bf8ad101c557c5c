-- ===== src/Contracts/Timelock/Tests.antt =====
-- Runs of contracts/timelock/src/lib.rs at concrete inputs, and the theorems at such inputs.
use sanctifier.Base.{
  ℕ, ◌+◌, ◌≤◌, ◌≡◌, refl, true, false, none, some, List, [], ◌∷◌, arith, ◌==◌, if◌then◌else◌,
}
use sanctifier.Host.{Env, ok, panic}
use sanctifier.Contracts.Timelock
use sanctifier.Contracts.Timelock.{
  Controller, Sdk, Event, grant_all, compute_hash, proposal_not_ready,
}
use sanctifier.Contracts.Timelock.Calls.{Call, apply, run}
use sanctifier.Contracts.Timelock.Delay.{execute-after_delay, schedule-execute}

program : Unit {0}
unfolding grant_all Timelock.init compute_hash Timelock.set_proposer Timelock.set_executor
    Timelock.set_canceller Timelock.update_delay Timelock.schedule Timelock.execute Timelock.cancel
    apply run
program = tt

abbrev sum : List ℕ → ℕ
sum [] = 0
sum (x ∷ xs) = x + sum xs

abbrev sdk : Sdk
sdk = record {
  address_val = λ a. a;
  symbol_val = λ s. 0;
  salt_val = λ s. s;
  vec_xdr = λ vs. vs;
  sha256 = sum;
  invoke_contract = λ a f vs. some 42;
}

-- The proposer is 10, the executor 11, the admin 12.
abbrev at_time : ℕ → Env
at_time t = record {
  current_contract_address = 1;
  timestamp = t;
  sequence = 0;
  authorised = λ a. if a == 12 then false else true;
}

abbrev blank : Controller
blank = record {
  min_delay = none;
  admin = none;
  proposer = λ a. none;
  executor = λ a. none;
  canceller = λ a. none;
  operation = λ h. none;
  events = [];
}

abbrev controller : Controller
controller = record blank {
  min_delay = some 100;
  admin = some 12;
  proposer = λ a. if a == 10 then some true else none;
  executor = λ a. if a == 11 then some true else none;
}

test_init : Timelock.init 12 100 (10 ∷ []) (11 ∷ []) blank ≡ ok (tt, controller)
unfolding program
test_init = refl

abbrev pending : Controller
pending = record controller {
  operation = λ h. if h == 12 then some 1_150 else none;
  events = Event.scheduled 12 5 "pay" 1_150 ∷ [];
}

scheduling :
    Timelock.schedule sdk (at_time 1_000) 10 5 "pay" (4 ∷ []) 3 150 controller ≡ ok (12, pending)
unfolding program
scheduling = refl

too_early :
    Timelock.execute sdk (at_time 1_149) 11 5 "pay" (4 ∷ []) 3 pending ≡ panic proposal_not_ready
unfolding program
too_early = refl

abbrev finished : Controller
finished = record pending {
  operation = λ h. if h == 12 then none else pending.operation h;
  events = Event.scheduled 12 5 "pay" 1_150 ∷ Event.executed 12 5 "pay" ∷ [];
}

execution : Timelock.execute sdk (at_time 1_150) 11 5 "pay" (4 ∷ []) 3 pending ≡ ok (42, finished)
unfolding program
execution = refl

abbrev calls : List (Env × Call)
calls = (at_time 1_000, Call.schedule 10 5 "pay" (4 ∷ []) 3 150) ∷ []

run_schedules : run sdk calls controller ≡ pending
unfolding program
run_schedules = refl

execute-after_delay_example : 1_000 + 100 ≤ 1_150
unfolding program
execute-after_delay_example =
    execute-after_delay sdk (at_time 1_150) 11 5 "pay" (4 ∷ []) 3 1_000 100 calls controller
      finished 42 (λ e. cc) (omega arith) refl (omega arith) execution

schedule-execute_example :
    (c'' : Controller) × (Timelock.execute sdk (at_time 1_200) 11 5 "pay" (4 ∷ []) 3 pending
      ≡ ok (42, c''))
    × (c''.operation 12 ≡ none)
schedule-execute_example =
    schedule-execute sdk (at_time 1_000) 10 5 "pay" (4 ∷ []) 3 (at_time 1_200) 11 150 12 42
      controller pending scheduling refl refl (omega arith) refl
