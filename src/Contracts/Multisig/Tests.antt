-- ===== src/Contracts/Multisig/Tests.antt =====
-- Runs of contracts/multisig/src/lib.rs at concrete inputs, and the theorems at such inputs.
use sanctifier.Base.{
  ℕ, ◌+◌, ◌≤◌, ◌≡◌, ◌≢◌, refl, true, false, none, some, List, [], ◌∷◌, arith, length, IsNodup, ◌==◌,
  ◌||◌, if◌then◌else◌,
}
use sanctifier.Host.{Env, ok, panic}
use sanctifier.Contracts.Multisig
use sanctifier.Contracts.Multisig.{
  Digest, ProposalInfo, Wallet, Sdk, Error, Event, threshold_not_met, already_executed,
  calculate_hash, bad_threshold, remove_found, self_call, dispatch, internal_add_signer,
  internal_remove_signer, internal_set_threshold, internal_cancel,
}
use sanctifier.Contracts.Multisig.Invariant.{approvers, IsValid}
use sanctifier.Contracts.Multisig.Execution.{execute-approved}
use sanctifier.Contracts.Multisig.History.{Call, apply, run, run-IsValid, execute-once}

program : Unit {0}
unfolding bad_threshold Multisig.init calculate_hash Multisig.propose Multisig.approve
    internal_cancel internal_add_signer remove_found internal_remove_signer internal_set_threshold
    self_call dispatch Multisig.execute Multisig.cancel Multisig.add_signer Multisig.remove_signer
    Multisig.set_threshold apply run
program = tt

-- An SDK with a digest that sums the bytes, and values that are the numbers they carry.
abbrev sum : List ℕ → ℕ
sum [] = 0
sum (x ∷ xs) = x + sum xs

abbrev sdk : Sdk
sdk = record {
  address_xdr = λ a. a ∷ [];
  symbol_xdr = λ s. [];
  args_xdr = λ vs. vs;
  bytes_xdr = λ bs. bs;
  sha256 = sum;
  to_address = λ v. some v;
  to_u32 = λ v. some v;
  to_bytes = λ v. some v;
  void = 0;
  invoke_contract = λ a f vs. some 42;
}

-- The wallet is contract 1; the signers 10 and 11 have both authorised the call.
abbrev env : Env
env = record {
  current_contract_address = 1;
  timestamp = 0;
  sequence = 0;
  authorised = λ a. a == 10 || a == 11;
}

abbrev blank : Wallet
blank = record {
  signers = none;
  threshold = none;
  proposal = λ h. none;
  approvals = [];
  events = [];
}

abbrev setup : List (Env × Call)
setup =
    (env, Call.init (10 ∷ 11 ∷ 12 ∷ []) 2)
    ∷ (env, Call.propose 1 "add_signer" (13 ∷ []) (7 ∷ []))
    ∷ (env, Call.approve 10 21)
    ∷ []

-- The wallet after the setup and the approval of signer 11.
abbrev ready : Wallet
ready = record {
  signers = some (10 ∷ 11 ∷ 12 ∷ []);
  threshold = some 2;
  proposal = λ h.
      if h == 21
      then some (record { approval_count = 2; executed = false; cancelled = false })
      else none;
  approvals = (21, 11) ∷ (21, 10) ∷ [];
  events = [];
}

abbrev done : Wallet
done = record {
  signers = some (10 ∷ 11 ∷ 12 ∷ 13 ∷ []);
  threshold = some 2;
  proposal = λ k.
      if k == 21
      then some (record { approval_count = 2; executed = true; cancelled = false })
      else ready.proposal k;
  approvals = (21, 11) ∷ (21, 10) ∷ [];
  events = Event.executed 21 1 ∷ [];
}

test_too_early :
    Multisig.execute sdk env 1 "add_signer" (13 ∷ []) (7 ∷ []) (run sdk setup blank)
    ≡ panic threshold_not_met
unfolding program
test_too_early = refl

blank-IsValid : IsValid blank
blank-IsValid = record { configured = tt; counted = λ h. refl; distinct = λ h. tt }

run-IsValid_example : IsValid (run sdk setup blank)
run-IsValid_example = run-IsValid sdk setup blank blank-IsValid

execution : Multisig.execute sdk env 1 "add_signer" (13 ∷ []) (7 ∷ []) ready ≡ ok (0, done)
unfolding program
execution = refl

ready-IsValid : IsValid ready
ready-IsValid = record {
  configured = omega arith;
  counted = λ h. ground arith;
  distinct = λ h. ground arith;
}

execute-approved_example :
    (i : ProposalInfo) × (t : ℕ) × (ready.proposal 21 ≡ some i)
    × (ready.threshold ≡ some t)
    × (i.executed ≡ false)
    × (i.cancelled ≡ false)
    × (t ≤ length (approvers 21 ready.approvals))
    × IsNodup (approvers 21 ready.approvals)
unfolding program
execute-approved_example =
    execute-approved sdk env 1 "add_signer" (13 ∷ []) (7 ∷ []) ready done 0 ready-IsValid execution

execute-once_example :
    Multisig.execute sdk env 1 "add_signer"
      (13 ∷ [])
      (7 ∷ [])
      (run sdk ((env, Call.propose 1 "add_signer" (13 ∷ []) (7 ∷ [])) ∷ []) done)
    ≢ ok (0, done)
execute-once_example =
    execute-once sdk env env 1 "add_signer" (13 ∷ []) (7 ∷ []) 0 0
      ((env, Call.propose 1 "add_signer" (13 ∷ []) (7 ∷ [])) ∷ []) ready done done execution

abbrev half : Wallet
half = record ready {
  proposal = λ h.
      if h == 21
      then some (record { approval_count = 1; executed = false; cancelled = false })
      else none;
  approvals = (21, 10) ∷ [];
}

abbrev approved : Wallet
approved = record half {
  proposal = λ k.
      if k == 21
      then some (record { approval_count = 2; executed = false; cancelled = false })
      else half.proposal k;
  approvals = (21, 11) ∷ (21, 10) ∷ [];
  events = Event.approved 21 11 ∷ [];
}

approving : Multisig.approve env 11 21 half ≡ ok (tt, approved)
unfolding program
approving = refl
