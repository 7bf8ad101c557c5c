-- ===== src/Contracts/Bridge/Tests.antt =====
-- Runs of contracts/bridge/src/lib.rs at concrete inputs, and the theorems at such inputs.
use sanctifier.Base.{ℕ, ◌+◌, ◌≡◌, refl, ◌==◌, if◌then◌else◌, true, false, some, List, [], ◌∷◌}
use sanctifier.Host.{Env, ok, panic}
use sanctifier.Contracts.Bridge
use sanctifier.Contracts.Bridge.{
  Transfer, Sdk, invalid_threshold, insufficient_signers, calculate_transfer_hash, process,
  execute_transfer,
}
use sanctifier.Contracts.Bridge.Transfers.{
  SignedOff, IsRecorded, empty, init_call, execute_call, run, execute-SignedOff, published-run,
}

program : Unit {0}
unfolding Bridge.init calculate_transfer_hash process execute_transfer
program = tt

-- An SDK with a digest that sums the bytes, and encodings that are the values.
abbrev sum : List ℕ → ℕ
sum [] = 0
sum (x ∷ xs) = x + sum xs

abbrev sdk : Sdk
sdk = record {
  symbol_xdr = λ s. [];
  bytes_xdr = λ bs. bs;
  address_xdr = λ a. a ∷ [];
  u128_xdr = λ n. n ∷ [];
  sha256 = sum;
}

abbrev transfer : Transfer
transfer = record { source_chain = "eth"; source_txn = 7 ∷ []; target_addr = 5; amount = 100 }

-- Everyone authorises.
abbrev env : Env
env = record { current_contract_address = 9; timestamp = 0; sequence = 0; authorised = λ a. true }

abbrev signers : List ℕ
signers = 1 ∷ 2 ∷ 3 ∷ []

abbrev ready : Bridge.Bridge
ready = record { signers = some signers; threshold = some 2; processed = λ h. false; events = [] }

test_init :
    (Bridge.init signers 2 empty ≡ ok (tt, ready))
    × (Bridge.init signers 4 empty ≡ panic invalid_threshold)
unfolding program
test_init = (refl, refl)

-- A signer given twice counts once, and a stranger not at all.
test_duplicate :
    execute_transfer sdk env transfer (1 ∷ 1 ∷ 4 ∷ []) ready ≡ panic insufficient_signers
unfolding program
test_duplicate = refl

abbrev bridged : Bridge.Bridge
bridged = record ready { processed = λ k. if k == 112 then true else false; events = transfer ∷ [] }

execute-SignedOff_example :
    SignedOff env ready × (bridged.processed (calculate_transfer_hash sdk transfer) ≡ true)
unfolding program
execute-SignedOff_example =
    execute-SignedOff sdk env transfer (1 ∷ 4 ∷ 2 ∷ []) ready bridged refl refl

published-run_example : IsRecorded sdk (
    run sdk
      (init_call signers 2
        ∷ execute_call env transfer (1 ∷ 2 ∷ [])
        ∷ execute_call env transfer (3 ∷ 2 ∷ [])
        ∷ [])
      empty)
published-run_example =
    published-run sdk
      (init_call signers 2
        ∷ execute_call env transfer (1 ∷ 2 ∷ [])
        ∷ execute_call env transfer (3 ∷ 2 ∷ [])
        ∷ [])
      empty λ h. refl
