-- ===== src/Contracts/KaniPoc/Tests.antt =====
-- Runs of contracts/kani-poc/src/lib.rs at concrete inputs, and the theorems at such inputs.
use sanctifier.Base.{◌≡◌, refl, true, some, none}
use sanctifier.Base.Int.{pos, negsuc, ◌+ℤ◌, ◌-ℤ◌}
use sanctifier.Base.Results.{ok}
use sanctifier.Host
use sanctifier.Contracts.KaniPoc.{
  initialize_pure, transfer_pure, mint_pure, burn_pure, burn_from_pure, transfer_from_pure,
  mint_pure_with_total_supply, burn_pure_with_total_supply, approve_pure_no_balance_change,
  initialize,
}
use sanctifier.Contracts.KaniPoc.Supply.{
  Ledger, IsBacked, transferred, transferred_from, burnt, burnt_from, by_other, done, step,
  steps-IsBacked,
}

program : Unit {0}
unfolding burn_from_pure initialize_pure transfer_pure mint_pure burn_pure transfer_from_pure
    mint_pure_with_total_supply burn_pure_with_total_supply approve_pure_no_balance_change
    initialize ◌+ℤ◌ ◌-ℤ◌
program = tt

-- A transfer of more than the balance succeeds.
test_overdraft : transfer_pure (pos 1) (pos 0) (pos 5) ≡ ok (negsuc 3, pos 5)
unfolding program
test_overdraft = refl

test_initialize :
    initialize (record { init = some true; admin = none }) ≡ Host.panic "already initialized"
unfolding program
test_initialize = refl

abbrev before : Ledger
before = record { a = pos 10; b = pos 5; total_supply = pos 15 }

abbrev after : Ledger
after = record { a = pos 6; b = pos 4; total_supply = pos 10 }

-- The first holder pays 3 and burns 3, the second pays back 2 and has 2 burnt on its behalf.
steps-IsBacked_example : IsBacked after
unfolding program
steps-IsBacked_example =
    steps-IsBacked {l = before} {m = after}
      (step (transferred (pos 3) refl) (
        step (burnt (pos 3) refl) (
          step (by_other (transferred_from (pos 2) refl))
            (step (by_other (burnt_from (pos 2) refl refl)) done))))
      refl
