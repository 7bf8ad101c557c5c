-- ===== src/Contracts/Flashloan/Tests.antt =====
-- Runs of contracts/flashloan-token/src/lib.rs at concrete inputs, and the theorems at such inputs.
use sanctifier.Base.{◌≡◌, refl, true, false, some, [], ◌∷◌}
use sanctifier.Base.Int.{ℤ, pos, negsuc, ◌+ℤ◌, ◌-ℤ◌, ◌*ℤ◌, ◌/ℤ◌}
use sanctifier.Host.{Env, ok, panic}
use sanctifier.Contracts.Flashloan
use sanctifier.Contracts.Flashloan.{
  World, Lender, fee_of, not_repaid, reentrancy, amount_not_positive, loaned,
}
use sanctifier.Contracts.Flashloan.Loans.{Repaid, flashloan-Repaid}

program : Unit {0}
unfolding ◌+ℤ◌ ◌-ℤ◌ ◌*ℤ◌ ◌/ℤ◌ fee_of Flashloan.initialize Flashloan.set_fee Flashloan.set_paused
    Flashloan.flashloan
program = tt

-- The state is the lender's balance; the receiver repays the amount, the fee and a tip.
abbrev world : ℤ → World
world tip = record {
  State = ℤ;
  balance = λ token a s. some s;
  transfer = λ token from to amount s. some (s -ℤ amount);
  execute_operation = λ l receiver token amount fee params s. some (s +ℤ amount +ℤ fee +ℤ tip);
}

abbrev env : Env
env = record { current_contract_address = 1; timestamp = 0; sequence = 0; authorised = λ a. true }

abbrev lender : Lender
lender = record {
  admin = some 9;
  fee_bps = some 50;
  paused = some false;
  lock = some false;
  total_fees = some (pos 5);
  total_loans = some 1;
  events = [];
}

abbrev counted : Lender
counted = record lender {
  total_fees = some (pos 57);
  total_loans = some 2;
  events = loaned 7 3 (pos 10_000) (pos 52) ∷ [];
}

lending :
    Flashloan.flashloan (world (pos 2)) env 7 3 (pos 10_000) [] (pos 20_000, lender)
    ≡ ok (pos 52, (pos 20_052, counted))
unfolding program
lending = refl

short :
    Flashloan.flashloan (world (pos 0 -ℤ pos 1)) env 7 3 (pos 10_000) [] (pos 20_000, lender)
    ≡ panic not_repaid
unfolding program
short = refl

nested :
    Flashloan.flashloan
      (world (pos 2))
      env
      7
      3
      (pos 10_000)
      []
      (pos 20_000, record lender { lock = some true })
    ≡ panic reentrancy
unfolding program
nested = refl

refused :
    Flashloan.flashloan (world (pos 2)) env 7 3 (negsuc 4) [] (pos 20_000, lender)
    ≡ panic amount_not_positive
unfolding program
refused = refl

flashloan-Repaid_example :
    Repaid (world (pos 2)) env 7 3 [] (pos 10_000) (pos 52) (pos 20_000) (pos 20_052) lender counted
flashloan-Repaid_example =
    flashloan-Repaid (world (pos 2)) env 7 3 [] (pos 10_000) (pos 52) (pos 20_000) (pos 20_052)
      lender counted lending
