-- ===== src/Contracts/Oracle/Tests.antt =====
-- Runs of contracts/oracle/src/lib.rs at concrete inputs, and the theorems at such inputs.
use sanctifier.Base.{ℕ, ◌≤◌, ◌≡◌, refl, true, none, some, List, [], ◌∷◌}
use sanctifier.Host.{Env, ok, panic}
use sanctifier.Contracts.Oracle
use sanctifier.Contracts.Oracle.{Oracle, count_valid, insufficient_signers, stale_price}
use sanctifier.Contracts.Oracle.Approval.{Signers, update_price-Signers}

program : Unit {0}
unfolding Oracle.init count_valid Oracle.update_price Oracle.get_price
program = tt

abbrev at_time : ℕ → Env
at_time t = record {
  current_contract_address = 1;
  timestamp = t;
  sequence = 0;
  authorised = λ a. true;
}

abbrev oracle : Oracle
oracle = record {
  validators = some (10 ∷ 11 ∷ 12 ∷ []);
  threshold = some 2;
  price_data = none;
  events = [];
}

abbrev priced : Oracle
priced = record oracle {
  price_data = some (record { price = 900; timestamp = 50 });
  events = (900, 50) ∷ [];
}

updating : Oracle.update_price (at_time 60) 900 50 (10 ∷ 10 ∷ 7 ∷ 12 ∷ []) oracle ≡ ok (tt, priced)
unfolding program
updating = refl

repeated :
    Oracle.update_price (at_time 60) 900 50 (10 ∷ 10 ∷ 7 ∷ []) oracle ≡ panic insufficient_signers
unfolding program
repeated = refl

fresh : Oracle.get_price (at_time 60) 10 priced ≡ ok 900
unfolding program
fresh = refl

stale : Oracle.get_price (at_time 61) 10 priced ≡ panic stale_price
unfolding program
stale = refl

update_price-Signers_example :
    (trusted : List ℕ) × (threshold n : ℕ) × (oracle.validators ≡ some trusted)
    × (oracle.threshold ≡ some threshold)
    × Signers (at_time 60) trusted n
    × (threshold ≤ n)
    × (priced.price_data ≡ some (record { price = 900; timestamp = 50 }))
    × (priced.validators ≡ oracle.validators)
    × (priced.threshold ≡ oracle.threshold)
update_price-Signers_example =
    update_price-Signers (at_time 60) 900 50 (10 ∷ 10 ∷ 7 ∷ 12 ∷ []) oracle priced updating
