-- ===== src/Contracts/Token/Tests.antt =====
-- Runs of contracts/my-contract/src/lib.rs at concrete inputs, and the theorems at such inputs.
use sanctifier.Base.{◌≡◌, refl, true, none, List, [], ◌∷◌, arith}
use sanctifier.Base.Int.{pos, neg_part, ◌+ℤ◌, ◌-ℤ◌}
use sanctifier.Host.{Env, ok, panic}
use sanctifier.Contracts.Token
use sanctifier.Contracts.Token.{
  Ledger, balance, set_balance, set_allowance, insufficient_balance, allowance_expired,
}
use sanctifier.Contracts.Token.Transfers.{
  MovedOrCredited, transfer_self, Spent, transfer_from-Spent,
}
use sanctifier.Contracts.Token.Supply.{Call, apply, run, issued, run_issued, total, run-supply}

program : Unit {0}
unfolding ◌+ℤ◌ ◌-ℤ◌ Token.initialize Token.mint Token.approve Token.transfer Token.transfer_from
    Token.burn Token.burn_from apply run issued run_issued total
program = tt

abbrev env : Env
env = record { current_contract_address = 1; timestamp = 0; sequence = 50; authorised = λ a. true }

abbrev blank : Ledger
blank = record {
  admin = none;
  decimals = none;
  name = none;
  symbol = none;
  balances = λ a. none;
  allowances = λ a b. none;
}

-- Account 5 owns 100 tokens, and lets 7 draw 40 of them until ledger 60.
abbrev ledger : Ledger
ledger =
    set_allowance 5 7 (record { amount = pos 40; expiration_ledger = 60 })
      (set_balance 5 (pos 100) blank)

abbrev paid : Ledger
paid = set_balance 6 (pos 30) (set_balance 5 (pos 70) ledger)

paying : Token.transfer env 5 6 (pos 30) ledger ≡ ok (tt, paid)
unfolding program
paying = refl

paying_too_much : Token.transfer env 5 6 (pos 130) ledger ≡ panic insufficient_balance
unfolding program
paying_too_much = refl

paying_late :
    Token.transfer_from (record env { sequence = 61 }) 7 5 6 (pos 30) ledger
    ≡ panic allowance_expired
unfolding program
paying_late = refl

-- The account ends with twice what it owned.
abbrev doubled : Ledger
doubled = set_balance 5 (pos 200) (set_balance 5 (pos 0) ledger)

paying_oneself : Token.transfer env 5 5 (pos 100) ledger ≡ ok (tt, doubled)
unfolding program
paying_oneself = refl

transfer_self_example : balance doubled 5 ≡ balance ledger 5 +ℤ pos 100
transfer_self_example = transfer_self env 5 (pos 100) ledger doubled paying_oneself

abbrev drawn : Ledger
drawn = set_balance 6 (pos 30) (
    set_balance 5 (pos 70)
      (set_allowance 5 7 (record { amount = pos 10; expiration_ledger = 60 }) ledger))

drawing : Token.transfer_from env 7 5 6 (pos 30) ledger ≡ ok (tt, drawn)
unfolding program
drawing = refl

transfer_from-Spent_example :
    (true ≡ true)
    × (neg_part (pos 30) ≡ 0)
    × Spent env 7 5 (pos 30) ledger drawn
    × MovedOrCredited 5 6 (pos 30) ledger drawn
transfer_from-Spent_example = transfer_from-Spent env 7 5 (pos 30) ledger drawn 6 drawing

abbrev burnt : Ledger
burnt =
    set_balance 5 (pos 70)
      (set_allowance 5 7 (record { amount = pos 10; expiration_ledger = 60 }) ledger)

burning : Token.burn_from env 7 5 (pos 30) ledger ≡ ok (tt, burnt)
unfolding program
burning = refl

abbrev calls : List (Env × Call)
calls =
    (env, Call.initialize 9 7 "Gold" "GLD")
    ∷ (env, Call.mint 5 (pos 100))
    ∷ (env, Call.transfer 5 6 (pos 30))
    ∷ (env, Call.approve 5 7 (pos 40) 60)
    ∷ (env, Call.burn_from 7 5 (pos 15))
    ∷ (env, Call.burn 6 (pos 31))
    ∷ []

issuing : run_issued calls blank ≡ pos 85
unfolding program
issuing = refl

run-supply_example :
    total (5 ∷ 6 ∷ []) (run calls blank) ≡ total (5 ∷ 6 ∷ []) blank +ℤ run_issued calls blank
run-supply_example =
    run-supply (5 ∷ 6 ∷ []) (refl, (refl, tt)) calls blank
      (tt, (refl, ((refl, refl, λ e. ground arith), (tt, (refl, (refl, tt))))))
