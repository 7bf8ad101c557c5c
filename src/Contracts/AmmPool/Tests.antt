-- ===== src/Contracts/AmmPool/Tests.antt =====
-- Runs of contracts/amm-pool/src/lib.rs at concrete inputs, and the theorems at such inputs.
use sanctifier.Base.{ℕ, ◌*◌, ◌≤◌, ◌≡◌, refl, true, none, some, List, [], ◌∷◌, arith, inr}
use sanctifier.Host.{Env, ok}
use sanctifier.Contracts.AmmPool.{
  Pool, add_liquidity, add_liquidity_body, first_deposit, later_deposit, remove_liquidity_body,
  swap, swap_body, swap_a, swap_b, write_pool_state, get_price,
}
use sanctifier.Contracts.AmmPool.Arithmetic.{
  integer_sqrt, calculate_initial_liquidity, calculate_liquidity_mint, proportional_amount,
  execute_swap, scaled_ratio,
}
use sanctifier.Contracts.AmmPool.Sqrt.{IsNearestRoot, integer_sqrt-nearest, integer_sqrt-above_root}
use sanctifier.Contracts.AmmPool.Invariant.{Funded}
use sanctifier.Contracts.AmmPool.Swap.{Swapped, Settles, swap_body-product, swap_body-slippage}
use sanctifier.Contracts.AmmPool.Liquidity.{NotDiluted, deposit-withdraw, remove_liquidity_body_lem}
use sanctifier.Contracts.AmmPool.History.{Call, Kept, run, run-Kept}

program : Unit {0}
unfolding integer_sqrt calculate_initial_liquidity calculate_liquidity_mint proportional_amount
    execute_swap scaled_ratio first_deposit later_deposit add_liquidity_body add_liquidity
    remove_liquidity_body swap_a swap_b swap_body swap get_price
program = tt

abbrev unseeded : Pool
unseeded = record {
  token_a = none;
  token_b = none;
  reserve_a = none;
  reserve_b = none;
  total_supply = none;
  version = none;
}

abbrev pool : Pool
pool = record {
  token_a = some 7;
  token_b = some 8;
  reserve_a = some 4_000;
  reserve_b = some 9_000;
  total_supply = some 6_000;
  version = some 1;
}

abbrev env : Env
env = record { current_contract_address = 1; timestamp = 0; sequence = 0; authorised = λ a. true }

seeding : add_liquidity env 7 8 4_000 9_000 0 unseeded ≡ ok (5_000, pool)
unfolding program
seeding = refl

proportional_deposit :
    add_liquidity_body 7 8 400 900 600 pool ≡ some (600, write_pool_state pool 4_400 9_900 6_600)
unfolding program
proportional_deposit = refl

withdrawal :
    remove_liquidity_body 600 0 0 (write_pool_state pool 4_400 9_900 6_600)
    ≡ some ((400, 900), pool)
unfolding program
withdrawal = refl

swap_back : swap env 8 1_000 300 pool ≡ ok (400, write_pool_state pool 3_600 10_000 6_000)
unfolding program
swap_back = refl

price : get_price 7 8 pool ≡ 2_250_000
unfolding program
price = refl

pool-Funded : Funded pool 7 8 4_000 9_000 6_000
pool-Funded = ground arith

integer_sqrt-nearest_example :
    (r : ℕ) × (integer_sqrt 1_000_000_007 ≡ some r) × IsNearestRoot 1_000_000_007 r
integer_sqrt-nearest_example = integer_sqrt-nearest 1_000_000_007 (omega arith)

integer_sqrt-above_root_example : integer_sqrt 999_999 ≡ some 1_000
integer_sqrt-above_root_example = integer_sqrt-above_root 999 (omega arith) (omega arith)

swap_body-product_example :
    (a' : ℕ) × (b' : ℕ) × Funded (write_pool_state pool 5_000 7_200 6_000) 7 8 a' b' 6_000
    × Swapped 7 7 8 4_000 9_000 1_000 1_800 a' b'
    × (4_000 * 9_000 ≤ a' * b')
unfolding program
swap_body-product_example =
    swap_body-product 7 7 8 4_000 9_000 6_000 1_000 0 1_800 pool
      (write_pool_state pool 5_000 7_200 6_000) pool-Funded refl

swap_body-slippage_example :
    (out : ℕ) × (p' : Pool) × (swap_body 8 1_000 401 pool ≡ some (out, p'))
    × Settles 8 7 8 4_000 9_000 6_000 1_000 401 out pool p'
swap_body-slippage_example =
    swap_body-slippage 8 7 8 4_000 9_000 6_000 1_000 401 pool pool-Funded (omega arith)
      (inr (refl, omega arith))

-- The quote is 400.
short_swap : swap_body 8 1_000 401 pool ≡ some (0, write_pool_state pool 4_000 10_000 6_000)
unfolding program
short_swap = refl

remove_liquidity_body_lem_example :
    Funded (write_pool_state pool 3_600 8_100 5_400) 7 8 3_600 8_100 5_400
    × NotDiluted 4_000 9_000 6_000 3_600 8_100 5_400
    × (400 * 6_000 ≤ 4_000 * 600)
    × (900 * 6_000 ≤ 9_000 * 600)
    × (100 ≤ 400)
    × (200 ≤ 900)
unfolding program
remove_liquidity_body_lem_example =
    remove_liquidity_body_lem 7 8 4_000 9_000 6_000 600 100 200 400 900 pool
      (write_pool_state pool 3_600 8_100 5_400) pool-Funded refl

deposit-withdraw_example : (400 ≤ 400) × (900 ≤ 900)
unfolding program
deposit-withdraw_example =
    deposit-withdraw 7 8 7 8 4_000 9_000 6_000 400 900 0 600 0 0 400 900 pool
      (write_pool_state pool 4_400 9_900 6_600) pool pool-Funded refl refl

abbrev calls : List (Env × Call)
calls =
    (env, Call.swap 7 1_000 5_000)
    ∷ (env, Call.add_liquidity 7 8 100 100 0)
    ∷ (env, Call.remove_liquidity 5_500 0 0)
    ∷ (env, Call.migrate 1)
    ∷ []

run-Kept_example : Kept 7 8 4_000 9_000 6_000 (run calls pool)
run-Kept_example = run-Kept calls pool pool-Funded
