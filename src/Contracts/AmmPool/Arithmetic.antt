-- ===== src/Contracts/AmmPool/Arithmetic.antt =====
-- contracts/amm-pool/src/lib.rs: the pool's arithmetic on u128, with Rust's checked operations.
use sanctifier.Base.{
  ℕ, zero, suc, ◌+◌, true, false, ◌||◌, Option, none, some, ltb, leb, ◌==◌, if◌then◌else◌,
}
use sanctifier.Host.{bind, checked_add, checked_mul, checked_div}

abbrev pub minimum_liquidity : ℕ
minimum_liquidity = 1_000

abbrev pub price_scale : ℕ
price_scale = 1_000_000

abbrev min_u128 : ℕ → ℕ → ℕ
min_u128 left right = if ltb left right then left else right

abbrev pub ceil_half : ℕ → Option ℕ
ceil_half value = bind (checked_add value 1) λ incremented. checked_div incremented 2

-- The `while` of `integer_sqrt`. The estimate falls in each round, so it bounds the rounds.
unfoldable pub sqrt_loop : ℕ → ℕ → ℕ → ℕ → Option ℕ
sqrt_loop zero value estimate next = none
sqrt_loop (suc fuel) value estimate next = elim (ltb next estimate) [
  | true ↦ bind (checked_div value next) λ quotient.
      bind (checked_add next quotient)
        λ sum. bind (ceil_half sum) λ next'. sqrt_loop fuel value next next'
  | false ↦ some estimate
]

unfoldable pub integer_sqrt : ℕ → Option ℕ
unfolding sqrt_loop
integer_sqrt value =
    if value == 0
    then some 0
    else bind (ceil_half value) λ next. sqrt_loop (value + 1) value value next

unfoldable pub calculate_initial_liquidity : ℕ → ℕ → Option ℕ
calculate_initial_liquidity amount_a amount_b = bind (checked_mul amount_a amount_b) integer_sqrt

unfoldable pub calculate_liquidity_mint : ℕ → ℕ → ℕ → ℕ → ℕ → Option ℕ
calculate_liquidity_mint reserve_a reserve_b amount_a amount_b total_supply =
    if reserve_a == 0 || (reserve_b == 0 || total_supply == 0)
    then none
    else bind (bind (checked_mul amount_a total_supply) λ n. checked_div n reserve_a) λ liquidity_a.
      bind (bind (checked_mul amount_b total_supply) λ n. checked_div n reserve_b) λ liquidity_b.
        let minted = min_u128 liquidity_a liquidity_b in if minted == 0 then none else some minted

unfoldable pub calculate_swap_output : ℕ → ℕ → ℕ → Option ℕ
calculate_swap_output reserve_in reserve_out amount_in =
    bind (checked_mul amount_in reserve_out) λ numerator.
      bind (checked_add reserve_in amount_in) λ denominator. checked_div numerator denominator

unfoldable pub proportional_amount : ℕ → ℕ → ℕ → Option ℕ
proportional_amount reserve lp_amount total_supply =
    bind (checked_mul reserve lp_amount) λ numerator. checked_div numerator total_supply

unfoldable pub scaled_ratio : ℕ → ℕ → Option ℕ
scaled_ratio numerator denominator =
    if numerator == 0 || denominator == 0
    then none
    else bind (checked_mul numerator price_scale) λ scaled. checked_div scaled denominator

unfoldable pub execute_swap : ℕ → ℕ → ℕ → ℕ → ℕ
unfolding calculate_swap_output
execute_swap reserve_in reserve_out amount_in min_out =
    if reserve_in == 0 || reserve_out == 0
    then 0
    else elim (calculate_swap_output reserve_in reserve_out amount_in) [
      | none ↦ 0
      | some amount_out ↦
          if ltb amount_out min_out
          then 0
          else if amount_out == 0 || leb reserve_out amount_out
          then 0
          else amount_out
    ]
