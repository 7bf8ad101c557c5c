-- ===== src/Contracts/AmmPool.antt =====
-- contracts/amm-pool/src/lib.rs: the constant-product pool, its storage and its entry points.
pub mod Arithmetic
pub mod Sqrt
pub mod Invariant
pub mod Swap
pub mod Liquidity
pub mod History
mod Tests
use Arithmetic.{
  minimum_liquidity, calculate_initial_liquidity, calculate_liquidity_mint, proportional_amount,
  scaled_ratio, execute_swap,
}
use sanctifier.Base.{
  ℕ, Bool, true, false, ◌&&◌, ◌||◌, Option, none, some, ltb, ◌==◌, ◌!=◌, if◌then◌else◌,
}
use sanctifier.Host.{
  Address, Env, Outcome, ok, ◌>>◌, require_auth, unwrap_or, bind, checked_add, checked_sub,
  saturating_suc,
}

-- No operation raises an error code: `AmmError` is declared and never used.
pub data AmmError : Type 0 where
  zero_amount identical_tokens invalid_pair pool_not_initialized insufficient_liquidity : AmmError
  slippage_exceeded mint_below_minimum locked_liquidity arithmetic_overflow : AmmError

-- The instance storage, a field for each `DataKey`.
pub record Pool : Type 0 where
  pub token_a : Option Address
  pub token_b : Option Address
  pub reserve_a : Option ℕ
  pub reserve_b : Option ℕ
  pub total_supply : Option ℕ
  pub version : Option ℕ

abbrev pub contract_version : ℕ
contract_version = 1

abbrev pub read_pair : Pool → Option (Address × Address)
read_pair p = bind p.token_a λ a. bind p.token_b λ b. some (a, b)

abbrev pub write_pair : Pool → Address → Address → Pool
write_pair p a b = record p { token_a = some a; token_b = some b }

abbrev pub write_pool_state : Pool → ℕ → ℕ → ℕ → Pool
write_pool_state p a b supply = record p {
  reserve_a = some a;
  reserve_b = some b;
  total_supply = some supply;
}

-- The three writes of a first deposit.
abbrev pub seeded : Pool → Address → Address → ℕ → ℕ → ℕ → Pool
seeded p token_a token_b amount_a amount_b supply =
    record (write_pool_state (write_pair p token_a token_b) amount_a amount_b supply) {
      version = some contract_version;
    }

-- The branch of `add_liquidity` on an empty pool. `none` is an early `return 0`.
pub first_deposit : Address → Address → ℕ → ℕ → ℕ → Pool → Option (ℕ × Pool)
first_deposit token_a token_b amount_a amount_b min_lp p =
    bind (calculate_initial_liquidity amount_a amount_b) λ initial_liquidity.
      bind (checked_sub initial_liquidity minimum_liquidity) λ minted.
        if ltb minted min_lp
        then none
        else some (minted, seeded p token_a token_b amount_a amount_b initial_liquidity)

-- The rest of `add_liquidity`, on a pool with a supply.
pub later_deposit : Address → Address → ℕ → ℕ → ℕ → ℕ → Pool → Option (ℕ × Pool)
later_deposit token_a token_b amount_a amount_b min_lp total_supply p = bind (read_pair p) λ pair.
    if pair.0 != token_a || pair.1 != token_b
    then none
    else bind p.reserve_a λ reserve_a. bind p.reserve_b λ reserve_b.
      bind (calculate_liquidity_mint reserve_a reserve_b amount_a amount_b total_supply) λ minted.
        if ltb minted min_lp
        then none
        else bind (checked_add reserve_a amount_a) λ next_reserve_a.
          bind (checked_add reserve_b amount_b) λ next_reserve_b.
            bind (checked_add total_supply minted) λ next_total_supply.
              some (minted, write_pool_state p next_reserve_a next_reserve_b next_total_supply)

pub add_liquidity_body : Address → Address → ℕ → ℕ → ℕ → Pool → Option (ℕ × Pool)
add_liquidity_body token_a token_b amount_a amount_b min_lp p =
    if (amount_a == 0 || amount_b == 0) || token_a == token_b
    then none
    else let total_supply = unwrap_or p.total_supply 0 in
      if total_supply == 0
      then first_deposit token_a token_b amount_a amount_b min_lp p
      else later_deposit token_a token_b amount_a amount_b min_lp total_supply p

pub add_liquidity : Env → Address → Address → ℕ → ℕ → ℕ → Pool → Outcome AmmError (ℕ × Pool)
add_liquidity env token_a token_b amount_a amount_b min_lp p =
    require_auth env env.current_contract_address
    >> ok (unwrap_or (add_liquidity_body token_a token_b amount_a amount_b min_lp p) (0, p))

pub remove_liquidity_body : ℕ → ℕ → ℕ → Pool → Option ((ℕ × ℕ) × Pool)
remove_liquidity_body lp_amount min_a min_b p =
    if lp_amount == 0
    then none
    else bind p.total_supply λ total_supply.
      bind (checked_sub total_supply lp_amount) λ remaining_supply.
        if ltb remaining_supply minimum_liquidity
        then none
        else bind p.reserve_a λ reserve_a. bind p.reserve_b λ reserve_b.
          bind (proportional_amount reserve_a lp_amount total_supply) λ amount_a.
            bind (proportional_amount reserve_b lp_amount total_supply) λ amount_b.
              if ltb amount_a min_a || ltb amount_b min_b
              then none
              else if amount_a == 0 || amount_b == 0
              then none
              else bind (checked_sub reserve_a amount_a) λ next_reserve_a.
                bind (checked_sub reserve_b amount_b) λ next_reserve_b. some (
                  (amount_a, amount_b),
                  write_pool_state p next_reserve_a next_reserve_b remaining_supply,
                )

pub remove_liquidity : Env → ℕ → ℕ → ℕ → Pool → Outcome AmmError ((ℕ × ℕ) × Pool)
remove_liquidity env lp_amount min_a min_b p =
    require_auth env env.current_contract_address
    >> ok (unwrap_or (remove_liquidity_body lp_amount min_a min_b p) ((0, 0), p))

-- The writes of `swap` for `token_in == token_a`: `amount_out` may be the 0 of a refused swap.
pub swap_a : ℕ → ℕ → ℕ → ℕ → Pool → Option (ℕ × Pool)
swap_a reserve_a reserve_b amount_in amount_out p =
    bind (checked_add reserve_a amount_in) λ next_reserve_a.
      bind (checked_sub reserve_b amount_out) λ next_reserve_b. bind p.total_supply λ total_supply.
        some (amount_out, write_pool_state p next_reserve_a next_reserve_b total_supply)

pub swap_b : ℕ → ℕ → ℕ → ℕ → Pool → Option (ℕ × Pool)
swap_b reserve_a reserve_b amount_in amount_out p =
    bind (checked_add reserve_b amount_in) λ next_reserve_b.
      bind (checked_sub reserve_a amount_out) λ next_reserve_a. bind p.total_supply λ total_supply.
        some (amount_out, write_pool_state p next_reserve_a next_reserve_b total_supply)

pub swap_body : Address → ℕ → ℕ → Pool → Option (ℕ × Pool)
swap_body token_in amount_in min_out p =
    if amount_in == 0
    then none
    else bind p.reserve_a λ reserve_a. bind p.reserve_b λ reserve_b. bind (read_pair p) λ pair.
      if token_in == pair.0
      then swap_a reserve_a reserve_b amount_in (execute_swap reserve_a reserve_b amount_in min_out)
          p
      else if token_in == pair.1
      then swap_b reserve_a reserve_b amount_in (execute_swap reserve_b reserve_a amount_in min_out)
          p
      else none

pub swap : Env → Address → ℕ → ℕ → Pool → Outcome AmmError (ℕ × Pool)
swap env token_in amount_in min_out p =
    require_auth env env.current_contract_address
    >> ok (unwrap_or (swap_body token_in amount_in min_out p) (0, p))

pub get_version : Pool → ℕ
get_version p = unwrap_or p.version contract_version

pub migrate : Env → ℕ → Pool → Outcome AmmError (Bool × Pool)
migrate env from_version p =
    require_auth env env.current_contract_address
    >> (let current = unwrap_or p.version contract_version in
        ok (
          if current == from_version
          then (true, record p { version = some (saturating_suc current) })
          else (false, p)))

pub get_price : Address → Address → Pool → ℕ
get_price token_in token_out p =
    unwrap_or
      (bind p.reserve_a λ reserve_a. bind p.reserve_b λ reserve_b. bind (read_pair p) λ pair.
        if token_in == pair.0 && token_out == pair.1
        then scaled_ratio reserve_b reserve_a
        else if token_in == pair.1 && token_out == pair.0
        then scaled_ratio reserve_a reserve_b
        else none)
      0
