-- ===== src/Contracts/AmmPool/Invariant.antt =====
-- The well-formed storages of contracts/amm-pool/src/lib.rs.
use sanctifier.Base.{ℕ, ◌≤◌, ◌<◌, ◌≡◌, ◌≢◌, none, some}
use sanctifier.Host.{Address, u128_bound}
use sanctifier.Contracts.AmmPool.{Pool}
use sanctifier.Contracts.AmmPool.Arithmetic.{minimum_liquidity}

-- A pool that has been seeded: its pair, two positive reserves, and a supply with the locked part.
pub record Funded (p : Pool) (ta tb : Address) (a b s : ℕ) : Type 0 where
  pub first : p.token_a ≡ some ta
  pub second : p.token_b ≡ some tb
  pub distinct : ta ≢ tb
  pub reserve_a : p.reserve_a ≡ some a
  pub reserve_b : p.reserve_b ≡ some b
  pub supply : p.total_supply ≡ some s
  pub a_pos : 0 < a
  pub b_pos : 0 < b
  pub locked : minimum_liquidity ≤ s
  pub a_fits : a < u128_bound
  pub b_fits : b < u128_bound
  pub s_fits : s < u128_bound

pub record IsEmpty (p : Pool) : Type 0 where
  pub no_pair : (p.token_a ≡ none) × (p.token_b ≡ none)
  pub no_reserves : (p.reserve_a ≡ none) × (p.reserve_b ≡ none)
  pub no_supply : p.total_supply ≡ none

pub data IsWellFormed (p : Pool) : Type 0 where
  empty : IsEmpty p → IsWellFormed p
  funded : (ta tb : Address) (a b s : ℕ) → Funded p ta tb a b s → IsWellFormed p
