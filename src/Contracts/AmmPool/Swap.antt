-- ===== src/Contracts/AmmPool/Swap.antt =====
-- `swap` of contracts/amm-pool/src/lib.rs: what it does to the reserves and their product.
use sanctifier.Base.{ℕ, ◌+◌, ◌-◌, ◌*◌, ◌/◌, ◌≤◌, ◌<◌, ◌≡◌, ◌≢◌, ◌⊎◌, inl, inr, refl, some, arith}
use sanctifier.Base.Products.{mul_mono, div_bounds, div-lt}
use native.Mathlib.Decide.{ℕ_discrete, dec_lt}
use sanctifier.Host.{Address, u128_bound}
use sanctifier.Contracts.AmmPool.{Pool, swap_a, swap_b, swap_body, write_pool_state}
use sanctifier.Contracts.AmmPool.Arithmetic.{execute_swap}
use sanctifier.Contracts.AmmPool.Invariant.{Funded}

-- The output is 0 or the constant-product quote rounded down, and always below the reserve.
pub execute_swap-below : (r_in r_out x m : ℕ) → 0 < r_out → execute_swap r_in r_out x m < r_out
unfolding execute_swap
execute_swap-below r_in r_out x m pos = ground arith

pub execute_swap-le_quote :
    (r_in r_out x m : ℕ) → execute_swap r_in r_out x m ≤ x * r_out / (r_in + x)
unfolding execute_swap
execute_swap-le_quote r_in r_out x m = ground arith

product_grows_by :
    (r_in x out d : ℕ) → out * (r_in + x) ≤ x * (out + d) → r_in * (out + d) ≤ (r_in + x) * d
product_grows_by r_in x out d h = omega arith

-- The product of the reserves does not fall when the output is at most the quote.
product_grows :
    (r_in r_out x out : ℕ)
    → 0 < r_in
    → out ≤ r_out
    → out ≤ x * r_out / (r_in + x)
    → r_in * r_out ≤ (r_in + x) * (r_out - out)
product_grows r_in r_out x out pos inside le =
    let e : out + (r_out - out) ≡ r_out = omega arith in
    let bound : out * (r_in + x) ≤ x * r_out = omega (
      arith,
      div_bounds (x * r_out) (r_in + x) (omega arith),
      mul_mono out (x * r_out / (r_in + x)) (r_in + x) (r_in + x) le (omega arith),
    ) in
    rw e at (product_grows_by r_in x out (r_out - out) (rw e bound))

-- The output for a swap of `x` into `r_in`, and what is then known of the reserves.
output_facts :
    (r_in r_out x m : ℕ)
    → 0 < r_in
    → 0 < r_out
    → let out = execute_swap r_in r_out x m in
      (out < r_out) × (r_in * r_out ≤ (r_in + x) * (r_out - out))
output_facts r_in r_out x m p q = (
  execute_swap-below r_in r_out x m q,
  product_grows r_in r_out x (execute_swap r_in r_out x m) p
      (omega (arith, execute_swap-below r_in r_out x m q)) (execute_swap-le_quote r_in r_out x m),
)

-- What a completed swap has done: one reserve gained the input, the other lost the output.
pub record Exchanged (r_in r_out x out r_in' r_out' : ℕ) : Type 0 where
  pub gained : r_in' ≡ r_in + x
  pub lost : r_out' + out ≡ r_out

-- The two ways in which a swap ends with a write.
abbrev pub Swapped : (t ta tb : Address) (a b x out a' b' : ℕ) → Type 0
Swapped t ta tb a b x out a' b' =
    ((t ≡ ta) × Exchanged a b x out a' b') ⊎ ((t ≡ tb) × Exchanged b a x out b' a')

module _ (t ta tb : Address) (a b s x m out : ℕ) (p p' : Pool) where
  swap_a-Funded :
      Funded p ta tb a b s
      → t ≡ ta
      → swap_body t x m p ≡ some (out, p')
      → let o = execute_swap a b x m in (out ≡ o) × Funded p' ta tb (a + x) (b - o) s
  unfolding swap_body swap_a
  swap_a-Funded f e h = ground (arith, execute_swap-below a b x m f.b_pos)

  swap_b-Funded :
      Funded p ta tb a b s
      → t ≢ ta
      → swap_body t x m p ≡ some (out, p')
      → let o = execute_swap b a x m in (t ≡ tb) × (out ≡ o) × Funded p' ta tb (a - o) (b + x) s
  unfolding swap_body swap_b
  swap_b-Funded f e h = ground (arith, execute_swap-below b a x m f.a_pos)

  -- A swap that writes to a seeded pool leaves it seeded with the same pair and supply, exchanges
  -- the input for the output, and does not lower the product of the reserves.
  pub swap_body-product :
      Funded p ta tb a b s
      → swap_body t x m p ≡ some (out, p')
      → (a' : ℕ) × (b' : ℕ) × Funded p' ta tb a' b' s
        × Swapped t ta tb a b x out a' b'
        × (a * b ≤ a' * b')
  swap_body-product f h = elim (ℕ_discrete t ta) [
    | yes e ↦
        let (eo, f') = swap_a-Funded f e h in
        let facts = output_facts a b x m f.a_pos f.b_pos in
        (
          a + x,
          b - execute_swap a b x m,
          f',
          inl (e, record { gained = refl; lost = omega (arith, facts) }),
          facts.1,
        )
    | no ne ↦
        let (e, eo, f') = swap_b-Funded f ne h in
        let facts = output_facts b a x m f.b_pos f.a_pos in
        (
          a - execute_swap b a x m,
          b + x,
          f',
          inr (e, record { gained = refl; lost = omega (arith, facts) }),
          omega (arith, facts),
        )
  ]

-- What a swap pays for `x` out of `r_out`: the quote, when it can be computed, is positive and reaches the minimum,
-- and otherwise nothing.
pub data Pays (r_in r_out x m : ℕ) (out : ℕ) : Type 0 where
  paid_quote :
      x * r_out < u128_bound
      → out ≡ x * r_out / (r_in + x)
      → 0 < out
      → m ≤ out
      → Pays r_in r_out x m out
  below_minimum : out ≡ 0 → x * r_out / (r_in + x) < m → Pays r_in r_out x m out
  no_quote : out ≡ 0 → x * r_out / (r_in + x) ≡ 0 → Pays r_in r_out x m out
  too_large : out ≡ 0 → u128_bound ≤ x * r_out → Pays r_in r_out x m out

execute_swap-quote :
    (r_in r_out x m : ℕ)
    → 0 < r_in
    → 0 < r_out
    → r_in + x < u128_bound
    → x * r_out < u128_bound
    → 0 < x * r_out / (r_in + x)
    → m ≤ x * r_out / (r_in + x)
    → execute_swap r_in r_out x m ≡ x * r_out / (r_in + x)
unfolding execute_swap
execute_swap-quote r_in r_out x m p q fits fits' some_out enough = ground (
  arith,
  div-lt r_out (x * r_out) (r_in + x) (omega arith) (omega (arith, p, mul_mono 1 r_in 1 r_out p q)),
)

execute_swap-Pays :
    (r_in r_out x m : ℕ)
    → 0 < r_in
    → 0 < r_out
    → r_in + x < u128_bound
    → Pays r_in r_out x m (execute_swap r_in r_out x m)
unfolding execute_swap
execute_swap-Pays r_in r_out x m p q fits = elim (dec_lt (x * r_out) u128_bound) [
  | no large ↦ too_large (ground arith) (omega arith)
  | yes small ↦ elim (dec_lt (x * r_out / (r_in + x)) m) [
    | yes short ↦ below_minimum (ground arith) short
    | no enough ↦ elim (ℕ_discrete (x * r_out / (r_in + x)) 0) [
      | yes zero ↦ no_quote (ground arith) zero
      | no more ↦
          let e =
            execute_swap-quote r_in r_out x m p q fits small (omega (arith, more)) (omega arith) in
          paid_quote small e (omega (arith, more)) (omega arith)
    ]
  ]
]

-- How a swap of `x` of the token `t` settles: the reserve of `t` gains `x`, the other one loses what the swap
-- pays.
abbrev pub Settles : (t ta tb : Address) (a b s x m out : ℕ) (p p' : Pool) → Type 0
Settles t ta tb a b s x m out p p' =
    ((t ≡ ta) × Pays a b x m out × (p' ≡ write_pool_state p (a + x) (b - out) s))
    ⊎ ((t ≡ tb) × Pays b a x m out × (p' ≡ write_pool_state p (a - out) (b + x) s))

-- A swap of a positive amount of either token of a seeded pool, which leaves the grown reserve in 128 bits, is
-- written: the pool keeps the input, and pays the quote when the product for it fits in 128 bits and the quote
-- is positive and at least `min_out`. Otherwise the caller gets 0 for the input.
pub swap_body-slippage :
    (t ta tb : Address) (a b s x m : ℕ) (p : Pool)
    → Funded p ta tb a b s
    → 0 < x
    → ((t ≡ ta) × (a + x < u128_bound)) ⊎ ((t ≡ tb) × (b + x < u128_bound))
    → (out : ℕ) × (p' : Pool) × (swap_body t x m p ≡ some (out, p'))
      × Settles t ta tb a b s x m out p p'
unfolding swap_body swap_a swap_b
swap_body-slippage t ta tb a b s x m p f pos (inl (e, fits)) =
    let out = execute_swap a b x m in
    (
      out,
      write_pool_state p (a + x) (b - out) s,
      ground (arith, execute_swap-below a b x m f.b_pos),
      inl (e, execute_swap-Pays a b x m f.a_pos f.b_pos fits, refl),
    )
swap_body-slippage t ta tb a b s x m p f pos (inr (e, fits)) =
    let out = execute_swap b a x m in
    (
      out,
      write_pool_state p (a - out) (b + x) s,
      ground (arith, execute_swap-below b a x m f.a_pos, f.distinct),
      inr (e, execute_swap-Pays b a x m f.b_pos f.a_pos fits, refl),
    )

-- At the swap's own quote the caller gets that quote: no swap on a seeded pool with a positive
-- quote and room for the sums is refused.
pub swap_body-exact :
    (ta tb : Address) (a b s x m : ℕ) (p : Pool)
    → Funded p ta tb a b s
    → 0 < x
    → a + x < u128_bound
    → x * b < u128_bound
    → 0 < x * b / (a + x)
    → m ≤ x * b / (a + x)
    → swap_body ta x m p
      ≡ some (x * b / (a + x), write_pool_state p (a + x) (b - x * b / (a + x)) s)
unfolding swap_body swap_a execute_swap
swap_body-exact ta tb a b s x m p f pos fits fits' quote fair = ground (
  arith,
  div-lt b (x * b) (a + x) (omega arith) (omega (arith, f.a_pos, mul_mono 1 a 1 b f.a_pos f.b_pos)),
)
