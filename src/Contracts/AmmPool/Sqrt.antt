-- ===== src/Contracts/AmmPool/Sqrt.antt =====
-- `integer_sqrt` of contracts/amm-pool/src/lib.rs, its loop and its rounding.
use sanctifier.Base.{
  ℕ, zero, suc, ◌+◌, ◌-◌, ◌*◌, ◌/◌, ◌≤◌, ◌<◌, ◌≡◌, refl, some, arith, ◌≢◌, ◌∙◌, ap,
}
use sanctifier.Base.Products.{mul_mono, product_bound, div_bounds, div-lt}
use native.Mathlib.Decide.{dec_le, dec_lt}
use sanctifier.Host.{u128_bound}
use sanctifier.Contracts.AmmPool.Arithmetic.{sqrt_loop, integer_sqrt}

test_sqrt : integer_sqrt 1_000_000_000_000_000_000_000_000 ≡ some 1_000_000_000_000
unfolding integer_sqrt
test_sqrt = refl

test_three : integer_sqrt 3 ≡ some 2
unfolding integer_sqrt
test_three = refl

-- `r` is a nearest integer to the square root of `v`.
abbrev pub IsNearestRoot : ℕ → ℕ → Type 0
IsNearestRoot v r = (r * r ≤ v + r) × (v ≤ r * r + r)

-- A round keeps the upper bound on the value.
round_above :
    (v e : ℕ) → 0 < e → v ≤ (e + v / e + 1) / 2 * ((e + v / e + 1) / 2) + (e + v / e + 1) / 2
round_above v e pos =
    omega
      (arith, div_bounds v e pos, product_bound e (v / e + 1) ((e + v / e + 1) / 2) (omega arith))

quotient_bound : (v e : ℕ) → 0 < e → v ≤ e * e + e → v / e ≤ e + 1
quotient_bound v e pos h = omega (arith, div-lt (e + 2) v e pos (omega arith))

-- Where the loop stops, the estimate is not too high.
stop_below : (v e : ℕ) → 0 < e → e ≤ (e + v / e + 1) / 2 → e * e ≤ v + e
stop_below v e pos h =
    omega (arith, div_bounds v e pos, mul_mono e (v / e + 1) e e (omega arith) (omega arith))

small_estimate : (v e : ℕ) → e ≤ 3 → v ≤ e * e + e → v ≤ 12
small_estimate v e le h = omega (arith, mul_mono e 3 e 3 le le)

quarter_bound : (v e : ℕ) → 4 ≤ e → v / e ≤ v / 4
quarter_bound v e le = omega (
  arith,
  div-lt (v / 4 + 1) v e (omega arith)
      (omega (arith, mul_mono (v / 4 + 1) (v / 4 + 1) 4 e (omega arith) le)),
)

-- The sums of a round stay below 2 ^ 128.
round_fits :
    (v e : ℕ)
    → v + 1 < u128_bound
    → 0 < e
    → 2 * e ≤ v + 2
    → v ≤ e * e + e
    → e + v / e + 1 < u128_bound
round_fits v e fits pos half h = elim (dec_le e 3) [
  | yes small ↦ omega (arith, small_estimate v e small h, quotient_bound v e pos h)
  | no large ↦ omega (arith, quarter_bound v e (omega arith))
]

-- What holds of the two variables of the loop at its test.
record Inv (v e n : ℕ) : Type 0 where
  positive : 0 < n
  half : 2 * n ≤ v + 2
  above : v ≤ n * n + n
  above_estimate : v ≤ e * e + e
  stops : e ≤ n → e * e ≤ v + e

half_bound : (v e : ℕ) → 2 ≤ e → v / e ≤ v / 2
half_bound v e le = omega (
  arith,
  div-lt (v / 2 + 1) v e (omega arith)
      (omega (arith, mul_mono (v / 2 + 1) (v / 2 + 1) 2 e (omega arith) le)),
)

round_half : (v n : ℕ) → 0 < n → 2 * n ≤ v + 2 → 2 * ((n + v / n + 1) / 2) ≤ v + 2
round_half v n pos half = elim (dec_lt 1 n) [
  | yes several ↦ omega (arith, half_bound v n several)
  | no one ↦ omega (arith, div_bounds v n pos, mul_mono (v / n) (v / n) 1 n (omega arith) pos)
]

round-Inv : (v e n : ℕ) → 0 < v → Inv v e n → Inv v n ((n + v / n + 1) / 2)
round-Inv v e n v_pos inv = record {
  positive = omega (arith, inv.positive);
  half = round_half v n inv.positive inv.half;
  above = round_above v n inv.positive;
  above_estimate = inv.above;
  stops = stop_below v n inv.positive;
}

-- A round that is made computes the next estimate without overflow.
sqrt_loop-round :
    (fuel v e n : ℕ)
    → v + 1 < u128_bound
    → n < e
    → Inv v e n
    → sqrt_loop (suc fuel) v e n ≡ sqrt_loop fuel v n ((n + v / n + 1) / 2)
unfolding sqrt_loop
sqrt_loop-round fuel v e n fits more inv =
    ground (arith, round_fits v n fits inv.positive inv.half inv.above, inv.positive)

sqrt_loop-stop : (fuel v e n : ℕ) → e ≤ n → sqrt_loop (suc fuel) v e n ≡ some e
unfolding sqrt_loop
sqrt_loop-stop fuel v e n h = ground arith

sqrt_loop-nearest :
    (fuel v e n : ℕ)
    → 0 < v
    → v + 1 < u128_bound
    → e < fuel
    → Inv v e n
    → (r : ℕ) × (sqrt_loop fuel v e n ≡ some r) × IsNearestRoot v r
sqrt_loop-nearest zero v e n v_pos fits enough inv = elim enough [ ]
sqrt_loop-nearest (suc fuel) v e n v_pos fits enough inv = elim (dec_lt n e) [
  | no stop ↦
      (e, sqrt_loop-stop fuel v e n (omega arith), (inv.stops (omega arith), inv.above_estimate))
  | yes more ↦
      let (r, runs, near) =
        sqrt_loop-nearest fuel v n ((n + v / n + 1) / 2) v_pos fits (omega arith)
          (round-Inv v e n v_pos inv) in
      (r, sqrt_loop-round fuel v e n fits more inv ∙ runs, near)
]

start-Inv : (v : ℕ) → 0 < v → Inv v v ((v + 1) / 2)
start-Inv v pos = record {
  positive = omega arith;
  half = omega arith;
  above =
      omega
        (arith, mul_mono 1 ((v + 1) / 2) ((v + 1) / 2) ((v + 1) / 2) (omega arith) (omega arith));
  above_estimate = omega arith;
  stops = λ le. omega (arith, mul_mono v 1 v v (omega arith) (omega arith));
}

integer_sqrt-start :
    (v : ℕ) → 0 < v → v + 1 < u128_bound → integer_sqrt v ≡ sqrt_loop (v + 1) v v ((v + 1) / 2)
unfolding integer_sqrt
integer_sqrt-start v pos fits = ground arith

-- On every value below 2 ^ 128 - 1 the loop ends, no step of it overflows, and the result `r` is an
-- integer nearest to the square root: r * r - r ≤ v ≤ r * r + r.
pub integer_sqrt-nearest :
    (v : ℕ) → v + 1 < u128_bound → (r : ℕ) × (integer_sqrt v ≡ some r) × IsNearestRoot v r
integer_sqrt-nearest zero fits = (0, unfold integer_sqrt in refl, omega arith)
integer_sqrt-nearest (suc v) fits =
    let (r, runs, near) =
      sqrt_loop-nearest (suc v + 1) (suc v) (suc v) ((suc v + 1) / 2) (omega arith) fits
        (omega arith) (start-Inv (suc v) (omega arith)) in
    (r, integer_sqrt-start (suc v) (omega arith) fits ∙ runs, near)

nearest_below_square : (k s : ℕ) → 1 ≤ k → IsNearestRoot ((k + 1) * (k + 1) - 1) s → s ≡ k + 1
nearest_below_square k zero pos near = absurd (omega (arith, near, mul_mono 1 k 1 k pos pos))
nearest_below_square k (suc m) pos near = elim (dec_lt m k) [
  | yes low ↦ absurd (omega (arith, mul_mono (suc m) k (suc m) k low low))
  | no high ↦ elim (dec_lt k m) [
    | yes too_high ↦
        absurd (omega (arith, mul_mono (k + 1) m (k + 1) m (omega arith) (omega arith)))
    | no here ↦ omega arith
  ]
]

-- On the predecessor of every square above 1 the result is the root of that square, so it is
-- larger than the true square root.
pub integer_sqrt-above_root :
    (k : ℕ)
    → 1 ≤ k
    → (k + 1) * (k + 1) < u128_bound
    → integer_sqrt ((k + 1) * (k + 1) - 1) ≡ some (k + 1)
integer_sqrt-above_root k h fits =
    let v : ℕ = (k + 1) * (k + 1) - 1 in
    let (s, runs, near) = integer_sqrt-nearest v (omega (arith, mul_mono 1 k 1 k h h)) in
    runs ∙ ap some (nearest_below_square k s h near)

-- On 2 ^ 128 - 1 the first step overflows.
integer_sqrt-max : (v r : ℕ) → u128_bound ≤ v + 1 → integer_sqrt v ≢ some r
unfolding integer_sqrt
integer_sqrt-max v r h e = ground arith

nearest_root_fits : (v r : ℕ) → v + 1 < u128_bound → IsNearestRoot v r → r < u128_bound
nearest_root_fits v r fits near = elim (dec_lt r 3) [
  | yes small ↦ omega arith
  | no large ↦ omega (arith, mul_mono 3 r r r (omega arith) (omega arith))
]

-- A result is nearest to the root, and fits in 128 bits.
pub integer_sqrt-some : (v r : ℕ) → integer_sqrt v ≡ some r → IsNearestRoot v r × (r < u128_bound)
integer_sqrt-some v r h = elim (dec_lt (v + 1) u128_bound) [
  | no overflows ↦ absurd (integer_sqrt-max v r (omega arith) h)
  | yes fits ↦
      let (s, runs, near) = integer_sqrt-nearest v fits in
      let e : s ≡ r = cc in (rw e at near, nearest_root_fits v r fits (rw e at near))
]
