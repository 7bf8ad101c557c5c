-- ===== src/Base/Products.antt =====
-- Orders between products of natural numbers, which linear arithmetic does not reach alone.
use Prim.Native.Nat.{ℕ, ◌+◌, ◌-◌, ◌*◌, ◌/◌, ◌≤◌, ◌<◌}
use mathlib.Core.Path.{◌≡◌}
use mathlib.Core.Logic.{inl, inr, ◌⊎◌}
use native.Mathlib.Omega.{arith}
use native.Mathlib.Decide.{dec_le}
use native.Mathlib.Nat.{div-mul-le_self, lt-div-mul-add, le-div_iff_mul-le, div-lt_iff_lt-mul}

pub mul_mono : (a b c d : ℕ) → a ≤ b → c ≤ d → a * c ≤ b * d
mul_mono a b c d h k = grind arith

pub le_total : (a b : ℕ) → (a ≤ b) ⊎ (b ≤ a)
le_total a b = omega arith

product_of_close : (x d t : ℕ) → d ≤ 2 * t + 1 → x * (x + d) ≤ (x + t) * (x + t) + (x + t)
product_of_close x d t h = omega (arith, mul_mono x x d (2 * t + 1) (omega arith) h)

product_bound_ordered : (x y n : ℕ) → x ≤ y → x + y ≤ 2 * n + 1 → x * y ≤ n * n + n
product_bound_ordered x y n le h =
    let p : x * (x + (y - x)) ≤ (x + (n - x)) * (x + (n - x)) + (x + (n - x)) =
      product_of_close x (y - x) (n - x) (omega arith) in
    let ey : x + (y - x) ≡ y = omega arith in
    let en : x + (n - x) ≡ n = omega arith in rw en at (rw ey at p)

-- Numbers with a sum of at most 2n + 1 have a product of at most n(n + 1).
pub product_bound : (x y n : ℕ) → x + y ≤ 2 * n + 1 → x * y ≤ n * n + n
product_bound x y n h = elim (le_total x y) [
  | inl p ↦ product_bound_ordered x y n p h
  | inr p ↦ omega (arith, product_bound_ordered y x n p (omega arith))
]

-- What division by a positive number means, in products.
pub div_bounds : (v e : ℕ) → 0 < e → (v / e * e ≤ v) × (v < v / e * e + e)
div_bounds v e pos = (div-mul-le_self v e, lt-div-mul-add pos)

-- A number is at most a quotient, or above it, exactly as its product says.
pub le-div : (k v e : ℕ) → 0 < e → k * e ≤ v → k ≤ v / e
le-div k v e pos h = (le-div_iff_mul-le pos).1 h

pub product-le_div : (k v e : ℕ) → 0 < e → k ≤ v / e → k * e ≤ v
product-le_div k v e pos h = (le-div_iff_mul-le pos).0 h

pub div-lt : (k v e : ℕ) → 0 < e → v < k * e → v / e < k
div-lt k v e pos h = (div-lt_iff_lt-mul pos).1 h

-- A common positive factor can be dropped from an order.
pub mul-cancel : (a b c : ℕ) → 0 < c → a * c ≤ b * c → a ≤ b
mul-cancel a b c pos h = elim (dec_le a b) [
  | yes le ↦ le
  | no more ↦ absurd (omega (arith, mul_mono (b + 1) a c c (omega arith) (omega arith)))
]

-- Orders between fractions compose, when the middle denominator is positive.
pub fraction_trans : (a b c p q r : ℕ) → 0 < q → a * q ≤ b * p → b * r ≤ c * q → a * r ≤ c * p
fraction_trans a b c p q r pos h k = mul-cancel (a * r) (c * p) q pos (
    omega (
      arith,
      mul_mono (a * q) (b * p) r r h (omega arith),
      mul_mono (b * r) (c * q) p p k (omega arith),
    ))

-- Orders between fractions multiply.
pub fraction_mul :
    (a b c d p q : ℕ) → a * q ≤ c * p → b * q ≤ d * p → a * b * (q * q) ≤ c * d * (p * p)
fraction_mul a b c d p q h k = omega (arith, mul_mono (a * q) (c * p) (b * q) (d * p) h k)
