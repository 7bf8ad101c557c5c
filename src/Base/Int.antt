-- ===== src/Base/Int.antt =====
-- Signed integers over the native numbers, with Rust's i128 operations on them.
use Prim.Native.Nat.{ℕ, suc, ◌+◌, ◌-◌, ◌*◌, ◌/◌, ◌^◌, ◌≤◌, ◌<◌}
use mathlib.Core.Path.{◌≡◌, refl}
use mathlib.Core.Bool.{Bool, ◌&&◌}
use mathlib.Core.Option.{Option, none, some}
use native.Mathlib.Omega.{arith}
use sanctifier.Base.Tests.{ltb, leb, ◌==◌, if◌then◌else◌}

-- `negsuc n` is -(n + 1).
pub data ℤ : Type 0 where
  pos : ℕ → ℤ
  negsuc : ℕ → ℤ

abbrev pub pos_part : ℤ → ℕ
pos_part (pos n) = n
pos_part (negsuc n) = 0

abbrev pub neg_part : ℤ → ℕ
neg_part (pos n) = 0
neg_part (negsuc n) = suc n

abbrev pub sub_ℕ : ℕ → ℕ → ℤ
sub_ℕ a b = if leb b a then pos (a - b) else negsuc (b - a - 1)

infixl 65 ◌+ℤ◌ ◌-ℤ◌
infixl 70 ◌*ℤ◌ ◌/ℤ◌
infix 50 ◌≤ℤ◌
unfoldable pub ◌+ℤ◌ : ℤ → ℤ → ℤ
a +ℤ b = sub_ℕ (pos_part a + pos_part b) (neg_part a + neg_part b)

unfoldable pub ◌-ℤ◌ : ℤ → ℤ → ℤ
a -ℤ b = sub_ℕ (pos_part a + neg_part b) (neg_part a + pos_part b)

unfoldable pub ◌*ℤ◌ : ℤ → ℤ → ℤ
a *ℤ b =
    sub_ℕ (pos_part a * pos_part b + neg_part a * neg_part b)
      (pos_part a * neg_part b + neg_part a * pos_part b)

abbrev pub magnitude : ℤ → ℕ
magnitude a = pos_part a + neg_part a

-- Division as in Rust: the quotient is cut off towards 0.
unfoldable pub ◌/ℤ◌ : ℤ → ℤ → ℤ
pos a /ℤ b = if neg_part b == 0 then pos (a / pos_part b) else sub_ℕ 0 (a / neg_part b)
negsuc a /ℤ b = if neg_part b == 0 then sub_ℕ 0 (suc a / pos_part b) else pos (suc a / neg_part b)

abbrev pub ◌≤ℤ◌ : ℤ → ℤ → Type 0
a ≤ℤ b = pos_part a + neg_part b ≤ pos_part b + neg_part a

abbrev pub ltb_ℤ : ℤ → ℤ → Bool
ltb_ℤ a b = ltb (pos_part a + neg_part b) (pos_part b + neg_part a)

abbrev pub eqb_ℤ : ℤ → ℤ → Bool
eqb_ℤ a b = (pos_part a + neg_part b) == (pos_part b + neg_part a)

pub +ℤ_parts :
    (a b : ℤ)
    → pos_part (a +ℤ b) + neg_part a + neg_part b ≡ neg_part (a +ℤ b) + pos_part a + pos_part b
unfolding ◌+ℤ◌
+ℤ_parts a b = ground arith

pub -ℤ_parts :
    (a b : ℤ)
    → pos_part (a -ℤ b) + neg_part a + pos_part b ≡ neg_part (a -ℤ b) + pos_part a + neg_part b
unfolding ◌-ℤ◌
-ℤ_parts a b = ground arith

pub eq_of_parts : (a b : ℤ) → pos_part a + neg_part b ≡ pos_part b + neg_part a → a ≡ b
eq_of_parts a b h = ground arith

pub -ℤ_lem : (a b : ℤ) → a -ℤ b ≡ a +ℤ (pos 0 -ℤ b)
unfolding ◌+ℤ◌ ◌-ℤ◌
-ℤ_lem a b = ground arith

pub +ℤ_right_comm : (a b c : ℤ) → a +ℤ b +ℤ c ≡ a +ℤ c +ℤ b
unfolding ◌+ℤ◌
+ℤ_right_comm a b c = ground arith

pub +ℤ_assoc : (a b c : ℤ) → a +ℤ b +ℤ c ≡ a +ℤ (b +ℤ c)
unfolding ◌+ℤ◌
+ℤ_assoc a b c = ground arith

pub +ℤ_cancel : (a b : ℤ) → a -ℤ b +ℤ b ≡ a
unfolding ◌+ℤ◌ ◌-ℤ◌
+ℤ_cancel a b = ground arith

pub +ℤ_zero : (a : ℤ) → a +ℤ pos 0 ≡ a
unfolding ◌+ℤ◌
+ℤ_zero a = ground arith

pub zero_+ℤ : (a : ℤ) → pos 0 +ℤ a ≡ a
unfolding ◌+ℤ◌
zero_+ℤ a = ground arith

pub ruleset int_laws = (arith, +ℤ_parts, -ℤ_parts, eq_of_parts)

-- The range of an i128.
abbrev pub i128_bound : ℕ
i128_bound = 2 ^ 127

abbrev pub is_i128 : ℤ → Bool
is_i128 a = ltb (pos_part a) i128_bound && leb (neg_part a) i128_bound

abbrev pub IsI128 : ℤ → Type 0
IsI128 a = (pos_part a < i128_bound) × (neg_part a ≤ i128_bound)

-- `i128::checked_add`, `checked_sub` and `checked_mul`.
abbrev pub checked_add : ℤ → ℤ → Option ℤ
checked_add a b = let c = a +ℤ b in if is_i128 c then some c else none

abbrev pub checked_sub : ℤ → ℤ → Option ℤ
checked_sub a b = let c = a -ℤ b in if is_i128 c then some c else none

abbrev pub checked_mul : ℤ → ℤ → Option ℤ
checked_mul a b = let c = a *ℤ b in if is_i128 c then some c else none

-- `i128::checked_div`
abbrev pub checked_div : ℤ → ℤ → Option ℤ
checked_div a b =
    if magnitude b == 0 then none else let c = a /ℤ b in if is_i128 c then some c else none

test_division :
    (pos 7 /ℤ pos 2 ≡ pos 3)
    × (negsuc 6 /ℤ pos 2 ≡ negsuc 2)
    × (pos 7 /ℤ negsuc 1 ≡ negsuc 2)
    × (negsuc 6 /ℤ negsuc 1 ≡ pos 3)
unfolding ◌/ℤ◌
test_division = (refl, refl, refl, refl)
