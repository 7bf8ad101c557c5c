-- ===== src/Contracts/Messages/Bytes.antt =====
-- Reading from a buffer in contracts/my-contract/src/cross_contract.rs: slices and little-endian numbers.
use sanctifier.Base.{
  take, drop, ℕ, zero, suc, ◌+◌, ◌*◌, ◌/◌, ◌%◌, ◌^◌, ◌<◌, ◌≡◌, refl, ap, ◌∙◌, some, List, [], ◌∷◌,
  ◌++◌, length, length-append, arith,
}
use native.Mathlib.Numerals.{unary_clauses}
use sanctifier.Base.Products.{div-lt}
use sanctifier.Host.{u32_bound}
use sanctifier.Contracts.Messages.{read_bytes, le_value}

take-append : (xs ys : List ℕ) → take (length xs) (xs ++ ys) ≡ xs
take-append [] ys = refl
take-append (x ∷ xs) ys = ap (λ zs. x ∷ zs) (take-append xs ys)

suc_first : (n k : ℕ) → suc n + k ≡ suc (n + k)
suc_first n k = omega arith

drop-append : (xs ys : List ℕ) (k : ℕ) → drop (length xs + k) (xs ++ ys) ≡ drop k ys
drop-append [] ys k = ap (λ m. drop m ys) (omega arith)
drop-append (x ∷ xs) ys k =
    ap (λ m. drop m (x ∷ (xs ++ ys))) (suc_first (length xs) k) ∙ drop-append xs ys k

-- A field at the front of the buffer is read.
pub read_bytes-here :
    (xs ys : List ℕ) → length xs < u32_bound → read_bytes (length xs) (xs ++ ys) 0 ≡ some xs
unfolding read_bytes
read_bytes-here xs ys fits = ground (arith, length-append xs ys, take-append xs ys)

-- What stands before the field is skipped.
pub read_bytes-skip :
    (xs ys : List ℕ) (n k : ℕ)
    → length xs + k + n < u32_bound
    → read_bytes n (xs ++ ys) (length xs + k) ≡ read_bytes n ys k
unfolding read_bytes
read_bytes-skip xs ys n k fits = ground (arith, length-append xs ys, drop-append xs ys k)

-- The little-endian bytes of a number.
unfoldable pub le_bytes : ℕ → ℕ → List ℕ
le_bytes zero n = []
le_bytes (suc k) n = n % 256 ∷ le_bytes k (n / 256)

pub length-le_bytes : (k n : ℕ) → length (le_bytes k n) ≡ k
unfolding le_bytes
length-le_bytes zero n = refl
length-le_bytes (suc k) n = omega (arith, length-le_bytes k (n / 256))

power_step : (k n : ℕ) → n < 256 ^ suc k → n < 256 ^ k * 256
power_step k n h = omega (arith, simp unary_clauses at h)

pub le_value-le_bytes : (k n : ℕ) → n < 256 ^ k → le_value (le_bytes k n) ≡ n
unfolding le_value le_bytes
le_value-le_bytes zero n h = omega arith
le_value-le_bytes (suc k) n h =
    omega (
      arith,
      le_value-le_bytes k (n / 256) (div-lt (256 ^ k) n 256 (omega arith) (power_step k n h)),
    )
