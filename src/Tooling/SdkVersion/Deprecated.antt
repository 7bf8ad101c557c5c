-- ===== src/Tooling/SdkVersion/Deprecated.antt =====
-- Which versions tooling/sanctifier-core/src/sdk_version.rs calls deprecated, and what it warns of.
use Prim.Native.Char.{Char, code}
use Prim.Native.String.append
use Prim.Native.String.{String, ◌++◌ as str_append}
use sanctifier.Base.{
  ℕ, ◌≤◌, ◌≡◌, refl, Bool, true, false, some, List, [], ◌∷◌, length, leb, ◌==◌, arith,
}
use sanctifier.Tooling.Text.{split_on, split_first, contains_code}
use sanctifier.Tooling.SdkVersion.{
  number, analyze_parts, analyze_version, outdated_warnings, deprecated_warnings, quoted,
}

-- Whether the first of at least two pieces reads as a number of at most 20, or as no number.
abbrev pub is_old : List String → Bool
is_old [] = false
is_old (part ∷ []) = false
is_old (first ∷ second ∷ parts) = leb (number first) 20

-- A version is deprecated exactly when it has a dot and what stands before its first dot is a number of at most 20,
-- or no number at all, such as `^21`.
pub deprecated-analyze :
    (version : String) → (analyze_version version).is_deprecated ≡ is_old (split_on b'.' version)
unfolding analyze_version
deprecated-analyze version = of_parts (split_on b'.' version)
  where
    of_parts : (parts : List String) → (analyze_parts version parts).is_deprecated ≡ is_old parts
    of_parts [] = refl
    of_parts (part ∷ []) = refl
    of_parts (first ∷ second ∷ parts) = ground arith

-- Each deprecated version has a warning.
pub deprecated-warned :
    (version : String)
    → (analyze_version version).is_deprecated ≡ true
    → 1 ≤ length (analyze_version version).warnings
unfolding analyze_version outdated_warnings deprecated_warnings
deprecated-warned version = of_parts (split_on b'.' version)
  where
    of_parts :
        (parts : List String)
        → (analyze_parts version parts).is_deprecated ≡ true
        → 1 ≤ length (analyze_parts version parts).warnings
    of_parts [] h = absurd (ground arith)
    of_parts (part ∷ []) h = absurd (ground arith)
    of_parts (first ∷ second ∷ parts) h = ground arith

-- A text without the separator, and one after it.
split_first-append :
    (n : ℕ) (c : Char) (s t : String)
    → (code c == n) ≡ true
    → contains_code n s ≡ false
    → split_first n (str_append s (String.◌∷◌ c t)) ≡ some (s, t)
split_first-append n c String.[] t h k = rw (append.nil (String.◌∷◌ c t)) (ground (arith, h))
split_first-append n c (String.◌∷◌ d s) t h k =
    rw (append.cons d s (String.◌∷◌ c t)) (ground (arith, split_first-append n c s t h))

-- The version of a line is what stands between its first two quotes: from a line of any text without quotes, a quote,
-- the version, a quote and any text it is read back.
pub quoted-version :
    (before version after : String)
    → contains_code b'"' before ≡ false
    → contains_code b'"' version ≡ false
    → quoted (str_append before (String.◌∷◌ "\"" (str_append version (String.◌∷◌ "\"" after))))
      ≡ some version
quoted-version before version after h k =
    rw
      (
        split_first-append b'"' "\"" before (str_append version (String.◌∷◌ "\"" after)) refl h,
        split_first-append b'"' "\"" version after refl k,
      )
      refl
