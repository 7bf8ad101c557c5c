-- ===== src/Tooling/Rules/Patterns.antt =====
-- What the patterns of custom rules match, in tooling/sanctifier-core/src/custom_yaml_rules.rs.
use Prim.Native.Char.{Char, code}
use Prim.Native.String.{String, ◌++◌ as str_append}
use Prim.Native.String.append
use text.Mathlib.Text.{◌==◌ as str_eq}
use text.Mathlib.TextLemmas.{append-nil}
use text.Mathlib.TextEquality.{Char-path, eq_iff}
use sanctifier.Base.{
  ℕ, true, false, ◌||◌, ◌&&◌, length, ◌≡◌, ◌≢◌, ◌↔◌, refl, sym, ap, ◌∙◌, List, [], ◌∷◌, ◌==◌, arith,
  Bool-cases, inl, inr,
}
use sanctifier.Tooling.Text.{
  contains_code, split_on, starts_with, ends_with, contains_text, trim_matches, is_empty,
}
use sanctifier.Tooling.Rules.{matches_pattern, match_parts}

-- `text` is `first` and something more; something and `last`; or `part` in the middle of something.
abbrev pub BeginsWith : String → String → Type 0
BeginsWith text first = (rest : String) × (text ≡ str_append first rest)

abbrev pub EndsWith : String → String → Type 0
EndsWith text last = (front : String) × (text ≡ str_append front last)

abbrev pub Contains : String → String → Type 0
Contains text part =
    (front : String) × (rest : String) × (text ≡ str_append front (str_append part rest))

is_empty_lem : (s : String) → is_empty s ≡ true → s ≡ ""
is_empty_lem String.[] h = refl
is_empty_lem (String.◌∷◌ c s) h = absurd (ground (arith, h))

starts_with-BeginsWith :
    (text first : String) → starts_with text first ≡ true → BeginsWith text first
starts_with-BeginsWith text String.[] h = (text, sym (append.nil text))
starts_with-BeginsWith String.[] (String.◌∷◌ d p) h = absurd (ground (arith, h))
starts_with-BeginsWith (String.◌∷◌ c s) (String.◌∷◌ d p) h =
    let (rest, e) = starts_with-BeginsWith s p (ground (arith, h)) in
    let same : c ≡ d = Char-path c d (ground (arith, h)) in
    (rest, ap (λ a. String.◌∷◌ a s) same ∙ ap (String.◌∷◌ d) e ∙ sym (append.cons d p rest))

starts_with-append : (first rest : String) → starts_with (str_append first rest) first ≡ true
starts_with-append String.[] rest = refl
starts_with-append (String.◌∷◌ c p) rest =
    rw (append.cons c p rest) (ground (arith, starts_with-append p rest))

ends_with-EndsWith : (text last : String) → ends_with text last ≡ true → EndsWith text last
ends_with-EndsWith String.[] last h = ("", sym (append.nil last ∙ is_empty_lem last h))
ends_with-EndsWith (String.◌∷◌ c s) last h = elim (Bool-cases (str_eq (String.◌∷◌ c s) last)) [
  | inl whole ↦ ("", (eq_iff (String.◌∷◌ c s) last).0 whole ∙ sym (append.nil last))
  | inr part ↦
      let (front, e) = ends_with-EndsWith s last (ground (arith, h, part)) in
      (String.◌∷◌ c front, ap (String.◌∷◌ c) e ∙ sym (append.cons c front last))
]

ends_with_self : (last : String) → ends_with last last ≡ true
ends_with_self String.[] = refl
ends_with_self (String.◌∷◌ c s) =
    let same = (eq_iff (String.◌∷◌ c s) (String.◌∷◌ c s)).1 refl in ground (arith, same)

ends_with-append : (front last : String) → ends_with (str_append front last) last ≡ true
ends_with-append String.[] last = rw (append.nil last) (ends_with_self last)
ends_with-append (String.◌∷◌ c front) last =
    rw (append.cons c front last) (ground (arith, ends_with-append front last))

contains_text-Contains : (text part : String) → contains_text text part ≡ true → Contains text part
contains_text-Contains String.[] part h =
    ("", "", sym (append.nil (str_append part "") ∙ append-nil part ∙ is_empty_lem part h))
contains_text-Contains (String.◌∷◌ c s) part h =
    elim (Bool-cases (starts_with (String.◌∷◌ c s) part)) [
      | inl here ↦
          let (rest, e) = starts_with-BeginsWith (String.◌∷◌ c s) part here in
          ("", rest, e ∙ sym (append.nil (str_append part rest)))
      | inr later ↦
          let (front, rest, e) = contains_text-Contains s part (ground (arith, h, later)) in
          (
            String.◌∷◌ c front,
            rest,
            ap (String.◌∷◌ c) e ∙ sym (append.cons c front (str_append part rest)),
          )
    ]

contains_text-starts_with :
    (text part : String) → starts_with text part ≡ true → contains_text text part ≡ true
contains_text-starts_with String.[] String.[] h = refl
contains_text-starts_with String.[] (String.◌∷◌ d p) h = absurd (ground (arith, h))
contains_text-starts_with (String.◌∷◌ c s) part h = ground (arith, h)

contains_text-append :
    (front part rest : String) → contains_text (str_append front (str_append part rest)) part ≡ true
contains_text-append String.[] part rest =
    rw (append.nil (str_append part rest))
      (contains_text-starts_with (str_append part rest) part (starts_with-append part rest))
contains_text-append (String.◌∷◌ c front) part rest =
    rw (append.cons c front (str_append part rest))
      (ground (arith, contains_text-append front part rest))

split_on_free : (n : ℕ) (s : String) → contains_code n s ≡ false → split_on n s ≡ s ∷ []
split_on_free n String.[] h = refl
split_on_free n (String.◌∷◌ c s) h = ground (arith, h, split_on_free n s (ground (arith, h)))

split_on-append :
    (n : ℕ) (c : Char) (s t : String)
    → (code c == n) ≡ true
    → contains_code n s ≡ false
    → split_on n (str_append s (String.◌∷◌ c t)) ≡ s ∷ split_on n t
split_on-append n c String.[] t h k = rw (append.nil (String.◌∷◌ c t)) (ground (arith, h))
split_on-append n c (String.◌∷◌ d s) t h k =
    rw (append.cons d s (String.◌∷◌ c t))
      (ground (arith, k, split_on-append n c s t h (ground (arith, k))))

contains_code-append :
    (n : ℕ) (s t : String)
    → contains_code n (str_append s t) ≡ (contains_code n s || contains_code n t)
contains_code-append n String.[] t = rw (append.nil t) refl
contains_code-append n (String.◌∷◌ c s) t =
    rw (append.cons c s t) (ground (arith, contains_code-append n s t))

starts_with_iff : (text first : String) → (starts_with text first ≡ true) ↔ BeginsWith text first
starts_with_iff text first =
    (starts_with-BeginsWith text first, λ (rest, e). rw e (starts_with-append first rest))

ends_with_iff : (text last : String) → (ends_with text last ≡ true) ↔ EndsWith text last
ends_with_iff text last =
    (ends_with-EndsWith text last, λ (front, e). rw e (ends_with-append front last))

contains_text_iff : (text part : String) → (contains_text text part ≡ true) ↔ Contains text part
contains_text_iff text part = (
  contains_text-Contains text part,
  λ (front, rest, e). rw e (contains_text-append front part rest),
)

-- What a pattern with one star tests.
matches-parts :
    (text first last : String)
    → contains_code b'*' first ≡ false
    → contains_code b'*' last ≡ false
    → matches_pattern text (str_append first (String.◌∷◌ "*" last))
      ≡ (starts_with text first && ends_with text last)
unfolding matches_pattern
matches-parts text first last h k =
    let starred = contains_code-append b'*' first (String.◌∷◌ "*" last) in
    let pieces =
      split_on-append b'*' "*" first last refl h
      ∙ ap (λ p. first ∷ p) (split_on_free b'*' last k) in
    rw (starred, h, pieces) refl

-- Let `first` and `last` be texts without stars. The pattern `first` matches the texts that contain it, and the
-- pattern of `first`, a star and `last` the texts that begin with the one and end with the other, where the two
-- may overlap.
pub matches_iff :
    (text first last : String)
    → contains_code b'*' first ≡ false
    → contains_code b'*' last ≡ false
    → ((matches_pattern text first ≡ true) ↔ Contains text first)
      × ((matches_pattern text (str_append first (String.◌∷◌ "*" last)) ≡ true)
          ↔ (BeginsWith text first × EndsWith text last))
unfolding matches_pattern
matches_iff text first last h k =
    let part = contains_text_iff text first in
    let begins = starts_with_iff text first in
    let ends = ends_with_iff text last in
    let whole = matches-parts text first last h k in
    (
      (λ m. part.0 (ground (arith, m)), λ c. ground (arith, part.1 c)),
      (
        λ m.
            let both = sym whole ∙ m in
            (begins.0 (ground (arith, both)), ends.0 (ground (arith, both))),
        λ c. whole ∙ ground (arith, begins.1 c.0, ends.1 c.1),
      ),
    )

-- A text that contains another has its characters.
Contains-code :
    (n : ℕ) (text part : String)
    → Contains text part
    → contains_code n part ≡ true
    → contains_code n text ≡ true
Contains-code n text part (front, rest, e) h =
    rw (e, contains_code-append n front (str_append part rest), contains_code-append n part rest, h)
      (ground arith)

match_parts-inner :
    (text pattern : String) (parts : List String)
    → length parts ≢ 2
    → match_parts text pattern parts ≡ contains_text text (trim_matches b'*' pattern)
match_parts-inner text pattern [] h = refl
match_parts-inner text pattern (p ∷ []) h = refl
match_parts-inner text pattern (p ∷ q ∷ []) h = absurd (h refl)
match_parts-inner text pattern (p ∷ q ∷ r ∷ ps) h = refl

-- A pattern with a star that is neither one of the first characters nor of the last, and that is not the only one,
-- matches no text without a star.
pub matches_pattern-inner :
    (text pattern : String)
    → contains_code b'*' pattern ≡ true
    → contains_code b'*' (trim_matches b'*' pattern) ≡ true
    → length (split_on b'*' pattern) ≢ 2
    → contains_code b'*' text ≡ false
    → matches_pattern text pattern ≡ false
unfolding matches_pattern
matches_pattern-inner text pattern starred inner parts free =
    let q = trim_matches b'*' pattern in
    let by_parts = match_parts-inner text pattern (split_on b'*' pattern) parts in
    elim (Bool-cases (contains_text text q)) [
      | inl found ↦
          let has = Contains-code b'*' text q (contains_text-Contains text q found) inner in
          absurd (ground (arith, has, free))
      | inr absent ↦ ground (arith, starred, by_parts, absent)
    ]
