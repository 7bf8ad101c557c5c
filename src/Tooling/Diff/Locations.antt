-- ===== src/Tooling/Diff/Locations.antt =====
-- Locations of tooling/sanctifier-cli/src/commands/diff.rs, without their line numbers.
use Prim.Native.Char.{Char, code}
use Prim.Native.String.append
use Prim.Native.String.{String, ◌++◌ as str_append}
use sanctifier.Base.{◌≡◌, refl, true, false, not, ◌&&◌, none, some, ◌==◌, arith}
use sanctifier.Tooling.Diff.{split_last, all_digits, is_blank, strip_line_number}

split_last-digits : (t : String) → all_digits t ≡ true → split_last t ≡ none
unfolding split_last all_digits
split_last-digits String.[] h = refl
split_last-digits (String.◌∷◌ c s) h = ground (arith, split_last-digits s)

split_last-colon :
    (c : Char) (s : String)
    → split_last s ≡ none
    → (code c == b':') ≡ true
    → split_last (String.◌∷◌ c s) ≡ some ("", s)
unfolding split_last
split_last-colon c s h colon = ground arith

-- The last colon is the one before the digits.
split_last-append :
    (s t : String)
    → all_digits t ≡ true
    → split_last (str_append s (str_append ":" t)) ≡ some (s, t)
unfolding split_last
split_last-append String.[] t h =
    rw (append.nil (str_append ":" t), append.cons ":" "" t, append.nil t)
      (split_last-colon ":" t (split_last-digits t h) refl)
split_last-append (String.◌∷◌ c s) t h =
    rw (append.cons c s (str_append ":" t)) (ground (arith, split_last-append s t h))

-- A location that ends in a colon and a line number loses both, whatever it holds before them.
pub strip-line :
    (loc line : String)
    → all_digits line ≡ true
    → is_blank line ≡ false
    → strip_line_number (str_append loc (str_append ":" line)) ≡ loc
unfolding strip_line_number
strip-line loc line digits filled =
    rw (strip_line_number, split_last-append loc line digits, digits, filled) refl

-- A location without a colon, or with something other than a number after its last colon, is kept.
pub strip_kept :
    (loc head tail : String)
    → split_last loc ≡ some (head, tail)
    → (not (is_blank tail) && all_digits tail) ≡ false
    → strip_line_number loc ≡ loc
unfolding strip_line_number
strip_kept loc head tail h other = rw (strip_line_number, h, other) refl
