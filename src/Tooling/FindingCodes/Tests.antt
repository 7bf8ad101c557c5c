-- ===== src/Tooling/FindingCodes/Tests.antt =====
-- The codes of the catalogue are distinct, and each belongs to one entry.
use Prim.Native.String.{String}
use text.Mathlib.Text.{◌==◌ as str_eq}
use sanctifier.Base.{Bool, ◌≡◌, refl, false, ◌||◌, List, [], ◌∷◌, length}
use sanctifier.Tooling.FindingCodes.{FindingCode, all_finding_codes}

abbrev has_code : String → List FindingCode → Bool
has_code c [] = false
has_code c (f ∷ fs) = str_eq f.code c || has_code c fs

abbrev has_repeat : List FindingCode → Bool
has_repeat [] = false
has_repeat (f ∷ fs) = has_code f.code fs || has_repeat fs

finding_codes_are_unique : has_repeat all_finding_codes ≡ false
finding_codes_are_unique = refl

codes_number : length all_finding_codes ≡ 22
codes_number = refl
