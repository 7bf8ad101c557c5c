-- ===== src/Tooling/Patcher/Tests.antt =====
-- Runs of tooling/sanctifier-core/src/patcher.rs at concrete inputs, and the theorems at such inputs.
use Prim.Native.String.{String}
use sanctifier.Base.{ℕ, ◌≡◌, refl, true, some, none, List, [], ◌∷◌, arith}
use sanctifier.Host.{bind, is_some}
use sanctifier.Tooling.Issues.{Patch}
use sanctifier.Tooling.Patcher.{calculate_offsets, replace_range, apply_sorted, apply_patches}
use sanctifier.Tooling.Patcher.Offsets.{position, offsets-position}
use sanctifier.Tooling.Patcher.Order.{apply_planned, apply_sorted-source}

program : Unit {0}
unfolding calculate_offsets replace_range apply_patches
program = tt

abbrev patch : ℕ → ℕ → ℕ → ℕ → String → Patch
patch l c m d text = record {
  start_line = l;
  start_column = c;
  end_line = m;
  end_column = d;
  replacement = text;
  description = "";
}

abbrev source : String
source = "ab\ncd"

-- The first line's end is a position, and so is the end of the text, but not the column after it.
test_offsets :
    (calculate_offsets source (patch 1 2 2 1 "") ≡ some (2, 4))
    × (calculate_offsets source (patch 2 2 2 2 "") ≡ some (5, 5))
    × (calculate_offsets source (patch 2 0 2 3 "") ≡ none)
unfolding program
test_offsets = (refl, refl, refl)

-- Both patches lengthen the text, and each is applied where it was meant.
test_apply :
    apply_patches source (patch 1 0 1 1 "xyz" ∷ patch 2 1 2 2 "uvw" ∷ []) ≡ some "xyzb\ncuvw"
unfolding program
test_apply = refl

offsets-position_example :
    calculate_offsets source (patch 1 2 2 1 "")
    ≡ bind (position 1 2 source) λ a. bind (position 2 1 source) λ b. some (a, b)
offsets-position_example = offsets-position source (patch 1 2 2 1 "")

abbrev sorted : List Patch
sorted = patch 2 1 2 2 "uvw" ∷ patch 1 0 1 1 "xyz" ∷ []

apply_sorted-source_example :
    (apply_sorted sorted source ≡ apply_planned source sorted source)
    × (is_some (apply_sorted sorted source) ≡ true)
unfolding program
apply_sorted-source_example =
    apply_sorted-source source sorted
      (4, 5, refl, omega arith, omega arith, (0, 1, refl, omega arith, omega arith, tt))
