-- ===== src/Tooling/Rules/Registry.antt =====
-- What the registry of tooling/sanctifier-core/src/rules/mod.rs runs.
use Prim.Native.String.{String}
use text.Mathlib.Text.{◌==◌ as str_eq}
use text.Mathlib.TextEquality.{eq_iff}
use mathlib.Core.List.{append-nil}
use sanctifier.Base.{Bool, false, ◌||◌, ◌≡◌, refl, List, [], ◌∷◌, arith}
use sanctifier.Tooling.Rules.{Rule, RuleRegistry, register, run_by_name, available_rules}

abbrev pub has_name : String → List String → Bool
has_name name [] = false
has_name name (n ∷ names) = str_eq n name || has_name name names

-- A registered rule whose name was not taken runs by its name, and it alone.
pub run_by_name-register :
    (r : Rule) (rules : RuleRegistry) (source : String)
    → has_name r.name (available_rules rules) ≡ false
    → run_by_name (register r rules) source r.name ≡ r.check source
unfolding register run_by_name available_rules
run_by_name-register r [] source h =
    let same = (eq_iff r.name r.name).1 refl in rw same (append-nil (r.check source))
run_by_name-register r (x ∷ rules) source h =
    let ih = run_by_name-register r rules source (ground (arith, h)) in ground (arith, h, ih)
