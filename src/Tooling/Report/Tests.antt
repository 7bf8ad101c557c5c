-- ===== src/Tooling/Report/Tests.antt =====
-- A run of tooling/sanctifier-cli/src/commands/report.rs at a concrete input.
use sanctifier.Base.{◌≡◌, refl, [], ◌∷◌}
use sanctifier.Tooling.Scan.{FileAnalysisResult, default}
use sanctifier.Tooling.Report.{merge_results, overall, pass, count_findings}

program : Unit {0}
unfolding merge_results overall count_findings
program = tt

-- A file with a storage collision only.
abbrev collided : FileAnalysisResult
collided = record default {
  collisions =
      record { key_value = "K"; key_type = "Symbol"; location = "lib.rs:3"; message = "" } ∷ [];
}

test_collided : (overall (merge_results (collided ∷ [])) ≡ pass) × (count_findings collided ≡ 1)
unfolding program
test_collided = (refl, refl)
