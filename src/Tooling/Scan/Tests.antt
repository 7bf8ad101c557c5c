-- ===== src/Tooling/Scan/Tests.antt =====
-- Runs of the totals of tooling/sanctifier-cli/src/commands/analyze.rs at concrete inputs.
use sanctifier.Base.{◌≡◌, refl, true, false, ◌&&◌, List, [], ◌∷◌}
use sanctifier.Tooling.Scan.{
  FileAnalysisResult, default, total_findings, has_critical, has_high, run_result,
}
use sanctifier.Tooling.Severity.{critical, high, should_exit_with_1, highest_finding_severity}
use sanctifier.Tooling.Scan.ExitGate.{some_from_threshold, finding_levels, scan_exit_gate}

program : Unit {0}
unfolding total_findings has_critical has_high run_result should_exit_with_1
    highest_finding_severity
program = tt

-- A file that timed out, and one with an auth gap and a panic.
abbrev files : List FileAnalysisResult
files =
    record default { file_path = "a.rs"; timed_out = true }
    ∷ record default {
      auth_gaps = record { function_name = "mint" } ∷ [];
      panic_issues = record { function_name = "f"; issue_type = "index"; location = "b.rs:2" } ∷ [];
    }
    ∷ []

test_totals : (total_findings files ≡ 3) × (has_critical files ≡ true) × (has_high files ≡ true)
unfolding program
test_totals = (refl, refl, refl)

-- A file with a storage collision, and one with an auth gap.
abbrev collided : FileAnalysisResult
collided = record default {
  collisions =
      record { key_value = "K"; key_type = "Symbol"; location = "lib.rs:3"; message = "" } ∷ [];
}

abbrev open_file : FileAnalysisResult
open_file = record default { auth_gaps = record { function_name = "mint" } ∷ [] }

test_collided : run_result true critical (collided ∷ []) ≡ false
unfolding program
test_collided = refl

-- A critical finding passes the threshold `high`, and takes the gate at `critical`.
test_gate :
    (run_result true high (open_file ∷ []) ≡ false)
    × (run_result true critical (open_file ∷ []) ≡ true)
unfolding program
test_gate = (refl, refl)

scan_exit_gate_example :
    run_result true high (collided ∷ open_file ∷ [])
    ≡ (true && some_from_threshold high (finding_levels (collided ∷ open_file ∷ [])))
scan_exit_gate_example = scan_exit_gate true high (collided ∷ open_file ∷ [])
