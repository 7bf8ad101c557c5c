-- ===== src/Tooling/Severity/Tests.antt =====
-- Runs of the gate of tooling/sanctifier-cli/src/commands/analyze.rs.
use sanctifier.Base.{◌≡◌, refl, true, false, none, some, []}
use sanctifier.Tooling.Severity.{
  Scan, high, is_lowercase_of, from_str, should_exit_with_1, highest_finding_severity,
}

program : Unit {0}
unfolding is_lowercase_of from_str should_exit_with_1 highest_finding_severity
program = tt

test_parse : (from_str "High" ≡ some high) × (from_str "info" ≡ none)
unfolding program
test_parse = (refl, refl)

-- A scan with critical findings only.
abbrev critical_only : Scan
critical_only = record {
  has_critical = true;
  has_high = false;
  has_medium = false;
  has_event_issues = false;
  vuln_severities = [];
  has_timeouts = false;
  has_import_issues = false;
}

-- With the threshold "high" it does not fail.
test_critical_only : should_exit_with_1 true high (highest_finding_severity critical_only) ≡ false
unfolding program
test_critical_only = refl
