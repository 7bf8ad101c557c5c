-- ===== src/Tooling/Scan.antt =====
-- tooling/sanctifier-cli/src/commands/analyze.rs: the results of the files of a scan, put together.
pub mod ExitGate
pub mod Files
pub mod Totals
mod Tests
use Prim.Native.String.{String}
use sanctifier.Base.{
  ℕ, ◌+◌, Bool, true, false, not, ◌&&◌, ◌||◌, Option, none, some, List, [], ◌∷◌, ◌++◌, length, ◌==◌,
}
use sanctifier.Tooling.Severity.{
  SeverityLevel, from_str, highest_finding_severity, should_exit_with_1,
}
use sanctifier.Tooling.Severity
use sanctifier.Tooling.Issues.{
  SizeWarning, PanicIssue, UnsafePattern, UpgradeReport, ArithmeticIssue, TruncationBoundsIssue,
  StorageCollisionIssue, ContractImportMismatchIssue, EventIssue, UnhandledResultIssue,
  CustomRuleMatch, AuthGapIssue, SmtInvariantIssue, Sep41Issue, RuleViolation, VulnMatch,
  FindingSeverity, is_critical, is_high, size_warning_severity, panic_severity,
  unsafe_pattern_severity, upgrade_finding_severity, arithmetic_severity, truncation_severity,
  event_severity, unhandled_severity, auth_gap_severity, sep41_severity,
}

pub record FileAnalysisResult : Type 0 where
  pub file_path : String
  pub collisions : List StorageCollisionIssue
  pub size_warnings : List SizeWarning
  pub unsafe_patterns : List UnsafePattern
  pub auth_gaps : List AuthGapIssue
  pub panic_issues : List PanicIssue
  pub arithmetic_issues : List ArithmeticIssue
  pub custom_matches : List CustomRuleMatch
  pub vuln_matches : List VulnMatch
  pub event_issues : List EventIssue
  pub unhandled_results : List UnhandledResultIssue
  pub upgrade_reports : List UpgradeReport
  pub smt_issues : List SmtInvariantIssue
  pub truncation_bounds_issues : List TruncationBoundsIssue
  pub sep41_checked_contracts : List String
  pub sep41_issues : List Sep41Issue
  pub contractimport_issues : List ContractImportMismatchIssue
  pub variable_shadowing_violations : List RuleViolation
  pub timed_out : Bool

-- `FileAnalysisResult::default()`
abbrev pub default : FileAnalysisResult
default = record {
  file_path = "";
  collisions = [];
  size_warnings = [];
  unsafe_patterns = [];
  auth_gaps = [];
  panic_issues = [];
  arithmetic_issues = [];
  custom_matches = [];
  vuln_matches = [];
  event_issues = [];
  unhandled_results = [];
  upgrade_reports = [];
  smt_issues = [];
  truncation_bounds_issues = [];
  sep41_checked_contracts = [];
  sep41_issues = [];
  contractimport_issues = [];
  variable_shadowing_violations = [];
  timed_out = false;
}

-- The `extend` of one section with every file's.
abbrev pub gather : {A : Type 0} → (FileAnalysisResult → List A) → List FileAnalysisResult → List A
gather section [] = []
gather section (r ∷ rs) = section r ++ gather section rs

-- `if r.timed_out { timed_out_files.push(r.file_path) }`
abbrev pub timed_out_file : FileAnalysisResult → List String
timed_out_file r = elim r.timed_out [ true ↦ r.file_path ∷ [] | false ↦ [] ]

-- `upgrade_reports.iter().map(|r| r.findings.len()).sum()`
abbrev pub upgrade_total : List UpgradeReport → ℕ
upgrade_total [] = 0
upgrade_total (r ∷ rs) = length r.findings + upgrade_total rs

abbrev pub gathered_len : {A : Type 0} → (FileAnalysisResult → List A) → List FileAnalysisResult → ℕ
gathered_len section rs = length (gather section rs)

pub total_findings : List FileAnalysisResult → ℕ
total_findings rs =
    gathered_len (λ r. r.collisions) rs
    + gathered_len (λ r. r.size_warnings) rs
    + gathered_len (λ r. r.unsafe_patterns) rs
    + gathered_len (λ r. r.auth_gaps) rs
    + gathered_len (λ r. r.panic_issues) rs
    + gathered_len (λ r. r.arithmetic_issues) rs
    + gathered_len (λ r. r.custom_matches) rs
    + gathered_len (λ r. r.event_issues) rs
    + gathered_len (λ r. r.unhandled_results) rs
    + upgrade_total (gather (λ r. r.upgrade_reports) rs)
    + gathered_len (λ r. r.smt_issues) rs
    + gathered_len (λ r. r.truncation_bounds_issues) rs
    + gathered_len (λ r. r.sep41_issues) rs
    + gathered_len (λ r. r.contractimport_issues) rs
    + gathered_len (λ r. r.variable_shadowing_violations) rs
    + gathered_len timed_out_file rs

-- `issues.iter().any(test)`
abbrev pub any : {A : Type 0} → (A → Bool) → List A → Bool
any test [] = false
any test (a ∷ xs) = test a || any test xs

abbrev pub any_gathered :
    {A : Type 0} → (A → Bool) → (FileAnalysisResult → List A) → List FileAnalysisResult → Bool
any_gathered test section rs = any test (gather section rs)

abbrev pub is_present : {A : Type 0} → List A → Bool
is_present xs = not (length xs == 0)

abbrev pub present : {A : Type 0} → (FileAnalysisResult → List A) → List FileAnalysisResult → Bool
present section rs = is_present (gather section rs)

unfoldable pub has_critical : List FileAnalysisResult → Bool
has_critical rs =
    any_gathered (λ i. is_critical (auth_gap_severity i)) (λ r. r.auth_gaps) rs
    || (any_gathered (λ i. is_critical (panic_severity i)) (λ r. r.panic_issues) rs
        || (present (λ r. r.smt_issues) rs
            || (any_gathered (λ i. is_critical (sep41_severity i)) (λ r. r.sep41_issues) rs
                || any_gathered (λ i. is_critical (size_warning_severity i)) (λ r. r.size_warnings)
                    rs)))

unfoldable pub has_high : List FileAnalysisResult → Bool
has_high rs =
    any_gathered (λ i. is_high (arithmetic_severity i)) (λ r. r.arithmetic_issues) rs
    || (any_gathered (λ i. is_high (panic_severity i)) (λ r. r.panic_issues) rs
        || (any_gathered (λ i. is_high (size_warning_severity i)) (λ r. r.size_warnings) rs
            || (any_gathered (λ i. is_high (unsafe_pattern_severity i)) (λ r. r.unsafe_patterns) rs
                || (any_gathered (λ u. any (λ f. is_high (upgrade_finding_severity f)) u.findings)
                      (λ r. r.upgrade_reports) rs
                    || (any_gathered (λ i. is_high (event_severity i)) (λ r. r.event_issues) rs
                        || (any_gathered (λ i. is_high (unhandled_severity i))
                              (λ r. r.unhandled_results) rs
                            || any_gathered (λ i. is_high (truncation_severity i))
                                (λ r. r.truncation_bounds_issues) rs))))))

-- `vuln.severity.parse::<SeverityLevel>()` of each match.
abbrev pub parsed_severities : List VulnMatch → List (Option SeverityLevel)
parsed_severities [] = []
parsed_severities (v ∷ vs) = from_str v.severity ∷ parsed_severities vs

-- What the search for the highest severity reads.
abbrev pub scan_of : List FileAnalysisResult → Severity.Scan
scan_of rs = record {
  has_critical = has_critical rs;
  has_high = has_high rs;
  has_medium =
      present (λ r. r.size_warnings) rs
      || present (λ r. r.unsafe_patterns) rs
      || present (λ r. r.sep41_issues) rs;
  has_event_issues = present (λ r. r.event_issues) rs;
  vuln_severities = parsed_severities (gather (λ r. r.vuln_matches) rs);
  has_timeouts = present timed_out_file rs;
  has_import_issues = present (λ r. r.contractimport_issues) rs;
}

-- What `run_analysis` returns: whether the process is to exit with 1.
pub run_result : Bool → SeverityLevel → List FileAnalysisResult → Bool
run_result exit_code min_severity rs =
    should_exit_with_1 exit_code min_severity (highest_finding_severity (scan_of rs))
