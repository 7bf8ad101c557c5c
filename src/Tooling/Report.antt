-- ===== src/Tooling/Report.antt =====
-- tooling/sanctifier-cli/src/commands/report.rs: the merged results and the overall verdict of a report, and
-- commands/workspace.rs: the count of the findings of a contract.
pub mod Verdict
mod Tests
use Prim.Native.String.{String}
use text.Mathlib.Text.{◌==◌ as str_eq}
use sanctifier.Base.{
  ℕ, ◌+◌, Bool, true, false, ◌||◌, Option, none, some, List, [], ◌∷◌, ◌++◌, length, if◌then◌else◌,
}
use sanctifier.Tooling.Issues.{
  AuthGapIssue, PanicIssue, ArithmeticIssue, SizeWarning, exceeds_limit, approaching_limit,
  UnsafePattern, StorageCollisionIssue, EventIssue, UnhandledResultIssue, UpgradeReport,
  UpgradeFinding, SmtInvariantIssue, Sep41Issue, VulnMatch,
}
use sanctifier.Tooling.Scan.{
  FileAnalysisResult, gather, timed_out_file, any, is_present, upgrade_total,
}

pub record ReportData : Type 0 where
  pub auth_gaps : List AuthGapIssue
  pub panic_issues : List PanicIssue
  pub arithmetic_issues : List ArithmeticIssue
  pub size_warnings : List SizeWarning
  pub unsafe_patterns : List UnsafePattern
  pub collisions : List StorageCollisionIssue
  pub event_issues : List EventIssue
  pub unhandled_results : List UnhandledResultIssue
  pub upgrade_findings : List UpgradeFinding
  pub smt_issues : List SmtInvariantIssue
  pub sep41_issues : List Sep41Issue
  pub vuln_matches : List VulnMatch
  pub timed_out_files : List String
  pub has_critical : Bool
  pub has_high : Bool

abbrev pub findings_of : List UpgradeReport → List UpgradeFinding
findings_of [] = []
findings_of (u ∷ us) = u.findings ++ findings_of us

-- `p.issue_type == "panic!"`
abbrev pub is_panic : PanicIssue → Bool
is_panic p = str_eq p.issue_type "panic!"

-- `w.level == SizeWarningLevel::ExceedsLimit`
abbrev pub exceeds : SizeWarning → Bool
exceeds w = elim w.level [ exceeds_limit ↦ true | approaching_limit ↦ false ]

pub merge_results : List FileAnalysisResult → ReportData
merge_results rs =
    let auth_gaps : List AuthGapIssue = gather (λ r. r.auth_gaps) rs in
    let panic_issues : List PanicIssue = gather (λ r. r.panic_issues) rs in
    let arithmetic_issues : List ArithmeticIssue = gather (λ r. r.arithmetic_issues) rs in
    let size_warnings : List SizeWarning = gather (λ r. r.size_warnings) rs in
    let unhandled_results : List UnhandledResultIssue = gather (λ r. r.unhandled_results) rs in
    let smt_issues : List SmtInvariantIssue = gather (λ r. r.smt_issues) rs in
    let sep41_issues : List Sep41Issue = gather (λ r. r.sep41_issues) rs in
    record {
      auth_gaps = auth_gaps;
      panic_issues = panic_issues;
      arithmetic_issues = arithmetic_issues;
      size_warnings = size_warnings;
      unsafe_patterns = gather (λ r. r.unsafe_patterns) rs;
      collisions = gather (λ r. r.collisions) rs;
      event_issues = gather (λ r. r.event_issues) rs;
      unhandled_results = unhandled_results;
      upgrade_findings = gather (λ r. findings_of r.upgrade_reports) rs;
      smt_issues = smt_issues;
      sep41_issues = sep41_issues;
      vuln_matches = gather (λ r. r.vuln_matches) rs;
      timed_out_files = gather timed_out_file rs;
      has_critical = is_present auth_gaps || any is_panic panic_issues;
      has_high =
          is_present arithmetic_issues
          || (is_present panic_issues
              || (is_present smt_issues
                  || (is_present sep41_issues
                      || (is_present unhandled_results || any exceeds size_warnings))));
    }

pub data Overall : Type 0 where
  critical high pass : Overall

-- The verdict in the header of the report.
pub overall : ReportData → Overall
overall d = if d.has_critical then critical else if d.has_high then high else pass

-- `r.timed_out as usize`
abbrev pub as_usize : Bool → ℕ
as_usize true = 1
as_usize false = 0

pub count_findings : FileAnalysisResult → ℕ
count_findings r =
    length r.auth_gaps
    + length r.panic_issues
    + length r.arithmetic_issues
    + length r.size_warnings
    + length r.collisions
    + length r.unsafe_patterns
    + length r.custom_matches
    + length r.event_issues
    + length r.unhandled_results
    + upgrade_total r.upgrade_reports
    + length r.smt_issues
    + length r.sep41_issues
    + length r.truncation_bounds_issues
    + length r.vuln_matches
    + as_usize r.timed_out
