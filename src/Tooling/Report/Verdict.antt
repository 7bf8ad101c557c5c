-- ===== src/Tooling/Report/Verdict.antt =====
-- What the verdict of tooling/sanctifier-cli/src/commands/report.rs says, next to the flags of analyze.rs.
use sanctifier.Base.{◌+◌, ◌≡◌, refl, sym, ◌∙◌, Bool, true, ◌||◌, List, [], ◌∷◌, length, arith}
use sanctifier.Tooling.Issues.{
  AuthGapIssue, PanicIssue, is_critical, auth_gap_severity, panic_severity,
}
use sanctifier.Tooling.Scan.{FileAnalysisResult, gather, any, is_present}
use sanctifier.Tooling.Scan
use sanctifier.Tooling.Scan.Totals.{file_findings}
use sanctifier.Tooling.Report.{merge_results, overall, critical, is_panic, count_findings}

-- The workspace command counts the matches of the vulnerability database, which a scan does not, and leaves out the
-- import issues and the shadowing violations, which a scan counts.
pub count-findings :
    (r : FileAnalysisResult)
    → count_findings r + length r.contractimport_issues + length r.variable_shadowing_violations
      ≡ file_findings r + length r.vuln_matches
unfolding count_findings
count-findings r = ground arith

any_all : (xs : List AuthGapIssue) → is_present xs ≡ any (λ i. is_critical (auth_gap_severity i)) xs
any_all [] = refl
any_all (x ∷ xs) = ground arith

panic_critical :
    (xs : List PanicIssue)
    → any is_panic xs ≡ true
    → any (λ i. is_critical (panic_severity i)) xs ≡ true
panic_critical [] h = absurd (ground arith)
panic_critical (x ∷ xs) h = ground (arith, panic_critical xs)

or_mono :
    (a b c d : Bool)
    → (a ≡ true → c ≡ true)
    → (b ≡ true → d ≡ true)
    → (a || b) ≡ true
    → (c || d) ≡ true
or_mono a b c d h k e = ground (arith, h, k)

or_left : (a b : Bool) → a ≡ true → (a || b) ≡ true
or_left a b h = ground arith

-- A report whose verdict is critical is of a scan with critical findings.
pub critical_report :
    (rs : List FileAnalysisResult)
    → overall (merge_results rs) ≡ critical
    → Scan.has_critical rs ≡ true
unfolding overall merge_results Scan.has_critical
critical_report rs h =
    or_mono (is_present (gather (λ r. r.auth_gaps) rs))
      (any is_panic (gather (λ r. r.panic_issues) rs)) _ _
      (λ e. sym (any_all (gather (λ r. r.auth_gaps) rs)) ∙ e)
      (λ e. or_left _ _ (panic_critical (gather (λ r. r.panic_issues) rs) e)) (ground arith)
