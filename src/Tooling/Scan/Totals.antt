-- ===== src/Tooling/Scan/Totals.antt =====
-- The totals of tooling/sanctifier-cli/src/commands/analyze.rs, file by file.
use sanctifier.Base.{
  ℕ, ◌+◌, ◌≤◌, ◌≡◌, refl, sym, ap, ◌∙◌, Bool, true, ◌||◌, List, [], ◌∷◌, ◌++◌, length,
  length-append, arith, Bool-cases, inl, inr, if◌then◌else◌,
}
use sanctifier.Tooling.Issues.{
  UpgradeReport, VulnMatch, is_critical, is_high, size_warning_severity, panic_severity,
  unsafe_pattern_severity, upgrade_finding_severity, arithmetic_severity, truncation_severity,
  event_severity, unhandled_severity, auth_gap_severity, sep41_severity,
}
use sanctifier.Tooling.Scan.{
  FileAnalysisResult, gather, gathered_len, timed_out_file, upgrade_total, total_findings, any,
  is_present, has_critical, has_high,
}

-- The findings of one file, counted.
abbrev pub file_findings : FileAnalysisResult → ℕ
file_findings r =
    length r.collisions
    + length r.size_warnings
    + length r.unsafe_patterns
    + length r.auth_gaps
    + length r.panic_issues
    + length r.arithmetic_issues
    + length r.custom_matches
    + length r.event_issues
    + length r.unhandled_results
    + upgrade_total r.upgrade_reports
    + length r.smt_issues
    + length r.truncation_bounds_issues
    + length r.sep41_issues
    + length r.contractimport_issues
    + length r.variable_shadowing_violations
    + (if r.timed_out then 1 else 0)

abbrev pub sum_findings : List FileAnalysisResult → ℕ
sum_findings [] = 0
sum_findings (r ∷ rs) = file_findings r + sum_findings rs

upgrade_total-append :
    (us vs : List UpgradeReport) → upgrade_total (us ++ vs) ≡ upgrade_total us + upgrade_total vs
upgrade_total-append [] vs = omega arith
upgrade_total-append (u ∷ us) vs = omega (arith, upgrade_total-append us vs)

length-timed_out_file :
    (r : FileAnalysisResult) → length (timed_out_file r) ≡ (if r.timed_out then 1 else 0)
length-timed_out_file r = ground arith

gathered_len-cons :
    {A : Type 0} (section : FileAnalysisResult → List A) (r : FileAnalysisResult)
    (rs : List FileAnalysisResult)
    → gathered_len section (r ∷ rs) ≡ length (section r) + gathered_len section rs
gathered_len-cons section r rs = length-append (section r) (gather section rs)

-- The total of a scan is the sum of what each file has: the collisions, size warnings, unsafe patterns, auth gaps,
-- panics, arithmetic issues, custom matches, event issues, unhandled results, findings of the upgrade reports, SMT,
-- truncation, SEP-41 and import issues, shadowing violations, and one more for a file that timed out. The matches of
-- the vulnerability database are not in it.
pub total-sum : (rs : List FileAnalysisResult) → total_findings rs ≡ sum_findings rs
unfolding total_findings
total-sum [] = refl
total-sum (r ∷ rs) = omega (
  arith,
  total-sum rs,
  gathered_len-cons (λ r. r.collisions) r rs,
  gathered_len-cons (λ r. r.size_warnings) r rs,
  gathered_len-cons (λ r. r.unsafe_patterns) r rs,
  gathered_len-cons (λ r. r.auth_gaps) r rs,
  gathered_len-cons (λ r. r.panic_issues) r rs,
  gathered_len-cons (λ r. r.arithmetic_issues) r rs,
  gathered_len-cons (λ r. r.custom_matches) r rs,
  gathered_len-cons (λ r. r.event_issues) r rs,
  gathered_len-cons (λ r. r.unhandled_results) r rs,
  upgrade_total-append r.upgrade_reports (gather (λ r. r.upgrade_reports) rs),
  gathered_len-cons (λ r. r.smt_issues) r rs,
  gathered_len-cons (λ r. r.truncation_bounds_issues) r rs,
  gathered_len-cons (λ r. r.sep41_issues) r rs,
  gathered_len-cons (λ r. r.contractimport_issues) r rs,
  gathered_len-cons (λ r. r.variable_shadowing_violations) r rs,
  gathered_len-cons timed_out_file r rs,
  length-timed_out_file r,
)

any-append :
    {A : Type 0} (test : A → Bool) (xs ys : List A)
    → any test (xs ++ ys) ≡ (any test xs || any test ys)
any-append test [] ys = refl
any-append test (x ∷ xs) ys = ground (arith, any-append test xs ys)

any-length : {A : Type 0} (test : A → Bool) (xs : List A) → any test xs ≡ true → 1 ≤ length xs
any-length test [] h = absurd (ground arith)
any-length test (x ∷ xs) h = ground arith

any_upgrades :
    (us : List UpgradeReport)
    → any (λ u. any (λ f. is_high (upgrade_finding_severity f)) u.findings) us ≡ true
    → 1 ≤ upgrade_total us
any_upgrades [] h = absurd (ground arith)
any_upgrades (u ∷ us) h =
    elim (Bool-cases (any (λ f. is_high (upgrade_finding_severity f)) u.findings)) [
      | inl here ↦
          omega (arith, any-length (λ f. is_high (upgrade_finding_severity f)) u.findings here)
      | inr later ↦ omega (arith, any_upgrades us (ground arith))
    ]

or_le : (n : ℕ) (a b : Bool) → (a ≡ true → 1 ≤ n) → (b ≡ true → 1 ≤ n) → (a || b) ≡ true → 1 ≤ n
or_le n a b ha hb h = ground (arith, ha, hb)

any_le :
    {A : Type 0} (n : ℕ) (test : A → Bool) (xs : List A)
    → length xs ≤ n
    → any test xs ≡ true
    → 1 ≤ n
any_le n test xs le h = omega (arith, any-length test xs h)

present_le : {A : Type 0} (n : ℕ) (xs : List A) → length xs ≤ n → is_present xs ≡ true → 1 ≤ n
present_le n xs le h = ground arith

upgrades_le :
    (n : ℕ) (us : List UpgradeReport)
    → upgrade_total us ≤ n
    → any (λ u. any (λ f. is_high (upgrade_finding_severity f)) u.findings) us ≡ true
    → 1 ≤ n
upgrades_le n us le h = omega (arith, any_upgrades us h)

-- A scan with a critical finding has findings.
pub has_critical_total :
    (rs : List FileAnalysisResult) → has_critical rs ≡ true → 1 ≤ total_findings rs
unfolding has_critical total_findings
has_critical_total rs =
    let n = total_findings rs in
    or_le n _ _
      (any_le n (λ i. is_critical (auth_gap_severity i)) (gather (λ r. r.auth_gaps) rs)
        (omega arith))
      (or_le n _ _
        (any_le n (λ i. is_critical (panic_severity i)) (gather (λ r. r.panic_issues) rs)
          (omega arith))
        (or_le n _ _ (present_le n (gather (λ r. r.smt_issues) rs) (omega arith)) (
          or_le n _ _
            (any_le n (λ i. is_critical (sep41_severity i)) (gather (λ r. r.sep41_issues) rs)
              (omega arith))
            (any_le n (λ i. is_critical (size_warning_severity i))
              (gather (λ r. r.size_warnings) rs) (omega arith)))))

-- A scan with a finding of high severity has findings.
pub has_high_total : (rs : List FileAnalysisResult) → has_high rs ≡ true → 1 ≤ total_findings rs
unfolding has_high total_findings
has_high_total rs =
    let n = total_findings rs in
    or_le n _ _
      (any_le n (λ i. is_high (arithmetic_severity i)) (gather (λ r. r.arithmetic_issues) rs)
        (omega arith))
      (or_le n _ _
        (any_le n (λ i. is_high (panic_severity i)) (gather (λ r. r.panic_issues) rs) (omega arith))
        (or_le n _ _
          (any_le n (λ i. is_high (size_warning_severity i)) (gather (λ r. r.size_warnings) rs)
            (omega arith))
          (or_le n _ _
            (any_le n (λ i. is_high (unsafe_pattern_severity i))
              (gather (λ r. r.unsafe_patterns) rs) (omega arith))
            (or_le n _ _ (upgrades_le n (gather (λ r. r.upgrade_reports) rs) (omega arith)) (
              or_le n _ _
                (any_le n (λ i. is_high (event_severity i)) (gather (λ r. r.event_issues) rs)
                  (omega arith))
                (or_le n _ _
                  (any_le n (λ i. is_high (unhandled_severity i))
                    (gather (λ r. r.unhandled_results) rs) (omega arith))
                  (any_le n (λ i. is_high (truncation_severity i))
                    (gather (λ r. r.truncation_bounds_issues) rs) (omega arith))))))))

-- The files of a scan with other matches of the vulnerability database.
abbrev pub with_vulns :
    (FileAnalysisResult → List VulnMatch) → List FileAnalysisResult → List FileAnalysisResult
with_vulns f [] = []
with_vulns f (r ∷ rs) = record r { vuln_matches = f r } ∷ with_vulns f rs

-- A section that does not read the matches is gathered as before.
gather-with_vulns :
    {A : Type 0} (section : FileAnalysisResult → List A) (f : FileAnalysisResult → List VulnMatch)
    → ((r : FileAnalysisResult) → section (record r { vuln_matches = f r }) ≡ section r)
    → (rs : List FileAnalysisResult) → gather section (with_vulns f rs) ≡ gather section rs
gather-with_vulns section f same [] = refl
gather-with_vulns section f same (r ∷ rs) = rw (same r, gather-with_vulns section f same rs) refl

sum_findings-with_vulns :
    (f : FileAnalysisResult → List VulnMatch) (rs : List FileAnalysisResult)
    → sum_findings (with_vulns f rs) ≡ sum_findings rs
sum_findings-with_vulns f [] = refl
sum_findings-with_vulns f (r ∷ rs) = ap (λ n. file_findings r + n) (sum_findings-with_vulns f rs)

-- The matches of the vulnerability database change neither the total nor the two flags of a scan.
pub ignores_vulns :
    (f : FileAnalysisResult → List VulnMatch) (rs : List FileAnalysisResult)
    → (total_findings (with_vulns f rs) ≡ total_findings rs)
      × (has_critical (with_vulns f rs) ≡ has_critical rs)
      × (has_high (with_vulns f rs) ≡ has_high rs)
unfolding has_critical has_high
ignores_vulns f rs = (
  total-sum (with_vulns f rs) ∙ sum_findings-with_vulns f rs ∙ sym (total-sum rs),
  rw
      (
        gather-with_vulns (λ r. r.auth_gaps) f (λ r. refl) rs,
        gather-with_vulns (λ r. r.panic_issues) f (λ r. refl) rs,
        gather-with_vulns (λ r. r.smt_issues) f (λ r. refl) rs,
        gather-with_vulns (λ r. r.sep41_issues) f (λ r. refl) rs,
        gather-with_vulns (λ r. r.size_warnings) f (λ r. refl) rs,
      )
      refl,
  rw
      (
        gather-with_vulns (λ r. r.arithmetic_issues) f (λ r. refl) rs,
        gather-with_vulns (λ r. r.panic_issues) f (λ r. refl) rs,
        gather-with_vulns (λ r. r.size_warnings) f (λ r. refl) rs,
        gather-with_vulns (λ r. r.unsafe_patterns) f (λ r. refl) rs,
        gather-with_vulns (λ r. r.upgrade_reports) f (λ r. refl) rs,
        gather-with_vulns (λ r. r.event_issues) f (λ r. refl) rs,
        gather-with_vulns (λ r. r.unhandled_results) f (λ r. refl) rs,
        gather-with_vulns (λ r. r.truncation_bounds_issues) f (λ r. refl) rs,
      )
      refl,
)
