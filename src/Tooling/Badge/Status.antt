-- ===== src/Tooling/Badge/Status.antt =====
-- What the badge of tooling/sanctifier-cli/src/commands/badge.rs says of a scan of analyze.rs.
use Prim.Native.String.{String}
use sanctifier.Base.{◌+◌, ◌<◌, ◌≤◌, ◌≡◌, ◌↔◌, refl, List, arith}
use sanctifier.Tooling.Issues.{VulnMatch}
use sanctifier.Tooling.Scan.{FileAnalysisResult, total_findings, has_critical, has_high}
use sanctifier.Tooling.Scan.Totals.{has_critical_total, has_high_total, with_vulns, ignores_vulns}
use sanctifier.Tooling.Badge.{AnalyzeSummary, secure, derive_status, layout, text_width}

-- The summary in the report of a scan.
abbrev pub summary_of : List FileAnalysisResult → AnalyzeSummary
summary_of rs = record {
  total_findings = total_findings rs;
  has_critical = has_critical rs;
  has_high = has_high rs;
}

-- The badge of a scan says "Secure" exactly when the scan counts no finding.
pub secure_iff :
    (rs : List FileAnalysisResult)
    → (derive_status (summary_of rs) ≡ secure) ↔ (total_findings rs ≡ 0)
unfolding derive_status
secure_iff rs =
    ((λ h. ground arith), (λ h. ground (arith, has_critical_total rs, has_high_total rs)))

-- The badge does not depend on the matches of the vulnerability database, whatever their severity.
pub status-with_vulns :
    (f : FileAnalysisResult → List VulnMatch) (rs : List FileAnalysisResult)
    → derive_status (summary_of (with_vulns f rs)) ≡ derive_status (summary_of rs)
unfolding derive_status
status-with_vulns f rs = let e = ignores_vulns f rs in rw (e.0, e.1, e.2) refl

-- The two rectangles of a badge lie side by side and fill it, each is at least 28 wide, and the middle of each text
-- lies within its rectangle.
pub layout_lem :
    (label status : String)
    → let l = layout label status in
      (l.status_x ≡ l.label_width)
      × (l.status_x + l.status_width ≡ l.total_width)
      × (28 ≤ l.label_width)
      × (28 ≤ l.status_width)
      × (l.label_text_x < l.label_width)
      × (l.status_x < l.status_text_x)
      × (l.status_text_x < l.total_width)
unfolding layout text_width
layout_lem label status = ground arith
