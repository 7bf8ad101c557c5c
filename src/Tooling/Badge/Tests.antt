-- ===== src/Tooling/Badge/Tests.antt =====
-- Runs of tooling/sanctifier-cli/src/commands/badge.rs at concrete inputs, and the theorem at such inputs.
use sanctifier.Base.{◌≡◌, refl, true, false, [], ◌∷◌}
use sanctifier.Tooling.Issues.{VulnMatch}
use sanctifier.Tooling.Scan.{default}
use sanctifier.Tooling.Scan.Totals.{with_vulns}
use sanctifier.Tooling.Badge.{derive_status, secure, warning, critical, text_width}
use sanctifier.Tooling.Badge.Status.{summary_of, status-with_vulns}

program : Unit {0}
unfolding derive_status text_width
program = tt

test_status :
    (derive_status record { total_findings = 12; has_critical = true; has_high = true } ≡ critical)
    × (derive_status record { total_findings = 1; has_critical = false; has_high = false }
        ≡ warning)
    × (derive_status record { total_findings = 0; has_critical = false; has_high = false } ≡ secure)
unfolding program
test_status = (refl, refl, refl)

test_width : (text_width "" ≡ 28) × (text_width "Sanctifier" ≡ 80)
unfolding program
test_width = (refl, refl)

-- A critical match of the vulnerability database.
abbrev known : VulnMatch
known = record {
  vuln_id = "VULN-001";
  name = "";
  severity = "critical";
  category = "";
  description = "";
  recommendation = "";
  file = "lib.rs";
  line = 1;
  snippet = "";
}

status-with_vulns_example :
    derive_status (summary_of (with_vulns (λ r. known ∷ []) (default ∷ [])))
    ≡ derive_status (summary_of (default ∷ []))
status-with_vulns_example = status-with_vulns (λ r. known ∷ []) (default ∷ [])
