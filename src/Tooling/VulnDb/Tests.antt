-- ===== src/Tooling/VulnDb/Tests.antt =====
-- Runs of tooling/sanctifier-cli/src/vulndb.rs at concrete inputs, and the theorem at such inputs.
use sanctifier.Base.{◌≡◌, ◌≢◌, refl, true, false, List, [], ◌∷◌}
use sanctifier.Base.Results.{err}
use sanctifier.Tooling.VulnDb.{
  VulnEntry, VulnDatabase, Regex, overlapping_signature, is_blank, field_errors, entry_errors,
  validate, scan,
}
use sanctifier.Tooling.VulnDb.Valid.{AllGood, validate-AllGood}

program : Unit {0}
unfolding field_errors entry_errors validate scan
program = tt

abbrev entry : VulnEntry
entry = record {
  id = "V1";
  name = "n";
  description = "d";
  severity = "Low";
  category = "c";
  pattern = "p";
  recommendation = "r";
  references = [];
}

abbrev database : List VulnEntry → VulnDatabase
database vs = record { version = "1"; last_updated = "x"; description = "d"; vulnerabilities = vs }

-- Every pattern is one, and none has a match.
abbrev re : Regex
re = record { is_pattern = λ p. true; find_iter = λ p s. [] }

validate-AllGood_example :
    (is_blank "1" ≡ false)
    × (is_blank "x" ≡ false)
    × (is_blank "d" ≡ false)
    × ((entry ∷ []) ≢ [])
    × AllGood re [] [] [] (entry ∷ [])
unfolding program
validate-AllGood_example = validate-AllGood re (database (entry ∷ [])) refl

-- A second entry with another name and the same signature.
test_overlap :
    validate re (database (entry ∷ record entry { id = "V2"; name = "m" } ∷ []))
    ≡ err (overlapping_signature 1 ∷ [])
unfolding program
test_overlap = refl
