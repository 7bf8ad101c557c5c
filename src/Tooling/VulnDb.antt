-- ===== src/Tooling/VulnDb.antt =====
-- tooling/sanctifier-cli/src/vulndb.rs: the vulnerability database, its validation and its scan.
pub mod Valid
pub mod Matches
mod Tests
use Prim.Native.Char.{code}
use Prim.Native.String.{String, ◌++◌ as str_append}
use text.Mathlib.Text.{◌==◌ as str_eq}
use sanctifier.Base.{
  ℕ, suc, ◌+◌, Bool, true, false, not, ◌&&◌, ◌||◌, Option, none, some, List, [], ◌∷◌, ◌++◌, ltb,
  leb, ◌==◌, if◌then◌else◌,
}
use sanctifier.Base.Results.{Result, ok, err}
use sanctifier.Tooling.Text.{trim, is_empty}
use sanctifier.Tooling.Severity.{lowercase}
use sanctifier.Tooling.Issues.{VulnMatch}

pub record VulnEntry : Type 0 where
  pub id : String
  pub name : String
  pub description : String
  pub severity : String
  pub category : String
  pub pattern : String
  pub recommendation : String
  pub references : List String

pub record VulnDatabase : Type 0 where
  pub version : String
  pub last_updated : String
  pub description : String
  pub vulnerabilities : List VulnEntry

-- The messages, with the index of the entry that they name.
pub data Error : Type 0 where
  empty_version empty_last_updated empty_description no_vulnerabilities : Error
  empty_id invalid_id empty_name empty_entry_description empty_recommendation : ℕ → Error
  empty_severity unknown_severity empty_category empty_pattern invalid_pattern : ℕ → Error
  duplicate_id duplicate_name overlapping_signature : ℕ → Error

-- `Regex::new(pattern)` succeeds, and the matches of `find_iter`: what stands before each, the match, what stands after it.
pub record Regex : Type 0 where
  pub is_pattern : String → Bool
  pub find_iter : String → String → List (String × String × String)

-- The codes of `s.to_ascii_lowercase()`.
abbrev pub ascii_lowercase : String → List ℕ
ascii_lowercase String.[] = []
ascii_lowercase (String.◌∷◌ c s) = lowercase (code c) ∷ ascii_lowercase s

abbrev pub codes : String → List ℕ
codes String.[] = []
codes (String.◌∷◌ c s) = code c ∷ codes s

abbrev pub key_eq : List ℕ → List ℕ → Bool
key_eq [] [] = true
key_eq (x ∷ xs) (y ∷ ys) = x == y && key_eq xs ys
key_eq _ _ = false

abbrev pub has_key : List ℕ → List (List ℕ) → Bool
has_key k [] = false
has_key k (j ∷ js) = key_eq j k || has_key k js

-- `^[A-Z0-9][A-Z0-9._-]*$`
abbrev pub is_id_start : ℕ → Bool
is_id_start n = (leb b'A' n && leb n b'Z') || (leb b'0' n && leb n b'9')

abbrev pub all_id_chars : String → Bool
all_id_chars String.[] = true
all_id_chars (String.◌∷◌ c s) =
    (is_id_start (code c) || code c == b'.' || code c == b'_' || code c == b'-') && all_id_chars s

abbrev pub is_id : String → Bool
is_id String.[] = false
is_id (String.◌∷◌ c s) = is_id_start (code c) && all_id_chars s

abbrev pub allowed_severities : List (List ℕ)
allowed_severities =
    codes "critical" ∷ codes "high" ∷ codes "medium" ∷ codes "low" ∷ codes "info" ∷ []

abbrev pub is_blank : String → Bool
is_blank s = is_empty (trim s)

-- `errors.push(e)` under a test.
abbrev pub error_if : Bool → Error → List Error
error_if true e = e ∷ []
error_if false e = []

abbrev pub severity_errors : ℕ → VulnEntry → List Error
severity_errors index v =
    if is_blank v.severity
    then empty_severity index ∷ []
    else error_if (not (has_key (ascii_lowercase (trim v.severity)) allowed_severities))
        (unknown_severity index)

abbrev pub id_errors : ℕ → VulnEntry → List Error
id_errors index v =
    if is_blank v.id
    then empty_id index ∷ []
    else error_if (not (is_id (trim v.id))) (invalid_id index)

abbrev pub pattern_errors : Regex → ℕ → VulnEntry → List Error
pattern_errors re index v =
    if is_blank v.pattern
    then empty_pattern index ∷ []
    else error_if (not (re.is_pattern v.pattern)) (invalid_pattern index)

pub field_errors : Regex → ℕ → VulnEntry → List Error
field_errors re index v =
    id_errors index v
    ++ (error_if (is_blank v.name) (empty_name index)
        ++ (error_if (is_blank v.description) (empty_entry_description index)
            ++ (error_if (is_blank v.recommendation) (empty_recommendation index)
                ++ (severity_errors index v
                    ++ (error_if (is_blank v.category) (empty_category index)
                        ++ pattern_errors re index v)))))

-- The keys of the three maps.
abbrev pub id_key : VulnEntry → List ℕ
id_key v = codes v.id

abbrev pub name_key : VulnEntry → List ℕ
name_key v = ascii_lowercase (trim v.name)

abbrev pub signature : VulnEntry → List ℕ
signature v =
    ascii_lowercase (trim v.category)
    ++ (31 ∷ (ascii_lowercase (trim v.severity) ++ (31 ∷ codes (trim v.pattern))))

-- The keys after an insertion that the test allows.
abbrev pub insert_if : Bool → List ℕ → List (List ℕ) → List (List ℕ)
insert_if true k ks = k ∷ ks
insert_if false k ks = ks

-- The loop over the entries, with the keys of the three maps.
pub entry_errors :
    Regex → ℕ → List (List ℕ) → List (List ℕ) → List (List ℕ) → List VulnEntry → List Error
entry_errors re index ids names signatures [] = []
entry_errors re index ids names signatures (v ∷ vs) =
    field_errors re index v
    ++ (error_if (has_key (id_key v) ids) (duplicate_id index)
        ++ (error_if (not (is_blank v.name) && has_key (name_key v) names) (duplicate_name index)
            ++ (error_if (not (is_blank v.pattern) && has_key (signature v) signatures)
                  (overlapping_signature index)
                ++ entry_errors re (suc index) (id_key v ∷ ids)
                    (insert_if (not (is_blank v.name)) (name_key v) names)
                    (insert_if (not (is_blank v.pattern)) (signature v) signatures) vs)))

-- `if !errors.is_empty() { bail!(…) }`
abbrev pub bail_on : List Error → Result (List Error) (Unit {0})
bail_on [] = ok tt
bail_on (e ∷ es) = err (e ∷ es)

abbrev pub validate_entries : Regex → List VulnEntry → Result (List Error) (Unit {0})
validate_entries re [] = err (no_vulnerabilities ∷ [])
validate_entries re (v ∷ vs) = bail_on (entry_errors re 0 [] [] [] (v ∷ vs))

pub validate : Regex → VulnDatabase → Result (List Error) (Unit {0})
validate re db =
    if is_blank db.version
    then err (empty_version ∷ [])
    else if is_blank db.last_updated
    then err (empty_last_updated ∷ [])
    else if is_blank db.description
    then err (empty_description ∷ [])
    else validate_entries re db.vulnerabilities

-- `s.matches('\n').count()`
abbrev pub newlines : String → ℕ
newlines String.[] = 0
newlines (String.◌∷◌ c s) = if code c == b'\n' then suc (newlines s) else newlines s

-- The text after the last newline, and the text before the first.
abbrev pub last_line : String → String
last_line String.[] = ""
last_line (String.◌∷◌ c s) =
    let rest = last_line s in
    if newlines s == 0 then (if code c == b'\n' then s else String.◌∷◌ c s) else rest

abbrev pub first_line : String → String
first_line String.[] = ""
first_line (String.◌∷◌ c s) =
    let rest = first_line s in if code c == b'\n' then "" else String.◌∷◌ c rest

abbrev pub match_of : VulnEntry → String → String × String × String → VulnMatch
match_of v file (before, text, after) = record {
  vuln_id = v.id;
  name = v.name;
  severity = v.severity;
  category = v.category;
  description = v.description;
  recommendation = v.recommendation;
  file = file;
  line = newlines before + 1;
  snippet = trim (str_append (last_line before) (str_append text (first_line after)));
}

abbrev pub matches_of : VulnEntry → String → List (String × String × String) → List VulnMatch
matches_of v file [] = []
matches_of v file (m ∷ ms) = match_of v file m ∷ matches_of v file ms

abbrev pub scan_entries : Regex → String → String → List VulnEntry → List VulnMatch
scan_entries re source file [] = []
scan_entries re source file (v ∷ vs) =
    let rest = scan_entries re source file vs in
    if re.is_pattern v.pattern
    then matches_of v file (re.find_iter v.pattern source) ++ rest
    else rest

pub scan : Regex → VulnDatabase → String → String → List VulnMatch
scan re db source file = scan_entries re source file db.vulnerabilities
