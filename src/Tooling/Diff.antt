-- ===== src/Tooling/Diff.antt =====
-- tooling/sanctifier-cli/src/commands/diff.rs: the comparison of a report with a baseline.
pub mod Sections
pub mod Collect
pub mod Locations
pub mod Gate
mod Tests
use Prim.Native.Char.{code}
use Prim.Native.String.{String, ◌++◌ as str_append}
use sanctifier.Base.{
  ℕ, ◌+◌, Bool, true, false, not, ◌&&◌, ◌||◌, Option, none, some, List, [], ◌∷◌, ◌++◌, length, map,
  leb, ◌==◌, if◌then◌else◌,
}
use sanctifier.Host.{unwrap_or, bind, is_some}
use text.Mathlib.Text.{◌==◌ as str_eq}
use sanctifier.Tooling.Json.{
  Value, Items, Fields, object, array, end, field, items_of, get, as_array, as_str, get_array,
  get_str, str_or_empty, insert,
}
use sanctifier.Tooling.Severity.{
  SeverityLevel, critical, high, medium, low, consider, consider_if, consider_all, from_str,
}

-- `format!("{}::{}", a, b)`
abbrev pub joined : String → String → String
joined a b = str_append a (str_append "::" b)

pub fingerprint_finding : String → String → String
fingerprint_finding category detail = joined category detail

-- The text before the last `:` and the one after it: `loc.rfind(':')`.
pub split_last : String → Option (String × String)
split_last String.[] = none
split_last (String.◌∷◌ c s) = elim (split_last s) [
  | none ↦ if code c == b':' then some ("", s) else none
  | some (head, tail) ↦ some (String.◌∷◌ c head, tail)
]

-- `s.chars().all(|c| c.is_ascii_digit())`
pub all_digits : String → Bool
all_digits String.[] = true
all_digits (String.◌∷◌ c s) = leb (b'0') (code c) && leb (code c) (b'9') && all_digits s

abbrev pub is_blank : String → Bool
is_blank String.[] = true
is_blank (String.◌∷◌ c s) = false

pub strip_line_number : String → String
strip_line_number loc = elim (split_last loc) [
  | none ↦ loc
  | some (head, tail) ↦ if not (is_blank tail) && all_digits tail then head else loc
]

abbrev pub contains : List String → String → Bool
contains [] fp = false
contains (x ∷ xs) fp = str_eq x fp || contains xs fp

-- The fingerprint of one item of each section.
pub auth_gap_fp : Value → Option String
auth_gap_fp item =
    bind (get_str "function_name" item) λ name. some (fingerprint_finding "auth_gap" name)

-- A finding keyed by its location, without the line, and one more text.
abbrev pub located_fp : String → String → Value → String
located_fp category key item =
    fingerprint_finding category
      (joined (strip_line_number (str_or_empty "location" item)) (str_or_empty key item))

-- A finding keyed by two texts.
abbrev pub paired_fp : String → String → String → Value → String
paired_fp category first second item =
    fingerprint_finding category (joined (str_or_empty first item) (str_or_empty second item))

abbrev pub arithmetic_fp : Value → String
arithmetic_fp = located_fp "arithmetic_overflow" "operation"

abbrev pub panic_fp : Value → String
panic_fp = located_fp "panic_usage" "issue_type"

abbrev pub collision_fp : Value → String
collision_fp = located_fp "storage_collision" "key_value"

abbrev pub event_fp : Value → String
event_fp = located_fp "event_issue" "event_name"

abbrev pub unhandled_fp : Value → String
unhandled_fp item = fingerprint_finding "unhandled_result" (
    joined (strip_line_number (str_or_empty "location" item))
      (joined (str_or_empty "function_name" item) (str_or_empty "call_expression" item)))

abbrev pub upgrade_fp : Value → String
upgrade_fp = located_fp "upgrade_risk" "message"

abbrev pub smt_fp : Value → String
smt_fp = paired_fp "smt_invariant" "function_name" "description"

abbrev pub sep41_fp : Value → String
sep41_fp = paired_fp "sep41_deviation" "function_name" "message"

abbrev pub vuln_fp : Value → String
vuln_fp = paired_fp "vuln_db" "file" "vuln_id"

abbrev pub custom_fp : Value → String
custom_fp = paired_fp "custom_rule" "rule_name" "snippet"

-- The baseline takes a missing text as empty, the comparison takes the item as new.
abbrev pub named_fp : String → String → Value → String
named_fp category key item = fingerprint_finding category (str_or_empty key item)

abbrev pub named_fp? : String → String → Value → Option String
named_fp? category key item =
    bind (get_str key item) λ name. some (fingerprint_finding category name)

abbrev pub somes : List (Option String) → List String
somes [] = []
somes (none ∷ os) = somes os
somes (some s ∷ os) = s ∷ somes os

-- The fingerprints of a section's items.
abbrev pub section_fps : String → (Value → String) → Value → List String
section_fps key fp report = elim (get_array key report) [ none ↦ [] | some arr ↦ map fp arr ]

abbrev pub auth_gap_fps : Value → List String
auth_gap_fps report = elim (get_array "auth_gaps" report) [
  | none ↦ []
  | some arr ↦ somes (map auth_gap_fp arr)
]

abbrev pub upgrade_fps_of : List Value → List String
upgrade_fps_of [] = []
upgrade_fps_of (rpt ∷ rpts) = section_fps "findings" upgrade_fp rpt ++ upgrade_fps_of rpts

abbrev pub upgrade_fps : Value → List String
upgrade_fps report = elim (get_array "upgrade_reports" report) [
  | none ↦ []
  | some arr ↦ upgrade_fps_of arr
]

-- The hash set as the list of what is inserted.
pub extract_fingerprints_from_json : Value → List String
extract_fingerprints_from_json report =
    auth_gap_fps report
    ++ (section_fps "arithmetic_issues" arithmetic_fp report
        ++ (section_fps "panic_issues" panic_fp report
            ++ (section_fps "storage_collisions" collision_fp report
                ++ (section_fps "unsafe_patterns" (named_fp "unsafe_pattern" "snippet") report
                    ++ (section_fps "ledger_size_warnings"
                          (named_fp "ledger_size_risk" "struct_name") report
                        ++ (section_fps "event_issues" event_fp report
                            ++ (section_fps "unhandled_results" unhandled_fp report
                                ++ (upgrade_fps report
                                    ++ (section_fps "smt_issues" smt_fp report
                                        ++ (section_fps "sep41_issues" sep41_fp report
                                            ++ (section_fps "vulnerability_db_matches" vuln_fp
                                                  report
                                                ++ section_fps "custom_rules" custom_fp
                                                    report)))))))))))

-- Whether an item is new: it has no fingerprint, or one that the baseline lacks.
abbrev pub is_new : List String → Option String → Bool
is_new baseline none = true
is_new baseline (some fp) = not (contains baseline fp)

abbrev pub filter_new : (Value → Option String) → List String → List Value → List Value
filter_new fp baseline [] = []
filter_new fp baseline (v ∷ vs) =
    let rest = filter_new fp baseline vs in if is_new baseline (fp v) then v ∷ rest else rest

pub filter_array : Value → String → (Value → Option String) → List String → List Value
filter_array current key fp baseline = elim (get_array key current) [
  | none ↦ []
  | some arr ↦ filter_new fp baseline arr
]

abbrev pub array_of : List Value → Value
array_of vs = array (items_of vs)

-- `rpt.as_object_mut().unwrap().insert("findings", …)`
abbrev pub with_findings : List Value → Value → Value
with_findings vs (object fs) = object (insert "findings" (array_of vs) fs)
with_findings vs v = v

-- The loop over `upgrade_reports`.
abbrev pub new_upgrades_of : List String → List Value → List Value
new_upgrades_of baseline [] = []
new_upgrades_of baseline (rpt ∷ rpts) =
    let rest = new_upgrades_of baseline rpts in
    elim (get_array "findings" rpt) [
      | none ↦ rest
      | some findings ↦
          let new_findings = filter_new (λ v. some (upgrade_fp v)) baseline findings in
          if length new_findings == 0 then rest else with_findings new_findings rpt ∷ rest
    ]

abbrev pub new_upgrades : Value → List String → List Value
new_upgrades current baseline = elim (get_array "upgrade_reports" current) [
  | none ↦ []
  | some arr ↦ new_upgrades_of baseline arr
]

abbrev pub filtered : Value → List String → String → (Value → Option String) → Value
filtered current baseline key fp = array_of (filter_array current key fp baseline)

pub collect_new_findings : Value → List String → Value
collect_new_findings current b = object (
    field "auth_gaps" (filtered current b "auth_gaps" auth_gap_fp) (
      field "arithmetic_issues"
        (filtered current b "arithmetic_issues" (λ v. some (arithmetic_fp v)))
        (field "panic_issues" (filtered current b "panic_issues" (λ v. some (panic_fp v))) (
          field "storage_collisions"
            (filtered current b "storage_collisions" (λ v. some (collision_fp v)))
            (field "unsafe_patterns"
              (filtered current b "unsafe_patterns" (named_fp? "unsafe_pattern" "snippet"))
              (field "ledger_size_warnings"
                (filtered current b "ledger_size_warnings"
                  (named_fp? "ledger_size_risk" "struct_name"))
                (field "event_issues" (filtered current b "event_issues" (λ v. some (event_fp v))) (
                  field "unhandled_results"
                    (filtered current b "unhandled_results" (λ v. some (unhandled_fp v)))
                    (field "upgrade_reports" (array_of (new_upgrades current b)) (
                      field "smt_issues" (filtered current b "smt_issues" (λ v. some (smt_fp v))) (
                        field "sep41_issues"
                          (filtered current b "sep41_issues" (λ v. some (sep41_fp v)))
                          (field "vulnerability_db_matches"
                            (filtered current b "vulnerability_db_matches" (λ v. some (vuln_fp v)))
                            (field "custom_rules"
                              (filtered current b "custom_rules" (λ v. some (custom_fp v)))
                              end)))))))))))))

abbrev pub array_len : String → Value → ℕ
array_len key v = elim (get_array key v) [ none ↦ 0 | some arr ↦ length arr ]

abbrev pub simple_keys : List String
simple_keys =
    "auth_gaps" ∷ "arithmetic_issues" ∷ "panic_issues" ∷ "storage_collisions" ∷ "unsafe_patterns"
    ∷ "ledger_size_warnings" ∷ "event_issues" ∷ "unhandled_results" ∷ "smt_issues" ∷ "sep41_issues"
    ∷ "vulnerability_db_matches" ∷ "custom_rules" ∷ []

abbrev pub sum_lens : List String → Value → ℕ
sum_lens [] v = 0
sum_lens (key ∷ keys) v = array_len key v + sum_lens keys v

abbrev pub sum_findings : List Value → ℕ
sum_findings [] = 0
sum_findings (rpt ∷ rpts) = array_len "findings" rpt + sum_findings rpts

pub count_new_findings : Value → ℕ
count_new_findings new =
    sum_lens simple_keys new
    + elim (get_array "upgrade_reports" new) [ none ↦ 0 | some arr ↦ sum_findings arr ]

-- `new.get(key).and_then(|v| v.as_array()).map(|a| !a.is_empty()).unwrap_or(false)`
abbrev pub is_present : String → Value → Bool
is_present key new = not (array_len key new == 0)

-- The severities of the matches that have one.
abbrev pub match_severities : List Value → List (Option SeverityLevel)
match_severities [] = []
match_severities (v ∷ vs) = bind (get_str "severity" v) from_str ∷ match_severities vs

abbrev pub vuln_severities : Value → List (Option SeverityLevel)
vuln_severities new = elim (get_array "vulnerability_db_matches" new) [
  | none ↦ []
  | some arr ↦ match_severities arr
]

pub highest_severity_in_new : Value → Option SeverityLevel
highest_severity_in_new new = consider_all (vuln_severities new) (
    consider_if (is_present "event_issues" new) low (
      consider_if (is_present "sep41_issues" new) medium (
        consider_if (is_present "ledger_size_warnings" new) medium (
          consider_if (is_present "storage_collisions" new) medium (
            consider_if (is_present "unhandled_results" new) high (
              consider_if (is_present "upgrade_reports" new) high (
                consider_if (is_present "unsafe_patterns" new) high (
                  consider_if (is_present "panic_issues" new) high (
                    consider_if (is_present "arithmetic_issues" new) high (
                      consider_if (is_present "smt_issues" new) critical
                        (consider_if (is_present "auth_gaps" new) critical none)))))))))))
