-- ===== src/Tooling/Diff/Tests.antt =====
-- Runs of tooling/sanctifier-cli/src/commands/diff.rs at concrete inputs, and the theorems at such inputs.
use Prim.Native.String.{String}
use sanctifier.Base.{◌≡◌, refl, List, [], ◌∷◌}
use sanctifier.Tooling.Json.{Value, string, object, array, field, end, items_of}
use sanctifier.Tooling.Diff.{
  fingerprint_finding, split_last, all_digits, strip_line_number, auth_gap_fp,
  extract_fingerprints_from_json, filter_array, collect_new_findings, count_new_findings,
  highest_severity_in_new,
}
use sanctifier.Tooling.Diff.Sections.{count_absent}
use sanctifier.Tooling.Diff.Collect.{all_opts, count-collect, compare_self}

program : Unit {0}
unfolding fingerprint_finding split_last all_digits strip_line_number auth_gap_fp
    extract_fingerprints_from_json filter_array collect_new_findings count_new_findings
    highest_severity_in_new
program = tt

abbrev gap : String → Value
gap name = object (field "function_name" (string name) end)

abbrev sum_at : String → Value
sum_at location = object (field "operation" (string "+") (field "location" (string location) end))

abbrev report : Value
report = object (
    field "auth_gaps" (array (items_of (gap "lib.rs:mint" ∷ [])))
      (field "arithmetic_issues" (array (items_of (sum_at "lib.rs:add:12" ∷ []))) end))

abbrev baseline : List String
baseline = "arithmetic_overflow::lib.rs:add::+" ∷ []

test_strip :
    (strip_line_number "lib.rs:add:12" ≡ "lib.rs:add")
    × (strip_line_number "lib.rs:add" ≡ "lib.rs:add")
unfolding program
test_strip = (refl, refl)

-- The sum has moved to another line, so that only the auth gap is new.
test_moved : count_new_findings (collect_new_findings report baseline) ≡ 1
unfolding program
test_moved = refl

count-collect_example :
    count_new_findings (collect_new_findings report baseline)
    ≡ count_absent baseline (all_opts report)
count-collect_example = count-collect report baseline

compare_self_example :
    count_new_findings (collect_new_findings report (extract_fingerprints_from_json report)) ≡ 0
compare_self_example = compare_self report (refl, tt) tt tt
