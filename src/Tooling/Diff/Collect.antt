-- ===== src/Tooling/Diff/Collect.antt =====
-- What the comparison of tooling/sanctifier-cli/src/commands/diff.rs reports and counts as new.
use Prim.Native.String.{String}
use sanctifier.Base.{ℕ, ◌+◌, ◌∙◌, ◌≡◌, sym, ap, Option, some, List, ◌++◌, length, arith}
use sanctifier.Tooling.Json.{Value, items, items_of, items-items_of}
use sanctifier.Tooling.Diff.{
  filter_array, new_upgrades, sum_findings, count_new_findings, collect_new_findings,
  extract_fingerprints_from_json, auth_gap_fp, arithmetic_fp, panic_fp, collision_fp, event_fp,
  unhandled_fp, smt_fp, sep41_fp, vuln_fp, custom_fp, named_fp?,
}
use sanctifier.Tooling.Diff.Sections.{
  count_absent, count_absent-append, both_known, section_opts, upgrade_opts, length-filter_array,
  sum_findings-new_upgrades, section_known, upgrade_known, SectionHas, auth_gap_known, named_known,
}

-- A section whose items all have a fingerprint.
abbrev pub plain_opts : String → (Value → String) → Value → List (Option String)
plain_opts key fp r = section_opts key (λ v. some (fp v)) r

-- The fingerprints of all the findings of a report, `none` where a finding has none.
abbrev pub all_opts : Value → List (Option String)
all_opts r =
    section_opts "auth_gaps" auth_gap_fp r
    ++ (plain_opts "arithmetic_issues" arithmetic_fp r
        ++ (plain_opts "panic_issues" panic_fp r
            ++ (plain_opts "storage_collisions" collision_fp r
                ++ (section_opts "unsafe_patterns" (named_fp? "unsafe_pattern" "snippet") r
                    ++ (section_opts "ledger_size_warnings"
                          (named_fp? "ledger_size_risk" "struct_name") r
                        ++ (plain_opts "event_issues" event_fp r
                            ++ (plain_opts "unhandled_results" unhandled_fp r
                                ++ (upgrade_opts r
                                    ++ (plain_opts "smt_issues" smt_fp r
                                        ++ (plain_opts "sep41_issues" sep41_fp r
                                            ++ (plain_opts "vulnerability_db_matches" vuln_fp r
                                                ++ plain_opts "custom_rules" custom_fp r)))))))))))

-- The length of one section of the report of new findings.
abbrev pub reported : Value → List String → String → (Value → Option String) → ℕ
reported c b key fp = length (items (items_of (filter_array c key fp b)))

counted :
    (c : Value) (b : List String) (key : String) (fp : Value → Option String)
    → count_absent b (section_opts key fp c) ≡ reported c b key fp
counted c b key fp =
    sym (ap length (items-items_of (filter_array c key fp b)) ∙ length-filter_array c key fp b)

counted_upgrades :
    (c : Value) (b : List String)
    → count_absent b (upgrade_opts c) ≡ sum_findings (items (items_of (new_upgrades c b)))
counted_upgrades c b =
    sym (ap sum_findings (items-items_of (new_upgrades c b)) ∙ sum_findings-new_upgrades b c)

plus :
    (b : List String) (os ps : List (Option String)) {n m : ℕ}
    → count_absent b os ≡ n
    → count_absent b ps ≡ m
    → count_absent b (os ++ ps) ≡ n + m
plus b os ps h k = omega (arith, count_absent-append b os ps)

-- The sum with the upgrade reports in the place of their section.
in_order :
    (a1 a2 a3 a4 a5 a6 a7 a8 u a9 a10 a11 a12 : ℕ)
    → a1 + (a2 + (a3 + (a4 + (a5 + (a6 + (a7 + (a8 + (u + (a9 + (a10 + (a11 + a12)))))))))))
      ≡ (a1 + (a2 + (a3 + (a4 + (a5 + (a6 + (a7 + (a8 + (a9 + (a10 + (a11 + (a12 + 0)))))))))))) + u
in_order a1 a2 a3 a4 a5 a6 a7 a8 u a9 a10 a11 a12 = omega arith

-- The number of new findings of a comparison is the number of findings of the current report, those
-- under the upgrade reports included, that have no fingerprint or one that the baseline lacks.
pub count-collect :
    (c : Value) (b : List String)
    → count_new_findings (collect_new_findings c b) ≡ count_absent b (all_opts c)
unfolding count_new_findings collect_new_findings
count-collect c b = sym (
    plus _ _ _ (counted c b "auth_gaps" auth_gap_fp) (
      plus _ _ _ (counted c b "arithmetic_issues" (λ v. some (arithmetic_fp v))) (
        plus _ _ _ (counted c b "panic_issues" (λ v. some (panic_fp v))) (
          plus _ _ _ (counted c b "storage_collisions" (λ v. some (collision_fp v))) (
            plus _ _ _ (counted c b "unsafe_patterns" (named_fp? "unsafe_pattern" "snippet")) (
              plus _ _ _
                (counted c b "ledger_size_warnings" (named_fp? "ledger_size_risk" "struct_name"))
                (plus _ _ _ (counted c b "event_issues" (λ v. some (event_fp v))) (
                  plus _ _ _ (counted c b "unhandled_results" (λ v. some (unhandled_fp v))) (
                    plus _ _ _ (counted_upgrades c b) (
                      plus _ _ _ (counted c b "smt_issues" (λ v. some (smt_fp v))) (
                        plus _ _ _ (counted c b "sep41_issues" (λ v. some (sep41_fp v))) (
                          plus _ _ _
                            (counted c b "vulnerability_db_matches" (λ v. some (vuln_fp v)))
                            (counted c b "custom_rules" (λ v. some (custom_fp v))))))))))))))
    ∙ in_order (reported c b "auth_gaps" auth_gap_fp)
        (reported c b "arithmetic_issues" (λ v. some (arithmetic_fp v)))
        (reported c b "panic_issues" (λ v. some (panic_fp v)))
        (reported c b "storage_collisions" (λ v. some (collision_fp v)))
        (reported c b "unsafe_patterns" (named_fp? "unsafe_pattern" "snippet"))
        (reported c b "ledger_size_warnings" (named_fp? "ledger_size_risk" "struct_name"))
        (reported c b "event_issues" (λ v. some (event_fp v)))
        (reported c b "unhandled_results" (λ v. some (unhandled_fp v)))
        (sum_findings (items (items_of (new_upgrades c b))))
        (reported c b "smt_issues" (λ v. some (smt_fp v)))
        (reported c b "sep41_issues" (λ v. some (sep41_fp v)))
        (reported c b "vulnerability_db_matches" (λ v. some (vuln_fp v)))
        (reported c b "custom_rules" (λ v. some (custom_fp v))))

-- A comparison of a report with its own fingerprints has no new findings, when each of its auth gaps, unsafe
-- patterns and ledger size warnings has the text that its fingerprint is made of.
pub compare_self :
    (r : Value)
    → SectionHas "auth_gaps" "function_name" r
    → SectionHas "unsafe_patterns" "snippet" r
    → SectionHas "ledger_size_warnings" "struct_name" r
    → count_new_findings (collect_new_findings r (extract_fingerprints_from_json r)) ≡ 0
unfolding extract_fingerprints_from_json
compare_self r gaps patterns warnings =
    count-collect r (extract_fingerprints_from_json r)
    ∙ both_known _ _ _ _ (auth_gap_known r gaps) (
        both_known _ _ _ _ (section_known "arithmetic_issues" arithmetic_fp r) (
          both_known _ _ _ _ (section_known "panic_issues" panic_fp r) (
            both_known _ _ _ _ (section_known "storage_collisions" collision_fp r) (
              both_known _ _ _ _
                (named_known "unsafe_patterns" "unsafe_pattern" "snippet" r patterns)
                (both_known _ _ _ _
                  (named_known "ledger_size_warnings" "ledger_size_risk" "struct_name" r warnings)
                  (both_known _ _ _ _ (section_known "event_issues" event_fp r) (
                    both_known _ _ _ _ (section_known "unhandled_results" unhandled_fp r) (
                      both_known _ _ _ _ (upgrade_known r) (
                        both_known _ _ _ _ (section_known "smt_issues" smt_fp r) (
                          both_known _ _ _ _ (section_known "sep41_issues" sep41_fp r) (
                            both_known _ _ _ _ (section_known "vulnerability_db_matches" vuln_fp r)
                              (section_known "custom_rules" custom_fp r))))))))))))
