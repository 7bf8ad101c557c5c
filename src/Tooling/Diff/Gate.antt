-- ===== src/Tooling/Diff/Gate.antt =====
-- When the exit gate of tooling/sanctifier-cli/src/commands/diff.rs is taken.
use sanctifier.Base.{◌≡◌, ap, ◌∙◌, Bool, ◌&&◌, Option, none, List, ◌∷◌}
use sanctifier.Tooling.Json.{Value}
use sanctifier.Tooling.Severity.{SeverityLevel, critical, high, medium, low, should_exit_with_1}
use sanctifier.Tooling.Severity.Gate.{
  some_from, from_option, level_if, gate_from_option, from_option-consider_all, consider_step,
}
use sanctifier.Tooling.Diff.{is_present, vuln_severities, highest_severity_in_new}

-- The levels of the new findings: one for each section that is not empty, and those of the matches.
abbrev pub levels_in_new : Value → List (Option SeverityLevel)
levels_in_new new =
    level_if (is_present "auth_gaps" new) critical
    ∷ level_if (is_present "smt_issues" new) critical
    ∷ level_if (is_present "arithmetic_issues" new) high
    ∷ level_if (is_present "panic_issues" new) high
    ∷ level_if (is_present "unsafe_patterns" new) high
    ∷ level_if (is_present "upgrade_reports" new) high
    ∷ level_if (is_present "unhandled_results" new) high
    ∷ level_if (is_present "storage_collisions" new) medium
    ∷ level_if (is_present "ledger_size_warnings" new) medium
    ∷ level_if (is_present "sep41_issues" new) medium
    ∷ level_if (is_present "event_issues" new) low
    ∷ vuln_severities new

from_option-highest :
    (m : SeverityLevel) (new : Value)
    → from_option m (highest_severity_in_new new) ≡ some_from m (levels_in_new new)
unfolding highest_severity_in_new
from_option-highest m new =
    from_option-consider_all m (vuln_severities new) _
    ∙ (consider_step m (is_present "event_issues" new) low _ _
        ∙ (consider_step m (is_present "sep41_issues" new) medium _ _
            ∙ (consider_step m (is_present "ledger_size_warnings" new) medium _ _
                ∙ (consider_step m (is_present "storage_collisions" new) medium _ _
                    ∙ (consider_step m (is_present "unhandled_results" new) high _ _
                        ∙ (consider_step m (is_present "upgrade_reports" new) high _ _
                            ∙ (consider_step m (is_present "unsafe_patterns" new) high _ _
                                ∙ (consider_step m (is_present "panic_issues" new) high _ _
                                    ∙ (consider_step m (is_present "arithmetic_issues" new) high _ _
                                        ∙ (consider_step m (is_present "smt_issues" new) critical _
                                              _
                                            ∙ consider_step m (is_present "auth_gaps" new) critical
                                                none _))))))))))

-- The exit gate of a comparison is taken when `--exit-code` is given and the report of new findings has a
-- section, or a match with a severity, whose level is declared at the threshold or after it, in the order
-- critical, high, medium, low: so when it is as severe as the threshold or less severe. New custom rule
-- matches never take it.
pub diff_exit_gate :
    (exit_code : Bool) (min_severity : SeverityLevel) (new : Value)
    → should_exit_with_1 exit_code min_severity (highest_severity_in_new new)
      ≡ (exit_code && some_from min_severity (levels_in_new new))
diff_exit_gate exit_code m new =
    gate_from_option exit_code m (highest_severity_in_new new)
    ∙ ap (λ b. exit_code && b) (from_option-highest m new)
