-- ===== src/Tooling/Scan/ExitGate.antt =====
-- Which findings take the exit gate of tooling/sanctifier-cli/src/commands/analyze.rs.
use sanctifier.Base.{
  ◌≡◌, refl, sym, ap, ◌∙◌, Bool, true, false, ◌&&◌, ◌||◌, Option, none, some, List, [], ◌∷◌, ◌++◌,
  arith,
}
use sanctifier.Tooling.Issues.{
  is_critical, is_high, size_warning_severity, panic_severity, unsafe_pattern_severity,
  upgrade_finding_severity, arithmetic_severity, truncation_severity, event_severity,
  unhandled_severity, auth_gap_severity, sep41_severity,
}
use sanctifier.Tooling.Severity.{SeverityLevel, critical, high, medium, low, ge}
use sanctifier.Tooling.Severity
use sanctifier.Tooling.Severity.Gate.{
  some_from, level_if, levels, some_from-append, or_false, exit_gate,
}
use sanctifier.Tooling.Scan.{
  FileAnalysisResult, gather, timed_out_file, any, is_present, has_critical, has_high,
  parsed_severities, scan_of, run_result,
}

-- One level for each finding of a section that passes the test.
abbrev pub raised : {A : Type 0} → SeverityLevel → (A → Bool) → List A → List (Option SeverityLevel)
raised s test [] = []
raised s test (x ∷ xs) = level_if (test x) s ∷ raised s test xs

abbrev pub each : {A : Type 0} → SeverityLevel → List A → List (Option SeverityLevel)
each s xs = raised s (λ x. true) xs

module _ (rs : List FileAnalysisResult) where
  abbrev pub critical_levels : List (Option SeverityLevel)
  critical_levels =
      raised critical (λ i. is_critical (auth_gap_severity i)) (gather (λ r. r.auth_gaps) rs)
      ++ (raised critical (λ i. is_critical (panic_severity i)) (gather (λ r. r.panic_issues) rs)
          ++ (each critical (gather (λ r. r.smt_issues) rs)
              ++ (raised critical (λ i. is_critical (sep41_severity i))
                    (gather (λ r. r.sep41_issues) rs)
                  ++ raised critical (λ i. is_critical (size_warning_severity i))
                      (gather (λ r. r.size_warnings) rs))))

  abbrev pub high_levels : List (Option SeverityLevel)
  high_levels =
      raised high (λ i. is_high (arithmetic_severity i)) (gather (λ r. r.arithmetic_issues) rs)
      ++ (raised high (λ i. is_high (panic_severity i)) (gather (λ r. r.panic_issues) rs)
          ++ (raised high (λ i. is_high (size_warning_severity i))
                (gather (λ r. r.size_warnings) rs)
              ++ (raised high (λ i. is_high (unsafe_pattern_severity i))
                    (gather (λ r. r.unsafe_patterns) rs)
                  ++ (raised high (λ u. any (λ f. is_high (upgrade_finding_severity f)) u.findings)
                        (gather (λ r. r.upgrade_reports) rs)
                      ++ (raised high (λ i. is_high (event_severity i))
                            (gather (λ r. r.event_issues) rs)
                          ++ (raised high (λ i. is_high (unhandled_severity i))
                                (gather (λ r. r.unhandled_results) rs)
                              ++ raised high (λ i. is_high (truncation_severity i))
                                  (gather (λ r. r.truncation_bounds_issues) rs)))))))

  abbrev pub medium_levels : List (Option SeverityLevel)
  medium_levels =
      (each medium (gather (λ r. r.size_warnings) rs)
        ++ each medium (gather (λ r. r.unsafe_patterns) rs))
      ++ each medium (gather (λ r. r.sep41_issues) rs)

  -- The levels of the findings of a scan; a finding may have two.
  abbrev pub finding_levels : List (Option SeverityLevel)
  finding_levels =
      critical_levels
      ++ (high_levels
          ++ (medium_levels
              ++ (each low (gather (λ r. r.event_issues) rs)
                  ++ (parsed_severities (gather (λ r. r.vuln_matches) rs)
                      ++ (each low (gather timed_out_file rs)
                          ++ each medium (gather (λ r. r.contractimport_issues) rs))))))

any-true : {A : Type 0} (xs : List A) → any (λ x. true) xs ≡ is_present xs
any-true [] = refl
any-true (x ∷ xs) = ground (arith, any-true xs)

module _ (m : SeverityLevel) where
  some_from-raised :
      {A : Type 0} (s : SeverityLevel) (test : A → Bool) (xs : List A)
      → some_from m (raised s test xs) ≡ (any test xs && ge s m)
  some_from-raised s test [] = refl
  some_from-raised s test (x ∷ xs) = ground (arith, some_from-raised s test xs)

  some_from-level_if :
      (t : Bool) (s : SeverityLevel) (ss : List (Option SeverityLevel))
      → some_from m (level_if t s ∷ ss) ≡ ((t && ge s m) || some_from m ss)
  some_from-level_if true s ss = refl
  some_from-level_if false s ss = refl

  and-or : (a b g : Bool) → ((a || b) && g) ≡ ((a && g) || (b && g))
  and-or a b g = ground arith

  some_from-critical :
      (rs : List FileAnalysisResult)
      → some_from m (critical_levels rs) ≡ (has_critical rs && ge critical m)
  unfolding has_critical
  some_from-critical rs = simp (some_from-append m, some_from-raised, any-true, and-or)

  some_from-high :
      (rs : List FileAnalysisResult) → some_from m (high_levels rs) ≡ (has_high rs && ge high m)
  unfolding has_high
  some_from-high rs = simp (some_from-append m, some_from-raised, and-or)

  some_from-medium :
      (rs : List FileAnalysisResult)
      → some_from m (medium_levels rs) ≡ ((scan_of rs).has_medium && ge medium m)
  some_from-medium rs = simp (some_from-append m, some_from-raised, any-true, and-or)

  -- The levels of seven parts, each of which is worth a Boolean.
  some_from_parts :
      (cs hs ms es vs ts is : List (Option SeverityLevel)) (c h d e t i : Bool)
      → some_from m cs ≡ c
      → some_from m hs ≡ h
      → some_from m ms ≡ d
      → some_from m es ≡ e
      → some_from m ts ≡ t
      → some_from m is ≡ i
      → some_from m (cs ++ (hs ++ (ms ++ (es ++ (vs ++ (ts ++ is))))))
        ≡ (c || (h || (d || (e || (some_from m vs || (t || i))))))
  some_from_parts cs hs ms es vs ts is c h d e t i hc hh hd he ht hi =
      simp (some_from-append m, hc, hh, hd, he, ht, hi)

  or_assoc : (a b c : Bool) → ((a || b) || c) ≡ (a || (b || c))
  or_assoc a b c = ground arith

  some_from-flags :
      (s : Severity.Scan)
      → some_from m (levels s) ≡ (
          (s.has_critical && ge critical m)
          || ((s.has_high && ge high m)
              || ((s.has_medium && ge medium m)
                  || ((s.has_event_issues && ge low m)
                      || (some_from m s.vuln_severities
                          || ((s.has_timeouts && ge low m)
                              || (s.has_import_issues && ge medium m)))))))
  some_from-flags s = simp (some_from-append m, some_from-level_if, or_false, or_assoc)

  some_from-present :
      {A : Type 0} (s : SeverityLevel) (xs : List A)
      → some_from m (each s xs) ≡ (is_present xs && ge s m)
  some_from-present s xs = simp (some_from-raised, any-true)

  some_from-levels :
      (rs : List FileAnalysisResult)
      → some_from m (levels (scan_of rs)) ≡ some_from m (finding_levels rs)
  some_from-levels rs =
      some_from-flags (scan_of rs)
      ∙ sym (
          some_from_parts (critical_levels rs) (high_levels rs) (medium_levels rs)
            (each low (gather (λ r. r.event_issues) rs))
            (parsed_severities (gather (λ r. r.vuln_matches) rs))
            (each low (gather timed_out_file rs))
            (each medium (gather (λ r. r.contractimport_issues) rs)) _ _ _ _ _ _
            (some_from-critical rs) (some_from-high rs) (some_from-medium rs)
            (some_from-present low (gather (λ r. r.event_issues) rs))
            (some_from-present low (gather timed_out_file rs))
            (some_from-present medium (gather (λ r. r.contractimport_issues) rs)))

-- Whether a level is declared at the threshold or after it.
abbrev pub from_threshold : (min_severity level : SeverityLevel) → Bool
from_threshold critical level = true
from_threshold high critical = false
from_threshold high level = true
from_threshold medium medium = true
from_threshold medium low = true
from_threshold medium level = false
from_threshold low low = true
from_threshold low level = false

abbrev pub some_from_threshold : SeverityLevel → List (Option SeverityLevel) → Bool
some_from_threshold m [] = false
some_from_threshold m (none ∷ ss) = some_from_threshold m ss
some_from_threshold m (some s ∷ ss) = from_threshold m s || some_from_threshold m ss

ge_lem : (m s : SeverityLevel) → ge s m ≡ from_threshold m s
ge_lem m s = ground arith

some_from_lem :
    (m : SeverityLevel) (ss : List (Option SeverityLevel))
    → some_from m ss ≡ some_from_threshold m ss
some_from_lem m [] = refl
some_from_lem m (none ∷ ss) = some_from_lem m ss
some_from_lem m (some s ∷ ss) = simp (ge_lem, some_from_lem m ss)

-- The exit gate of a scan is taken exactly when `--exit-code` is given and some finding has a level that is
-- declared at the threshold `--min-severity` or after it, in the order critical, high, medium, low: so a level as
-- severe as the threshold or less severe. The levels are, critical and high: what the `severity` methods say of
-- auth gaps, panics, SEP-41 issues, ledger sizes, arithmetic, unsafe patterns, upgrade findings, events, unhandled
-- results and truncations, and critical for SMT issues; besides, medium for ledger sizes, unsafe patterns, SEP-41
-- and import issues, low for events and timeouts, and the severity that a match of the vulnerability database
-- names. Storage collisions, custom rule matches and shadowing violations have no level.
pub scan_exit_gate :
    (exit_code : Bool) (min_severity : SeverityLevel) (rs : List FileAnalysisResult)
    → run_result exit_code min_severity rs
      ≡ (exit_code && some_from_threshold min_severity (finding_levels rs))
unfolding run_result
scan_exit_gate exit_code m rs =
    exit_gate exit_code m (scan_of rs)
    ∙ ap (λ b. exit_code && b) (some_from-levels m rs ∙ some_from_lem m (finding_levels rs))
