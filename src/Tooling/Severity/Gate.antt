-- ===== src/Tooling/Severity/Gate.antt =====
-- When the exit gate of tooling/sanctifier-cli/src/commands/analyze.rs and diff.rs is taken.
use sanctifier.Base.{
  ◌≡◌, refl, sym, ap, ◌∙◌, Bool, true, false, ◌&&◌, ◌||◌, Option, none, some, List, [], ◌∷◌, ◌++◌,
  arith,
}
use sanctifier.Tooling.Severity.{
  SeverityLevel, critical, high, medium, low, ge, max, consider, consider_if, consider_all,
  should_exit_with_1, Scan, highest_finding_severity,
}

-- Whether one of the levels is declared at the threshold or after it.
abbrev pub some_from : SeverityLevel → List (Option SeverityLevel) → Bool
some_from m [] = false
some_from m (none ∷ ss) = some_from m ss
some_from m (some s ∷ ss) = ge s m || some_from m ss

abbrev pub from_option : SeverityLevel → Option SeverityLevel → Bool
from_option m none = false
from_option m (some s) = ge s m

-- `Some(level)` when the test holds.
abbrev pub level_if : Bool → SeverityLevel → Option SeverityLevel
level_if true s = some s
level_if false s = none

-- The levels of the flags of a scan, and of its matches.
abbrev pub levels : Scan → List (Option SeverityLevel)
levels s =
    level_if s.has_critical critical
      ∷ level_if s.has_high high
      ∷ level_if s.has_medium medium
      ∷ level_if s.has_event_issues low
      ∷ s.vuln_severities
    ++ (level_if s.has_timeouts low ∷ level_if s.has_import_issues medium ∷ [])

pub ge-max : (a b m : SeverityLevel) → ge (max a b) m ≡ (ge a m || ge b m)
ge-max a b m = ground arith

pub from_option-consider :
    (m s : SeverityLevel) (h : Option SeverityLevel)
    → from_option m (consider s h) ≡ (from_option m h || ge s m)
from_option-consider m s none = refl
from_option-consider m s (some c) = ge-max c s m

pub from_option-consider_if :
    (m : SeverityLevel) (t : Bool) (s : SeverityLevel) (h : Option SeverityLevel)
    → from_option m (consider_if t s h) ≡ (from_option m h || (t && ge s m))
from_option-consider_if m true s h = from_option-consider m s h
from_option-consider_if m false s h = ground arith

pub from_option-consider_all :
    (m : SeverityLevel) (ss : List (Option SeverityLevel)) (h : Option SeverityLevel)
    → from_option m (consider_all ss h) ≡ (from_option m h || some_from m ss)
from_option-consider_all m [] h = ground arith
from_option-consider_all m (none ∷ ss) h = from_option-consider_all m ss h
from_option-consider_all m (some s ∷ ss) h =
    ground (arith, from_option-consider_all m ss (consider s h), from_option-consider m s h)

pub some_from-append :
    (m : SeverityLevel) (ss ts : List (Option SeverityLevel))
    → some_from m (ss ++ ts) ≡ (some_from m ss || some_from m ts)
some_from-append m [] ts = refl
some_from-append m (none ∷ ss) ts = some_from-append m ss ts
some_from-append m (some s ∷ ss) ts = ground (arith, some_from-append m ss ts)

pub gate_from_option :
    (exit_code : Bool) (m : SeverityLevel) (h : Option SeverityLevel)
    → should_exit_with_1 exit_code m h ≡ (exit_code && from_option m h)
unfolding should_exit_with_1
gate_from_option true m none = refl
gate_from_option false m none = refl
gate_from_option e m (some h) = refl

pub or_false : (b : Bool) → (b || false) ≡ b
or_false true = refl
or_false false = refl

-- What the `consider` of a level under a test adds to a fold adds the same to the list.
pub consider_step :
    (m : SeverityLevel) (t : Bool) (s : SeverityLevel) (h : Option SeverityLevel)
    (ss : List (Option SeverityLevel))
    → (from_option m (consider_if t s h) || some_from m ss)
      ≡ (from_option m h || some_from m (level_if t s ∷ ss))
consider_step m true s h ss = ground (arith, from_option-consider m s h)
consider_step m false s h ss = refl

pub consider_all_step :
    (m : SeverityLevel) (ss : List (Option SeverityLevel)) (h : Option SeverityLevel)
    (ts : List (Option SeverityLevel))
    → (from_option m (consider_all ss h) || some_from m ts)
      ≡ (from_option m h || some_from m (ss ++ ts))
consider_all_step m ss h ts =
    ground (arith, from_option-consider_all m ss h, some_from-append m ss ts)

from_option-highest :
    (m : SeverityLevel) (s : Scan)
    → from_option m (highest_finding_severity s) ≡ some_from m (levels s)
unfolding highest_finding_severity
from_option-highest m s =
    sym (or_false (from_option m (highest_finding_severity s)))
    ∙ (consider_step m s.has_import_issues medium _ []
        ∙ (consider_step m s.has_timeouts low _ _
            ∙ (consider_all_step m s.vuln_severities _ _
                ∙ (consider_step m s.has_event_issues low _ _
                    ∙ (consider_step m s.has_medium medium _ _
                        ∙ (consider_step m s.has_high high _ _
                            ∙ consider_step m s.has_critical critical none _))))))

-- The gate in terms of the levels of the flags that the search for the highest severity reads.
pub exit_gate :
    (exit_code : Bool) (min_severity : SeverityLevel) (s : Scan)
    → should_exit_with_1 exit_code min_severity (highest_finding_severity s)
      ≡ (exit_code && some_from min_severity (levels s))
exit_gate exit_code m s =
    gate_from_option exit_code m (highest_finding_severity s)
    ∙ ap (λ b. exit_code && b) (from_option-highest m s)
