-- ===== src/Tooling/Severity.antt =====
-- Severity levels and the exit gate of tooling/sanctifier-cli/src/commands/analyze.rs.
pub mod Gate
mod Tests
use Prim.Native.String.{String}
use Prim.Native.Char.{code}
use sanctifier.Base.{
  ℕ, ◌+◌, ◌==◌, Bool, true, false, ◌&&◌, Option, none, some, leb, List, [], ◌∷◌, if◌then◌else◌,
}

pub data SeverityLevel : Type 0 where
  critical high medium low : SeverityLevel

abbrev pub as_str : SeverityLevel → String
as_str critical = "critical"
as_str high = "high"
as_str medium = "medium"
as_str low = "low"

-- The place of a variant in the declaration, by which `#[derive(PartialOrd, Ord)]` compares.
abbrev pub position : SeverityLevel → ℕ
position critical = 0
position high = 1
position medium = 2
position low = 3

-- `a >= b`
abbrev pub ge : SeverityLevel → SeverityLevel → Bool
ge a b = leb (position b) (position a)

-- `a.max(b)`
abbrev pub max : SeverityLevel → SeverityLevel → SeverityLevel
max a b = if ge b a then b else a

-- `char::to_lowercase` on ASCII letters.
abbrev pub lowercase : ℕ → ℕ
lowercase c = if leb b'A' c && leb c b'Z' then c + 32 else c

-- `s.to_lowercase() == word`, for a word of ASCII letters other than `k`: no other letter has one of
-- these as its lower case.
pub is_lowercase_of : String → String → Bool
is_lowercase_of String.[] String.[] = true
is_lowercase_of (String.◌∷◌ c s) (String.◌∷◌ d word) =
    lowercase (code c) == code d && is_lowercase_of s word
is_lowercase_of _ _ = false

-- `SeverityLevel::from_str(s).ok()`
pub from_str : String → Option SeverityLevel
from_str s =
    if is_lowercase_of s "critical"
    then some critical
    else if is_lowercase_of s "high"
    then some high
    else if is_lowercase_of s "medium"
    then some medium
    else if is_lowercase_of s "low"
    then some low
    else none

-- One `consider` of the highest severity so far.
abbrev pub consider : SeverityLevel → Option SeverityLevel → Option SeverityLevel
consider s none = some s
consider s (some current) = some (max current s)

abbrev pub consider_if : Bool → SeverityLevel → Option SeverityLevel → Option SeverityLevel
consider_if true s h = consider s h
consider_if false s h = h

abbrev pub consider_all : List (Option SeverityLevel) → Option SeverityLevel → Option SeverityLevel
consider_all [] h = h
consider_all (none ∷ ss) h = consider_all ss h
consider_all (some s ∷ ss) h = consider_all ss (consider s h)

-- `args.exit_code && highest.map(|h| h >= args.min_severity).unwrap_or(false)`
unfoldable pub should_exit_with_1 : Bool → SeverityLevel → Option SeverityLevel → Bool
should_exit_with_1 exit_code min_severity none = false
should_exit_with_1 exit_code min_severity (some h) = exit_code && ge h min_severity

-- What `run_analysis` has of a scan when it looks for the highest severity.
pub record Scan : Type 0 where
  pub has_critical : Bool
  pub has_high : Bool
  pub has_medium : Bool
  pub has_event_issues : Bool
  pub vuln_severities : List (Option SeverityLevel)
  pub has_timeouts : Bool
  pub has_import_issues : Bool

unfoldable pub highest_finding_severity : Scan → Option SeverityLevel
highest_finding_severity s = consider_if s.has_import_issues medium (
    consider_if s.has_timeouts low (
      consider_all s.vuln_severities (
        consider_if s.has_event_issues low (
          consider_if s.has_medium medium
            (consider_if s.has_high high (consider_if s.has_critical critical none))))))
