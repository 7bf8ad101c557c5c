-- ===== src/Tooling/Rules.antt =====
-- tooling/sanctifier-core/src/rules/mod.rs: the registry of rules, and custom_yaml_rules.rs: the names that a
-- custom rule matches, and its regular expressions.
pub mod Patterns
pub mod Registry
mod Tests
use Prim.Native.String.{String, ◌++◌ as str_append}
use text.Mathlib.Text.{◌==◌ as str_eq}
use sanctifier.Base.{
  ℕ, suc, ◌+◌, Bool, true, false, ◌&&◌, Option, List, [], ◌∷◌, ◌++◌, none, some, if◌then◌else◌,
}
use sanctifier.Tooling.Issues.{Patch, Severity, RuleViolation}
use sanctifier.Tooling.Text.{
  contains_code, split_on, starts_with, ends_with, contains_text, trim_matches, lines, decimal,
}

-- The trait of a rule.
pub record Rule : Type 0 where
  pub name : String
  pub description : String
  pub check : String → List RuleViolation
  pub fix : String → List Patch

abbrev pub RuleRegistry : Type 0
RuleRegistry = List Rule

pub register : Rule → RuleRegistry → RuleRegistry
register r rules = rules ++ r ∷ []

pub run_all : RuleRegistry → String → List RuleViolation
run_all [] source = []
run_all (r ∷ rules) source = r.check source ++ run_all rules source

pub run_by_name : RuleRegistry → String → String → List RuleViolation
run_by_name [] source name = []
run_by_name (r ∷ rules) source name =
    let rest = run_by_name rules source name in
    if str_eq r.name name then r.check source ++ rest else rest

pub available_rules : RuleRegistry → List String
available_rules [] = []
available_rules (r ∷ rules) = r.name ∷ available_rules rules

-- Custom rules.
pub data YamlSeverity : Type 0 where
  error warning info : YamlSeverity

pub from : YamlSeverity → Severity
from YamlSeverity.error = Severity.error
from YamlSeverity.warning = Severity.warning
from YamlSeverity.info = Severity.info

-- The pieces of a pattern with a star.
abbrev pub match_parts : String → String → List String → Bool
match_parts text pattern (first ∷ second ∷ []) = starts_with text first && ends_with text second
match_parts text pattern _ = contains_text text (trim_matches b'*' pattern)

pub matches_pattern : String → String → Bool
matches_pattern text pattern =
    if contains_code b'*' pattern
    then match_parts text pattern (split_on b'*' pattern)
    else contains_text text pattern

-- `RuleViolation::new`
pub violation : String → Severity → String → String → RuleViolation
violation rule_name severity message location = record {
  rule_name = rule_name;
  severity = severity;
  message = message;
  location = location;
  suggestion = none;
  patches = [];
}

pub with_patches : List Patch → RuleViolation → RuleViolation
with_patches patches v = record v { patches = patches }

pub with_suggestion : String → RuleViolation → RuleViolation
with_suggestion suggestion v = record v { suggestion = some suggestion }

-- How a custom rule finds its matches.
pub data AstMatcher : Type 0 where
  function_call : String → List String → AstMatcher
  method_call : String → Option String → AstMatcher
  storage_operation : String → Option String → AstMatcher
  regex : String → AstMatcher

pub record YamlCustomRule : Type 0 where
  pub id : String
  pub name : String
  pub description : String
  pub severity : YamlSeverity
  pub matcher : AstMatcher

-- `Regex::new(pattern)` succeeds, and `is_match` on a line.
pub record Regex : Type 0 where
  pub is_pattern : String → Bool
  pub is_match : String → String → Bool

-- The loop over the lines, from an index.
pub line_violations : Regex → String → YamlCustomRule → ℕ → List String → List RuleViolation
line_violations re pattern rule index [] = []
line_violations re pattern rule index (line ∷ rest) =
    let later = line_violations re pattern rule (suc index) rest in
    if re.is_match pattern line
    then violation rule.id (from rule.severity) rule.description
        (str_append "line " (decimal (index + 1)))
      ∷ later
    else later

pub check_regex_pattern : Regex → String → String → YamlCustomRule → List RuleViolation
check_regex_pattern re source pattern rule =
    if re.is_pattern pattern then line_violations re pattern rule 0 (lines source) else []
