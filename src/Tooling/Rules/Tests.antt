-- ===== src/Tooling/Rules/Tests.antt =====
-- Custom rules on small inputs.
use Prim.Native.String.{String}
use text.Mathlib.Text.{◌==◌ as str_eq}
use sanctifier.Base.{◌≡◌, ◌↔◌, refl, true, false, [], ◌∷◌, arith}
use sanctifier.Tooling.Issues.{Severity}
use sanctifier.Tooling.Rules.{
  matches_pattern, YamlSeverity, YamlCustomRule, AstMatcher, Regex, check_regex_pattern, violation,
  Rule, register, run_by_name, from, line_violations,
}
use sanctifier.Tooling.Rules.Patterns.{
  matches_iff, matches_pattern-inner, Contains, BeginsWith, EndsWith,
}

program : Unit {0}
unfolding matches_pattern check_regex_pattern line_violations violation from register run_by_name
program = tt

matches :
    (matches_pattern "unsafe_transfer" "*transfer" ≡ true)
    × (matches_pattern "do_transfer_now" "*transfer*" ≡ true)
    × (matches_pattern "transfer" "mint" ≡ false)
    × (matches_pattern "aba" "ab*ba" ≡ true)
    × (matches_pattern "set_the_admin" "set*the*admin" ≡ false)
unfolding program
matches = (refl, refl, refl, refl, refl)

matches_iff_example :
    ((matches_pattern "transfer_from" "transfer" ≡ true) ↔ Contains "transfer_from" "transfer")
    × ((matches_pattern "transfer_from" "transfer*from" ≡ true)
        ↔ (BeginsWith "transfer_from" "transfer" × EndsWith "transfer_from" "from"))
matches_iff_example = matches_iff "transfer_from" "transfer" "from" refl refl

matches_pattern-inner_example : matches_pattern "set_the_admin" "set*the*admin" ≡ false
matches_pattern-inner_example =
    matches_pattern-inner "set_the_admin" "set*the*admin" refl refl (omega arith) refl

abbrev rule : YamlCustomRule
rule = record {
  id = "no-unwrap";
  name = "No unwrap";
  description = "unwrap";
  severity = YamlSeverity.info;
  matcher = AstMatcher.regex "unwrap";
}

-- A pattern that matches its own text only.
abbrev re : Regex
re = record { is_pattern = λ p. true; is_match = str_eq }

checking :
    check_regex_pattern re "fn f\nunwrap\r\nend\nunwrap" "unwrap" rule
    ≡ violation "no-unwrap" Severity.info "unwrap" "line 2"
      ∷ violation "no-unwrap" Severity.info "unwrap" "line 4"
      ∷ []
unfolding program
checking = refl

abbrev named : String → Rule
named name = record {
  name = name;
  description = "";
  check = λ source. violation name Severity.error source "" ∷ [];
  fix = λ source. [];
}

running :
    run_by_name (register (named "b") (register (named "a") [])) "text" "b"
    ≡ violation "b" Severity.error "text" "" ∷ []
unfolding program
running = refl
