-- ===== src/Tooling/Scan/Files/Tests.antt =====
-- The theorems on the cache of tooling/sanctifier-cli/src/commands/analyze.rs at concrete runs.
use text.Mathlib.Text.{◌==◌ as str_eq}
use sanctifier.Base.{◌≡◌, refl, arith, true, false, Bool, none, some, [], ◌∷◌, if◌then◌else◌}
use sanctifier.Tooling.Scan.{default}
use sanctifier.Tooling.Scan.Files.{
  Analyzer, AnalysisCache, Run, load, lookup, store, analyze_single_file, analyze_cached,
  analyze_all_cached, analyze_all,
}
use sanctifier.Tooling.Scan.Files.Cached.{IsSound, cached-analyze}
use sanctifier.Tooling.Scan.Files.Stale.{after_runs, timeout_stays}

program : Unit {0}
unfolding load lookup store analyze_single_file
program = tt

-- An analyzer that reports an auth gap.
abbrev analyzer : Analyzer
analyzer = record {
  scan_storage_collisions = λ s. [];
  analyze_ledger_size = λ s. [];
  analyze_unsafe_patterns = λ s. [];
  scan_auth_gaps = λ s. record { function_name = s } ∷ [];
  scan_panics = λ s. [];
  scan_arithmetic_overflow = λ s. [];
  scan_truncation_bounds = λ s. [];
  analyze_custom_rules = λ s. [];
  scan_vulns = λ s f. [];
  scan_events = λ s. [];
  scan_unhandled_results = λ s. [];
  run_variable_shadowing = λ s. [];
  analyze_upgrade_patterns = λ s. record {
    findings = [];
    upgrade_mechanisms = [];
    init_functions = [];
    storage_types = [];
    suggestions = [];
  };
  verify_smt_invariants = λ s. [];
  verify_sep41_interface =
      λ s. record { candidate = false; compliant = false; verified_functions = []; issues = [] };
  scan_contractimports = λ s. [];
  import_message = λ f i. "";
}

-- Every file but one is read, its text is its name, and a text is its own digest.
abbrev run_with : Bool → Run
run_with ends = record {
  analyzer = analyzer;
  read_to_string = λ f. if str_eq f "gone.rs" then none else some f;
  sha256_hex = λ s. s;
  ends_in_time = λ f. ends;
}

abbrev new : AnalysisCache
new = load none

new-IsSound : IsSound (run_with true) new
unfolding program
new-IsSound file e h = absurd (ground arith)

cached-analyze_example :
    ((analyze_all_cached (run_with true) new ("a.rs" ∷ "gone.rs" ∷ "a.rs" ∷ [])).0
      ≡ analyze_all (run_with true) ("a.rs" ∷ "gone.rs" ∷ "a.rs" ∷ []))
    × IsSound
        (run_with true)
        (analyze_all_cached (run_with true) new ("a.rs" ∷ "gone.rs" ∷ "a.rs" ∷ [])).1
cached-analyze_example =
    cached-analyze (run_with true) (λ a b h. h) (λ file. refl) new
      ("a.rs" ∷ "gone.rs" ∷ "a.rs" ∷ []) new-IsSound

-- Between the two runs another one analyses both files in time.
timeout_stays_example :
    (analyze_cached
      (run_with true)
      (after_runs
        (analyze_cached (run_with false) new "a.rs").1
        ((run_with true, "b.rs" ∷ "a.rs" ∷ []) ∷ []))
      "a.rs").0
    ≡ record default { file_path = "a.rs"; timed_out = true }
unfolding program
timeout_stays_example =
    timeout_stays (run_with false) (run_with true) new ((run_with true, "b.rs" ∷ "a.rs" ∷ []) ∷ [])
      "a.rs" "a.rs" refl refl refl refl ((refl, refl), tt) (refl, refl)
