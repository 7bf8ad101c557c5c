-- ===== src/Tooling/Scan/Files.antt =====
-- tooling/sanctifier-cli/src/commands/analyze.rs: the analysis of one file, and the cache of results of a project.
pub mod Cached
pub mod Stale
mod Tests
use Prim.Native.String.{String, ◌++◌ as str_append}
use text.Mathlib.Text.{◌==◌ as str_eq}
use sanctifier.Base.{
  ℕ, Bool, true, false, Option, none, some, List, [], ◌∷◌, ◌++◌, map, if◌then◌else◌,
}
use sanctifier.Tooling.Issues.{
  SizeWarning, PanicIssue, UnsafePattern, UpgradeReport, UpgradeFinding, ArithmeticIssue,
  TruncationBoundsIssue, StorageCollisionIssue, ContractImportMismatchIssue, EventIssue,
  UnhandledResultIssue, CustomRuleMatch, AuthGapIssue, SmtInvariantIssue, Sep41Issue,
  Sep41VerificationReport, RuleViolation, VulnMatch,
}
use sanctifier.Tooling.Scan.{FileAnalysisResult, default}
use sanctifier.Tooling.Text.{decimal}

-- The passes of the analyzer and of the vulnerability database over a source text. They parse it with `syn`, ask Z3 or
-- match regular expressions. `import_message` is what the check of an imported WASM file leaves as its message.
pub record Analyzer : Type 0 where
  pub scan_storage_collisions : String → List StorageCollisionIssue
  pub analyze_ledger_size : String → List SizeWarning
  pub analyze_unsafe_patterns : String → List UnsafePattern
  pub scan_auth_gaps : String → List AuthGapIssue
  pub scan_panics : String → List PanicIssue
  pub scan_arithmetic_overflow : String → List ArithmeticIssue
  pub scan_truncation_bounds : String → List TruncationBoundsIssue
  pub analyze_custom_rules : String → List CustomRuleMatch
  pub scan_vulns : String → String → List VulnMatch
  pub scan_events : String → List EventIssue
  pub scan_unhandled_results : String → List UnhandledResultIssue
  pub run_variable_shadowing : String → List RuleViolation
  pub analyze_upgrade_patterns : String → UpgradeReport
  pub verify_smt_invariants : String → List SmtInvariantIssue
  pub verify_sep41_interface : String → Sep41VerificationReport
  pub scan_contractimports : String → List ContractImportMismatchIssue
  pub import_message : String → ContractImportMismatchIssue → String

-- `format!("{}:{}", a, b)`
abbrev pub at : String → String → String
at a b = str_append a (str_append ":" b)

-- The import issues that have a message.
abbrev pub with_message : List ContractImportMismatchIssue → List ContractImportMismatchIssue
with_message [] = []
with_message (i ∷ is) = let rest = with_message is in if str_eq i.message "" then rest else i ∷ rest

pub analyze_single_file : Analyzer → String → String → FileAnalysisResult
analyze_single_file a content file =
    let up = a.analyze_upgrade_patterns content in
    let sep41 = a.verify_sep41_interface content in
    record {
      file_path = file;
      collisions =
          map {A = StorageCollisionIssue} {B = StorageCollisionIssue}
            (λ i. record i { location = at file i.location }) (a.scan_storage_collisions content);
      size_warnings = a.analyze_ledger_size content;
      unsafe_patterns =
          map {A = UnsafePattern} {B = UnsafePattern}
            (λ i. record i { snippet = at file i.snippet }) (a.analyze_unsafe_patterns content);
      auth_gaps =
          map {A = AuthGapIssue} {B = AuthGapIssue}
            (λ g. record g { function_name = at file g.function_name }) (a.scan_auth_gaps content);
      panic_issues =
          map {A = PanicIssue} {B = PanicIssue} (λ i. record i { location = at file i.location })
            (a.scan_panics content);
      arithmetic_issues =
          map {A = ArithmeticIssue} {B = ArithmeticIssue}
            (λ i. record i { location = at file i.location }) (a.scan_arithmetic_overflow content);
      custom_matches =
          map {A = CustomRuleMatch} {B = CustomRuleMatch}
            (λ m. record m {
              snippet = at file (str_append (decimal m.line) (str_append ": " m.snippet));
            })
            (a.analyze_custom_rules content);
      vuln_matches = a.scan_vulns content file;
      event_issues =
          map {A = EventIssue} {B = EventIssue} (λ i. record i { location = at file i.location })
            (a.scan_events content);
      unhandled_results =
          map {A = UnhandledResultIssue} {B = UnhandledResultIssue}
            (λ i. record i { location = at file i.location }) (a.scan_unhandled_results content);
      upgrade_reports =
          record up {
            findings =
                map {A = UpgradeFinding} {B = UpgradeFinding}
                  (λ f. record f { location = at file f.location }) up.findings;
          }
          ∷ [];
      smt_issues =
          map {A = SmtInvariantIssue} {B = SmtInvariantIssue}
            (λ i. record i { location = at file i.location }) (a.verify_smt_invariants content);
      truncation_bounds_issues =
          map {A = TruncationBoundsIssue} {B = TruncationBoundsIssue}
            (λ i. record i { location = at file i.location }) (a.scan_truncation_bounds content);
      sep41_checked_contracts = elim sep41.candidate [ true ↦ file ∷ [] | false ↦ [] ];
      sep41_issues = elim sep41.candidate [
        | true ↦
            map {A = Sep41Issue} {B = Sep41Issue} (λ i. record i { location = at file i.location })
              sep41.issues
        | false ↦ []
      ];
      contractimport_issues = with_message (
          map {A = ContractImportMismatchIssue} {B = ContractImportMismatchIssue}
            (λ i.
              let j : ContractImportMismatchIssue = record i { location = at file i.location } in
              record j { message = a.import_message file j })
            (a.scan_contractimports content));
      variable_shadowing_violations =
          map {A = RuleViolation} {B = RuleViolation}
            (λ v. record v { location = at file v.location }) (a.run_variable_shadowing content);
      timed_out = false;
    }

pub record CacheEntry : Type 0 where
  pub hash : String
  pub result : FileAnalysisResult

-- The map is the list of what is stored, the newest first.
pub record AnalysisCache : Type 0 where
  pub version : String
  pub entries : List (String × CacheEntry)

-- `AnalysisCache::load`, on what the file parses to.
pub load : Option AnalysisCache → AnalysisCache
load none = record { version = "1"; entries = [] }
load (some c) = if str_eq c.version "1" then c else record { version = "1"; entries = [] }

abbrev pub entry_of : String → List (String × CacheEntry) → Option CacheEntry
entry_of file [] = none
entry_of file ((f, e) ∷ es) = if str_eq f file then some e else entry_of file es

-- `.filter(|e| e.hash == hash).map(|e| e.result.clone())`
abbrev pub result_with : String → Option CacheEntry → Option FileAnalysisResult
result_with hash none = none
result_with hash (some e) = if str_eq e.hash hash then some e.result else none

pub lookup : AnalysisCache → String → String → Option FileAnalysisResult
lookup c file hash = result_with hash (entry_of file c.entries)

pub store : AnalysisCache → String → String → FileAnalysisResult → AnalysisCache
store c file hash result = record c {
  entries = (file, record { hash = hash; result = result }) ∷ c.entries;
}

-- One run of the program: what the files hold, SHA-256 in hexadecimal, and which analyses end in time.
pub record Run : Type 0 where
  pub analyzer : Analyzer
  pub read_to_string : String → Option String
  pub sha256_hex : String → String
  pub ends_in_time : String → Bool

-- The result of a file that is analysed, when it ends in time or not: `run_with_timeout` and its `match`.
abbrev pub timed : Run → String → String → Bool → FileAnalysisResult
timed run file content true = analyze_single_file run.analyzer content file
timed run file content false = record default { file_path = file; timed_out = true }

abbrev pub computed : Run → String → String → FileAnalysisResult
computed run file content = timed run file content (run.ends_in_time file)

-- With `--no-cache`, on what the file holds.
abbrev pub analyze_text : Run → String → Option String → FileAnalysisResult
analyze_text run file none = default
analyze_text run file (some content) = computed run file content

abbrev pub analyze_file : Run → String → FileAnalysisResult
analyze_file run file = analyze_text run file (run.read_to_string file)

-- With a cache, on what the cache has for the file.
abbrev pub answer :
    Run
    → AnalysisCache
    → String
    → String
    → Option FileAnalysisResult
    → FileAnalysisResult × AnalysisCache
answer run c file content (some cached_res) = (cached_res, c)
answer run c file content none =
    let result = computed run file content in (result, store c file (run.sha256_hex content) result)

abbrev pub cached_text :
    Run → AnalysisCache → String → Option String → FileAnalysisResult × AnalysisCache
cached_text run c file none = (default, c)
cached_text run c file (some content) =
    answer run c file content (lookup c file (run.sha256_hex content))

abbrev pub analyze_cached : Run → AnalysisCache → String → FileAnalysisResult × AnalysisCache
analyze_cached run c file = cached_text run c file (run.read_to_string file)

-- The files one after the other; the lock makes each look-up and each store one step.
abbrev pub analyze_all_cached :
    Run → AnalysisCache → List String → List FileAnalysisResult × AnalysisCache
analyze_all_cached run c [] = ([], c)
analyze_all_cached run c (file ∷ files) =
    let first = analyze_cached run c file in
    let rest = analyze_all_cached run first.1 files in (first.0 ∷ rest.0, rest.1)

abbrev pub analyze_all : Run → List String → List FileAnalysisResult
analyze_all run files = map (analyze_file run) files
