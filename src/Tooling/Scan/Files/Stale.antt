-- ===== src/Tooling/Scan/Files/Stale.antt =====
-- A timeout in the cache of tooling/sanctifier-cli/src/commands/analyze.rs.
use Prim.Native.String.{String}
use text.Mathlib.Text.{◌==◌ as str_eq}
use text.Mathlib.TextEquality.{eq_iff}
use sanctifier.Base.{
  ◌≡◌, refl, ap, ◌∙◌, true, false, none, some, List, [], ◌∷◌, Option-cases, Bool-cases, inl, inr,
}
use sanctifier.Tooling.Scan.{FileAnalysisResult, default}
use sanctifier.Tooling.Scan.Files.{
  AnalysisCache, load, lookup, store, Run, analyze_cached, analyze_all_cached,
}
use sanctifier.Tooling.Scan.Files.Cached.{lookup-store}

-- The cache after runs of the program over some files each, every one with the cache that the one before it
-- has saved.
abbrev pub after_runs : AnalysisCache → List (Run × List String) → AnalysisCache
after_runs c [] = c
after_runs c ((run, files) ∷ runs) =
    after_runs (load (some (analyze_all_cached run c files).1)) runs

-- The file has that text in a run, with that digest.
abbrev pub HasText : String → String → String → Run → Type 0
HasText file content hash run =
    (run.read_to_string file ≡ some content) × (run.sha256_hex content ≡ hash)

abbrev pub AllHaveText : String → String → String → List (Run × List String) → Type 0
AllHaveText file content hash [] = Unit
AllHaveText file content hash ((run, files) ∷ runs) =
    HasText file content hash run × AllHaveText file content hash runs

-- A cache of the current version with that result for the file and the digest.
abbrev pub Holds : String → String → FileAnalysisResult → AnalysisCache → Type 0
Holds file hash r c = (c.version ≡ "1") × (lookup c file hash ≡ some r)

lookup-store_other :
    (c : AnalysisCache) (file other hash hash' : String) (r : FileAnalysisResult)
    → str_eq other file ≡ false
    → lookup (store c other hash' r) file hash ≡ lookup c file hash
unfolding lookup store
lookup-store_other c file other hash hash' r h = rw h refl

store-version :
    (c : AnalysisCache) (file hash : String) (r : FileAnalysisResult)
    → (store c file hash r).version ≡ c.version
unfolding store
store-version c file hash r = refl

module _ (file content hash : String) (r : FileAnalysisResult) where
  analyze_cached_same :
      (run : Run) (c : AnalysisCache)
      → HasText file content hash run
      → Holds file hash r c
      → analyze_cached run c file ≡ (r, c)
  analyze_cached_same run c (text, digest) (version, held) = rw (text, digest, held) refl

  analyze_cached_other :
      (run : Run) (c : AnalysisCache) (other : String)
      → str_eq other file ≡ false
      → Holds file hash r c
      → Holds file hash r (analyze_cached run c other).1
  unfolding store
  analyze_cached_other run c other differs (version, held) =
      elim (Option-cases (run.read_to_string other)) [
        | inl missing ↦ rw missing (version, held)
        | inr (text, found) ↦ elim (Option-cases (lookup c other (run.sha256_hex text))) [
          | inr (cached, hit) ↦ rw (found, hit) (version, held)
          | inl miss ↦
              rw (found, miss)
                (
                  version,
                  lookup-store_other c file other hash (run.sha256_hex text) _ differs ∙ held,
                )
        ]
      ]

  analyze_cached-Holds :
      (run : Run) (c : AnalysisCache) (other : String)
      → HasText file content hash run
      → Holds file hash r c
      → Holds file hash r (analyze_cached run c other).1
  analyze_cached-Holds run c other text held = elim (Bool-cases (str_eq other file)) [
    | inl same ↦ rw ((eq_iff other file).0 same, analyze_cached_same run c text held) held
    | inr differs ↦ analyze_cached_other run c other differs held
  ]

  analyze_all_cached-Holds :
      (run : Run) (c : AnalysisCache) (files : List String)
      → HasText file content hash run
      → Holds file hash r c
      → Holds file hash r (analyze_all_cached run c files).1
  analyze_all_cached-Holds run c [] text held = held
  analyze_all_cached-Holds run c (other ∷ files) text held =
      analyze_all_cached-Holds run (analyze_cached run c other).1 files text
        (analyze_cached-Holds run c other text held)

  load-Holds : (c : AnalysisCache) → Holds file hash r c → Holds file hash r (load (some c))
  unfolding load
  load-Holds c (version, held) =
      let current = (eq_iff c.version "1").1 version in rw current (version, held)

  after_runs-Holds :
      (c : AnalysisCache) (runs : List (Run × List String))
      → AllHaveText file content hash runs
      → Holds file hash r c
      → Holds file hash r (after_runs c runs)
  after_runs-Holds c [] texts held = held
  after_runs-Holds c ((run, files) ∷ runs) (text, texts) held =
      after_runs-Holds (load (some (analyze_all_cached run c files).1)) runs texts
        (load-Holds _ (analyze_all_cached-Holds run c files text held))

-- When the analysis of a file does not end in time in one run, and the cache of the current version has no result
-- for its text, the timeout is what every later run with the cache gives for the file: after any number of runs
-- over any files, each of which saves the cache for the next one, as long as the file has the same text, and
-- whether or not a new analysis would end in time.
pub timeout_stays :
    (first last : Run) (c : AnalysisCache) (runs : List (Run × List String)) (file content : String)
    → c.version ≡ "1"
    → first.read_to_string file ≡ some content
    → first.ends_in_time file ≡ false
    → lookup c file (first.sha256_hex content) ≡ none
    → AllHaveText file content (first.sha256_hex content) runs
    → HasText file content (first.sha256_hex content) last
    → (analyze_cached last (after_runs (analyze_cached first c file).1 runs) file).0
      ≡ record default { file_path = file; timed_out = true }
timeout_stays first last c runs file content version text slow miss texts text' =
    let r : FileAnalysisResult = record default { file_path = file; timed_out = true } in
    let hash = first.sha256_hex content in
    let stored : analyze_cached first c file ≡ (r, store c file hash r) =
      rw (text, miss, slow) refl in
    let held : Holds file hash r (store c file hash r) =
      (store-version c file hash r ∙ version, lookup-store c file hash r) in
    rw stored (
      ap (λ a. a.0)
        (analyze_cached_same file content hash r last (after_runs (store c file hash r) runs) text'
          (after_runs-Holds file content hash r (store c file hash r) runs texts held)))
