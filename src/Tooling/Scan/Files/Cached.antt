-- ===== src/Tooling/Scan/Files/Cached.antt =====
-- What the cache of tooling/sanctifier-cli/src/commands/analyze.rs does to the results of a run.
use Prim.Native.String.{String}
use mathlib.Core.Path.{subst}
use text.Mathlib.Text.{◌==◌ as str_eq}
use text.Mathlib.TextEquality.{eq_iff}
use text.Mathlib.TextPositions.{eq_refl}
use sanctifier.Base.{
  ◌≡◌, refl, sym, ap, ◌∙◌, true, Option, none, some, List, [], ◌∷◌, arith, Option-cases, Bool-cases,
  inl, inr,
}
use sanctifier.Host.{unwrap_or}
use sanctifier.Tooling.Scan.{FileAnalysisResult, default}
use sanctifier.Tooling.Scan.Files.{
  analyze_single_file, CacheEntry, AnalysisCache, entry_of, result_with, lookup, store, Run,
  analyze_file, analyze_cached, analyze_all_cached, analyze_all,
}

-- Each entry holds what the analysis gives for the texts with its hash.
abbrev pub EntrySound : Run → String → CacheEntry → Type 0
EntrySound run file e =
    (content : String)
    → run.sha256_hex content ≡ e.hash
    → e.result ≡ analyze_single_file run.analyzer content file

abbrev pub IsSound : Run → AnalysisCache → Type 0
IsSound run c =
    (file : String) (e : CacheEntry) → entry_of file c.entries ≡ some e → EntrySound run file e

none_or_some : {A : Type 0} {o : Option A} (d : A) → (a : A) → o ≡ some a → unwrap_or o d ≡ a
none_or_some d a h = ap (λ o. unwrap_or o d) h

none_not_some : {A : Type 0} {a : A} → none ≡ some a → ⊥
none_not_some h = ground arith

-- What a look-up gives is an entry with the hash.
lookup-entry :
    (c : AnalysisCache) (file hash : String) (r : FileAnalysisResult)
    → lookup c file hash ≡ some r
    → (e : CacheEntry) × (entry_of file c.entries ≡ some e) × (e.hash ≡ hash) × (e.result ≡ r)
unfolding lookup
lookup-entry c file hash r h = elim (Option-cases (entry_of file c.entries)) [
  | inl missing ↦ absurd (ground arith)
  | inr (e, found) ↦
      let k : result_with hash (some e) ≡ some r = rw found at h in
      elim (Bool-cases (str_eq e.hash hash)) [
        | inl same ↦
            let l : some e.result ≡ some r = rw same at k in
            (e, found, (eq_iff e.hash hash).0 same, none_or_some default r l)
        | inr other ↦ absurd (none_not_some (rw other at k))
      ]
]

module _ (run : Run) (distinct : (a b : String) → run.sha256_hex a ≡ run.sha256_hex b → a ≡ b) where
  lookup_sound :
      (c : AnalysisCache) (file content : String) (r : FileAnalysisResult)
      → IsSound run c
      → lookup c file (run.sha256_hex content) ≡ some r
      → r ≡ analyze_single_file run.analyzer content file
  lookup_sound c file content r sound h =
      let e = lookup-entry c file (run.sha256_hex content) r h in
      sym e.3 ∙ sound file e.0 e.1 content (sym e.2)

  -- A stored result is the analysis of the one text with its hash.
  stored_sound :
      (file content : String)
      → EntrySound run file (record {
        hash = run.sha256_hex content;
        result = analyze_single_file run.analyzer content file;
      })
  stored_sound file content other same =
      ap (λ t. analyze_single_file run.analyzer t file) (sym (distinct other content same))

  store-IsSound :
      (c : AnalysisCache) (file content : String)
      → IsSound run c
      → IsSound run
          (store c file (run.sha256_hex content) (analyze_single_file run.analyzer content file))
  unfolding store
  store-IsSound c file content sound f e found = elim (Bool-cases (str_eq file f)) [
    | inl here ↦
        let stored : CacheEntry = record {
          hash = run.sha256_hex content;
          result = analyze_single_file run.analyzer content file;
        } in
        let k : some stored ≡ some e = rw here at found in
        subst (λ g. EntrySound run g e) ((eq_iff file f).0 here)
          (subst (EntrySound run file) (none_or_some stored e k) (stored_sound file content))
    | inr there ↦ sound f e (rw there at found)
  ]

  module _ (in_time : (file : String) → run.ends_in_time file ≡ true) where
    -- With a file's text read, the cache gives what the analysis gives, and stays sound.
    answer-IsSound :
        (c : AnalysisCache) (file content : String)
        → IsSound run c
        → run.read_to_string file ≡ some content
        → ((analyze_cached run c file).0 ≡ analyze_file run file)
          × IsSound run (analyze_cached run c file).1
    answer-IsSound c file content sound h =
        elim (Option-cases (lookup c file (run.sha256_hex content))) [
          | inl missing ↦ rw (h, missing, in_time file) (refl, store-IsSound c file content sound)
          | inr (r, found) ↦
              rw (h, found, in_time file) (lookup_sound c file content r sound found, sound)
        ]

    analyze_cached-IsSound :
        (c : AnalysisCache) (file : String)
        → IsSound run c
        → ((analyze_cached run c file).0 ≡ analyze_file run file)
          × IsSound run (analyze_cached run c file).1
    analyze_cached-IsSound c file sound = elim (Option-cases (run.read_to_string file)) [
      | inl missing ↦ rw missing (refl, sound)
      | inr (content, found) ↦ answer-IsSound c file content sound found
    ]

    analyze_all_cached-IsSound :
        (c : AnalysisCache) (files : List String)
        → IsSound run c
        → ((analyze_all_cached run c files).0 ≡ analyze_all run files)
          × IsSound run (analyze_all_cached run c files).1
    analyze_all_cached-IsSound c [] sound = (refl, sound)
    analyze_all_cached-IsSound c (file ∷ files) sound =
        let first = analyze_cached-IsSound c file sound in
        let rest = analyze_all_cached-IsSound (analyze_cached run c file).1 files first.1 in
        (rw (first.0, rest.0) refl, rest.1)

-- When no two texts have one digest, every analysis ends in time and each entry of the cache holds what the analysis
-- gives for the texts with its hash, a run with the cache has the results of a run without it, for any files in any
-- order, and leaves a cache of that kind.
pub cached-analyze :
    (run : Run)
    → ((a b : String) → run.sha256_hex a ≡ run.sha256_hex b → a ≡ b)
    → ((file : String) → run.ends_in_time file ≡ true)
    → (c : AnalysisCache) (files : List String) → IsSound run c
    → ((analyze_all_cached run c files).0 ≡ analyze_all run files)
      × IsSound run (analyze_all_cached run c files).1
cached-analyze run distinct in_time c files sound =
    analyze_all_cached-IsSound run distinct in_time c files sound

pub lookup-store :
    (c : AnalysisCache) (file hash : String) (r : FileAnalysisResult)
    → lookup (store c file hash r) file hash ≡ some r
unfolding lookup store
lookup-store c file hash r = rw (eq_refl file, eq_refl hash) refl
