-- ===== src/Tooling/AnalysisCache/Tests.antt =====
-- Runs of tooling/sanctifier-core/src/analysis_cache.rs at concrete inputs, and the theorems at such inputs.
use sanctifier.Base.{ℕ, ◌+◌, ◌*◌, ◌≡◌, refl, true, false, some, List, [], ◌∷◌, arith}
use sanctifier.Tooling.AnalysisCache
use sanctifier.Tooling.AnalysisCache.{
  AnalysisCache, Key, Entry, get, maybe_evict, store, answer, new, is_cached,
}
use sanctifier.Tooling.AnalysisCache.Soundness.{Call, apply, run, run-transparent}

program : Unit {0}
unfolding new maybe_evict store answer AnalysisCache.get_or_analyze AnalysisCache.invalidate
    AnalysisCache.clear is_cached apply run
program = tt

-- Sources are numbers, hashed to their successors; the analysis of one is its double.
abbrev hash : ℕ → ℕ
hash s = s + 1

abbrev analyze : Key → ℕ → ℕ
analyze k s = 2 * s

abbrev calls : List (Call ℕ)
calls =
    Call.get_or_analyze 1 10
    ∷ Call.get_or_analyze 2 20
    ∷ Call.get_or_analyze 1 10
    ∷ Call.get_or_analyze 3 30
    ∷ Call.get_or_analyze 3 31
    ∷ Call.invalidate 9
    ∷ []

abbrev cache : AnalysisCache ℕ
cache = run hash analyze calls (new 2)

-- Key 2 was used before key 1, so it made room for key 3.
evicting :
    (is_cached 1 11 cache ≡ true)
    × (is_cached 2 21 cache ≡ false)
    × (is_cached 3 31 cache ≡ false)
    × (is_cached 3 32 cache ≡ true)
unfolding program
evicting = (refl, refl, refl, refl)

abbrev entry : ℕ → ℕ → Entry ℕ
entry s t = record { source_hash = s + 1; value = 2 * s; last_used = t }

abbrev hit : AnalysisCache ℕ
hit = record { entries = (1, entry 10 6) ∷ (3, entry 31 5) ∷ []; capacity = 2; clock = 6 }

hitting : AnalysisCache.get_or_analyze 1 11 20 cache ≡ some (20, hit)
unfolding program
hitting = refl

run-transparent_example : 20 ≡ analyze 1 10
unfolding program
run-transparent_example =
    run-transparent hash analyze 2 calls 1 10 20 hit (λ t e. omega arith) hitting

hitting_again :
    AnalysisCache.get_or_analyze 1 11 77 hit
    ≡ some (20, record hit { entries = (1, entry 10 7) ∷ (3, entry 31 5) ∷ []; clock = 7 })
unfolding program
hitting_again = refl
