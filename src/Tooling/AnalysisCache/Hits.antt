-- ===== src/Tooling/AnalysisCache/Hits.antt =====
-- Repeated questions to the cache of tooling/sanctifier-core/src/analysis_cache.rs.
use sanctifier.Base.{ℕ, ◌+◌, ◌≡◌, true, Option, none, some, arith, Option-cases, inl, inr}
use sanctifier.Tooling.AnalysisCache
use sanctifier.Tooling.AnalysisCache.{AnalysisCache, Key, Entry, get, store, answer, is_cached}

module _ {V : Type 0} (k : Key) (h : ℕ) where
  -- The entry under the key is this value, with this hash.
  record Holds (v : V) (c : AnalysisCache V) : Type 0 where
    entry : Entry V
    here : get k c.entries ≡ some entry
    hashed : entry.source_hash ≡ h
    valued : entry.value ≡ v

  answer-Holds :
      (o : Option (Entry V)) (x v : V) (c c' : AnalysisCache V)
      → answer o k h x c ≡ (v, c')
      → Holds v c'
  unfolding answer store
  answer-Holds none x v c c' e = elim (Option-cases (get k c'.entries)) [
    | inl missing ↦ absurd (ground arith)
    | inr (y, here) ↦ record {
      entry = y;
      here = here;
      hashed = ground arith;
      valued = ground arith;
    }
  ]
  answer-Holds (some z) x v c c' e = elim (Option-cases (get k c'.entries)) [
    | inl missing ↦ absurd (ground arith)
    | inr (y, here) ↦ record {
      entry = y;
      here = here;
      hashed = ground arith;
      valued = ground arith;
    }
  ]

  analyze-Holds :
      (x v : V) (c c' : AnalysisCache V)
      → AnalysisCache.get_or_analyze k h x c ≡ some (v, c')
      → Holds v c'
  unfolding AnalysisCache.get_or_analyze
  analyze-Holds x v c c' e =
      answer-Holds (get k c.entries) x v (record c { clock = c.clock + 1 }) c' (ground arith)

  Holds-answers :
      (y v w : V) (c c' : AnalysisCache V)
      → Holds v c
      → AnalysisCache.get_or_analyze k h y c ≡ some (w, c')
      → w ≡ v
  unfolding AnalysisCache.get_or_analyze answer
  Holds-answers y v w c c' s e = ground (arith, s.here, s.hashed, s.valued)

  -- After an answer the source is cached, and the next answer for the same key and source is the
  -- same, whatever a new analysis would give.
  pub get_or_analyze-twice :
      (x y v w : V) (c c' c'' : AnalysisCache V)
      → AnalysisCache.get_or_analyze k h x c ≡ some (v, c')
      → AnalysisCache.get_or_analyze k h y c' ≡ some (w, c'')
      → (is_cached k h c' ≡ true) × (w ≡ v)
  unfolding is_cached
  get_or_analyze-twice x y v w c c' c'' first second =
      let s = analyze-Holds x v c c' first in
      (ground (arith, s.here, s.hashed), Holds-answers y v w c' c'' s second)
