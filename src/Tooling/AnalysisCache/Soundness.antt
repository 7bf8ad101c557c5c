-- ===== src/Tooling/AnalysisCache/Soundness.antt =====
-- The answers of the cache of tooling/sanctifier-core/src/analysis_cache.rs, against direct analysis.
use sanctifier.Base.{
  ℕ, ◌+◌, ◌≡◌, ◌≢◌, refl, true, false, Option, none, some, List, [], ◌∷◌, arith, ◌==◌, Option-cases,
  Bool-cases, inl, inr,
}
use sanctifier.Tooling.AnalysisCache
use mathlib.Core.Path.{subst}
use sanctifier.Tooling.AnalysisCache.{
  AnalysisCache, Key, Entry, get, remove, insert, maybe_evict, lru_key, store, answer, new,
}

module _ {V : Type 0} where
  pub get-remove_same : (k : Key) (es : List (Key × Entry V)) → get k (remove k es) ≡ none
  get-remove_same k [] = refl
  get-remove_same k ((j, e) ∷ es) = ground (arith, get-remove_same k es)

  pub get-remove_other :
      (j k : Key) (es : List (Key × Entry V)) → j ≢ k → get j (remove k es) ≡ get j es
  get-remove_other j k [] d = refl
  get-remove_other j k ((i, e) ∷ es) d = ground (arith, get-remove_other j k es d)

  -- What is there after a removal was there before.
  pub get-remove :
      (j k : Key) (e : Entry V) (es : List (Key × Entry V))
      → get j (remove k es) ≡ some e
      → get j es ≡ some e
  get-remove j k e [] h = h
  get-remove j k e ((i, x) ∷ es) h = ground (arith, get-remove j k e es, get-remove_same k es)

  pub get-maybe_evict :
      (j : Key) (c : AnalysisCache V) (e : Entry V)
      → get j (maybe_evict c).entries ≡ some e
      → get j c.entries ≡ some e
  unfolding maybe_evict
  get-maybe_evict j c e h = elim (Option-cases (lru_key c.entries)) [
    | inl missing ↦ ground arith
    | inr (k, found) ↦ ground (arith, get-remove j k e c.entries)
  ]

-- The cache of an analysis: each entry holds the result for a source with the entry's hash.
module _ {S V : Type 0} (hash : S → ℕ) (analyze : Key → S → V) where
  pub IsResult : Key → ℕ → V → Type 0
  IsResult k h v = (s : S) × (hash s ≡ h) × (v ≡ analyze k s)

  pub IsSound : AnalysisCache V → Type 0
  IsSound c = (k : Key) (e : Entry V) → get k c.entries ≡ some e → IsResult k e.source_hash e.value

  IsResult-same :
      (k j : Key) (h h' : ℕ) (v v' : V)
      → k ≡ j
      → h ≡ h'
      → v ≡ v'
      → IsResult k h v
      → IsResult j h' v'
  unfolding IsResult
  IsResult-same k j h h' v v' ek eh ev (s, x, y) = (s, cc, cc)

  -- An insertion of a result keeps a cache sound.
  insert-IsSound :
      (k : Key) (x : Entry V) (es : List (Key × Entry V)) (j : Key) (e : Entry V)
      → IsResult k x.source_hash x.value
      → ((e : Entry V) → get j es ≡ some e → IsResult j e.source_hash e.value)
      → get j (insert k x es) ≡ some e
      → IsResult j e.source_hash e.value
  insert-IsSound k x es j e r n found = elim (Bool-cases (k == j)) [
    | inl same ↦
        IsResult-same k j x.source_hash e.source_hash x.value e.value (ground arith) (ground arith)
          (ground arith) r
    | inr apart ↦ n e (get-remove j k e es (ground arith))
  ]

  store-IsSound :
      (k : Key) (h : ℕ) (v : V) (c : AnalysisCache V)
      → IsResult k h v
      → IsSound c
      → IsSound (store k h v c).1
  unfolding IsSound store
  store-IsSound k h v c r n j e found =
      let x : Entry V = record { source_hash = h; value = v; last_used = (maybe_evict c).clock } in
      insert-IsSound k x (maybe_evict c).entries j e r (λ y g. n j y (get-maybe_evict j c y g))
        found

  remove-IsSound :
      (k : Key) (c : AnalysisCache V)
      → IsSound c
      → IsSound (record c { entries = remove k c.entries })
  unfolding IsSound
  remove-IsSound k c n j e found = n j e (get-remove j k e c.entries found)

  store_value :
      (k : Key) (h : ℕ) (v : V) (c : AnalysisCache V)
      → IsResult k h v
      → IsResult k h (store k h v c).0
  unfolding store
  store_value k h v c r = r

  source-IsResult : (k : Key) (s : S) → IsResult k (hash s) (analyze k s)
  unfolding IsResult
  source-IsResult k s = (s, refl, refl)

  clock-IsSound : (c : AnalysisCache V) (t : ℕ) → IsSound c → IsSound (record c { clock = t })
  unfolding IsSound
  clock-IsSound c t n = n

  hit-IsSound :
      (x : Entry V) (k : Key) (h : ℕ) (v : V) (c : AnalysisCache V)
      → get k c.entries ≡ some x
      → (x.source_hash == h) ≡ true
      → IsSound c
      → IsResult k h (answer (some x) k h v c).0 × IsSound (answer (some x) k h v c).1
  unfolding answer IsSound
  hit-IsSound x k h v c e hit n =
      let r =
        IsResult-same k k x.source_hash h x.value x.value refl (ground arith) refl (n k x e) in
      let y = record x { last_used = c.clock } in
      rw hit (r, λ j z found. insert-IsSound k y c.entries j z (n k x e) (n j) found)

  miss-IsSound :
      (x : Entry V) (k : Key) (h : ℕ) (v : V) (c : AnalysisCache V)
      → (x.source_hash == h) ≡ false
      → IsResult k h v
      → IsSound c
      → IsResult k h (answer (some x) k h v c).0 × IsSound (answer (some x) k h v c).1
  unfolding answer
  miss-IsSound x k h v c miss r n =
      let m = record c { entries = remove k c.entries } in
      rw miss (store_value k h v m r, store-IsSound k h v m r (remove-IsSound k c n))

  answer-IsSound :
      (o : Option (Entry V)) (k : Key) (h : ℕ) (v : V) (c : AnalysisCache V)
      → get k c.entries ≡ o
      → IsResult k h v
      → IsSound c
      → IsResult k h (answer o k h v c).0 × IsSound (answer o k h v c).1
  unfolding answer
  answer-IsSound none k h v c e r n = (store_value k h v c r, store-IsSound k h v c r n)
  answer-IsSound (some x) k h v c e r n = elim (Bool-cases (x.source_hash == h)) [
    | inl hit ↦ hit-IsSound x k h v c e hit n
    | inr miss ↦ miss-IsSound x k h v c miss r n
  ]

  analyze-IsSound :
      (k : Key) (s : S) (v : V) (c c' : AnalysisCache V)
      → AnalysisCache.get_or_analyze k (hash s) (analyze k s) c ≡ some (v, c')
      → IsSound c
      → IsResult k (hash s) v × IsSound c'
  unfolding AnalysisCache.get_or_analyze
  analyze-IsSound k s v c c' e n =
      let m = record c { clock = c.clock + 1 } in
      let p = answer (get k c.entries) k (hash s) (analyze k s) m in
      let same : p ≡ (v, c') = ground arith in
      subst (λ q. IsResult k (hash s) q.0 × IsSound q.1) same
        (answer-IsSound (get k c.entries) k (hash s) (analyze k s) m refl (source-IsResult k s)
          (clock-IsSound c (c.clock + 1) n))

-- A call of a method that changes the cache.
pub data Call (S : Type 0) : Type 0 where
  get_or_analyze : Key → S → Call S
  invalidate : Key → Call S
  clear : Call S

module _ {S V : Type 0} (hash : S → ℕ) (analyze : Key → S → V) where
  -- A clock that would overflow stops the program; the cache is left as it was.
  abbrev pub kept : AnalysisCache V → Option (V × AnalysisCache V) → AnalysisCache V
  kept c none = c
  kept c (some (v, c')) = c'

  pub kept_lem :
      (P : AnalysisCache V → Type 0) (c : AnalysisCache V) (o : Option (V × AnalysisCache V))
      → P c
      → ((v : V) (c' : AnalysisCache V) → o ≡ some (v, c') → P c')
      → P (kept c o)
  kept_lem P c none h f = h
  kept_lem P c (some (v, c')) h f = f v c' refl

  unfoldable pub apply : Call S → AnalysisCache V → AnalysisCache V
  apply (Call.get_or_analyze k s) c =
      kept c (AnalysisCache.get_or_analyze k (hash s) (analyze k s) c)
  apply (Call.invalidate k) c = (AnalysisCache.invalidate k c).1
  apply Call.clear c = AnalysisCache.clear c

  unfoldable pub run : List (Call S) → AnalysisCache V → AnalysisCache V
  run [] c = c
  run (call ∷ calls) c = run calls (apply call c)

  new-IsSound : (capacity : ℕ) → IsSound hash analyze (new capacity)
  unfolding IsSound new
  new-IsSound capacity k e h = absurd (ground arith)

  clear-IsSound : (c : AnalysisCache V) → IsSound hash analyze (AnalysisCache.clear c)
  unfolding IsSound AnalysisCache.clear
  clear-IsSound c k e h = absurd (ground arith)

  apply-IsSound :
      (call : Call S) (c : AnalysisCache V)
      → IsSound hash analyze c
      → IsSound hash analyze (apply call c)
  unfolding apply AnalysisCache.invalidate
  apply-IsSound (Call.get_or_analyze k s) c n =
      kept_lem (IsSound hash analyze) c (AnalysisCache.get_or_analyze k (hash s) (analyze k s) c) n
        (λ v c' e. (analyze-IsSound hash analyze k s v c c' e n).1)
  apply-IsSound (Call.invalidate k) c n = remove-IsSound hash analyze k c n
  apply-IsSound Call.clear c n = clear-IsSound c

  run-IsSound :
      (calls : List (Call S)) (c : AnalysisCache V)
      → IsSound hash analyze c
      → IsSound hash analyze (run calls c)
  unfolding run
  run-IsSound [] c n = n
  run-IsSound (call ∷ calls) c n = run-IsSound calls (apply call c) (apply-IsSound call c n)

  -- After any sequence of calls on a new cache, the answer for a source is what the analysis gives
  -- for it, if no other source has its hash.
  pub run-transparent :
      (capacity : ℕ) (calls : List (Call S)) (k : Key) (s : S) (v : V) (c : AnalysisCache V)
      → ((t : S) → hash t ≡ hash s → t ≡ s)
      → AnalysisCache.get_or_analyze k (hash s) (analyze k s) (run calls (new capacity))
        ≡ some (v, c)
      → v ≡ analyze k s
  unfolding IsResult
  run-transparent capacity calls k s v c distinct e =
      let n = run-IsSound calls (new capacity) (new-IsSound capacity) in
      let ((t, same, value), after) =
        analyze-IsSound hash analyze k s v (run calls (new capacity)) c e n in
      let source = distinct t same in cc
