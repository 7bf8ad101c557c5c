-- ===== src/Tooling/AnalysisCache/Eviction.antt =====
-- The size of the cache of tooling/sanctifier-core/src/analysis_cache.rs, and what it evicts.
use sanctifier.Base.{
  ℕ, ◌+◌, ◌≤◌, ◌<◌, ◌≡◌, ◌≢◌, refl, true, false, Option, none, some, List, [], ◌∷◌, length, arith,
  ◌==◌, Option-cases, Bool-cases, inl, inr,
}
use mathlib.Core.Path.{subst}
use sanctifier.Host.{is_some}
use sanctifier.Tooling.AnalysisCache
use sanctifier.Tooling.AnalysisCache.{
  AnalysisCache, Key, Entry, get, remove, insert, least, maybe_evict, lru_key, store, answer, new,
}
use sanctifier.Tooling.AnalysisCache.Soundness.{
  Call, apply, run, kept_lem, get-remove_same, get-remove_other,
}

module _ {V : Type 0} where
  length-remove_le : (k : Key) (es : List (Key × Entry V)) → length (remove k es) ≤ length es
  length-remove_le k [] = omega arith
  length-remove_le k ((j, e) ∷ es) = ground (arith, length-remove_le k es)

  length-remove_lt :
      (k : Key) (es : List (Key × Entry V))
      → is_some (get k es) ≡ true
      → length (remove k es) + 1 ≤ length es
  length-remove_lt k [] h = absurd (ground arith)
  length-remove_lt k ((j, e) ∷ es) h = ground (arith, length-remove_lt k es, length-remove_le k es)

  -- The entry that `min_by_key` finds is in the map.
  least_present :
      (best : Key × Entry V) (es : List (Key × Entry V))
      → is_some (get (least best es).0 (best ∷ es)) ≡ true
  least_present best [] = ground arith
  least_present best (x ∷ es) = ground (arith, least_present best es, least_present x es)

  -- No entry was used before it.
  least_first :
      (best : Key × Entry V) (es : List (Key × Entry V))
      → (least best es).1.last_used ≤ best.1.last_used
  least_first best [] = omega arith
  least_first best (x ∷ es) = ground (arith, least_first best es, least_first x es)

  least_le :
      (best : Key × Entry V) (es : List (Key × Entry V)) (j : Key) (e : Entry V)
      → get j es ≡ some e
      → (least best es).1.last_used ≤ e.last_used
  least_le best [] j e h = absurd (ground arith)
  least_le best (x ∷ es) j e h =
      ground (arith, least_le best es j e, least_le x es j e, least_first best es, least_first x es)

  lru_present :
      (k : Key) (es : List (Key × Entry V)) → lru_key es ≡ some k → is_some (get k es) ≡ true
  lru_present k [] h = absurd (ground arith)
  lru_present k (x ∷ es) h = ground (arith, least_present x es)

  lru_none : (es : List (Key × Entry V)) → lru_key es ≡ none → length es ≡ 0
  lru_none [] h = refl
  lru_none (x ∷ es) h = absurd (ground arith)

  -- No key stands twice.
  abbrev pub IsDistinct : List (Key × Entry V) → Type 0
  IsDistinct [] = Unit
  IsDistinct ((k, e) ∷ es) = (get k es ≡ none) × IsDistinct es

  remove-none :
      (j k : Key) (es : List (Key × Entry V)) → get j es ≡ none → get j (remove k es) ≡ none
  remove-none j k [] h = refl
  remove-none j k ((i, e) ∷ es) h = ground (arith, remove-none j k es)

  remove-IsDistinct :
      (k : Key) (es : List (Key × Entry V)) → IsDistinct es → IsDistinct (remove k es)
  remove-IsDistinct k [] d = tt
  remove-IsDistinct k ((i, e) ∷ es) d = ground (arith, remove-IsDistinct k es, remove-none i k es)

  least-get :
      (best : Key × Entry V) (es : List (Key × Entry V))
      → IsDistinct (best ∷ es)
      → get (least best es).0 (best ∷ es) ≡ some (least best es).1
  least-get best [] d = ground arith
  least-get best (x ∷ es) d = ground (arith, least-get best es, least-get x es)

  lru-get :
      (k : Key) (es : List (Key × Entry V))
      → lru_key es ≡ some k
      → IsDistinct es
      → (x : Entry V) × (get k es ≡ some x)
        × ((j : Key) (e : Entry V) → get j es ≡ some e → x.last_used ≤ e.last_used)
  lru-get k [] h d = absurd (ground arith)
  lru-get k (y ∷ es) h d = (
    (least y es).1,
    ground (arith, least-get y es d),
    λ j e found. ground (arith, least_first y es, least_le y es j e),
  )

  -- The cache fits its capacity, which is at least 1.
  pub record IsBounded (c : AnalysisCache V) : Type 0 where
    pub positive : 1 ≤ c.capacity
    pub distinct : IsDistinct c.entries
    pub fits : length c.entries ≤ c.capacity

  room_after_eviction :
      (c : AnalysisCache V)
      → IsBounded c
      → (length (maybe_evict c).entries < c.capacity) × ((maybe_evict c).capacity ≡ c.capacity)
  unfolding maybe_evict
  room_after_eviction c b = elim (Option-cases (lru_key c.entries)) [
    | inl missing ↦ ground (arith, lru_none c.entries missing, b.positive)
    | inr (k, found) ↦
        ground
          (arith, b.fits, b.positive, length-remove_lt k c.entries (lru_present k c.entries found))
  ]

  eviction-IsDistinct : (c : AnalysisCache V) → IsBounded c → IsDistinct (maybe_evict c).entries
  unfolding maybe_evict
  eviction-IsDistinct c b = elim (Option-cases (lru_key c.entries)) [
    | inl missing ↦ ground (arith, b.distinct)
    | inr (k, found) ↦ ground (arith, b.distinct, remove-IsDistinct k c.entries b.distinct)
  ]

  -- A bounded cache that is full loses one entry to an eviction: one that no other entry was used
  -- before. The others stay.
  pub maybe_evict-lru :
      (c : AnalysisCache V)
      → IsBounded c
      → c.capacity ≤ length c.entries
      → (k : Key) × (x : Entry V) × (get k c.entries ≡ some x)
        × ((j : Key) (e : Entry V) → get j c.entries ≡ some e → x.last_used ≤ e.last_used)
        × (get k (maybe_evict c).entries ≡ none)
        × ((j : Key) → j ≢ k → get j (maybe_evict c).entries ≡ get j c.entries)
  unfolding maybe_evict
  maybe_evict-lru c b full = elim (Option-cases (lru_key c.entries)) [
    | inl missing ↦ absurd (ground (arith, lru_none c.entries missing, b.positive))
    | inr (k, found) ↦
        let (x, here, first) = lru-get k c.entries found b.distinct in
        (
          k,
          x,
          here,
          first,
          ground (arith, get-remove_same k c.entries),
          λ j apart. ground (arith, get-remove_other j k c.entries apart),
        )
  ]

  store-IsBounded :
      (k : Key) (h : ℕ) (v : V) (c : AnalysisCache V) → IsBounded c → IsBounded (store k h v c).1
  unfolding store
  store-IsBounded k h v c b =
      let m = maybe_evict c in
      let (room, same) = room_after_eviction c b in
      record {
        positive = ground (arith, b.positive, same);
        distinct =
            (get-remove_same k m.entries, remove-IsDistinct k m.entries (eviction-IsDistinct c b));
        fits = ground (arith, room, same, length-remove_le k m.entries);
      }

  remove-IsBounded :
      (k : Key) (c : AnalysisCache V)
      → IsBounded c
      → IsBounded (record c { entries = remove k c.entries })
  remove-IsBounded k c b = record {
    positive = b.positive;
    distinct = remove-IsDistinct k c.entries b.distinct;
    fits = omega (arith, b.fits, length-remove_le k c.entries);
  }

  hit-IsBounded :
      (x : Entry V) (k : Key) (h : ℕ) (v : V) (c : AnalysisCache V)
      → get k c.entries ≡ some x
      → (x.source_hash == h) ≡ true
      → IsBounded c
      → IsBounded (answer (some x) k h v c).1
  unfolding answer
  hit-IsBounded x k h v c e hit b =
      let present : is_some (get k c.entries) ≡ true = ground arith in
      rw hit (record {
        positive = b.positive;
        distinct = (get-remove_same k c.entries, remove-IsDistinct k c.entries b.distinct);
        fits = omega (arith, b.fits, length-remove_lt k c.entries present);
      })

  miss-IsBounded :
      (x : Entry V) (k : Key) (h : ℕ) (v : V) (c : AnalysisCache V)
      → (x.source_hash == h) ≡ false
      → IsBounded c
      → IsBounded (answer (some x) k h v c).1
  unfolding answer
  miss-IsBounded x k h v c miss b =
      let m = record c { entries = remove k c.entries } in
      rw miss (store-IsBounded k h v m (remove-IsBounded k c b))

  answer-IsBounded :
      (o : Option (Entry V)) (k : Key) (h : ℕ) (v : V) (c : AnalysisCache V)
      → get k c.entries ≡ o
      → IsBounded c
      → IsBounded (answer o k h v c).1
  unfolding answer
  answer-IsBounded none k h v c e b = store-IsBounded k h v c b
  answer-IsBounded (some x) k h v c e b = elim (Bool-cases (x.source_hash == h)) [
    | inl hit ↦ hit-IsBounded x k h v c e hit b
    | inr miss ↦ miss-IsBounded x k h v c miss b
  ]

  new-IsBounded : (capacity : ℕ) → IsBounded (new capacity)
  unfolding new
  new-IsBounded capacity = record { positive = ground arith; distinct = tt; fits = ground arith }

  analyze-IsBounded :
      (k : Key) (h : ℕ) (x v : V) (c c' : AnalysisCache V)
      → IsBounded c
      → AnalysisCache.get_or_analyze k h x c ≡ some (v, c')
      → IsBounded c'
  unfolding AnalysisCache.get_or_analyze
  analyze-IsBounded k h x v c c' b e =
      let m = record c { clock = c.clock + 1 } in
      let moved : IsBounded m = record {
        positive = b.positive;
        distinct = b.distinct;
        fits = b.fits;
      } in
      let same : answer (get k c.entries) k h x m ≡ (v, c') = ground arith in
      subst (λ q. IsBounded q.1) same (answer-IsBounded (get k c.entries) k h x m refl moved)

module _ {S V : Type 0} (hash : S → ℕ) (analyze : Key → S → V) where
  apply-IsBounded :
      (call : Call S) (c : AnalysisCache V) → IsBounded c → IsBounded (apply hash analyze call c)
  unfolding apply AnalysisCache.invalidate AnalysisCache.clear
  apply-IsBounded (Call.get_or_analyze k s) c b =
      kept_lem hash analyze IsBounded c (AnalysisCache.get_or_analyze k (hash s) (analyze k s) c) b
        (λ v c' e. analyze-IsBounded k (hash s) (analyze k s) v c c' b e)
  apply-IsBounded (Call.invalidate k) c b = remove-IsBounded k c b
  apply-IsBounded Call.clear c b = record {
    positive = b.positive;
    distinct = tt;
    fits = omega arith;
  }

  run-IsBounded :
      (calls : List (Call S)) (c : AnalysisCache V)
      → IsBounded c
      → IsBounded (run hash analyze calls c)
  unfolding run
  run-IsBounded [] c b = b
  run-IsBounded (call ∷ calls) c b =
      run-IsBounded calls (apply hash analyze call c) (apply-IsBounded call c b)

  -- After any sequence of calls on a new cache no key is stored twice, and there are no more entries
  -- than the capacity.
  pub run-IsBounded_new :
      (capacity : ℕ) (calls : List (Call S)) → IsBounded (run hash analyze calls (new capacity))
  run-IsBounded_new capacity calls = run-IsBounded calls (new capacity) (new-IsBounded capacity)
