-- ===== src/Tooling/AnalysisCache.antt =====
-- tooling/sanctifier-core/src/analysis_cache.rs: the cache of analysis results.
pub mod Soundness
pub mod Eviction
pub mod Hits
mod Tests
use sanctifier.Base.{
  ℕ, suc, ◌+◌, Bool, true, false, Option, none, some, List, [], ◌∷◌, length, ltb, leb, ◌==◌,
  if◌then◌else◌,
}
use sanctifier.Host.{is_some, u64_bound}

-- Keys are only compared, so they are numbers.
abbrev pub Key : Type 0
Key = ℕ

pub record Entry (V : Type 0) : Type 0 where
  pub source_hash : ℕ
  pub value : V
  pub last_used : ℕ

-- The map is a list of keys with their entries, each key once.
pub record AnalysisCache (V : Type 0) : Type 0 where
  pub entries : List (Key × Entry V)
  pub capacity : ℕ
  pub clock : ℕ

module _ {V : Type 0} where
  -- `entries.get(key)`
  abbrev pub get : Key → List (Key × Entry V) → Option (Entry V)
  get k [] = none
  get k ((j, e) ∷ es) = if j == k then some e else get k es

  -- `entries.remove(key)`
  abbrev pub remove : Key → List (Key × Entry V) → List (Key × Entry V)
  remove k [] = []
  remove k ((j, e) ∷ es) = let rest = remove k es in if j == k then rest else (j, e) ∷ rest

  -- `entries.insert(key, entry)`
  abbrev pub insert : Key → Entry V → List (Key × Entry V) → List (Key × Entry V)
  insert k e es = (k, e) ∷ remove k es

  -- `entries.iter().min_by_key(|(_, e)| e.last_used)`, when `best` is the first entry: a later entry
  -- replaces it only when it was used before it.
  abbrev pub least : Key × Entry V → List (Key × Entry V) → Key × Entry V
  least best [] = best
  least best (x ∷ es) = least (if ltb x.1.last_used best.1.last_used then x else best) es

  abbrev pub lru_key : List (Key × Entry V) → Option Key
  lru_key [] = none
  lru_key (x ∷ es) = some (least x es).0

  pub new : ℕ → AnalysisCache V
  new capacity = record {
    entries = [];
    capacity = if leb 1 capacity then capacity else 1;
    clock = 0;
  }

  pub maybe_evict : AnalysisCache V → AnalysisCache V
  maybe_evict c = if ltb (length c.entries) c.capacity then c else elim (lru_key c.entries) [
    | none ↦ c
    | some key ↦ record c { entries = remove key c.entries }
  ]

  -- The end of `get_or_analyze`: nothing fits in the cache, so the result is computed and stored.
  pub store : Key → ℕ → V → AnalysisCache V → V × AnalysisCache V
  store key hash value c =
      let evicted = maybe_evict c in
      (
        value,
        record evicted {
          entries =
              insert key (record { source_hash = hash; value = value; last_used = evicted.clock })
                evicted.entries;
        },
      )

  -- The `if let Some(entry)` of `get_or_analyze`, on what the key has.
  pub answer : Option (Entry V) → Key → ℕ → V → AnalysisCache V → V × AnalysisCache V
  answer none key hash computed c = store key hash computed c
  answer (some entry) key hash computed c =
      if entry.source_hash == hash
      then (
        entry.value,
        record c { entries = insert key (record entry { last_used = c.clock }) c.entries },
      )
      else store key hash computed (record c { entries = remove key c.entries })

  -- `hash` is `hash_source(source)`, `computed` what `compute()` gives; `none` is an overflow of the
  -- clock.
  pub get_or_analyze : Key → ℕ → V → AnalysisCache V → Option (V × AnalysisCache V)
  get_or_analyze key hash computed c =
      if ltb (c.clock + 1) u64_bound
      then some (answer (get key c.entries) key hash computed (record c { clock = c.clock + 1 }))
      else none

  pub invalidate : Key → AnalysisCache V → Bool × AnalysisCache V
  invalidate key c = (is_some (get key c.entries), record c { entries = remove key c.entries })

  pub clear : AnalysisCache V → AnalysisCache V
  clear c = record c { entries = [] }

  abbrev pub len : AnalysisCache V → ℕ
  len c = length c.entries

  abbrev pub is_empty : AnalysisCache V → Bool
  is_empty c = length c.entries == 0

  abbrev pub has_hash : ℕ → Option (Entry V) → Bool
  has_hash hash none = false
  has_hash hash (some e) = e.source_hash == hash

  pub is_cached : Key → ℕ → AnalysisCache V → Bool
  is_cached key hash c = has_hash hash (get key c.entries)
