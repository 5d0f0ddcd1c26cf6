-- ===== src/LruCache.antt =====
-- include/jonoondb_api/concurrent_lru_cache.h: `ConcurrentLRUCache`, which keeps the data files that
-- are mapped for reading. The unordered map is the list of its entries, in the order in which it is
-- walked; a new key may stand anywhere in that order, and here stands first. Each method takes its
-- lock for one step; `PerformEviction` takes it twice, so it is `collect` and then `evict`. The
-- counter `m_lastUsed` does not wrap.
pub mod Eviction
pub mod Victims
pub mod Reads
pub mod Pinned
use mathlib.Core.Logic.{ite}
use jonoondb.Prelude.{
  ℕ, zero, suc, ◌+◌, ◌-◌, List, [], ◌∷◌, ◌++◌, Option, none, some, Bool, true, false, ◌&&◌, not,
  ltb, if◌then◌else◌, length,
}

-- `LRUCacheEntry`
pub record Entry {ℓ} (V : Type ℓ) : Type ℓ where
  pub value : V
  pub last_used : ℕ
  pub evictable : Bool

-- `EvictionEntry`. The value that it also holds only keeps the object alive.
pub record Victim {ℓ} (K : Type ℓ) : Type ℓ where
  pub used : ℕ
  pub key : K

pub record Cache {ℓ} (K V : Type ℓ) : Type ℓ where
  pub entries : List (K × Entry V)
  pub last_used : ℕ
  pub max_cache_size : ℕ

module _ {ℓ} {K : Type ℓ} where
  -- The inner loop of `PerformEviction`: the new victim goes before the first one that was used later.
  -- The flag is `itemInserted`.
  unfoldable pub insert_before : Victim K → List (Victim K) → List (Victim K) × Bool
  insert_before v [] = ([], false)
  insert_before v (w ∷ ws) =
      let (rest, inserted) = insert_before v ws in
      if ltb v.used w.used then (v ∷ w ∷ ws, true) else (w ∷ rest, inserted)

  -- `pop_back`
  unfoldable pub pop_back : List (Victim K) → List (Victim K)
  pop_back [] = []
  pop_back (w ∷ []) = []
  pop_back (w ∷ x ∷ ws) = w ∷ pop_back (x ∷ ws)

  -- One round of the outer loop, after the inner loop.
  abbrev pub settle : ℕ → Bool → Victim K → List (Victim K) × Bool → List (Victim K)
  settle count evictable v (ws, inserted) =
      let pushed =
        if not inserted && evictable && ltb (length ws) count then ws ++ (v ∷ []) else ws in
      if ltb count (length pushed) then pop_back pushed else pushed

  unfoldable pub consider {κ} : {V : Type κ} → ℕ → List (Victim K) → K × Entry V → List (Victim K)
  unfolding insert_before pop_back
  consider count ws (k, e) =
      let v : Victim K = record { used = e.last_used; key = k } in
      settle count e.evictable v (if e.evictable then insert_before v ws else (ws, false))

  unfoldable pub consider_all {κ} :
      {V : Type κ} → ℕ → List (Victim K) → List (K × Entry V) → List (Victim K)
  unfolding consider
  consider_all count ws [] = ws
  consider_all count ws (x ∷ xs) = consider_all count (consider count ws x) xs

module _ {ℓ} {K V : Type ℓ} where
  -- The first half of `PerformEviction`, under the shared lock: `keysToEvict`.
  unfoldable pub collect : Cache K V → List (Victim K)
  unfolding consider_all
  collect c =
      if ltb c.max_cache_size (length c.entries)
      then consider_all (length c.entries - c.max_cache_size) [] c.entries
      else []

module _ {ℓ} {K : Type ℓ} (dec : Discrete K) where
  unfoldable pub lookup {κ} : {V : Type κ} → K → List (K × V) → Option V
  lookup k [] = none
  lookup k ((j, v) ∷ m) = ite (dec j k) (some v) (lookup k m)

  unfoldable pub overwrite {κ} : {V : Type κ} → K → V → List (K × V) → List (K × V)
  overwrite k v [] = []
  overwrite k v ((j, w) ∷ m) = ite (dec j k) ((j, v) ∷ m) ((j, w) ∷ overwrite k v m)

  unfoldable pub erase {κ} : {V : Type κ} → K → List (K × V) → List (K × V)
  erase k [] = []
  erase k ((j, w) ∷ m) = ite (dec j k) m ((j, w) ∷ erase k m)

  -- `m_map[key] = value`
  abbrev pub store {κ} : {V : Type κ} → K → V → List (K × V) → Option V → List (K × V)
  store k v m none = (k, v) ∷ m
  store k v m (some _) = overwrite k v m

  -- The second half of `PerformEviction`, under the exclusive lock.
  unfoldable pub erase_all {κ} : {V : Type κ} → List (Victim K) → List (K × V) → List (K × V)
  unfolding erase
  erase_all [] m = m
  erase_all (w ∷ ws) m = erase_all ws (erase w.key m)

module _ {ℓ} {K V : Type ℓ} (dec : Discrete K) where
  -- `Add`
  unfoldable pub add : Cache K V → K → V → Bool → Cache K V
  unfolding lookup overwrite
  add c key value evictable =
      let now = c.last_used + 1 in
      let e : Entry V = record { value = value; last_used = now; evictable = evictable } in
      record c { entries = store dec key e c.entries (lookup dec key c.entries); last_used = now }

  abbrev pub touch : Cache K V → K → Option (Entry V) → Cache K V × Option V
  touch c key none = (c, none)
  touch c key (some e) =
      let now = c.last_used + 1 in
      (
        record c {
          entries = overwrite dec key (record e { last_used = now }) c.entries;
          last_used = now;
        },
        some e.value,
      )

  -- `Find`: the value stands for the result true and the value passed out.
  unfoldable pub find : Cache K V → K → Cache K V × Option V
  unfolding lookup overwrite
  find c key = touch c key (lookup dec key c.entries)

  abbrev pub mark : Cache K V → K → Bool → Option (Entry V) → Cache K V × Bool
  mark c key evictable none = (c, false)
  mark c key evictable (some e) = (
    record c { entries = overwrite dec key (record e { evictable = evictable }) c.entries },
    true,
  )

  -- `SetEvictable`
  unfoldable pub set_evictable : Cache K V → K → Bool → Cache K V × Bool
  unfolding lookup overwrite
  set_evictable c key evictable = mark c key evictable (lookup dec key c.entries)

  unfoldable pub evict : Cache K V → List (Victim K) → Cache K V
  unfolding erase_all
  evict c victims = record c { entries = erase_all dec victims c.entries }

  -- `PerformEviction`, with nothing between its halves.
  unfoldable pub perform_eviction : Cache K V → Cache K V
  unfolding collect evict
  perform_eviction c = evict c (collect c)
