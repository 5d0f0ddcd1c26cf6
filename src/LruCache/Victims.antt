-- ===== src/LruCache/Victims.antt =====
-- concurrent_lru_cache.h: the victims of `PerformEviction` are the least recently used of the entries
-- that may be evicted.
use mathlib.Core.List.{Perm, append-nil, perm_middle}
use mathlib.Core.List.Perm
use jonoondb.Prelude.{
  ℕ, zero, suc, ◌+◌, ◌-◌, ◌≤◌, ◌≡◌, List, [], ◌∷◌, ◌++◌, ltb, if◌then◌else◌, arith, length, take,
  drop, length-take, take-append-drop, min, Bool-cases, inl, inr,
}
use jonoondb.LruCache.{Entry, Victim, Cache, collect}
use jonoondb.LruCache.Eviction.{insert, length-insert, sorted_evictable, collect-sorted_evictable}

module _ {ℓ} {K : Type ℓ} where
  -- Every victim of the list was last used at `n` or later.
  abbrev pub FromOn : ℕ → List (Victim K) → Type 0
  FromOn n [] = Unit {0}
  FromOn n (w ∷ ws) = (n ≤ w.used) × FromOn n ws

  abbrev pub IsSorted : List (Victim K) → Type 0
  IsSorted [] = Unit {0}
  IsSorted (w ∷ ws) = FromOn w.used ws × IsSorted ws

  -- Every victim of the first list was used no later than every victim of the second.
  abbrev pub NoLater : List (Victim K) → List (Victim K) → Type 0
  NoLater [] later = Unit {0}
  NoLater (w ∷ ws) later = FromOn w.used later × NoLater ws later

  FromOn-mono : (m n : ℕ) (ws : List (Victim K)) → m ≤ n → FromOn n ws → FromOn m ws
  FromOn-mono m n [] h f = tt
  FromOn-mono m n (w ∷ ws) h f = (omega arith, FromOn-mono m n ws h f.1)

  FromOn-insert :
      (n : ℕ) (v : Victim K) (ws : List (Victim K))
      → n ≤ v.used
      → FromOn n ws
      → FromOn n (insert v ws)
  unfolding insert
  FromOn-insert n v [] h f = (h, tt)
  FromOn-insert n v (w ∷ ws) h f = ground (arith, FromOn-insert n v ws)

  insert-IsSorted : (v : Victim K) (ws : List (Victim K)) → IsSorted ws → IsSorted (insert v ws)
  unfolding insert
  insert-IsSorted v [] s = (tt, tt)
  insert-IsSorted v (w ∷ ws) s =
      ground (arith, insert-IsSorted v ws, FromOn-insert w.used v ws, FromOn-mono v.used w.used ws)

  insert-perm : (v : Victim K) (ws : List (Victim K)) → Perm (insert v ws) (v ∷ ws)
  unfolding insert
  insert-perm v [] = Perm.refl _
  insert-perm v (w ∷ ws) = elim (Bool-cases (ltb v.used w.used)) [
    | inl before ↦ rw before (Perm.refl _)
    | inr behind ↦ rw behind (Perm.trans (Perm.cons w (insert-perm v ws)) (Perm.swap v w ws))
  ]

  module _ {κ} {V : Type κ} where
    -- The entries that may be evicted, in the order of the map.
    unfoldable pub candidates : List (K × Entry V) → List (Victim K)
    candidates [] = []
    candidates ((k, e) ∷ xs) =
        if e.evictable
        then record { used = e.last_used; key = k } ∷ candidates xs
        else candidates xs

    sorted_evictable-IsSorted :
        (ws : List (Victim K)) (xs : List (K × Entry V))
        → IsSorted ws
        → IsSorted (sorted_evictable ws xs)
    unfolding sorted_evictable
    sorted_evictable-IsSorted ws [] s = s
    sorted_evictable-IsSorted ws ((k, e) ∷ xs) s = elim (Bool-cases e.evictable) [
      | inl may ↦
          let v : Victim K = record { used = e.last_used; key = k } in
          rw may (sorted_evictable-IsSorted (insert v ws) xs (insert-IsSorted v ws s))
      | inr kept ↦ rw kept (sorted_evictable-IsSorted ws xs s)
    ]

    sorted_evictable-perm :
        (ws : List (Victim K)) (xs : List (K × Entry V))
        → Perm (sorted_evictable ws xs) (ws ++ candidates xs)
    unfolding sorted_evictable candidates
    sorted_evictable-perm ws [] = rw append-nil (Perm.refl _)
    sorted_evictable-perm ws ((k, e) ∷ xs) = elim (Bool-cases e.evictable) [
      | inl may ↦
          let v : Victim K = record { used = e.last_used; key = k } in
          rw may (
            Perm.trans (sorted_evictable-perm (insert v ws) xs) (
              Perm.trans (Perm.append (insert-perm v ws) (Perm.refl (candidates xs)))
                (Perm.symm (perm_middle ws (candidates xs)))))
      | inr kept ↦ rw kept (sorted_evictable-perm ws xs)
    ]

  FromOn-drop : (m n : ℕ) (ws : List (Victim K)) → FromOn m ws → FromOn m (drop n ws)
  FromOn-drop m zero ws f = f
  FromOn-drop m (suc n) [] f = tt
  FromOn-drop m (suc n) (w ∷ ws) f = FromOn-drop m n ws f.1

  NoLater-take-drop : (n : ℕ) (ws : List (Victim K)) → IsSorted ws → NoLater (take n ws) (drop n ws)
  NoLater-take-drop zero ws s = tt
  NoLater-take-drop (suc n) [] s = tt
  NoLater-take-drop (suc n) (w ∷ ws) s = (FromOn-drop w.used n ws s.0, NoLater-take-drop n ws s.1)

  length-sorted_evictable {κ} :
      {V : Type κ} (ws : List (Victim K)) (xs : List (K × Entry V))
      → length (sorted_evictable ws xs) ≡ length ws + length (candidates xs)
  unfolding sorted_evictable candidates
  length-sorted_evictable ws [] = omega arith
  length-sorted_evictable ws ((k, e) ∷ xs) = elim (Bool-cases e.evictable) [
    | inl may ↦
        let v : Victim K = record { used = e.last_used; key = k } in
        rw may (omega (arith, length-sorted_evictable (insert v ws) xs, length-insert v ws))
    | inr kept ↦ rw kept (length-sorted_evictable ws xs)
  ]

module _ {ℓ} {K V : Type ℓ} (c : Cache K V) where
  -- `PerformEviction` picks only entries that may be evicted, each as often as it stands in the map.
  -- Those that may be evicted and are not picked were used no earlier than any picked one. It picks
  -- as many as the cache has too many, or all that may be evicted if they are fewer.
  pub collect_lru :
      (stay : List (Victim K)) × Perm (collect c ++ stay) (candidates c.entries)
      × NoLater (collect c) stay
      × (length (collect c)
          ≡ min (length c.entries - c.max_cache_size) (length (candidates c.entries)))
  collect_lru =
      let n = length c.entries - c.max_cache_size in
      let all = sorted_evictable [] c.entries in
      rw (collect-sorted_evictable c) (
        drop n all,
        rw (take-append-drop n all) (sorted_evictable-perm [] c.entries),
        NoLater-take-drop n all (sorted_evictable-IsSorted [] c.entries tt),
        omega (arith, length-take n all, length-sorted_evictable [] c.entries),
      )
