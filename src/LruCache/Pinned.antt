-- ===== src/LruCache/Pinned.antt =====
-- concurrent_lru_cache.h: what `PerformEviction` leaves in the map.
use mathlib.Core.Logic.{if_pos}
use jonoondb.Prelude.{
  ℕ, zero, suc, ◌-◌, ◌≡◌, ◌≢◌, refl, subst, ◌∙◌, List, [], ◌∷◌, some, true, false, arith, length,
  take, ltb, Bool-cases, inl, inr,
}
use jonoondb.LruCache.{Entry, Victim, Cache, lookup, erase, erase_all, collect, perform_eviction}
use jonoondb.LruCache.Eviction.{insert, sorted_evictable, collect-sorted_evictable}

-- No victim has the key.
abbrev Spares {ℓ} : {K : Type ℓ} → K → List (Victim K) → Type ℓ
Spares j [] = Unit
Spares j (w ∷ ws) = (w.key ≢ j) × Spares j ws

module _ {ℓ} {K : Type ℓ} where
  Spares-insert :
      (j : K) (v : Victim K) (ws : List (Victim K))
      → v.key ≢ j
      → Spares j ws
      → Spares j (insert v ws)
  unfolding insert
  Spares-insert j v [] h s = (h, tt)
  Spares-insert j v (w ∷ ws) h s = elim (Bool-cases (ltb v.used w.used)) [
    | inl before ↦ rw before (h, s)
    | inr behind ↦ rw behind (s.0, Spares-insert j v ws h s.1)
  ]

  Spares-take : (j : K) (n : ℕ) (ws : List (Victim K)) → Spares j ws → Spares j (take n ws)
  Spares-take j zero ws s = tt
  Spares-take j (suc n) [] s = tt
  Spares-take j (suc n) (w ∷ ws) s = (s.0, Spares-take j n ws s.1)

module _ {ℓ} {K V : Type ℓ} where
  -- No entry has the key.
  abbrev pub Absent : K → List (K × Entry V) → Type ℓ
  Absent j [] = Unit
  Absent j ((k, e) ∷ m) = (k ≢ j) × Absent j m

  -- The keys of a map are distinct.
  abbrev pub IsDistinct : List (K × Entry V) → Type ℓ
  IsDistinct [] = Unit
  IsDistinct ((k, e) ∷ m) = Absent k m × IsDistinct m

  -- No entry with the key may be evicted.
  abbrev IsPinned : K → List (K × Entry V) → Type ℓ
  IsPinned j [] = Unit
  IsPinned j ((k, e) ∷ m) = (e.evictable ≡ true → k ≢ j) × IsPinned j m

  Absent-IsPinned : (j : K) (m : List (K × Entry V)) → Absent j m → IsPinned j m
  Absent-IsPinned j [] a = tt
  Absent-IsPinned j (x ∷ m) a = (λ _. a.0, Absent-IsPinned j m a.1)

  Spares-sorted_evictable :
      (j : K) (ws : List (Victim K)) (m : List (K × Entry V))
      → IsPinned j m
      → Spares j ws
      → Spares j (sorted_evictable ws m)
  unfolding sorted_evictable
  Spares-sorted_evictable j ws [] p s = s
  Spares-sorted_evictable j ws ((k, e) ∷ m) p s = elim (Bool-cases e.evictable) [
    | inl may ↦
        let v : Victim K = record { used = e.last_used; key = k } in
        rw may (Spares-sorted_evictable j (insert v ws) m p.1 (Spares-insert j v ws (p.0 may) s))
    | inr kept ↦ rw kept (Spares-sorted_evictable j ws m p.1 s)
  ]

  module _ (dec : Discrete K) where
    lookup-IsPinned :
        (j : K) (m : List (K × Entry V)) (e : Entry V)
        → IsDistinct m
        → lookup dec j m ≡ some e
        → e.evictable ≡ false
        → IsPinned j m
    unfolding lookup
    lookup-IsPinned j [] e d h f = tt
    lookup-IsPinned j ((k, x) ∷ m) e d h f = elim (dec k j) [
      | yes same ↦
          let hit : some x ≡ some e = rw (if_pos (dec k j) same) at h in
          (λ may. absurd (ground arith), Absent-IsPinned j m (subst (λ t. Absent t m) same d.0))
      | no other ↦ (λ _. other, lookup-IsPinned j m e d.1 (ground arith) f)
    ]

    lookup-erase :
        (j k : K) (m : List (K × Entry V)) → k ≢ j → lookup dec j (erase dec k m) ≡ lookup dec j m
    unfolding lookup erase
    lookup-erase j k [] h = refl
    lookup-erase j k ((i, x) ∷ m) h = ground (arith, lookup-erase j k m)

    lookup-erase_all :
        (j : K) (ws : List (Victim K)) (m : List (K × Entry V))
        → Spares j ws
        → lookup dec j (erase_all dec ws m) ≡ lookup dec j m
    unfolding erase_all
    lookup-erase_all j [] m s = refl
    lookup-erase_all j (w ∷ ws) m s =
        lookup-erase_all j ws (erase dec w.key m) s.1 ∙ lookup-erase j w.key m s.0

    -- In a map whose keys are distinct, an entry that may not be evicted is still there after
    -- `PerformEviction`, unchanged, however long ago it was used and however full the cache is.
    pub perform_eviction-keeps :
        (c : Cache K V) (j : K) (e : Entry V)
        → IsDistinct c.entries
        → lookup dec j c.entries ≡ some e
        → e.evictable ≡ false
        → lookup dec j (perform_eviction dec c).entries ≡ some e
    unfolding perform_eviction
    perform_eviction-keeps c j e d h f =
        let pinned = lookup-IsPinned j c.entries e d h f in
        let n = length c.entries - c.max_cache_size in
        let spared =
          Spares-take j n (sorted_evictable [] c.entries)
            (Spares-sorted_evictable j [] c.entries pinned tt) in
        lookup-erase_all j (collect c) c.entries (rw (collect-sorted_evictable c) spared) ∙ h
