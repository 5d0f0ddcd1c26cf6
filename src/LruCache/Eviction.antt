-- ===== src/LruCache/Eviction.antt =====
-- concurrent_lru_cache.h: which entries `PerformEviction` picks. The insertion sort that is cut back
-- in every round picks what sorting everything and cutting once would pick.
use jonoondb.Prelude.{
  ℕ, zero, suc, ◌-◌, ◌≤◌, ◌≡◌, refl, ap, sym, List, [], ◌∷◌, ◌++◌, Bool, true, false, ltb,
  if◌then◌else◌, arith, length, take, length-take, length-append, Bool-cases, inl, inr,
}
use jonoondb.LruCache.{
  Entry, Victim, Cache, insert_before, pop_back, settle, consider, consider_all, collect,
}

module _ {ℓ} {K : Type ℓ} where
  -- The reference: insertion behind everything used no later.
  unfoldable pub insert : Victim K → List (Victim K) → List (Victim K)
  insert v [] = v ∷ []
  insert v (w ∷ ws) = if ltb v.used w.used then v ∷ w ∷ ws else w ∷ insert v ws

  -- All evictable entries, the least recently used first.
  unfoldable pub sorted_evictable {κ} :
      {V : Type κ} → List (Victim K) → List (K × Entry V) → List (Victim K)
  unfolding insert
  sorted_evictable ws [] = ws
  sorted_evictable ws ((k, e) ∷ xs) =
      sorted_evictable
        (if e.evictable then insert (record { used = e.last_used; key = k }) ws else ws) xs

  pub length-insert : (v : Victim K) (ws : List (Victim K)) → length (insert v ws) ≡ suc (length ws)
  unfolding insert
  length-insert v [] = refl
  length-insert v (w ∷ ws) = ground (arith, length-insert v ws)

  -- The inner loop either inserts as the reference does, or leaves the list for the push at its end.
  insert_before_lem :
      (v : Victim K) (ws : List (Victim K))
      → insert v ws ≡ (if (insert_before v ws).1 then (insert_before v ws).0 else ws ++ (v ∷ []))
  unfolding insert insert_before
  insert_before_lem v [] = refl
  insert_before_lem v (w ∷ ws) = ground (arith, insert_before_lem v ws)

  insert_before-kept :
      (v : Victim K) (ws : List (Victim K))
      → (insert_before v ws).1 ≡ false
      → (insert_before v ws).0 ≡ ws
  unfolding insert_before
  insert_before-kept v [] h = refl
  insert_before-kept v (w ∷ ws) h = ground (arith, insert_before-kept v ws)

  pop_back-take : (ws : List (Victim K)) (n : ℕ) → length ws ≡ suc n → pop_back ws ≡ take n ws
  unfolding pop_back
  pop_back-take [] n h = absurd (omega arith)
  pop_back-take (w ∷ []) zero h = refl
  pop_back-take (w ∷ []) (suc n) h = absurd (omega arith)
  pop_back-take (w ∷ x ∷ ws) zero h = absurd (omega arith)
  pop_back-take (w ∷ x ∷ ws) (suc n) h = ap (◌∷◌ w) (pop_back-take (x ∷ ws) n (omega arith))

  take-all : (n : ℕ) (ws : List (Victim K)) → length ws ≤ n → take n ws ≡ ws
  take-all zero [] h = refl
  take-all zero (w ∷ ws) h = absurd (omega arith)
  take-all (suc n) [] h = refl
  take-all (suc n) (w ∷ ws) h = ap (◌∷◌ w) (take-all n ws (omega arith))

  take-append : (ws vs : List (Victim K)) → take (length ws) (ws ++ vs) ≡ ws
  take-append [] vs = refl
  take-append (w ∷ ws) vs = ap (◌∷◌ w) (take-append ws vs)

  take-cons-take :
      (n : ℕ) (w : Victim K) (ws : List (Victim K)) → take n (w ∷ take n ws) ≡ take n (w ∷ ws)
  take-cons-take zero w ws = refl
  take-cons-take (suc n) w [] = refl
  take-cons-take (suc n) w (x ∷ ws) = ap (◌∷◌ w) (take-cons-take n x ws)

  take-take : (n : ℕ) (ws : List (Victim K)) → take n (take n ws) ≡ take n ws
  take-take zero ws = refl
  take-take (suc n) [] = refl
  take-take (suc n) (w ∷ ws) = ap (◌∷◌ w) (take-take n ws)

  -- Of the list that is kept, nothing behind the cut matters.
  take-insert-take :
      (n : ℕ) (v : Victim K) (ws : List (Victim K))
      → take n (insert v (take n ws)) ≡ take n (insert v ws)
  unfolding insert
  take-insert-take zero v ws = refl
  take-insert-take (suc n) v [] = refl
  take-insert-take (suc n) v (w ∷ ws) = elim (Bool-cases (ltb v.used w.used)) [
    | inl before ↦ rw before (ap (◌∷◌ v) (take-cons-take n w ws))
    | inr behind ↦ rw behind (ap (◌∷◌ w) (take-insert-take n v ws))
  ]

  module _ (count : ℕ) (v : Victim K) where
    settle_inserted :
        (ws : List (Victim K))
        → length ws ≤ suc count
        → settle count true v (ws, true) ≡ take count ws
    settle_inserted ws h = elim (Bool-cases (ltb count (length ws))) [
      | inl over ↦ rw over (pop_back-take ws count (ground arith))
      | inr fits ↦ rw fits (sym (take-all count ws (ground arith)))
    ]

    settle_end :
        (ws : List (Victim K))
        → length ws ≤ count
        → settle count true v (ws, false) ≡ take count (ws ++ (v ∷ []))
    settle_end ws h = elim (Bool-cases (ltb (length ws) count)) [
      | inl room ↦
          let size = length-append ws (v ∷ []) in
          rw (room, take-all count (ws ++ (v ∷ [])) (ground arith)) (ground arith)
      | inr full ↦
          let e : count ≡ length ws = ground arith in
          rw (full, e, take-append ws (v ∷ [])) (ground arith)
    ]

    settle_skipped :
        (ws : List (Victim K))
        → length ws ≤ count
        → settle count false v (ws, false) ≡ take count ws
    settle_skipped ws h = rw (take-all count ws h) (ground arith)

    module _ (ws : List (Victim K)) (h : length ws ≤ count) where
      picked :
          (r : List (Victim K)) (inserted : Bool)
          → insert v ws ≡ (if inserted then r else ws ++ (v ∷ []))
          → (inserted ≡ false → r ≡ ws)
          → settle count true v (r, inserted) ≡ take count (insert v ws)
      picked r true e kept =
          rw e (settle_inserted r (omega (arith, length-insert v ws, ap length e)))
      picked r false e kept = rw (kept refl, e) (settle_end ws h)

      chosen :
          (evictable : Bool)
          → settle count evictable v (if evictable then insert_before v ws else (ws, false))
            ≡ take count (if evictable then insert v ws else ws)
      chosen true =
          picked (insert_before v ws).0 (insert_before v ws).1 (insert_before_lem v ws)
            (insert_before-kept v ws)
      chosen false = settle_skipped ws h

  consider_all_lem {κ} :
      {V : Type κ} (count : ℕ) (ws : List (Victim K)) (xs : List (K × Entry V))
      → consider_all count (take count ws) xs ≡ take count (sorted_evictable ws xs)
  unfolding consider consider_all sorted_evictable
  consider_all_lem count ws [] = refl
  consider_all_lem count ws ((k, e) ∷ xs) =
      let v : Victim K = record { used = e.last_used; key = k } in
      let short : length (take count ws) ≤ count = omega (arith, length-take count ws) in
      let cut = chosen count v (take count ws) short e.evictable in
      rw (cut, kept v ws e.evictable)
        (consider_all_lem count (if e.evictable then insert v ws else ws) xs)
    where
      kept :
          (v : Victim K) (ws : List (Victim K)) (b : Bool)
          → take count (if b then insert v (take count ws) else take count ws)
            ≡ take count (if b then insert v ws else ws)
      kept v ws true = take-insert-take count v ws
      kept v ws false = take-take count ws

  consider_all-nil {κ} :
      {V : Type κ} (count : ℕ) (xs : List (K × Entry V))
      → consider_all count [] xs ≡ take count (sorted_evictable [] xs)
  consider_all-nil zero xs = consider_all_lem zero [] xs
  consider_all-nil (suc n) xs = consider_all_lem (suc n) [] xs

-- `PerformEviction` picks, in every cache, the first entries of the evictable ones sorted by their
-- last use: as many as the cache has too many, or all of them if they are fewer.
pub collect-sorted_evictable {ℓ} :
    {K V : Type ℓ} (c : Cache K V)
    → collect c ≡ take (length c.entries - c.max_cache_size) (sorted_evictable [] c.entries)
unfolding collect
collect-sorted_evictable c = elim (Bool-cases (ltb c.max_cache_size (length c.entries))) [
  | inl over ↦ rw over (consider_all-nil (length c.entries - c.max_cache_size) c.entries)
  | inr fits ↦
      let nobody : length c.entries - c.max_cache_size ≡ 0 = ground arith in rw (fits, nobody)
]
