-- ===== src/LruCache/Reads.antt =====
-- concurrent_lru_cache.h: what `Find` gives after the other methods.
use mathlib.Core.Option
use mathlib.Core.Logic.{ite, if_pos, if_neg}
use jonoondb.Prelude.{
  ◌+◌, ◌≡◌, refl, ap, List, [], ◌∷◌, Option, some, Bool, arith, Option-cases, inl, inr,
}
use jonoondb.LruCache.{Entry, Cache, lookup, overwrite, store, add, find, set_evictable}

module _ {ℓ} {K : Type ℓ} (dec : Discrete K) where
  module _ {V : Type ℓ} where
    lookup-overwrite :
        (k j : K) (v w : V) (m : List (K × V))
        → lookup dec k m ≡ some w
        → lookup dec j (overwrite dec k v m) ≡ ite (dec k j) (some v) (lookup dec j m)
    unfolding lookup overwrite
    lookup-overwrite k j v w [] h = cc
    lookup-overwrite k j v w ((i, x) ∷ m) h = ground (arith, lookup-overwrite k j v w m)

    pub lookup-store :
        (k j : K) (v : V) (m : List (K × V))
        → lookup dec j (store dec k v m (lookup dec k m)) ≡ ite (dec k j) (some v) (lookup dec j m)
    unfolding lookup
    lookup-store k j v m = elim (Option-cases (lookup dec k m)) [
      | inl new ↦ rw new
      | inr (w, old) ↦ rw old (lookup-overwrite k j v w m old)
    ]

  -- What `Find` would give for a key, without the change of its last use.
  abbrev pub peek : {V : Type ℓ} → Cache K V → K → Option V
  peek c k = Option.map (λ e. e.value) (lookup dec k c.entries)

module _ {ℓ} {K V : Type ℓ} (dec : Discrete K) (c : Cache K V) (key : K) where
  -- After `Add`, `Find` gives the new value for the key, and for every other key what it gave before.
  pub peek-add :
      (value : V) (evictable : Bool) (j : K)
      → peek dec (add dec c key value evictable) j ≡ ite (dec key j) (some value) (peek dec c j)
  unfolding add
  peek-add value evictable j = rw (lookup-store dec key j _ c.entries) (ground arith)

  -- Where an entry is replaced by one with the same value, no value changes.
  peek-overwrite :
      (e e' : Entry V) (j : K)
      → lookup dec key c.entries ≡ some e
      → e'.value ≡ e.value
      → Option.map (λ e. e.value) (lookup dec j (overwrite dec key e' c.entries)) ≡ peek dec c j
  peek-overwrite e e' j hit same =
      rw (lookup-overwrite dec key j e' e c.entries hit) (elim (dec key j) [
        | yes equal ↦ rw (if_pos _ equal, ← equal, hit) (ap some same)
        | no other ↦ rw (if_neg _ other)
      ])

  -- `SetEvictable` changes no value.
  pub peek-set_evictable :
      (evictable : Bool) (j : K) → peek dec (set_evictable dec c key evictable).0 j ≡ peek dec c j
  unfolding set_evictable
  peek-set_evictable evictable j = elim (Option-cases (lookup dec key c.entries)) [
    | inl miss ↦ rw miss refl
    | inr (e, hit) ↦ rw hit (peek-overwrite e (record e { evictable = evictable }) j hit refl)
  ]

  -- `Find` gives the value of the key, makes its use the latest, and changes no value.
  pub peek-find :
      (j : K)
      → (peek dec (find dec c key).0 j ≡ peek dec c j) × ((find dec c key).1 ≡ peek dec c key)
  unfolding find
  peek-find j = elim (Option-cases (lookup dec key c.entries)) [
    | inl miss ↦ rw miss (refl, refl)
    | inr (e, hit) ↦
        rw hit (peek-overwrite e (record e { last_used = c.last_used + 1 }) j hit refl, refl)
  ]
