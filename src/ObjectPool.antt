-- ===== src/ObjectPool.antt =====
-- include/jonoondb_api/object_pool.h: `ObjectPool`, which keeps objects that are not in use. An object is
-- a pointer; the functions for allocation and reset change a state of the world. The allocator throws or
-- gives an object, or `none` for a null pointer. The two other functions do not throw. Sizes are not
-- negative.
pub mod Places
pub mod Balance
pub mod Construction
use jonoondb.Prelude.{
  ℕ, zero, suc, ◌+◌, ◌-◌, List, [], ◌∷◌, Option, none, some, Bool, true, false, ltb, ◌==◌, ◌||◌,
  if◌then◌else◌, length, replicate, get_elem?, take,
}
use jonoondb.Prelude.Int.{ℤ, pos, negsuc, ltb_ℤ}
use jonoondb.Prelude.Exec.{◌▷◌}
use jonoondb.Prelude.Outcome.{Outcome, Done, Exception, ok, throw, jonoondb_error, invalid_argument}

pub record ObjectPool (A : Type 0) : Type 0 where
  pub objects : List (Option A)
  pub capacity : ℕ
  pub current_object_index : ℤ

-- `objects[i] = x`
unfoldable pub put_at : {A : Type 0} → List (Option A) → ℕ → Option A → List (Option A)
put_at [] i x = []
put_at (y ∷ ys) zero x = x ∷ ys
put_at (y ∷ ys) (suc i) x = y ∷ put_at ys i x

-- `objects[i]`
abbrev pub place : {A : Type 0} → List (Option A) → ℕ → Option A
place objects i = elim (get_elem? objects i) [ none ↦ none | some x ↦ x ]

-- `m_currentObjectIndex` is -1 or a place.
abbrev pub no_object : ℤ
no_object = negsuc 0

-- n - 1
abbrev pub before : ℕ → ℤ
before zero = no_object
before (suc n) = pos n

-- The place behind the index.
abbrev pub place_after : ℤ → ℕ
place_after (negsuc n) = 0
place_after (pos i) = suc i

abbrev pub non_null : {A : Type 0} → List (Option A) → List A
non_null [] = []
non_null (none ∷ xs) = non_null xs
non_null (some x ∷ xs) = x ∷ non_null xs

-- What the constructor comes to: its result, the vector as it leaves it, and the objects that it frees.
pub record Constructed (W A : Type 0) : Type 0 where
  pub result : Outcome (ObjectPool A)
  pub objects : List (Option A)
  pub freed : List A
  pub world : W

-- The objects that the `catch` of the constructor frees.
unfoldable pub clean_up : {A : Type 0} → ℤ → List (Option A) → List A
clean_up index objects = non_null (take (place_after index) objects)

module _ {W A : Type 0} (allocate : W → Outcome (Option A) × W) where
  -- One round of the loop of the constructor, with what the allocator gives.
  abbrev pub assigned : List (Option A) → ℕ → Outcome (Option A) × W → Done × (List (Option A) × W)
  assigned objects i (throw e, world) = (throw e, (objects, world))
  assigned objects i (ok none, world) = (throw jonoondb_error, (put_at objects i none, world))
  assigned objects i (ok (some x), world) = (ok tt, (put_at objects i (some x), world))

  -- The loop, for so many places from `i` on.
  unfoldable pub fill_objects : ℕ → ℕ → List (Option A) × W → Done × (List (Option A) × W)
  fill_objects zero i (objects, world) = (ok tt, (objects, world))
  fill_objects (suc n) i (objects, world) =
      assigned objects i (allocate world) ▷ λ _ s. fill_objects n (suc i) s

  -- The end of the constructor. The index is set behind the loop, so `catch` finds it as it was.
  abbrev pub built : ℕ → ℕ → Done × (List (Option A) × W) → Constructed W A
  built initial capacity (ok _, (objects, world)) = record {
    result =
        ok (record {
          objects = objects;
          capacity = capacity;
          current_object_index = before initial;
        });
    objects = objects;
    freed = [];
    world = world;
  }
  built initial capacity (throw e, (objects, world)) = record {
    result = throw e;
    objects = objects;
    freed = clean_up no_object objects;
    world = world;
  }

  -- The constructor, for functions that are not empty.
  unfoldable pub construct : ℕ → ℕ → W → Constructed W A
  unfolding fill_objects
  construct initial capacity world =
      if capacity == 0 || ltb capacity initial
      then record { result = throw invalid_argument; objects = []; freed = []; world = world }
      else built initial capacity (fill_objects initial 0 (replicate capacity none, world))

  abbrev pub take_from : ObjectPool A → W → ℤ → Outcome (Option A) × ObjectPool A × W
  take_from pool world (negsuc n) = let (x, world') = allocate world in (x, pool, world')
  take_from pool world (pos i) = (
    ok (place pool.objects i),
    record pool { objects = put_at pool.objects i none; current_object_index = before i },
    world,
  )

  -- `Take`
  unfoldable pub take_object : ObjectPool A → W → Outcome (Option A) × ObjectPool A × W
  take_object pool world = take_from pool world pool.current_object_index

module _ {W A : Type 0} (reset : A → W → W) where
  -- `Return`: the pool, the objects that it frees, and the world.
  unfoldable pub return_object : ObjectPool A → A → W → ObjectPool A × List A × W
  return_object pool x world =
      if ltb_ℤ pool.current_object_index (before pool.capacity)
      then (
        record pool {
          objects = put_at pool.objects (place_after pool.current_object_index) (some x);
          current_object_index = pos (place_after pool.current_object_index);
        },
        [],
        reset x world,
      )
      else (pool, x ∷ [], world)

-- The destructor: the pointers that it frees.
unfoldable pub destroy_pool : {A : Type 0} → ObjectPool A → List (Option A)
destroy_pool pool = take (place_after pool.current_object_index) pool.objects
