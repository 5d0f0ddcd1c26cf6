-- ===== src/ObjectPool/Balance.antt =====
-- object_pool.h: the objects of a pool in use are accounted for, each as often as it was allocated.
use jonoondb.Prelude.{ℕ, ◌+◌, ◌≡◌, List, [], ◌∷◌, ◌++◌, Option, none, some, Bool, length}
use jonoondb.Prelude.Int.{ℤ, pos, negsuc}
use jonoondb.Prelude.Outcome.{Outcome, ok, throw}
use jonoondb.ObjectPool.{ObjectPool, before, take_object, return_object}
use jonoondb.ObjectPool.Places.{IsFilled, count, count_places}

-- A caller takes an object, or returns the object that it took last.
pub data Call : Type 0 where
  take_call return_call : Call

-- A pool in use: the objects that callers hold, and those that were allocated and freed.
pub record Usage (W A : Type 0) : Type 0 where
  pub pool : ObjectPool A
  pub held : List A
  pub allocated : List A
  pub freed : List A
  pub world : W

-- Up to the index there are objects, and null pointers behind it. The objects in the pool, held and freed
-- are those that were allocated, each as often.
pub record IsBalanced {W A : Type 0} (u : Usage W A) : Type 0 where
  pub top : ℕ
  pub index : u.pool.current_object_index ≡ before top
  pub filled : IsFilled top u.pool.objects
  pub size : length u.pool.objects ≡ u.pool.capacity
  pub total :
      (p : A → Bool)
      → count_places p u.pool.objects + count p u.held + count p u.freed ≡ count p u.allocated

module _ {W A : Type 0} (allocate : W → Outcome (Option A) × W) (reset : A → W → W) where
  -- An object comes from the allocator if the pool has none.
  abbrev allocated_by : ℤ → A → List A → List A
  allocated_by (negsuc n) x xs = x ∷ xs
  allocated_by (pos i) x xs = xs

  abbrev taken : Usage W A → ℤ → Outcome (Option A) × ObjectPool A × W → Usage W A
  taken u index (throw e, pool, world) = record u { pool = pool; world = world }
  taken u index (ok none, pool, world) = record u { pool = pool; world = world }
  taken u index (ok (some x), pool, world) = record u {
    pool = pool;
    held = x ∷ u.held;
    allocated = allocated_by index x u.allocated;
    world = world;
  }

  abbrev returned : Usage W A → List A → Usage W A
  returned u [] = u
  returned u (x ∷ xs) =
      let (pool, frees, world) = return_object reset u.pool x u.world in
      record u { pool = pool; held = xs; freed = frees ++ u.freed; world = world }

  unfoldable pub call : Call → Usage W A → Usage W A
  call take_call u = taken u u.pool.current_object_index (take_object allocate u.pool u.world)
  call return_call u = returned u u.held

  unfoldable pub call_all : List Call → Usage W A → Usage W A
  unfolding call
  call_all [] u = u
  call_all (c ∷ cs) u = call_all cs (call c u)
