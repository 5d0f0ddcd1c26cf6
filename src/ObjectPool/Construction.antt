-- ===== src/ObjectPool/Construction.antt =====
-- object_pool.h: the constructor fills the pool, or throws and leaves behind what it has allocated.
use jonoondb.Prelude.{
  ℕ, zero, suc, ◌+◌, ◌≤◌, ◌<◌, ◌≡◌, refl, sym, ap, subst, ◌∙◌, List, [], Option, none, some, ltb,
  ◌==◌, ◌||◌, length, length-replicate, replicate, arith, Bool-cases, ==_iff, inl, inr, ◌⊎◌,
}
use jonoondb.Prelude.Exec.{◌▷◌}
use jonoondb.Prelude.Outcome.{Outcome, Done, Exception, ok, throw, jonoondb_error, invalid_argument}
use jonoondb.ObjectPool.{
  ObjectPool, put_at, place, before, Constructed, construct, assigned, fill_objects, clean_up,
}
use jonoondb.ObjectPool.Places.{
  IsFilled, length-put_at, no_objects, put_in, put_null, place-put_at, place_other,
}

module _ {W A : Type 0} (allocate : W → Outcome (Option A) × W) where
  -- The world after so many calls of the allocator.
  abbrev pub after : ℕ → W → W
  after zero world = world
  after (suc n) world = (allocate (after n world)).1

  -- The allocator throws the exception, or gives a null pointer and it is that of the constructor.
  abbrev pub IsFailure : Exception → Outcome (Option A) → Type 0
  IsFailure e (throw e') = e ≡ e'
  IsFailure e (ok none) = e ≡ jonoondb_error
  IsFailure e (ok (some x)) = ⊥

  -- The first places have objects, those of as many calls of the allocator, and the others null pointers.
  pub record HasGiven (world : W) (n : ℕ) (objects : List (Option A)) : Type 0 where
    pub filled : IsFilled n objects
    pub given : (i : ℕ) → i < n → (allocate (after i world)).0 ≡ ok (place objects i)

  -- The loop comes to its end, or to a call that fails.
  abbrev Filling : W → ℕ → ℕ → Done × (List (Option A) × W) → Type 0
  Filling world capacity n result =
      ((objects : List (Option A)) × ((world' : W) × (result ≡ (ok tt, (objects, world')))
          × HasGiven world n objects
          × (length objects ≡ capacity)))
      ⊎ ((e : Exception) × ((j : ℕ) × ((objects : List (Option A)) × ((world' : W) × (result
                  ≡ (throw e, (objects, world')))
                × (j < n)
                × IsFailure e (allocate (after j world)).0
                × HasGiven world j objects))))

  next-HasGiven :
      (world next : W) (n : ℕ) (objects : List (Option A)) (x : A)
      → n < length objects
      → allocate (after n world) ≡ (ok (some x), next)
      → HasGiven world n objects
      → HasGiven world (suc n) (put_at objects n (some x))
  next-HasGiven world next n objects x small gives h = record {
    filled = (put_in n objects x h.filled small).0;
    given = λ i less. elim (Bool-cases (i == n)) [
      | inl same ↦
          let here : i ≡ n = (==_iff i n).0 same in
          subst (λ k. (allocate (after k world)).0 ≡ ok (place (put_at objects n (some x)) k))
            (sym here)
            (ap (λ (r : Outcome (Option A) × W). r.0) gives
              ∙ ap ok (sym (place-put_at objects n (some x) small)))
      | inr other ↦
          let earlier : i < n = ground arith in
          h.given i earlier ∙ ap ok (sym (place_other objects i n (some x) earlier))
    ];
  }

  null-HasGiven :
      (world : W) (n : ℕ) (objects : List (Option A))
      → HasGiven world n objects
      → HasGiven world n (put_at objects n none)
  null-HasGiven world n objects h = record {
    filled = put_null n objects h.filled;
    given = λ i less. h.given i less ∙ ap ok (sym (place_other objects i n none less));
  }

  -- A round of the loop, and the rest of it by `rest`.
  round-Filling :
      (n i total capacity : ℕ) (world : W) (objects : List (Option A)) (r : Outcome (Option A) × W)
      → i + suc n ≡ total
      → total ≤ capacity
      → length objects ≡ capacity
      → HasGiven world i objects
      → allocate (after i world) ≡ r
      → ((objects' : List (Option A))
          → length objects' ≡ capacity
          → HasGiven world (suc i) objects'
          → Filling world capacity total
              (fill_objects allocate n (suc i) (objects', after (suc i) world)))
      → Filling world capacity total
          (assigned allocate objects i r ▷ λ _ s. fill_objects allocate n (suc i) s)
  round-Filling n i total capacity world objects (throw x, next) e h size given is rest = inr (
    x,
    (i, (objects, (next, refl, omega arith, subst (λ q. IsFailure x q.0) (sym is) refl, given))),
  )
  round-Filling n i total capacity world objects (ok none, next) e h size given is rest = inr (
    jonoondb_error,
    (
      i,
      (
        put_at objects i none,
        (
          next,
          refl,
          omega arith,
          subst (λ q. IsFailure jonoondb_error q.0) (sym is) refl,
          null-HasGiven world i objects given,
        ),
      ),
    ),
  )
  round-Filling n i total capacity world objects (ok (some x), next) e h size given is rest =
      subst
        (λ w.
          Filling world capacity total
            (fill_objects allocate n (suc i) (put_at objects i (some x), w)))
        (ap (λ (r : Outcome (Option A) × W). r.1) is)
        (rest (put_at objects i (some x)) (length-put_at objects i (some x) ∙ size)
          (next-HasGiven world next i objects x (omega arith) is given))

  fill_objects-Filling :
      (n i total capacity : ℕ) (world : W) (objects : List (Option A))
      → i + n ≡ total
      → total ≤ capacity
      → length objects ≡ capacity
      → HasGiven world i objects
      → Filling world capacity total (fill_objects allocate n i (objects, after i world))
  unfolding fill_objects
  fill_objects-Filling zero i total capacity world objects e h size given = inl (
    objects,
    (after i world, refl, subst (λ k. HasGiven world k objects) (omega arith) given, size),
  )
  fill_objects-Filling (suc n) i total capacity world objects e h size given =
      round-Filling n i total capacity world objects (allocate (after i world)) e h size given refl
        λ objects' size' given'.
          fill_objects-Filling n (suc i) total capacity world objects' (omega arith) h size' given'

  -- The sizes that the constructor takes.
  abbrev pub HasSizes : ℕ → ℕ → Type 0
  HasSizes initial capacity = (0 < capacity) × (initial ≤ capacity)

  -- What the constructor comes to.
  abbrev pub IsConstructed : ℕ → ℕ → W → Constructed W A → Type 0
  IsConstructed initial capacity world c =
      ((pool : ObjectPool A) × (c.result ≡ ok pool)
        × HasSizes initial capacity
        × HasGiven world initial pool.objects
        × (length pool.objects ≡ capacity)
        × (pool.capacity ≡ capacity)
        × (pool.current_object_index ≡ before initial))
      ⊎ ((c.result ≡ throw invalid_argument)
          × (c.world ≡ world)
          × ((capacity ≡ 0) ⊎ (capacity < initial)))
      ⊎ ((e : Exception) × ((j : ℕ) × (c.result ≡ throw e)
            × HasSizes initial capacity
            × (j < initial)
            × IsFailure e (allocate (after j world)).0
            × HasGiven world j c.objects
            × (c.freed ≡ [])))

  -- The constructor for a capacity of 0 or below the initial number throws InvalidArgument and allocates
  -- nothing. Else, where each of the first calls of the allocator gives an object, it gives a pool with
  -- these objects in their order, the null pointers behind them, and the index of the last. Where one of
  -- these calls throws or gives a null pointer, it throws, and the objects of the calls before it stay in
  -- the vector and none of them is freed: they are lost.
  pub construct-IsConstructed :
      (initial capacity : ℕ) (world : W)
      → IsConstructed initial capacity world (construct allocate initial capacity world)
  unfolding construct clean_up
  construct-IsConstructed initial capacity world =
      elim (Bool-cases (capacity == 0 || ltb capacity initial)) [
        | inl wrong ↦ rw wrong (
            inr (
              inl (
                refl,
                refl,
                elim (Bool-cases (capacity == 0)) [
                  | inl empty ↦ inl ((==_iff capacity 0).0 empty)
                  | inr other ↦ inr (ground arith)
                ],
              )))
        | inr fine ↦
            elim (fill_objects-Filling initial 0 initial capacity world (replicate capacity none)
              (omega arith) (ground arith) (length-replicate capacity none)
              (record { filled = no_objects A capacity; given = λ i less. absurd (omega arith) })) [
                | inl (objects, (world', done, given, size)) ↦
                    rw (fine, done)
                      (inl (
                        record {
                          objects = objects;
                          capacity = capacity;
                          current_object_index = before initial;
                        },
                        refl,
                        (ground arith, ground arith),
                        given,
                        size,
                        refl,
                        refl,
                      ))
                | inr (e, (j, (objects, (world', failed, small, failure, given)))) ↦
                    rw (fine, failed)
                      (inr (
                        inr (
                          e,
                          (j, refl, (ground arith, ground arith), small, failure, given, refl),
                        )))
              ]
      ]
