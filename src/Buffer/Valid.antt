-- ===== src/Buffer/Valid.antt =====
-- buffer_impl.cc: the invariant of a buffer, and what copying keeps of its contents.
use jonoondb.Prelude.{
  ℕ, zero, suc, ◌≤◌, ◌<◌, ◌≡◌, refl, ap, List, [], ◌∷◌, ◌++◌, some, Bool, false, arith, length,
  take, drop, length-append, length-take, length-drop, ltb, Bool-cases, inl, inr, ◌⊎◌,
}
use jonoondb.Prelude.Outcome.{ok, throw, jonoondb_error}
use jonoondb.Buffer.{
  Buffer, stored, contents, memcpy, empty, copy_of, clone, assign, resize, copy, set_length,
}

-- The length is within the capacity, and the memory is as large as the capacity says.
pub record IsValid (b : Buffer) : Type 0 where
  pub bounded : b.len ≤ b.capacity
  pub sized : length (stored b.bytes) ≡ b.capacity

pub length-memcpy :
    (target source : List ℕ) (n : ℕ)
    → n ≤ length source
    → n ≤ length target
    → length (memcpy target source n) ≡ length target
length-memcpy target source n p q = omega (
  arith,
  length-append (take n source) (drop n target),
  length-take n source,
  length-drop n target,
)

take-take-append :
    (n m : ℕ) (l r : List ℕ) → n ≤ m → m ≤ length l → take n (take m l ++ r) ≡ take n l
take-take-append zero m l r p q = refl
take-take-append (suc n) zero l r p q = absurd (omega arith)
take-take-append (suc n) (suc m) [] r p q = absurd (omega arith)
take-take-append (suc n) (suc m) (x ∷ l) r p q =
    ap (◌∷◌ x) (take-take-append n m l r (omega arith) (omega arith))

take-nil : (n : ℕ) → take {A = ℕ} n [] ≡ []
take-nil zero = refl
take-nil (suc n) = refl

pub contents-memcpy :
    (target source : List ℕ) (n m : ℕ)
    → n ≤ m
    → m ≤ length source
    → take n (memcpy target source m) ≡ take n source
contents-memcpy target source n m p q = take-take-append n m source (drop m target) p q

pub empty-IsValid : IsValid empty
empty-IsValid = omega arith

pub set_length-IsValid :
    (b b' : Buffer) (val : ℕ) → IsValid b → set_length b val ≡ ok b' → IsValid b'
unfolding set_length
set_length-IsValid b b' val v e = ground arith

pub copy-IsValid :
    (b b' : Buffer) (source : List ℕ) (n : ℕ)
    → IsValid b
    → n ≤ length source
    → copy b (some source) n ≡ ok b'
    → IsValid b'
unfolding copy
copy-IsValid b b' source n v p e = ground (arith, length-memcpy (stored b.bytes) source n)

module _ (fresh : ℕ → List ℕ) (fresh_sized : (n : ℕ) → length (fresh n) ≡ n) where
  pub copy_of-IsValid :
      (l : List ℕ) (len cap : ℕ) (b : Buffer)
      → len ≤ length l
      → copy_of fresh (some l) len cap ≡ ok b
      → IsValid b
  unfolding copy_of
  copy_of-IsValid l len cap b p e = ground (arith, length-memcpy (fresh cap) l len, fresh_sized cap)

  pub clone-IsValid : (o : Buffer) → IsValid o → IsValid (clone fresh o)
  unfolding clone
  clone-IsValid o v =
      ground (
        arith,
        length-memcpy (fresh o.capacity) (stored o.bytes) o.capacity,
        fresh_sized o.capacity,
      )

  -- Assigning a valid buffer to a valid one, or one to itself, leaves a valid buffer.
  pub assign-IsValid :
      (same : Bool) (self other : Buffer)
      → IsValid self
      → IsValid other
      → IsValid (assign fresh same self other)
  unfolding assign
  assign-IsValid same self other v w = ground (
    arith,
    length-memcpy (fresh other.capacity) (stored other.bytes) other.capacity,
    length-memcpy (stored self.bytes) (stored other.bytes) other.capacity,
    fresh_sized other.capacity,
  )

  pub resize-IsValid : (b : Buffer) (cap : ℕ) → IsValid b → IsValid (resize fresh b cap)
  unfolding resize
  resize-IsValid b cap v = ground (arith, fresh_sized cap)

  pub contents-clone : (o : Buffer) → IsValid o → contents (clone fresh o) ≡ contents o
  unfolding clone
  contents-clone o v =
      ground (
        arith,
        take-nil o.len,
        contents-memcpy (fresh o.capacity) (stored o.bytes) o.len o.capacity,
      )

  -- After assigning one valid buffer to another, it stores the other's bytes, whether its own memory
  -- was large enough or not.
  pub contents-assign :
      (self other : Buffer)
      → IsValid self
      → IsValid other
      → contents (assign fresh false self other) ≡ contents other
  unfolding assign
  contents-assign self other v w = ground (
    arith,
    take-nil other.len,
    contents-memcpy (fresh other.capacity) (stored other.bytes) other.len other.capacity,
    contents-memcpy (stored self.bytes) (stored other.bytes) other.len other.capacity,
  )

-- `Copy` of one byte or more from memory that holds them: it throws when they are more than the
-- capacity, and else leaves exactly these bytes in the buffer and the capacity as it was.
pub copy_cases :
    (b : Buffer) (source : List ℕ) (n : ℕ)
    → 0 < n
    → n ≤ length source
    → ((b.capacity < n) × (copy b (some source) n ≡ throw jonoondb_error))
      ⊎ ((n ≤ b.capacity)
          × ((b' : Buffer) × (copy b (some source) n ≡ ok b')
              × (contents b' ≡ take n source)
              × (b'.capacity ≡ b.capacity)))
unfolding copy
copy_cases b source n p q = elim (Bool-cases (ltb b.capacity n)) [
  | inl over ↦ inl (ground arith, ground arith)
  | inr fits ↦ inr (
    ground arith,
    (
      record b { bytes = some (memcpy (stored b.bytes) source n); len = n },
      ground arith,
      contents-memcpy (stored b.bytes) source n n (omega arith) q,
      refl,
    ),
  )
]
