-- ===== src/DeleteVector/Ids.antt =====
-- delete_vector.cc: the set of deleted ids as an increasing list.
use jonoondb.Prelude.{
  ℕ, ◌+◌, ◌≤◌, ◌<◌, ◌≡◌, refl, List, [], ◌∷◌, true, false, ◌||◌, arith, ltb, ◌==◌, Bool-cases, inl,
  inr,
}
use jonoondb.Bitmap.Growth.{member, IsIncreasing, end_of}
use jonoondb.DeleteVector.{insert_id, erase_id, is_last}

pub member-insert_id :
    (j id : ℕ) (ids : List ℕ) → member j (insert_id id ids) ≡ (j == id || member j ids)
unfolding member insert_id
member-insert_id j id [] = refl
member-insert_id j id (x ∷ xs) = ground (arith, member-insert_id j id xs)

pub erase_id-insert_id :
    (id : ℕ) (ids : List ℕ) → member id ids ≡ false → erase_id id (insert_id id ids) ≡ ids
unfolding member insert_id erase_id
erase_id-insert_id id [] h = ground arith
erase_id-insert_id id (x ∷ xs) h = ground (arith, erase_id-insert_id id xs)

pub insert_id-IsIncreasing :
    (n id : ℕ) (ids : List ℕ) → n ≤ id → IsIncreasing n ids → IsIncreasing n (insert_id id ids)
unfolding insert_id
insert_id-IsIncreasing n id [] p h = (p, tt)
insert_id-IsIncreasing n id (x ∷ xs) p h = elim (Bool-cases (ltb id x)) [
  | inl before ↦ rw before (p, (ground arith, h.1))
  | inr behind ↦ elim (Bool-cases (id == x)) [
    | inl same ↦ rw (behind, same) h
    | inr other ↦ rw (behind, other) (h.0, insert_id-IsIncreasing (x + 1) id xs (ground arith) h.1)
  ]
]

pub le-end_of : (n : ℕ) (ids : List ℕ) → IsIncreasing n ids → n ≤ end_of n ids
unfolding end_of
le-end_of n [] h = omega arith
le-end_of n (x ∷ xs) h = omega (arith, h.0, le-end_of (x + 1) xs h.1)

pub end_of-insert_id :
    (n id m : ℕ) (ids : List ℕ) → id < m → end_of n ids ≤ m → end_of n (insert_id id ids) ≤ m
unfolding end_of insert_id
end_of-insert_id n id m [] p h = omega arith
end_of-insert_id n id m (x ∷ xs) p h = ground (arith, end_of-insert_id (x + 1) id m xs p h)

is_last-member : (id : ℕ) (ids : List ℕ) → is_last id ids ≡ true → member id ids ≡ true
unfolding is_last member
is_last-member id [] h = cc
is_last-member id (x ∷ []) h = ground arith
is_last-member id (x ∷ y ∷ ys) h = ground (arith, is_last-member id (y ∷ ys) h)

is_last-cons :
    (x id : ℕ) (ids : List ℕ) → is_last id (x ∷ insert_id id ids) ≡ is_last id (insert_id id ids)
unfolding is_last insert_id
is_last-cons x id [] = refl
is_last-cons x id (y ∷ ys) = ground arith

-- If the inserted id is the last, then it is behind all others.
pub is_last-insert_id :
    (n id : ℕ) (ids : List ℕ)
    → n ≤ id
    → member id ids ≡ false
    → IsIncreasing n ids
    → is_last id (insert_id id ids) ≡ true
    → (end_of n ids ≤ id) × (end_of n (insert_id id ids) ≡ id + 1)
unfolding insert_id end_of member is_last
is_last-insert_id n id [] p f h l = (p, refl)
is_last-insert_id n id (x ∷ xs) p f h l = elim (Bool-cases (ltb id x)) [
  | inl before ↦ absurd (ground (arith, is_last-member id (x ∷ xs)))
  | inr behind ↦ elim (Bool-cases (id == x)) [
    | inl same ↦ absurd (ground arith)
    | inr other ↦
        let tail = rw (behind, other, is_last-cons x id xs) at l in
        rw (behind, other) (is_last-insert_id (x + 1) id xs (ground arith) (ground arith) h.1 tail)
  ]
]
