-- ===== src/DeleteVector/Reopen.antt =====
-- delete_vector.cc: `LoadBitmap` when the database is opened again.
use jonoondb.Prelude.{
  ℕ, zero, suc, ◌+◌, ◌≤◌, ◌<◌, ◌≡◌, refl, sym, ap, ◌∙◌, List, [], ◌∷◌, ◌++◌, some, Bool, true,
  false, arith, ◌==◌, Bool-cases, inl, inr,
}
use jonoondb.Bitmap.{Ewah, Bitmap, ones_from}
use jonoondb.Bitmap.Combine.{nothing_in_blank}
use jonoondb.Bitmap.Growth.{member, IsIncreasing, end_of}
use jonoondb.DeleteVector.{DeleteVector, insert_id, insert_ids, load_bitmap}
use jonoondb.DeleteVector.Ids.{le-end_of}
use jonoondb.DeleteVector.Valid.{IsValid}

member-below : (j n : ℕ) (ids : List ℕ) → IsIncreasing n ids → j < n → member j ids ≡ false
unfolding member
member-below j n [] h p = refl
member-below j n (x ∷ xs) h p = ground (arith, h.0, member-below j (x + 1) xs h.1)

-- The places where a test holds are the elements of an increasing list, if the test is for them and
-- they are in the range.
ones_from-member :
    (n i : ℕ) (p : ℕ → Bool) (ids : List ℕ)
    → IsIncreasing i ids
    → ((j : ℕ) → i ≤ j → p j ≡ member j ids)
    → ((j : ℕ) → member j ids ≡ true → j < i + n)
    → ones_from i n p ≡ ids
unfolding ones_from member
ones_from-member zero i p [] h same inside = refl
ones_from-member zero i p (x ∷ xs) h same inside =
    absurd (omega (arith, h.0, inside x (ground arith)))
ones_from-member (suc n) i p [] h same inside =
    rw (same i (omega arith))
      (ones_from-member n (i + 1) p [] tt (λ j q. same j (omega arith)) (λ j q. absurd (cc)))
ones_from-member (suc n) i p (x ∷ xs) h same inside = elim (Bool-cases (i == x)) [
  | inl here ↦
      let at_x : i ≡ x = ground arith in
      let rest =
        ones_from-member n (i + 1) p xs (rw (sym at_x) at h.1)
          (λ j q. ground (arith, same j (omega arith)))
          (λ j q. omega (arith, inside j (ground arith))) in
      rw (same i (omega arith)) (ground (arith, rest))
  | inr later ↦
      let rest =
        ones_from-member n (i + 1) p (x ∷ xs) (ground (arith, h.0), h.1)
          (λ j q. same j (omega arith)) (λ j q. omega (arith, inside j q)) in
      ground (arith, rest, same i (omega arith), h.0, member-below i (x + 1) xs h.1)
]

insert_id-behind :
    (n x : ℕ) (ids : List ℕ)
    → IsIncreasing n ids
    → end_of n ids ≤ x
    → insert_id x ids ≡ ids ++ (x ∷ [])
unfolding insert_id end_of
insert_id-behind n x [] h p = refl
insert_id-behind n x (y ∷ ys) h p =
    ground (arith, le-end_of (y + 1) ys h.1, insert_id-behind (y + 1) x ys h.1 p)

IsIncreasing-append :
    (n x : ℕ) (ids : List ℕ)
    → IsIncreasing n ids
    → end_of n ids ≤ x
    → IsIncreasing n (ids ++ (x ∷ [])) × (end_of n (ids ++ (x ∷ [])) ≡ x + 1)
unfolding end_of
IsIncreasing-append n x [] h p = ((p, tt), refl)
IsIncreasing-append n x (y ∷ ys) h p =
    let (tail, end) = IsIncreasing-append (y + 1) x ys h.1 p in ((h.0, tail), end)

append-nil : (ids : List ℕ) → ids ++ [] ≡ ids
append-nil [] = refl
append-nil (x ∷ ids) = ap (◌∷◌ x) (append-nil ids)

append-cons : (ids xs : List ℕ) (x : ℕ) → (ids ++ (x ∷ [])) ++ xs ≡ ids ++ (x ∷ xs)
append-cons [] xs x = refl
append-cons (y ∷ ys) xs x = ap (◌∷◌ y) (append-cons ys xs x)

-- Putting increasing ids into a set of smaller ones appends them.
insert_ids-IsIncreasing :
    (n : ℕ) (ids xs : List ℕ)
    → IsIncreasing n ids
    → IsIncreasing (end_of n ids) xs
    → insert_ids ids xs ≡ ids ++ xs
unfolding insert_ids
insert_ids-IsIncreasing n ids [] h k = sym (append-nil ids)
insert_ids-IsIncreasing n ids (x ∷ xs) h k =
    let (longer, end) = IsIncreasing-append n x ids h k.0 in
    rw (insert_id-behind n x ids h k.0)
      (insert_ids-IsIncreasing n (ids ++ (x ∷ [])) xs longer (rw end k.1) ∙ append-cons ids xs x)

module _ (w : Ewah) {D : Type 0} where
  open w use {test, size_in_bits}

  loaded_ids :
      (v : DeleteVector w D) (b : Bitmap w)
      → IsValid v
      → ((j : ℕ) → test b j ≡ test v.serialization_bitmap j)
      → insert_ids [] (w.positions b) ≡ v.deleted_doc_ids
  unfolding end_of
  loaded_ids v b p same =
      let places : w.positions b ≡ v.deleted_doc_ids =
        w.positions_lem b
        ∙ ones_from-member (size_in_bits b) 0 (test b) v.deleted_doc_ids p.increasing
            (λ j _. same j ∙ p.tracked j)
            (λ j q. omega (arith, w.test-lt-size b j (same j ∙ p.tracked j ∙ q))) in
      rw places (insert_ids-IsIncreasing 0 [] v.deleted_doc_ids tt p.increasing)

  -- A delete vector that is opened again with a bitmap of the bits and the size that a valid one
  -- stored, and with a next id that is not lower, knows the same deleted ids, and is valid.
  pub load_bitmap-reopen :
      (v : DeleteVector w D) (d : D) (next : ℕ) (b : Bitmap w)
      → IsValid v
      → v.next_document_id ≤ next
      → size_in_bits b ≡ size_in_bits v.serialization_bitmap
      → ((j : ℕ) → test b j ≡ test v.serialization_bitmap j)
      → ((load_bitmap w d next (some b)).deleted_doc_ids ≡ v.deleted_doc_ids)
        × IsValid (load_bitmap w d next (some b))
  unfolding load_bitmap
  load_bitmap-reopen v d next b p later size same =
      let ids = loaded_ids v b p same in
      (
        ids,
        record {
          increasing = rw ids p.increasing;
          inserted = rw ids (omega (arith, p.inserted));
          tracked = λ j. rw ids (same j ∙ p.tracked j);
          tracked_size = rw ids (omega (arith, size, p.tracked_size));
          current = λ clean j. ground (arith, nothing_in_blank w j);
          sized = λ clean _. ground arith;
        },
      )
