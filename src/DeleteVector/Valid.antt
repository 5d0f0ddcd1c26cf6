-- ===== src/DeleteVector/Valid.antt =====
-- delete_vector.cc: the invariant of a delete vector, and the bitmap of the documents that are left.
use jonoondb.Prelude.{
  ℕ, ◌+◌, ◌≤◌, ◌<◌, ◌≡◌, refl, ◌∙◌, List, [], ◌∷◌, Bool, false, not, ◌||◌, ◌&&◌, arith, ltb, ◌==◌,
  Bool-cases, inl, inr,
}
use jonoondb.Prelude.Outcome.{Outcome, ok, throw, ◌>>=◌}
use jonoondb.Bitmap.{Ewah, Bitmap, add, add_all}
use jonoondb.Bitmap.Combine.{nothing_in_empty}
use jonoondb.Bitmap.Growth.{member, IsIncreasing, end_of, add_cases, add_all-increasing}
use jonoondb.DeleteVector.{
  DeleteVector, add_each, on_documents_inserted, maybe_reconstruct_bitmap, get_delete_vector_bitmap,
}

-- Whether a document is there: it was inserted, and it is not deleted.
abbrev pub is_live : ℕ → List ℕ → ℕ → Bool
is_live next deleted id = ltb id next && not (member id deleted)

-- The deleted ids are increasing and below the next id. The serialization bitmap holds them, and takes
-- an id behind the last of them. The bitmap holds the live documents and is not empty if
-- there are documents, unless it is marked as dirty.
pub record IsValid {w : Ewah} {D : Type 0} (v : DeleteVector w D) : Type 0 where
  pub increasing : IsIncreasing 0 v.deleted_doc_ids
  pub inserted : end_of 0 v.deleted_doc_ids ≤ v.next_document_id
  pub tracked : (j : ℕ) → w.test v.serialization_bitmap j ≡ member j v.deleted_doc_ids
  pub tracked_size : w.size_in_bits v.serialization_bitmap ≤ end_of 0 v.deleted_doc_ids
  pub current :
      v.is_dirty ≡ false
      → (j : ℕ) → w.test v.delete_vec_bitmap j ≡ is_live v.next_document_id v.deleted_doc_ids j
  pub sized : v.is_dirty ≡ false → w.size_in_bits v.delete_vec_bitmap ≡ 0 → v.next_document_id ≡ 0

module _ (w : Ewah) where
  open w use {test, size_in_bits, reset, size-reset}

  add_each-add_all :
      (b b' : Bitmap w) (xs : List ℕ) → add_all w b xs ≡ ok b' → add_each w b xs ≡ (b', ok tt)
  unfolding add_each add_all
  add_each-add_all b b' [] h = cc
  add_each-add_all b b' (x ∷ xs) h = go (add w b x) refl h λ c. add_each-add_all c b' xs
    where
      go :
          (r : Outcome (Bitmap w))
          → add w b x ≡ r
          → (r >>= λ c. add_all w c xs) ≡ ok b'
          → ((c : Bitmap w) → add_all w c xs ≡ ok b' → add_each w c xs ≡ (b', ok tt))
          → add_each w b (x ∷ xs) ≡ (b', ok tt)
      go (ok c) e k rest = rw (add_each, e) (rest c k)
      go (throw e) _ k rest = cc

  -- The loop after `Reset`: the bitmap holds the ids and ends behind the last.
  pub refilled :
      (b : Bitmap w) (ids : List ℕ)
      → IsIncreasing 0 ids
      → (b' : Bitmap w) × (add_each w (reset b) ids ≡ (b', ok tt))
        × (size_in_bits b' ≡ end_of 0 ids)
        × ((j : ℕ) → test b' j ≡ member j ids)
  refilled b ids h =
      let (b', adds, size, tests) = add_all-increasing w (reset b) ids (rw (size-reset b) h) in
      (
        b',
        add_each-add_all (reset b) b' ids adds,
        rw (size-reset b) at size,
        λ j. tests j ∙ rw (nothing_in_empty w (reset b) j (size-reset b)),
      )

  -- One `Add` behind the end.
  pub added_one :
      (b : Bitmap w) (id : ℕ)
      → size_in_bits b ≤ id
      → (b' : Bitmap w) × (add_each w b (id ∷ []) ≡ (b', ok tt))
        × (size_in_bits b' ≡ id + 1)
        × ((j : ℕ) → test b' j ≡ (j == id || test b j))
  unfolding add_each
  added_one b id h =
      let (b', adds, size, tests) = (add_cases w b id).0 h in
      (b', rw (add_each, adds), size, λ j. ground (arith, tests j))

  module _ {D : Type 0} where
    -- After `OnDocumentsInserted` with a higher next id the delete vector is valid.
    pub on_documents_inserted-IsValid :
        (v : DeleteVector w D) (next : ℕ)
        → v.next_document_id < next
        → IsValid v
        → IsValid (on_documents_inserted w v next)
    unfolding on_documents_inserted
    on_documents_inserted-IsValid v next h p = record {
      increasing = p.increasing;
      inserted = omega (arith, p.inserted);
      tracked = p.tracked;
      tracked_size = p.tracked_size;
      current = λ dirty. cc;
      sized = λ dirty. cc;
    }

    -- On a valid delete vector `GetDeleteVectorBitmap` returns a bitmap that holds exactly the
    -- documents that are inserted and not deleted. It changes nothing else but that the bitmap is kept
    -- and is no longer marked as dirty, and the delete vector is valid after it.
    pub get_delete_vector_bitmap-is_live :
        (v : DeleteVector w D)
        → IsValid v
        → (b : Bitmap w) × (get_delete_vector_bitmap w v
            ≡ (record v { delete_vec_bitmap = b; is_dirty = false }, ok b))
          × ((j : ℕ) → test b j ≡ is_live v.next_document_id v.deleted_doc_ids j)
          × IsValid (record v { delete_vec_bitmap = b; is_dirty = false })
    unfolding get_delete_vector_bitmap maybe_reconstruct_bitmap
    get_delete_vector_bitmap-is_live v p = elim (Bool-cases v.is_dirty) [
      | inr clean ↦ (
        v.delete_vec_bitmap,
        rw clean,
        p.current clean,
        record {
          increasing = p.increasing;
          inserted = p.inserted;
          tracked = p.tracked;
          tracked_size = p.tracked_size;
          current = λ _. p.current clean;
          sized = λ _. p.sized clean;
        },
      )
      | inl dirty ↦
          let (b1, fills, size1, test1) =
            refilled v.delete_vec_bitmap v.deleted_doc_ids p.increasing in
          let (b2, adds, size2, test2) =
            added_one b1 v.next_document_id (omega (arith, size1, p.inserted)) in
          (
            w.inplace_logical_not b2,
            rw (dirty, fills, adds),
            live b1 b2 size2 test1 test2,
            record {
              increasing = p.increasing;
              inserted = p.inserted;
              tracked = p.tracked;
              tracked_size = p.tracked_size;
              current = λ clean. live b1 b2 size2 test1 test2;
              sized = λ clean none_left. absurd (omega (arith, w.size-not b2, size2));
            },
          )
    ]
      where
        live :
            (b1 b2 : Bitmap w)
            → size_in_bits b2 ≡ v.next_document_id + 1
            → ((j : ℕ) → test b1 j ≡ member j v.deleted_doc_ids)
            → ((j : ℕ) → test b2 j ≡ (j == v.next_document_id || test b1 j))
            → (j : ℕ)
            → test (w.inplace_logical_not b2) j ≡ is_live v.next_document_id v.deleted_doc_ids j
        live b1 b2 size test1 test2 j = ground (arith, w.test-not b2 j, test1 j, test2 j)
