-- ===== src/DeleteVector/Deletion.antt =====
-- delete_vector.cc: `OnDocumentDeleted`, with the store that succeeds and the store that fails.
use jonoondb.Prelude.{
  ℕ, ◌≤◌, ◌<◌, ◌≡◌, refl, ◌∙◌, false, ◌||◌, arith, ◌==◌, Bool-cases, inl, inr, ◌⊎◌,
}
use jonoondb.Prelude.Outcome.{Outcome, Exception, ok, throw}
use jonoondb.Bitmap.{Ewah, Bitmap}
use jonoondb.Bitmap.Growth.{member, end_of}
use jonoondb.DeleteVector.{
  DeleteVector, insert_id, is_last, track, stored, roll_back, on_document_deleted,
}
use jonoondb.DeleteVector.Ids.{
  member-insert_id, erase_id-insert_id, insert_id-IsIncreasing, end_of-insert_id, is_last-insert_id,
}
use jonoondb.DeleteVector.Valid.{IsValid, refilled, added_one}

module _ (w : Ewah) {D : Type 0} (update : D → Bitmap w → Outcome D) where
  open w use {test, size_in_bits}

  -- Whether the id is behind all others or the bitmap is filled again, it holds the ids.
  tracks :
      (v : DeleteVector w D) (id : ℕ)
      → IsValid v
      → member id v.deleted_doc_ids ≡ false
      → (b : Bitmap w) × (track w v.serialization_bitmap id (insert_id id v.deleted_doc_ids)
          ≡ (b, ok tt))
        × (size_in_bits b ≤ end_of 0 (insert_id id v.deleted_doc_ids))
        × ((j : ℕ) → test b j ≡ member j (insert_id id v.deleted_doc_ids))
  unfolding track
  tracks v id p fresh = elim (Bool-cases (is_last id (insert_id id v.deleted_doc_ids))) [
    | inl behind ↦
        let (before, end) =
          is_last-insert_id 0 id v.deleted_doc_ids (omega arith) fresh p.increasing behind in
        let (b, adds, size, tests) =
          added_one w v.serialization_bitmap id (omega (arith, p.tracked_size, before)) in
        (
          b,
          rw behind adds,
          omega (arith, size, end),
          λ j. tests j ∙ rw (p.tracked j, member-insert_id j id v.deleted_doc_ids),
        )
    | inr between ↦
        let (b, fills, size, tests) =
          refilled w v.serialization_bitmap (insert_id id v.deleted_doc_ids)
            (insert_id-IsIncreasing 0 id v.deleted_doc_ids (omega arith) p.increasing) in
        (b, rw between fills, omega (arith, size), tests)
  ]

  -- What `OnDocumentDeleted` comes to with the store's answer for a bitmap. If the store takes it,
  -- then the call returns, the deleted ids are the old ones and the new one, and the database is what
  -- the store made. If it throws, then the call throws the same, and the deleted ids and the database
  -- are as before.
  abbrev pub IsSettled :
      DeleteVector w D → ℕ → Bitmap w → DeleteVector w D × Outcome (Unit {0}) → Type 0
  IsSettled v id b (v', result) =
      ((d : D) × (update v.database b ≡ ok d)
        × (result ≡ ok tt)
        × (v'.database ≡ d)
        × ((j : ℕ) → member j v'.deleted_doc_ids ≡ (j == id || member j v.deleted_doc_ids)))
      ⊎ ((e : Exception) × (update v.database b ≡ throw e)
          × (result ≡ throw e)
          × (v'.database ≡ v.database)
          × (v'.deleted_doc_ids ≡ v.deleted_doc_ids))

  module _ (v : DeleteVector w D) (id : ℕ) (p : IsValid v) where
    module _ (fresh : member id v.deleted_doc_ids ≡ false) (b : Bitmap w) where
      rolled_back :
          (e : Exception)
          → update v.database b ≡ throw e
          → IsValid
              (roll_back w
                (record v {
                  deleted_doc_ids = insert_id id v.deleted_doc_ids;
                  serialization_bitmap = b;
                })
                id
                (throw e)).0
            × IsSettled v id b (
                roll_back w
                  (record v {
                    deleted_doc_ids = insert_id id v.deleted_doc_ids;
                    serialization_bitmap = b;
                  })
                  id
                  (throw e))
      unfolding roll_back
      rolled_back e h =
          let (ser, fills, size, tests) = refilled w b v.deleted_doc_ids p.increasing in
          rw (erase_id-insert_id id v.deleted_doc_ids fresh, fills)
            (
              record {
                increasing = p.increasing;
                inserted = p.inserted;
                tracked = tests;
                tracked_size = omega (arith, size);
                current = p.current;
                sized = p.sized;
              },
              inr (e, h, refl, refl, refl),
            )

      stored_cases :
          id < v.next_document_id
          → size_in_bits b ≤ end_of 0 (insert_id id v.deleted_doc_ids)
          → ((j : ℕ) → test b j ≡ member j (insert_id id v.deleted_doc_ids))
          → (r : Outcome D) → update v.database b ≡ r
          → IsValid
              (stored w update
                (record v {
                  deleted_doc_ids = insert_id id v.deleted_doc_ids;
                  serialization_bitmap = b;
                })
                id
                r).0
            × IsSettled v id b (
                stored w update
                  (record v {
                    deleted_doc_ids = insert_id id v.deleted_doc_ids;
                    serialization_bitmap = b;
                  })
                  id
                  r)
      stored_cases below size tests (throw e) h = rolled_back e h
      stored_cases below size tests (ok d) h = (
        record {
          increasing = insert_id-IsIncreasing 0 id v.deleted_doc_ids (omega arith) p.increasing;
          inserted = end_of-insert_id 0 id v.next_document_id v.deleted_doc_ids below p.inserted;
          tracked = tests;
          tracked_size = size;
          current = λ dirty. cc;
          sized = λ dirty. cc;
        },
        inl (d, h, refl, refl, λ j. member-insert_id j id v.deleted_doc_ids),
      )

    -- For a document that is live, `OnDocumentDeleted` on a valid delete vector gives the store a
    -- bitmap of exactly the deleted ids and the new one. If the store takes it, then the call returns,
    -- the deleted ids are the old ones and the new one, and the database is what the store made. If
    -- the store throws, then the call throws the same, and the deleted ids and the database are as
    -- before. In both cases the delete vector is valid after it.
    pub on_document_deleted_cases :
        id < v.next_document_id
        → member id v.deleted_doc_ids ≡ false
        → (b : Bitmap w) × ((j : ℕ) → test b j ≡ (j == id || member j v.deleted_doc_ids))
          × IsValid (on_document_deleted w update v id).0
          × IsSettled v id b (on_document_deleted w update v id)
    unfolding on_document_deleted
    on_document_deleted_cases below fresh =
        let (b, tracked, size, tests) = tracks v id p fresh in
        let (valid, settled) = stored_cases fresh b below size tests (update v.database b) refl in
        rw tracked (b, λ j. tests j ∙ member-insert_id j id v.deleted_doc_ids, valid, settled)
