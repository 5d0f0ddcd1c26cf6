-- ===== src/DeleteVector.antt =====
-- src/jonoondb_api/delete_vector.cc: `DeleteVector`, the deleted documents of a collection. It keeps
-- their ids, a bitmap of them that it stores in a SQLite table, and the bitmap of the documents that
-- are left, which it makes again when the ids have changed. SQLite is a parameter: the state `D` of
-- the database, and the two statements. `update` stands for `StoreBitmap`, and `select` for the query
-- of `LoadBitmap`, with the serialization of the bitmap on both sides.
pub mod Ids
pub mod Valid
pub mod Deletion
pub mod Reopen
use jonoondb.Prelude.{
  ℕ, ◌+◌, ◌≡◌, List, [], ◌∷◌, Option, none, some, Bool, true, false, ltb, ◌==◌, if◌then◌else◌,
}
use jonoondb.Prelude.Outcome.{Outcome, ok, throw, ◌>>=◌, jonoondb_error}
use jonoondb.Bitmap.{Ewah, Bitmap, add, add_all}

-- `std::set::insert`, on the increasing list of the elements.
unfoldable pub insert_id : ℕ → List ℕ → List ℕ
insert_id id [] = id ∷ []
insert_id id (x ∷ xs) =
    let rest = insert_id id xs in
    if ltb id x then id ∷ x ∷ xs else if id == x then x ∷ xs else x ∷ rest

-- `std::set::erase`
unfoldable pub erase_id : ℕ → List ℕ → List ℕ
erase_id id [] = []
erase_id id (x ∷ xs) = let rest = erase_id id xs in if id == x then xs else x ∷ rest

-- `*m_deletedDocIds.rbegin() == docId`
unfoldable pub is_last : ℕ → List ℕ → Bool
is_last id [] = false
is_last id (x ∷ []) = x == id
is_last id (x ∷ y ∷ ys) = is_last id (y ∷ ys)

pub record DeleteVector (w : Ewah) (D : Type 0) : Type 0 where
  pub deleted_doc_ids : List ℕ
  pub delete_vec_bitmap : Bitmap w
  pub serialization_bitmap : Bitmap w
  pub is_dirty : Bool
  pub next_document_id : ℕ
  pub database : D

module _ (w : Ewah) where
  -- The loops that call `Add`: the bitmap after the loop, also where a call throws.
  unfoldable pub add_each : Bitmap w → List ℕ → Bitmap w × Outcome (Unit {0})
  unfolding add
  add_each b [] = (b, ok tt)
  add_each b (x ∷ xs) = elim (add w b x) [
    | ok b' ↦ add_each b' xs
    | throw e ↦ ((w.set b x).0, throw e)
  ]

  abbrev pub close_with : ℕ → Bitmap w × Outcome (Unit {0}) → Bitmap w × Outcome (Unit {0})
  close_with next (b, ok u) = add_each b (next ∷ [])
  close_with next (b, throw e) = (b, throw e)

  -- The catch block of `OnDocumentDeleted`: it throws again what `StoreBitmap` threw, unless a call
  -- of `Add` throws before.
  abbrev pub rethrow : Outcome (Unit {0}) → Outcome (Unit {0}) → Outcome (Unit {0})
  rethrow (throw e) r = throw e
  rethrow (ok u) r = r

  -- The first part of `OnDocumentDeleted`: the serialization bitmap with the new id.
  unfoldable pub track : Bitmap w → ℕ → List ℕ → Bitmap w × Outcome (Unit {0})
  unfolding add_each is_last
  track ser id ids = if is_last id ids then add_each ser (id ∷ []) else add_each (w.reset ser) ids

  module _ {D : Type 0} where
    -- `OnDocumentsInserted`
    unfoldable pub on_documents_inserted : DeleteVector w D → ℕ → DeleteVector w D
    on_documents_inserted v next = record v { next_document_id = next; is_dirty = true }

    abbrev pub reconstructed :
        DeleteVector w D → Bitmap w × Outcome (Unit {0}) → DeleteVector w D × Outcome (Unit {0})
    reconstructed v (b, ok u) =
        (record v { delete_vec_bitmap = w.inplace_logical_not b; is_dirty = false }, ok u)
    reconstructed v (b, throw e) = (record v { delete_vec_bitmap = b }, throw e)

    -- `MaybeReconstructBitmap`
    unfoldable pub maybe_reconstruct_bitmap :
        DeleteVector w D → DeleteVector w D × Outcome (Unit {0})
    unfolding add_each
    maybe_reconstruct_bitmap v =
        if v.is_dirty
        then reconstructed v (
            close_with v.next_document_id
              (add_each (w.reset v.delete_vec_bitmap) v.deleted_doc_ids))
        else (v, ok tt)

    abbrev pub bitmap_of :
        DeleteVector w D × Outcome (Unit {0}) → DeleteVector w D × Outcome (Bitmap w)
    bitmap_of (v, ok u) = (v, ok v.delete_vec_bitmap)
    bitmap_of (v, throw e) = (v, throw e)

    -- `GetDeleteVectorBitmap`
    unfoldable pub get_delete_vector_bitmap :
        DeleteVector w D → DeleteVector w D × Outcome (Bitmap w)
    unfolding maybe_reconstruct_bitmap
    get_delete_vector_bitmap v = bitmap_of (maybe_reconstruct_bitmap v)

    unfoldable pub roll_back :
        DeleteVector w D → ℕ → Outcome (Unit {0}) → DeleteVector w D × Outcome (Unit {0})
    unfolding erase_id add_each
    roll_back v id r =
        let ids = erase_id id v.deleted_doc_ids in
        let (ser, result) = add_each (w.reset v.serialization_bitmap) ids in
        (record v { deleted_doc_ids = ids; serialization_bitmap = ser }, rethrow result r)

    module _ (update : D → Bitmap w → Outcome D) where
      abbrev pub stored : DeleteVector w D → ℕ → Outcome D → DeleteVector w D × Outcome (Unit {0})
      stored v id (ok d) = (record v { is_dirty = true; database = d }, ok tt)
      stored v id (throw e) = roll_back v id (throw e)

      abbrev pub store_if_tracked :
          DeleteVector w D → ℕ → Outcome (Unit {0}) → DeleteVector w D × Outcome (Unit {0})
      store_if_tracked v id (ok u) = stored v id (update v.database v.serialization_bitmap)
      store_if_tracked v id (throw e) = (v, throw e)

      -- `OnDocumentDeleted`. Its two asserts are hypotheses of the theorems.
      unfoldable pub on_document_deleted :
          DeleteVector w D → ℕ → DeleteVector w D × Outcome (Unit {0})
      unfolding insert_id track roll_back
      on_document_deleted v id =
          let ids = insert_id id v.deleted_doc_ids in
          let (ser, result) = track v.serialization_bitmap id ids in
          store_if_tracked (record v { deleted_doc_ids = ids; serialization_bitmap = ser }) id
            result

-- `LoadBitmap` and the end of the constructor, for the bitmap that the row holds: `none` for a NULL.
-- Setting the ids of the bitmap one by one builds the set.
unfoldable pub insert_ids : List ℕ → List ℕ → List ℕ
unfolding insert_id
insert_ids ids [] = ids
insert_ids ids (x ∷ xs) = insert_ids (insert_id x ids) xs

module _ (w : Ewah) {D : Type 0} where
  unfoldable pub load_bitmap : D → ℕ → Option (Bitmap w) → DeleteVector w D
  unfolding insert_ids
  load_bitmap d next row = elim row [
    | none ↦ record {
      deleted_doc_ids = [];
      delete_vec_bitmap = w.blank;
      serialization_bitmap = w.blank;
      is_dirty = ltb 0 next;
      next_document_id = next;
      database = d;
    }
    | some b ↦ record {
      deleted_doc_ids = insert_ids [] (w.positions b);
      delete_vec_bitmap = w.blank;
      serialization_bitmap = b;
      is_dirty = ltb 0 next;
      next_document_id = next;
      database = d;
    }
  ]
