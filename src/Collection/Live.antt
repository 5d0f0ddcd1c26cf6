-- ===== src/Collection/Live.antt =====
-- document_collection.cc: `Filter` answers with the live documents that satisfy the constraints.
use jonoondb.Prelude.{
  ℕ, zero, suc, ◌+◌, ◌<◌, ◌≡◌, refl, List, [], ◌∷◌, Bool, true, not, ◌&&◌, ltb, arith,
}
use jonoondb.Prelude.Outcome.{ok}
use jonoondb.Bitmap.{Ewah, Bitmap, is_empty}
use jonoondb.Bitmap.Combine.{nothing_in_blank}
use jonoondb.Bitmap.Growth.{member, IsIncreasing, add_all-increasing}
use jonoondb.Index.Constraint.{Floats, Constraint}
use jonoondb.Index.Manager.Filter.{IsAnswerable, all_hold, filter_all-all_hold}
use jonoondb.DeleteVector.Valid.{IsValid, is_live, get_delete_vector_bitmap-is_live}
use jonoondb.Collection.{DocumentCollection, ids_from, matching, without_deleted, filter_documents}

ids_from-IsIncreasing : (n i : ℕ) → IsIncreasing i (ids_from i n)
unfolding ids_from
ids_from-IsIncreasing zero i = tt
ids_from-IsIncreasing (suc n) i = (omega arith, ids_from-IsIncreasing n (i + 1))

member-ids_from : (n i j : ℕ) → member j (ids_from i n) ≡ (not (ltb j i) && ltb j (i + n))
unfolding ids_from member
member-ids_from zero i j = ground arith
member-ids_from (suc n) i j = ground (arith, member-ids_from n (i + 1) j)

module _ (w : Ewah) (f : Floats) where
  open w use {test, size_in_bits}

  module _ (supports : Constraint f → Bool) (holds : Constraint f → ℕ → Bool) {D : Type 0} where
    -- The bitmap before the deleted documents are taken out.
    matching-all_hold :
        (c : DocumentCollection w f D) (ks : List (Constraint f))
        → IsAnswerable w f supports holds c.index_manager ks
        → ((k : Constraint f) (j : ℕ) → holds k j ≡ true → j < c.document_count)
        → (b : Bitmap w) × (matching w f c ks ≡ ok b)
          × ((j : ℕ) → test b j ≡ (ltb j c.document_count && all_hold w f supports holds ks j))
    unfolding matching all_hold
    matching-all_hold c [] _ _ =
        let (b, done, _, tests) =
          add_all-increasing w w.blank (ids_from 0 c.document_count)
            (rw w.size-blank (ids_from-IsIncreasing c.document_count 0)) in
        (
          b,
          done,
          λ j. ground (arith, tests j, nothing_in_blank w j, member-ids_from c.document_count 0 j),
        )
    matching-all_hold c (k ∷ ks) h known =
        let (b, done, tests) = filter_all-all_hold w f supports holds c.index_manager k ks h in
        (b, done, λ j. ground (arith, tests j, known k j))

    -- For a valid delete vector that has seen all documents, and constraints on columns whose first
    -- indexer is exact, supports them and knows only documents that are there, `Filter` returns, and
    -- the bitmap holds exactly the ids of the live documents that satisfy every constraint. With no
    -- constraints it holds all live documents.
    pub filter_documents-is_live :
        (c : DocumentCollection w f D) (ks : List (Constraint f))
        → IsValid c.delete_vector
        → c.delete_vector.next_document_id ≡ c.document_count
        → IsAnswerable w f supports holds c.index_manager ks
        → ((k : Constraint f) (j : ℕ) → holds k j ≡ true → j < c.document_count)
        → (b : Bitmap w) × ((filter_documents w f c ks).1 ≡ ok b)
          × ((j : ℕ)
              → test b j ≡ (
                  is_live c.document_count c.delete_vector.deleted_doc_ids j
                  && all_hold w f supports holds ks j))
    unfolding filter_documents without_deleted is_empty
    filter_documents-is_live c ks p seen h known =
        let (b, done, tests) = matching-all_hold c ks h known in
        let (live, gets, lives, valid) = get_delete_vector_bitmap-is_live w c.delete_vector p in
        (
          without_deleted w b live,
          rw (done, gets),
          λ j.
              combined b live j (tests j) (rw seen at lives j) (λ e. rw seen at valid.sized refl e),
        )
      where
        combined :
            (b live : Bitmap w) (j : ℕ)
            → test b j ≡ (ltb j c.document_count && all_hold w f supports holds ks j)
            → test live j ≡ is_live c.document_count c.delete_vector.deleted_doc_ids j
            → (size_in_bits live ≡ 0 → c.document_count ≡ 0)
            → test (without_deleted w b live) j ≡ (
                is_live c.document_count c.delete_vector.deleted_doc_ids j
                && all_hold w f supports holds ks j)
        combined b live j t l e = ground (arith, w.test-logical_and b live j)
