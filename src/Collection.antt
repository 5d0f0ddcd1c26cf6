-- ===== src/Collection.antt =====
-- src/jonoondb_api/document_collection.cc: `Filter` of `DocumentCollection`, over its index manager
-- and its delete vector. The rest of a collection is not part of the model; of `m_documentIDMap` it
-- needs only the size.
pub mod Live
use jonoondb.Prelude.{ℕ, zero, suc, ◌+◌, List, [], ◌∷◌, Bool, if◌then◌else◌}
use jonoondb.Prelude.Outcome.{Outcome, ok, throw}
use jonoondb.Bitmap.{Ewah, Bitmap, add_all, is_empty}
use jonoondb.Index.Constraint.{Floats, Constraint}
use jonoondb.Index.Manager.{ColumnIndexerMap, filter_all}
use jonoondb.DeleteVector.{DeleteVector, get_delete_vector_bitmap}

pub record DocumentCollection (w : Ewah) (f : Floats) (D : Type 0) : Type 0 where
  pub index_manager : ColumnIndexerMap w f
  -- `m_documentIDMap.size()`
  pub document_count : ℕ
  pub delete_vector : DeleteVector w D

-- The ids that a loop from `i` over `n` of them goes through.
unfoldable pub ids_from : ℕ → ℕ → List ℕ
ids_from i zero = []
ids_from i (suc n) = i ∷ ids_from (i + 1) n

module _ (w : Ewah) where
  -- The second part: an empty delete vector bitmap leaves the result as it is.
  unfoldable pub without_deleted : Bitmap w → Bitmap w → Bitmap w
  without_deleted bitmap live = if is_empty w live then bitmap else w.logical_and bitmap live

module _ (w : Ewah) (f : Floats) {D : Type 0} where
  -- The first part of `Filter`: the bitmap of the constraints, and all ids if there are none.
  unfoldable pub matching : DocumentCollection w f D → List (Constraint f) → Outcome (Bitmap w)
  unfolding ids_from
  matching c [] = add_all w w.blank (ids_from 0 c.document_count)
  matching c (k ∷ ks) = filter_all w f c.index_manager (k ∷ ks)

  abbrev pub finished :
      DocumentCollection w f D
      → Bitmap w
      → DeleteVector w D × Outcome (Bitmap w)
      → DocumentCollection w f D × Outcome (Bitmap w)
  finished c bitmap (v, ok live) =
      (record c { delete_vector = v }, ok (without_deleted w bitmap live))
  finished c bitmap (v, throw e) = (record c { delete_vector = v }, throw e)

  abbrev pub with_deletes :
      DocumentCollection w f D → Outcome (Bitmap w) → DocumentCollection w f D × Outcome (Bitmap w)
  with_deletes c (throw e) = (c, throw e)
  with_deletes c (ok bitmap) = finished c bitmap (get_delete_vector_bitmap w c.delete_vector)

  -- `Filter`
  unfoldable pub filter_documents :
      DocumentCollection w f D → List (Constraint f) → DocumentCollection w f D × Outcome (Bitmap w)
  unfolding matching
  filter_documents c constraints = with_deletes c (matching c constraints)
