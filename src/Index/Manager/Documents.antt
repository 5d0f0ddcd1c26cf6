-- ===== src/Index/Manager/Documents.antt =====
-- index_manager.cc: `IndexDocuments`, and `DocumentIDGenerator` of document_id_generator.cc. The virtual
-- function `Insert` of an indexer is a parameter, with the number of values that an indexer has.
pub mod Aligned
use Prim.Native.String.{String}
use jonoondb.Prelude.{ℕ, ◌+◌, ◌%◌, List, [], ◌∷◌, length}
use jonoondb.Varint.{u64_mod}
use jonoondb.Prelude.Outcome.{Outcome, Done, ok, throw}
use jonoondb.Prelude.Exec.{◌▷◌}

pub record DocumentIdGenerator : Type 0 where
  pub current_id : ℕ

abbrev pub doc_id_start : ℕ
doc_id_start = 0

-- The constructor
abbrev pub make_generator : DocumentIdGenerator
make_generator = record { current_id = doc_id_start }

-- `ReserveID`: the first of the ids.
unfoldable pub reserve_id : ℕ → DocumentIdGenerator → ℕ × DocumentIdGenerator
reserve_id n g = (g.current_id, record { current_id = (g.current_id + n) % u64_mod })

-- `Insert` of the indexers, for documents of any kind. The asserts want the id to be the number of values.
pub record Inserting (X D : Type 0) : Type 0 where
  pub insert : ℕ → D → X → Done × X
  pub size : X → ℕ

-- The rest of a loop that inserts, behind the first part. A throw leaves the parts behind as they are.
abbrev pub after_first : {A : Type 0} → Done × A → List A → Done × List A → Done × List A
after_first (ok _, a) others rest = (rest.0, a ∷ rest.1)
after_first (throw e, a) others rest = (throw e, a ∷ others)

-- The first id is returned, unless an insertion throws. The ids stay reserved.
abbrev pub with_start :
    {A : Type 0} → ℕ → DocumentIdGenerator → Done × A → Outcome ℕ × (DocumentIdGenerator × A)
with_start start g (ok _, columns) = (ok start, (g, columns))
with_start start g (throw e, columns) = (throw e, (g, columns))

module _ {X D : Type 0} (i : Inserting X D) where
  -- The indexers of one column get the document.
  unfoldable pub insert_each : ℕ → D → List X → Done × List X
  insert_each id document [] = (ok tt, [])
  insert_each id document (x ∷ xs) =
      after_first (i.insert id document x) xs (insert_each id document xs)

  -- All columns get the document.
  unfoldable pub insert_columns : ℕ → D → List (String × List X) → Done × List (String × List X)
  unfolding insert_each
  insert_columns id document [] = (ok tt, [])
  insert_columns id document ((name, xs) ∷ columns) =
      let (result, xs') = insert_each id document xs in
      after_first (result, (name, xs')) columns (insert_columns id document columns)

  -- The loop over the documents.
  unfoldable pub index_each : ℕ → List D → List (String × List X) → Done × List (String × List X)
  unfolding insert_columns
  index_each id [] columns = (ok tt, columns)
  index_each id (document ∷ documents) columns = insert_columns id document columns ▷ λ _ columns'.
      index_each ((id + 1) % u64_mod) documents columns'

  -- `IndexDocuments`: the first id, with the generator after it and the indexers.
  unfoldable pub index_documents :
      DocumentIdGenerator
      → List D
      → List (String × List X)
      → Outcome ℕ × (DocumentIdGenerator × List (String × List X))
  unfolding reserve_id index_each
  index_documents g documents columns =
      let (start, g') = reserve_id (length documents) g in
      with_start start g' (index_each start documents columns)
