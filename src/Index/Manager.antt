-- ===== src/Index/Manager.antt =====
-- src/jonoondb_api/index_manager.cc: `IndexManager`, the indexers of each column. An indexer is a
-- record of the calls that `Filter` makes of it. `IndexDocuments` is in `Documents`.
-- The map from columns to indexers is an association list, with the first indexer of a column apart:
-- `CreateIndex` makes no column without one.
pub mod Filter
pub mod Scanner
pub mod Documents
use Prim.Native.String.{String, compare}
use text.Mathlib.Text.{is_eq}
use jonoondb.Prelude.{
  ℕ, List, [], ◌∷◌, ◌++◌, Option, none, some, Bool, true, false, ◌&&◌, if◌then◌else◌,
}
use jonoondb.Prelude.Outcome.{Outcome, ok, throw, jonoondb_error, ◌>>=◌}
use jonoondb.Bitmap.{Ewah, Bitmap, logical_and_all}
use jonoondb.Index.Constraint.{Floats, Constraint, is_lower, is_upper}

-- `==` on `std::string`
abbrev pub same_name : String → String → Bool
same_name s t = is_eq (compare s t)

-- `include/jonoondb_api/indexer.h`: the virtual functions that answer a query.
pub record Indexer (w : Ewah) (f : Floats) : Type 0 where
  pub filter : Constraint f → Outcome (Bitmap w)
  pub filter_range : Constraint f → Constraint f → Outcome (Bitmap w)

module _ (w : Ewah) (f : Floats) where
  -- `m_columnIndexerMap`
  abbrev pub ColumnIndexerMap : Type 0
  ColumnIndexerMap = List (String × Indexer w f × List (Indexer w f))

  -- `CreateIndex`, after it has made the indexer.
  unfoldable pub create_index : ColumnIndexerMap → String → Indexer w f → ColumnIndexerMap
  create_index [] column indexer = (column, indexer, []) ∷ []
  create_index ((name, first, others) ∷ columns) column indexer =
      let rest = create_index columns column indexer in
      if same_name name column
      then (name, first, others ++ (indexer ∷ [])) ∷ columns
      else (name, first, others) ∷ rest

  -- `columnIndexerIter->second[0]` where `find` finds the column.
  unfoldable pub find_indexer : ColumnIndexerMap → String → Option (Indexer w f)
  find_indexer [] column = none
  find_indexer ((name, first, others) ∷ columns) column =
      let rest = find_indexer columns column in if same_name name column then some first else rest

  abbrev pub found : Option (Indexer w f) → Outcome (Indexer w f)
  found none = throw jonoondb_error
  found (some indexer) = ok indexer

  -- The adjacent constraints that `Filter` answers with one call of `FilterRange`.
  unfoldable pub is_range : Constraint f → Constraint f → Bool
  is_range lower upper =
      same_name lower.column_name upper.column_name && (is_lower lower.op && is_upper upper.op)

  -- `bitmaps.push_back(bm)`, and the rest of the loop.
  abbrev pub followed_by :
      Outcome (Bitmap w) → Outcome (List (Bitmap w)) → Outcome (List (Bitmap w))
  followed_by bm rest = bm >>= λ b. rest >>= λ bs. ok (b ∷ bs)

  -- The loop of `Filter`: the bitmaps, in the order of the constraints.
  unfoldable pub filter_each : ColumnIndexerMap → List (Constraint f) → Outcome (List (Bitmap w))
  unfolding find_indexer is_range
  filter_each columns [] = ok []
  filter_each columns (c ∷ []) = found (find_indexer columns c.column_name) >>= λ indexer.
      followed_by (indexer.filter c) (ok [])
  filter_each columns (c ∷ d ∷ cs) =
      let after_two = filter_each columns cs in
      let after_one = filter_each columns (d ∷ cs) in
      found (find_indexer columns c.column_name) >>= λ indexer.
      (if is_range c d
        then followed_by (indexer.filter_range c d) after_two
        else followed_by (indexer.filter c) after_one)

  -- `Filter`
  unfoldable pub filter_all : ColumnIndexerMap → List (Constraint f) → Outcome (Bitmap w)
  unfolding filter_each
  filter_all columns cs = filter_each columns cs >>= λ bs. ok (logical_and_all w bs)
