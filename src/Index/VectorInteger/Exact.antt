-- ===== src/Index/VectorInteger/Exact.antt =====
-- vector_integer_indexer.h: the indexer as the index manager sees it.
use Prim.Native.String.{String}
use jonoondb.Prelude.{ℕ, List, ◌≡◌, sym, ◌∙◌, ap, Bool, ◌&&◌, get_elem?, Option-cases, inl, inr}
use jonoondb.Bitmap.{Ewah}
use jonoondb.Index.Constraint.{Floats, Constraint, satisfies}
use jonoondb.Index.Manager.{Indexer}
use jonoondb.Index.Manager.Filter.{IsExact}
use jonoondb.Index.VectorInteger.{DataVector, filter, filter_range}
use jonoondb.Index.VectorInteger.Scan.{selected}
use jonoondb.Index.VectorInteger.Filter.{is_exact, filter-satisfies}
use jonoondb.Index.VectorInteger.Range.{filter_range-satisfies}

pub selected-and :
    {A : Type 0} (p q : A → Bool) (values : List A) (j : ℕ)
    → selected (λ v. p v && q v) values j ≡ (selected p values j && selected q values j)
unfolding selected
selected-and p q values j = elim (Option-cases (get_elem? values j)) [
  | inl out ↦ rw out
  | inr (v, there) ↦ rw there
]

module _ (f : Floats) where
  abbrev pub supports : Constraint f → Bool
  supports c = is_exact c.op c.operand_type c.int64_val

  -- The document has a value in the column, and it satisfies the constraint.
  abbrev pub holds : (String → DataVector) → Constraint f → ℕ → Bool
  holds values_of c j = selected (satisfies f c) (values_of c.column_name) j

module _ (w : Ewah) (f : Floats) where
  -- `VectorIntegerIndexer` as an `Indexer`.
  abbrev pub vector_indexer : DataVector → Indexer w f
  vector_indexer values = record {
    filter = filter w f values;
    filter_range = filter_range w f values;
  }

  -- The vector index keeps what the index manager expects of an indexer, for every column and its
  -- values, on the constraints that are exact.
  pub vector_indexer-IsExact :
      (values_of : String → DataVector) (column : String)
      → IsExact w f (supports f) (holds f values_of) column (vector_indexer (values_of column))
  vector_indexer-IsExact values_of column = record {
    answers = λ c e good. rw (sym e) (filter-satisfies w f c (values_of c.column_name) good);
    answers_range = λ c d e e' l u good good'.
        let (b, done, tests) = filter_range-satisfies w f c d (values_of column) l u good good' in
        (
          b,
          done,
          λ j.
              tests j
              ∙ selected-and (satisfies f c) (satisfies f d) (values_of column) j
              ∙ rw (at_column c e j, at_column d e' j),
        );
  }
    where
      at_column :
          (c : Constraint f)
          → c.column_name ≡ column
          → (j : ℕ) → holds f values_of c j ≡ selected (satisfies f c) (values_of column) j
      at_column c e j = ap (λ name. selected (satisfies f c) (values_of name) j) e
