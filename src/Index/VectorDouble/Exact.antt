-- ===== src/Index/VectorDouble/Exact.antt =====
-- vector_double_indexer.h: `Filter` and `FilterRange` answer constraints as the query means them.
use Prim.Native.String.{String}
use jonoondb.Prelude.{ℕ, ◌≡◌, refl, ◌∙◌, List, Bool, true, false, ◌&&◌, ◌||◌, arith}
use jonoondb.Prelude.Outcome.{ok}
use jonoondb.Bitmap.{Ewah, Bitmap}
use jonoondb.Index.Constraint.{
  Floats, Constraint, IndexConstraintOperator, equal, less_than, less_than_equal, greater_than,
  greater_than_equal, match, like, glob, regex, OperandType, integer, double, string, blob,
  is_lower, is_upper,
}
use jonoondb.Index.Manager.{Indexer}
use jonoondb.Index.Manager.Filter.{IsExact}
use jonoondb.Index.Manager.Scanner.{and_eq, scan_holds, scanner-IsExact}
use jonoondb.Index.VectorInteger.Scan.{selected, scan_lem}
use jonoondb.Index.VectorInteger.Filter.{selected-eq}
use jonoondb.Index.VectorDouble.{
  Doubles, operand_as, double_operand, filter_doubles, filter_doubles_by, doubles_eq, doubles_lt,
  doubles_lte, doubles_gt, doubles_gte, filter_range_doubles, doubles_between,
}

-- The operators that `Filter` has a case for.
abbrev pub is_comparison : IndexConstraintOperator → Bool
is_comparison match = false
is_comparison like = false
is_comparison glob = false
is_comparison regex = false
is_comparison _ = true

abbrev pub is_number : OperandType → Bool
is_number integer = true
is_number double = true
is_number string = false
is_number blob = false

module _ {f : Floats} (d : Doubles f) where
  -- What a comparison with a double means.
  abbrev pub compares : IndexConstraintOperator → f.Double → f.Double → Bool
  compares equal x v = d.eq v x
  compares less_than x v = d.lt v x
  compares less_than_equal x v = d.lt v x || d.eq v x
  compares greater_than x v = d.lt x v
  compares greater_than_equal x v = d.lt x v || d.eq x v
  compares _ x v = false

  -- Numbers compare with numbers; the value of an int64_t is its double.
  abbrev pub double_satisfies_as : OperandType → Constraint f → f.Double → Bool
  double_satisfies_as integer c v = compares c.op (d.from_int64 c.int64_val) v
  double_satisfies_as double c v = compares c.op c.double_val v
  double_satisfies_as string c v = false
  double_satisfies_as blob c v = false

  abbrev pub double_satisfies : Constraint f → f.Double → Bool
  double_satisfies c v = double_satisfies_as c.operand_type c v

  abbrev pub double_supports : Constraint f → Bool
  double_supports c = is_comparison c.op && is_number c.operand_type

module _ (w : Ewah) {f : Floats} (d : Doubles f) where
  open w use {test}

  filter_doubles_by-compares :
      (op : IndexConstraintOperator) (values : List f.Double) (c : Constraint f)
      → is_comparison op ≡ true
      → (b : Bitmap w) × (filter_doubles_by w d op values c ≡ ok b)
        × ((j : ℕ) → test b j ≡ selected (compares d op (double_operand w d c)) values j)
  unfolding filter_doubles_by doubles_eq doubles_lt doubles_lte doubles_gt doubles_gte
  filter_doubles_by-compares equal values c h = scan_lem w f _ values
  filter_doubles_by-compares less_than values c h = scan_lem w f _ values
  filter_doubles_by-compares less_than_equal values c h = scan_lem w f _ values
  filter_doubles_by-compares greater_than values c h = scan_lem w f _ values
  filter_doubles_by-compares greater_than_equal values c h = scan_lem w f _ values
  filter_doubles_by-compares _ values c h = absurd cc

  doubles_between-compares :
      (p q : IndexConstraintOperator) (values : List f.Double) (l u : f.Double)
      → is_lower p ≡ true
      → is_upper q ≡ true
      → (b : Bitmap w) × (doubles_between w d p q values l u ≡ ok b)
        × ((j : ℕ) → test b j ≡ selected (λ v. compares d p l v && compares d q u v) values j)
  unfolding doubles_between is_lower is_upper
  doubles_between-compares greater_than less_than values l u h k = scan_lem w f _ values
  doubles_between-compares greater_than less_than_equal values l u h k = scan_lem w f _ values
  doubles_between-compares greater_than_equal less_than values l u h k = scan_lem w f _ values
  doubles_between-compares greater_than_equal less_than_equal values l u h k = scan_lem w f _ values
  doubles_between-compares _ _ values l u h k = absurd cc

  satisfies_number :
      (t : OperandType) (c : Constraint f) (v : f.Double)
      → is_number t ≡ true
      → compares d c.op (operand_as w d t c) v ≡ double_satisfies_as d t c v
  satisfies_number integer c v h = refl
  satisfies_number double c v h = refl
  satisfies_number string c v h = absurd cc
  satisfies_number blob c v h = absurd cc

  supported :
      (c : Constraint f)
      → double_supports d c ≡ true
      → (is_comparison c.op ≡ true) × (is_number c.operand_type ≡ true)
  supported c good = ground arith

  -- `VectorDoubleIndexer` as an `Indexer`.
  abbrev pub double_indexer : List f.Double → Indexer w f
  double_indexer values = record {
    filter = filter_doubles w d values;
    filter_range = filter_range_doubles w d values;
  }

  -- Filter of the vector index of doubles returns, for each of the five comparisons with a number,
  -- exactly the ids whose values satisfy the constraint, and FilterRange those that satisfy both bounds:
  -- the index keeps what the index manager expects of an indexer, for every column and its values.
  pub double_indexer-IsExact :
      (values_of : String → List f.Double) (column : String)
      → IsExact w f
          (double_supports d)
          (scan_holds w f (double_satisfies d) values_of)
          column
          (double_indexer (values_of column))
  unfolding filter_doubles filter_range_doubles
  double_indexer-IsExact values_of column =
      scanner-IsExact w f (double_satisfies d) (double_supports d)
        (double_indexer (values_of column)) values_of column
        (λ c good.
          let (b, done, tests) =
            filter_doubles_by-compares c.op (values_of column) c (supported c good).0 in
          (b, done, λ j. tests j ∙ selected-eq _ _ (values_of column) j (meaning c good)))
        (λ c c' l u good good'.
          let (b, done, tests) =
            doubles_between-compares c.op c'.op (values_of column) (double_operand w d c)
              (double_operand w d c') l u in
          (
            b,
            done,
            λ j.
                tests j
                ∙ selected-eq _ _ (values_of column) j
                    (λ v. and_eq (meaning c good v) (meaning c' good' v)),
          ))
    where
      meaning :
          (c : Constraint f)
          → double_supports d c ≡ true
          → (v : f.Double) → compares d c.op (double_operand w d c) v ≡ double_satisfies d c v
      meaning c good v = satisfies_number c.operand_type c v (supported c good).1
