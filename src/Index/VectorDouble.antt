-- ===== src/Index/VectorDouble.antt =====
-- include/jonoondb_api/vector_double_indexer.h: `VectorDoubleIndexer`, which scans the doubles of the
-- documents. The constructor's checks are left out; `insert_double` takes the value that
-- `DocumentUtils::GetFloatValue` reads, for the document id that is the size of the vector.
pub mod Exact
use jonoondb.Prelude.{
  ℕ, ◌≡◌, List, [], ◌∷◌, ◌++◌, Option, none, some, Bool, true, false, ◌&&◌, ◌||◌, ltb,
  if◌then◌else◌, get_elem?, length,
}
use jonoondb.Prelude.Int.{ℤ, pos}
use jonoondb.Prelude.Outcome.{Outcome, ok, throw, jonoondb_error}
use jonoondb.Bitmap.{Ewah, Bitmap}
use jonoondb.Index.Constraint.{
  Floats, Constraint, IndexConstraintOperator, equal, less_than, less_than_equal, greater_than,
  greater_than_equal, match, like, glob, regex, OperandType, integer, double, string, blob,
}
use jonoondb.Index.VectorInteger.{scan}

-- The doubles of the processor: the cast of an int64_t, `<` and `==`. The other operators are those of
-- IEEE 754, where a NaN stands in no relation.
pub record Doubles (f : Floats) : Type 0 where
  pub from_int64 : ℤ → f.Double
  pub lt : f.Double → f.Double → Bool
  pub eq : f.Double → f.Double → Bool

module _ {f : Floats} (d : Doubles f) where
  abbrev pub le : f.Double → f.Double → Bool
  le x y = d.lt x y || d.eq x y

  abbrev pub gt : f.Double → f.Double → Bool
  gt x y = d.lt y x

  abbrev pub ge : f.Double → f.Double → Bool
  ge x y = d.lt y x || d.eq y x

module _ (f : Floats) where
  -- `Insert`
  unfoldable pub insert_double : List f.Double → f.Double → List f.Double
  insert_double values v = values ++ (v ∷ [])

  -- `TryGetDoubleValue`
  unfoldable pub try_get_double_value : List f.Double → ℕ → Option f.Double
  try_get_double_value values id = if ltb id (length values) then get_elem? values id else none

  -- `TryGetDoubleVector`: the values, or `none` for the result false at the first id out of range.
  unfoldable pub try_get_double_vector : List f.Double → List ℕ → Option (List f.Double)
  try_get_double_vector values [] = some []
  try_get_double_vector values (id ∷ ids) =
      let rest = try_get_double_vector values ids in
      elim (get_elem? values id) [
        | none ↦ none
        | some v ↦ elim rest [ none ↦ none | some vs ↦ some (v ∷ vs) ]
      ]

module _ (w : Ewah) {f : Floats} (d : Doubles f) where
  abbrev pub operand_as : OperandType → Constraint f → f.Double
  operand_as integer c = d.from_int64 c.int64_val
  operand_as double c = c.double_val
  operand_as string c = d.from_int64 (pos 0)
  operand_as blob c = d.from_int64 (pos 0)

  -- `GetOperandVal`
  abbrev pub double_operand : Constraint f → f.Double
  double_operand c = operand_as c.operand_type c

  unfoldable pub doubles_eq : List f.Double → Constraint f → Outcome (Bitmap w)
  unfolding scan
  doubles_eq values c = scan w f (λ v. d.eq v (double_operand c)) 0 values w.blank

  unfoldable pub doubles_lt : List f.Double → Constraint f → Outcome (Bitmap w)
  unfolding scan
  doubles_lt values c = scan w f (λ v. d.lt v (double_operand c)) 0 values w.blank

  unfoldable pub doubles_lte : List f.Double → Constraint f → Outcome (Bitmap w)
  unfolding scan
  doubles_lte values c = scan w f (λ v. le d v (double_operand c)) 0 values w.blank

  unfoldable pub doubles_gt : List f.Double → Constraint f → Outcome (Bitmap w)
  unfolding scan
  doubles_gt values c = scan w f (λ v. gt d v (double_operand c)) 0 values w.blank

  unfoldable pub doubles_gte : List f.Double → Constraint f → Outcome (Bitmap w)
  unfolding scan
  doubles_gte values c = scan w f (λ v. ge d v (double_operand c)) 0 values w.blank

  -- `Filter`
  unfoldable pub filter_doubles_by :
      IndexConstraintOperator → List f.Double → Constraint f → Outcome (Bitmap w)
  unfolding doubles_eq doubles_lt doubles_lte doubles_gt doubles_gte
  filter_doubles_by equal values c = doubles_eq values c
  filter_doubles_by less_than values c = doubles_lt values c
  filter_doubles_by less_than_equal values c = doubles_lte values c
  filter_doubles_by greater_than values c = doubles_gt values c
  filter_doubles_by greater_than_equal values c = doubles_gte values c
  filter_doubles_by _ values c = throw jonoondb_error

  unfoldable pub filter_doubles : List f.Double → Constraint f → Outcome (Bitmap w)
  unfolding filter_doubles_by
  filter_doubles values c = filter_doubles_by c.op values c

  -- The loops of `FilterRange`, by the two operators.
  unfoldable pub doubles_between :
      IndexConstraintOperator
      → IndexConstraintOperator
      → List f.Double
      → f.Double
      → f.Double
      → Outcome (Bitmap w)
  unfolding scan
  doubles_between greater_than less_than values l u =
      scan w f (λ v. gt d v l && d.lt v u) 0 values w.blank
  doubles_between greater_than less_than_equal values l u =
      scan w f (λ v. gt d v l && le d v u) 0 values w.blank
  doubles_between greater_than_equal less_than values l u =
      scan w f (λ v. ge d v l && d.lt v u) 0 values w.blank
  doubles_between greater_than_equal less_than_equal values l u =
      scan w f (λ v. ge d v l && le d v u) 0 values w.blank
  doubles_between _ _ values l u = ok w.blank

  -- `FilterRange`
  unfoldable pub filter_range_doubles :
      List f.Double → Constraint f → Constraint f → Outcome (Bitmap w)
  unfolding doubles_between
  filter_range_doubles values lower upper =
      doubles_between lower.op upper.op values (double_operand lower) (double_operand upper)
