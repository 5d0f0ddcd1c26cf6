-- ===== src/Index/VectorInteger.antt =====
-- include/jonoondb_api/vector_integer_indexer.h: `VectorIntegerIndexer`, which keeps the value of
-- each document in a vector by document id and scans it. The constructor's checks of the names and
-- types, the field name tokens and the documents themselves are not part of the model: `insert` takes
-- the value that `DocumentUtils::GetIntegerValue` reads, which is in the range of `T` and belongs to
-- the next document id, as the asserts of `Insert` say.
pub mod Scan
pub mod Filter
pub mod Range
pub mod Exact
use jonoondb.Prelude.{
  ℕ, zero, suc, ◌+◌, ◌≡◌, List, [], ◌∷◌, ◌++◌, Option, none, some, Bool, true, false, ◌&&◌, ltb,
  if◌then◌else◌, get_elem?, length,
}
use jonoondb.Prelude.Int.{ℤ, ltb_ℤ}
use jonoondb.Prelude.Outcome.{Outcome, ok, throw, jonoondb_error, ◌>>=◌}
use jonoondb.Bitmap.{Ewah, Bitmap, add}
use jonoondb.Index.Constraint.{
  Floats, Constraint, IndexConstraintOperator, equal, less_than, less_than_equal, greater_than,
  greater_than_equal, match, like, glob, regex, OperandType, integer, double, string, blob, eq_ℤ,
  add_one, sub_one,
}

-- `m_dataVector`
abbrev pub DataVector : Type 0
DataVector = List ℤ

-- `Insert`, for the document id that is the size of the vector.
unfoldable pub insert : DataVector → ℤ → DataVector
insert values v = values ++ (v ∷ [])

-- `TryGetIntegerValue`
unfoldable pub try_get_integer_value : DataVector → ℕ → Option ℤ
try_get_integer_value values id = if ltb id (length values) then get_elem? values id else none

-- `TryGetIntegerVector`: the values, or `none` for the result false at the first id out of range.
unfoldable pub try_get_integer_vector : DataVector → List ℕ → Option (List ℤ)
try_get_integer_vector values [] = some []
try_get_integer_vector values (id ∷ ids) =
    let rest = try_get_integer_vector values ids in
    elim (get_elem? values id) [
      | none ↦ none
      | some v ↦ elim rest [ none ↦ none | some vs ↦ some (v ∷ vs) ]
    ]

abbrev pub is_less_than_equal : IndexConstraintOperator → Bool
is_less_than_equal less_than_equal = true
is_less_than_equal _ = false

abbrev pub is_greater_than_equal : IndexConstraintOperator → Bool
is_greater_than_equal greater_than_equal = true
is_greater_than_equal _ = false

module _ (w : Ewah) (f : Floats) where
  -- The loops of the four methods, for whatever type of values: add the id of every value that passes
  -- the test.
  unfoldable pub scan : {A : Type 0} → (A → Bool) → ℕ → List A → Bitmap w → Outcome (Bitmap w)
  scan p i [] bitmap = ok bitmap
  scan p i (v ∷ values) bitmap =
      (if p v then add w bitmap i else ok bitmap) >>= λ b. scan p (i + 1) values b

  -- `GetBitmapEQ`, for each type of the operand.
  unfoldable pub get_bitmap_eq_as : OperandType → DataVector → Constraint f → Outcome (Bitmap w)
  unfolding scan
  get_bitmap_eq_as integer values c = scan (λ v. eq_ℤ v c.int64_val) 0 values w.blank
  get_bitmap_eq_as double values c =
      let int_val = f.to_int64 c.double_val in
      if f.equals c.double_val int_val
      then scan (λ v. eq_ℤ v int_val) 0 values w.blank
      else ok w.blank
  get_bitmap_eq_as string values c = ok w.blank
  get_bitmap_eq_as blob values c = ok w.blank

  unfoldable pub get_bitmap_eq : DataVector → Constraint f → Outcome (Bitmap w)
  unfolding get_bitmap_eq_as
  get_bitmap_eq values c = get_bitmap_eq_as c.operand_type values c

  -- `valToCmp` of `GetBitmapLT`, and of `FilterRange` for its upper bound.
  unfoldable pub upper_bound : Constraint f → Bool → ℤ
  unfolding add_one
  upper_bound c or_equal = elim c.operand_type [
    | double ↦ f.ceil c.double_val
    | _ ↦ if or_equal then add_one c.int64_val else c.int64_val
  ]

  -- `valToCmp` of `GetBitmapGT`, and of `FilterRange` for its lower bound.
  unfoldable pub lower_bound : Constraint f → Bool → ℤ
  unfolding sub_one
  lower_bound c or_equal = elim c.operand_type [
    | double ↦ f.floor c.double_val
    | _ ↦ if or_equal then sub_one c.int64_val else c.int64_val
  ]

  unfoldable pub get_bitmap_lt : DataVector → Constraint f → Bool → Outcome (Bitmap w)
  unfolding scan upper_bound
  get_bitmap_lt values c or_equal = scan (λ v. ltb_ℤ v (upper_bound c or_equal)) 0 values w.blank

  unfoldable pub get_bitmap_gt : DataVector → Constraint f → Bool → Outcome (Bitmap w)
  unfolding scan lower_bound
  get_bitmap_gt values c or_equal = scan (λ v. ltb_ℤ (lower_bound c or_equal) v) 0 values w.blank

  -- `Filter`
  unfoldable pub filter_by :
      IndexConstraintOperator → DataVector → Constraint f → Outcome (Bitmap w)
  unfolding get_bitmap_eq get_bitmap_lt get_bitmap_gt
  filter_by equal values c = get_bitmap_eq values c
  filter_by less_than values c = get_bitmap_lt values c false
  filter_by less_than_equal values c = get_bitmap_lt values c true
  filter_by greater_than values c = get_bitmap_gt values c false
  filter_by greater_than_equal values c = get_bitmap_gt values c true
  filter_by _ values c = throw jonoondb_error

  unfoldable pub filter : DataVector → Constraint f → Outcome (Bitmap w)
  unfolding filter_by
  filter values c = filter_by c.op values c

  -- `FilterRange`
  unfoldable pub filter_range : DataVector → Constraint f → Constraint f → Outcome (Bitmap w)
  unfolding scan lower_bound upper_bound
  filter_range values lower upper =
      let lower_val = lower_bound lower (is_greater_than_equal lower.op) in
      let upper_val = upper_bound upper (is_less_than_equal upper.op) in
      scan (λ v. ltb_ℤ lower_val v && ltb_ℤ v upper_val) 0 values w.blank
