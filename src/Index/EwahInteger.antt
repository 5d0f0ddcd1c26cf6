-- ===== src/Index/EwahInteger.antt =====
-- include/jonoondb_api/ewah_compressed_bitmap_indexer_integer.h: `EWAHCompressedBitmapIndexerInteger`,
-- an ordered map from each value to the bitmap of the documents that have it. The checks of
-- `Construct`, the statistics and the documents themselves are not part of the model: `insert_value`
-- takes the value that `DocumentUtils::GetIntegerValue` reads.
pub mod Loops
pub mod Filter
pub mod Insert
pub mod Range
use jonoondb.Prelude.{ℕ, List, [], ◌∷◌, Option, none, some, Bool, true, false, ◌&&◌, if◌then◌else◌}
use jonoondb.Prelude.Int.{ℤ, ltb_ℤ}
use jonoondb.Prelude.Outcome.{Outcome, ok, throw, jonoondb_error, ◌>>=◌}
use jonoondb.Bitmap.{Ewah, Bitmap, add, logical_or_all}
use jonoondb.Index.Constraint.{
  Floats, Constraint, IndexConstraintOperator, equal, less_than, less_than_equal, greater_than,
  greater_than_equal, match, like, glob, regex, OperandType, integer, double, string, blob, eq_ℤ,
}
use jonoondb.Index.VectorInteger.{is_less_than_equal}

abbrev pub is_greater_than : IndexConstraintOperator → Bool
is_greater_than greater_than = true
is_greater_than _ = false

module _ (w : Ewah) where
  -- `m_compressedBitmaps`: the entries of the map, by increasing keys.
  abbrev pub CompressedBitmaps : Type 0
  CompressedBitmaps = List (ℤ × Bitmap w)

  -- `Insert`
  unfoldable pub insert_value : ℤ → ℕ → CompressedBitmaps → Outcome CompressedBitmaps
  insert_value v id [] = add w w.blank id >>= λ b. ok ((v, b) ∷ [])
  insert_value v id ((k, b) ∷ m) =
      let rest = insert_value v id m in
      if ltb_ℤ v k
      then (add w w.blank id >>= λ b'. ok ((v, b') ∷ (k, b) ∷ m))
      else if eq_ℤ v k
      then (add w b id >>= λ b'. ok ((k, b') ∷ m))
      else (rest >>= λ m'. ok ((k, b) ∷ m'))

  -- The bitmaps that `find` gives: one or none.
  unfoldable pub find_bitmap : ℤ → CompressedBitmaps → List (Bitmap w)
  find_bitmap v [] = []
  find_bitmap v ((k, b) ∷ m) = let rest = find_bitmap v m in if eq_ℤ k v then b ∷ [] else rest

  -- The entries from `upper_bound` on, and from `lower_bound` on.
  unfoldable pub from_upper_bound : ℤ → CompressedBitmaps → CompressedBitmaps
  from_upper_bound v [] = []
  from_upper_bound v ((k, b) ∷ m) =
      let rest = from_upper_bound v m in if ltb_ℤ v k then (k, b) ∷ m else rest

  unfoldable pub from_lower_bound : ℤ → CompressedBitmaps → CompressedBitmaps
  from_lower_bound v [] = []
  from_lower_bound v ((k, b) ∷ m) =
      let rest = from_lower_bound v m in if ltb_ℤ k v then rest else (k, b) ∷ m

  -- The loop to the end of the map.
  unfoldable pub push_all : CompressedBitmaps → List (Bitmap w)
  push_all [] = []
  push_all ((k, b) ∷ m) = b ∷ push_all m

  -- The loops of `GetBitmapLT`: the values below, and then perhaps the next one.
  unfoldable pub push_less : (ℤ → Bool) → (ℤ → Bool) → CompressedBitmaps → List (Bitmap w)
  push_less below also [] = []
  push_less below also ((k, b) ∷ m) =
      let rest = push_less below also m in
      if below k then b ∷ rest else if also k then b ∷ [] else []

  -- The loop of `FilterRange`.
  unfoldable pub push_range : (ℤ → Bool) → Bool → (ℤ → Bool) → CompressedBitmaps → List (Bitmap w)
  push_range below or_equal same [] = []
  push_range below or_equal same ((k, b) ∷ m) =
      let rest = push_range below or_equal same m in
      if below k then b ∷ rest else if or_equal then (if same k then b ∷ rest else rest) else []

module _ (w : Ewah) (f : Floats) where
  -- `GetBitmapEQ`, for each type of the operand.
  unfoldable pub equal_bitmaps : OperandType → CompressedBitmaps w → Constraint f → List (Bitmap w)
  unfolding find_bitmap
  equal_bitmaps integer m c = find_bitmap w c.int64_val m
  equal_bitmaps double m c =
      let int_val = f.to_int64 c.double_val in
      if f.equals c.double_val int_val then find_bitmap w int_val m else []
  equal_bitmaps string m c = []
  equal_bitmaps blob m c = []

  -- `GetBitmapLT`
  unfoldable pub less_bitmaps :
      OperandType → CompressedBitmaps w → Constraint f → Bool → List (Bitmap w)
  unfolding push_less
  less_bitmaps integer m c or_equal =
      push_less w (λ k. ltb_ℤ k c.int64_val) (λ k. or_equal && eq_ℤ k c.int64_val) m
  less_bitmaps double m c or_equal =
      push_less w (λ k. ltb_ℤ k (f.ceil c.double_val)) (λ k. or_equal && f.equals c.double_val k) m
  less_bitmaps string m c or_equal = []
  less_bitmaps blob m c or_equal = []

  -- `operandVal` of `GetBitmapGT`, and of `GetBitmapGTE`.
  abbrev pub floor_value : Constraint f → ℤ
  floor_value c = elim c.operand_type [ double ↦ f.floor c.double_val | _ ↦ c.int64_val ]

  abbrev pub ceil_value : Constraint f → ℤ
  ceil_value c = elim c.operand_type [ double ↦ f.ceil c.double_val | _ ↦ c.int64_val ]

  -- `Filter`, with `GetBitmapGT` and `GetBitmapGTE`.
  unfoldable pub filter_op :
      IndexConstraintOperator → CompressedBitmaps w → Constraint f → Outcome (Bitmap w)
  unfolding equal_bitmaps less_bitmaps from_upper_bound from_lower_bound push_all
  filter_op equal m c = ok (logical_or_all w (equal_bitmaps c.operand_type m c))
  filter_op less_than m c = ok (logical_or_all w (less_bitmaps c.operand_type m c false))
  filter_op less_than_equal m c = ok (logical_or_all w (less_bitmaps c.operand_type m c true))
  filter_op greater_than m c =
      ok (logical_or_all w (push_all w (from_upper_bound w (floor_value c) m)))
  filter_op greater_than_equal m c =
      ok (logical_or_all w (push_all w (from_lower_bound w (ceil_value c) m)))
  filter_op _ m c = throw jonoondb_error

  unfoldable pub filter_ewah : CompressedBitmaps w → Constraint f → Outcome (Bitmap w)
  unfolding filter_op
  filter_ewah m c = filter_op c.op m c

  -- The test of `FilterRange` for the value of the upper bound itself.
  abbrev pub same_value : OperandType → Constraint f → ℤ → Bool
  same_value double c k = f.equals c.double_val k
  same_value _ c k = eq_ℤ k c.int64_val

  -- `startIter` of `FilterRange`
  abbrev pub start : CompressedBitmaps w → Constraint f → CompressedBitmaps w
  start m lower =
      if is_greater_than lower.op
      then from_upper_bound w (floor_value lower) m
      else from_lower_bound w (ceil_value lower) m

  -- `FilterRange`
  unfoldable pub filter_range_ewah :
      CompressedBitmaps w → Constraint f → Constraint f → Outcome (Bitmap w)
  unfolding push_range from_upper_bound from_lower_bound
  filter_range_ewah m lower upper = ok (
      logical_or_all w (
        push_range w (λ k. ltb_ℤ k (ceil_value upper)) (is_less_than_equal upper.op)
          (same_value upper.operand_type upper) (start m lower)))
