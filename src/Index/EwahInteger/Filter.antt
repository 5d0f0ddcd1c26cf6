-- ===== src/Index/EwahInteger/Filter.antt =====
-- ewah_compressed_bitmap_indexer_integer.h: `Filter` against the meaning of the constraints, also for
-- the doubles with `<=` and `>=`.
use jonoondb.Prelude.{
  ℕ, ◌≡◌, refl, sym, ◌∙◌, List, [], ◌∷◌, Bool, true, false, ◌&&◌, arith, Bool-cases, inl, inr,
  length,
}
use jonoondb.Prelude.Int.{ℤ, ltb_ℤ}
use jonoondb.Bitmap.{Ewah, Bitmap, logical_or_all}
use jonoondb.Bitmap.Combine.{in_some, logical_or_all-in_some}
use jonoondb.Index.Constraint.{
  Floats, Constraint, IndexConstraintOperator, equal, less_than, less_than_equal, greater_than,
  greater_than_equal, match, like, glob, regex, OperandType, integer, double, string, blob, eq_ℤ,
  satisfies,
}
use jonoondb.Index.VectorInteger.{DataVector}
use jonoondb.Index.VectorInteger.Scan.{selected}
use jonoondb.Index.VectorInteger.Filter.{Answers, equals-to_int64, never_equals}
use jonoondb.Index.VectorInteger.Range.{is_comparison}
use jonoondb.Index.EwahInteger.{
  CompressedBitmaps, from_upper_bound, from_lower_bound, push_all, equal_bitmaps, less_bitmaps,
  floor_value, ceil_value, filter_op, filter_ewah,
}
use jonoondb.Index.EwahInteger.Loops.{
  matched, IsOrdered, IsFilled, in_some-find_bitmap, in_some-push_all, in_some-push_less,
  matched-from_upper_bound, matched-from_lower_bound,
}

-- The operand is a number.
unfoldable pub is_number : OperandType → Bool
is_number integer = true
is_number double = true
is_number _ = false

-- The map has its keys in order, its bitmaps hold no later ids, and it holds of each value the documents that have it in a vector.
pub record IsIndexOf (w : Ewah) (m : CompressedBitmaps w) (values : DataVector) : Type 0 where
  pub ordered : IsOrdered w m
  pub filled : IsFilled w (length values) m
  pub matches : (p : ℤ → Bool) (j : ℕ) → matched w p m j ≡ selected p values j

module _ (w : Ewah) (f : Floats) where
  pub matched-same :
      (p q : ℤ → Bool) (m : CompressedBitmaps w) (j : ℕ)
      → ((k : ℤ) → p k ≡ q k)
      → matched w p m j ≡ matched w q m j
  unfolding matched
  matched-same p q [] j h = refl
  matched-same p q ((k, b) ∷ m) j h = rw (h k, matched-same p q m j h)

  matched_nothing :
      (p : ℤ → Bool) (m : CompressedBitmaps w) (j : ℕ)
      → ((k : ℤ) → p k ≡ false)
      → false ≡ matched w p m j
  unfolding matched
  matched_nothing p [] j h = refl
  matched_nothing p ((k, b) ∷ m) j h = rw (h k, ← matched_nothing p m j h)

  -- No double equals an integer behind one that is not below it.
  double_stop :
      (d : f.Double) (k l : ℤ)
      → ltb_ℤ k l ≡ true
      → ltb_ℤ k (f.ceil d) ≡ false
      → f.equals d l ≡ false
  double_stop d k l h stop = elim (Bool-cases (f.equals d l)) [
    | inr other ↦ other
    | inl same ↦
        let at_k : f.equals d k ≡ true = ground (
          arith,
          f.equals_total d k,
          f.equals_total d l,
          f.lt-ceil d k,
          f.floor-lt d k,
          f.floor-lt d l,
        ) in
        let k_is_l : k ≡ l = sym (f.to_int64-equals d k at_k) ∙ f.to_int64-equals d l same in
        let loop : ltb_ℤ l l ≡ true = rw k_is_l at h in absurd (ground arith)
  ]

  module _ (m : CompressedBitmaps w) (o : IsOrdered w m) (c : Constraint f) (j : ℕ) where
    equal_at :
        (t : OperandType)
        → c.op ≡ equal
        → c.operand_type ≡ t
        → is_number t ≡ true
        → in_some w (equal_bitmaps w f t m c) j ≡ matched w (satisfies f c) m j
    unfolding equal_bitmaps satisfies is_number in_some
    equal_at integer e k n =
        in_some-find_bitmap w c.int64_val m j o ∙ matched-same _ _ m j (λ v. ground arith)
    equal_at double e k n = elim (Bool-cases (f.equals c.double_val (f.to_int64 c.double_val))) [
      | inl whole ↦ rw whole (
          in_some-find_bitmap w (f.to_int64 c.double_val) m j o
          ∙ matched-same _ _ m j (λ v. ground (arith, equals-to_int64 w f c.double_val v)))
      | inr fraction ↦
          rw fraction (matched_nothing _ m j (λ v. ground (arith, never_equals w f c.double_val v)))
    ]
    equal_at string e k n = cc
    equal_at blob e k n = cc

    less_at :
        (t : OperandType)
        → c.op ≡ less_than
        → c.operand_type ≡ t
        → is_number t ≡ true
        → in_some w (less_bitmaps w f t m c false) j ≡ matched w (satisfies f c) m j
    unfolding less_bitmaps satisfies is_number
    less_at integer e k n =
        in_some-push_less w (λ v. ltb_ℤ v c.int64_val) (λ v. false && eq_ℤ v c.int64_val) m j
          (λ a b h s. ground arith) o
        ∙ matched-same _ _ m j (λ v. ground arith)
    less_at double e k n =
        in_some-push_less w (λ v. ltb_ℤ v (f.ceil c.double_val))
          (λ v. false && f.equals c.double_val v) m j (λ a b h s. ground arith) o
        ∙ matched-same _ _ m j (λ v. ground (arith, f.lt-ceil c.double_val v))
    less_at string e k n = cc
    less_at blob e k n = cc

    less_equal_at :
        (t : OperandType)
        → c.op ≡ less_than_equal
        → c.operand_type ≡ t
        → is_number t ≡ true
        → in_some w (less_bitmaps w f t m c true) j ≡ matched w (satisfies f c) m j
    unfolding less_bitmaps satisfies is_number
    less_equal_at integer e k n =
        in_some-push_less w (λ v. ltb_ℤ v c.int64_val) (λ v. true && eq_ℤ v c.int64_val) m j
          (λ a b h s. ground arith) o
        ∙ matched-same _ _ m j (λ v. ground arith)
    less_equal_at double e k n =
        in_some-push_less w (λ v. ltb_ℤ v (f.ceil c.double_val))
          (λ v. true && f.equals c.double_val v) m j
          (λ a b h s. ground (arith, double_stop c.double_val a b h s)) o
        ∙ matched-same _ _ m j (λ v. ground (arith, f.lt-ceil c.double_val v))
    less_equal_at string e k n = cc
    less_equal_at blob e k n = cc

    greater_at :
        c.op ≡ greater_than
        → is_number c.operand_type ≡ true
        → in_some w (push_all w (from_upper_bound w (floor_value w f c) m)) j
          ≡ matched w (satisfies f c) m j
    unfolding satisfies is_number
    greater_at e n =
        in_some-push_all w (from_upper_bound w (floor_value w f c) m) j
        ∙ matched-from_upper_bound w (floor_value w f c) _ m j o
        ∙ matched-same _ _ m j (λ v. ground (arith, f.floor-lt c.double_val v))

    greater_equal_at :
        c.op ≡ greater_than_equal
        → is_number c.operand_type ≡ true
        → in_some w (push_all w (from_lower_bound w (ceil_value w f c) m)) j
          ≡ matched w (satisfies f c) m j
    unfolding satisfies is_number
    greater_equal_at e n =
        in_some-push_all w (from_lower_bound w (ceil_value w f c) m) j
        ∙ matched-from_lower_bound w (ceil_value w f c) _ m j o
        ∙ matched-same _ _ m j (λ v. ground (
          arith,
          f.lt-ceil c.double_val v,
          f.equals_total c.double_val v,
          f.above_or_below c.double_val v,
        ))

    answered :
        (bs : List (Bitmap w)) (values : DataVector)
        → IsIndexOf w m values
        → in_some w bs j ≡ matched w (satisfies f c) m j
        → w.test (logical_or_all w bs) j ≡ selected (satisfies f c) values j
    answered bs values index h = logical_or_all-in_some w bs j ∙ h ∙ index.matches (satisfies f c) j

  filter_op-satisfies :
      (op : IndexConstraintOperator) (m : CompressedBitmaps w) (values : DataVector)
      (c : Constraint f)
      → IsIndexOf w m values
      → c.op ≡ op
      → is_comparison op ≡ true
      → is_number c.operand_type ≡ true
      → Answers w f (filter_op w f op m c) (satisfies f c) values
  unfolding filter_op is_comparison
  filter_op-satisfies equal m values c p e h n =
      let o = p.ordered in
      (_, refl, λ j. answered m o c j _ values p (equal_at m o c j c.operand_type e refl n))
  filter_op-satisfies less_than m values c p e h n =
      let o = p.ordered in
      (_, refl, λ j. answered m o c j _ values p (less_at m o c j c.operand_type e refl n))
  filter_op-satisfies less_than_equal m values c p e h n =
      let o = p.ordered in
      (_, refl, λ j. answered m o c j _ values p (less_equal_at m o c j c.operand_type e refl n))
  filter_op-satisfies greater_than m values c p e h n =
      let o = p.ordered in (_, refl, λ j. answered m o c j _ values p (greater_at m o c j e n))
  filter_op-satisfies greater_than_equal m values c p e h n =
      let o = p.ordered in
      (_, refl, λ j. answered m o c j _ values p (greater_equal_at m o c j e n))
  filter_op-satisfies match m values c p e h n = absurd (cc)
  filter_op-satisfies like m values c p e h n = absurd (cc)
  filter_op-satisfies glob m values c p e h n = absurd (cc)
  filter_op-satisfies regex m values c p e h n = absurd (cc)

  -- For each of the five comparisons with a number, `Filter` of a map that indexes a vector of values
  -- returns, and the bitmap holds exactly the ids of the documents whose value satisfies the
  -- constraint. This includes `<=` and `>=` of a double and the ends of the range of int64_t.
  pub filter_ewah-satisfies :
      (m : CompressedBitmaps w) (values : DataVector) (c : Constraint f)
      → IsIndexOf w m values
      → is_comparison c.op ≡ true
      → is_number c.operand_type ≡ true
      → Answers w f (filter_ewah w f m c) (satisfies f c) values
  unfolding filter_ewah
  filter_ewah-satisfies m values c p h n = filter_op-satisfies c.op m values c p refl h n
