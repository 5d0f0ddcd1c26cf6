-- ===== src/Index/EwahInteger/Range.antt =====
-- ewah_compressed_bitmap_indexer_integer.h: `FilterRange`, the indexer as the index manager sees it, and
-- its agreement with the vector index.
use jonoondb.Prelude.{ℕ, ◌≡◌, refl, ap, ◌∙◌, Bool, true, ◌&&◌, ◌||◌, arith}
use jonoondb.Prelude.Int.{ℤ, ltb_ℤ}
use jonoondb.Bitmap.{Ewah}
use jonoondb.Bitmap.Combine.{in_some, logical_or_all-in_some}
use jonoondb.Index.Constraint.{
  Floats, Constraint, IndexConstraintOperator, greater_than, greater_than_equal, satisfies,
  is_lower, is_upper,
}
use jonoondb.Index.VectorInteger.{DataVector, is_less_than_equal}
use jonoondb.Index.VectorInteger.Filter.{Answers}
use jonoondb.Index.EwahInteger.{
  CompressedBitmaps, push_range, floor_value, ceil_value, start, same_value, filter_range_ewah,
}
use jonoondb.Index.EwahInteger.Loops.{
  matched, IsOrdered, matched-from_upper_bound, matched-from_lower_bound,
  from_upper_bound-IsOrdered, from_lower_bound-IsOrdered, in_some-push_range,
}
use jonoondb.Index.EwahInteger.Filter.{IsIndexOf, is_number, matched-same}

module _ (w : Ewah) (f : Floats) where
  open w use {test}

  module _ (m : CompressedBitmaps w) (o : IsOrdered w m) where
    start_at :
        (op : IndexConstraintOperator) (lower : Constraint f) (q : ℤ → Bool) (j : ℕ)
        → lower.op ≡ op
        → is_lower op ≡ true
        → is_number lower.operand_type ≡ true
        → (matched w q (start w f m lower) j ≡ matched w (λ k. satisfies f lower k && q k) m j)
          × IsOrdered w (start w f m lower)
    unfolding is_lower satisfies is_number
    start_at greater_than lower q j e l n = rw e (
      matched-from_upper_bound w (floor_value w f lower) q m j o
          ∙ matched-same w f _ _ m j (λ k. ground (arith, f.floor-lt lower.double_val k)),
      from_upper_bound-IsOrdered w (floor_value w f lower) m o,
    )
    start_at greater_than_equal lower q j e l n = rw e (
      matched-from_lower_bound w (ceil_value w f lower) q m j o
          ∙ matched-same w f _ _ m j (λ k. ground (
            arith,
            f.lt-ceil lower.double_val k,
            f.equals_total lower.double_val k,
            f.above_or_below lower.double_val k,
          )),
      from_lower_bound-IsOrdered w (ceil_value w f lower) m o,
    )
    start_at _ lower q j e l n = absurd (cc)

    upper_at :
        (upper : Constraint f) (k : ℤ)
        → is_upper upper.op ≡ true
        → is_number upper.operand_type ≡ true
        → (ltb_ℤ k (ceil_value w f upper)
            || is_less_than_equal upper.op && same_value w f upper.operand_type upper k)
          ≡ satisfies f upper k
    unfolding is_upper satisfies is_number
    upper_at upper k u n = ground (arith, f.lt-ceil upper.double_val k)

  -- For a lower and an upper bound that are numbers, `FilterRange` of a map that indexes a vector of
  -- values returns, and the bitmap holds exactly the ids of the documents whose value satisfies both.
  pub filter_range_ewah-satisfies :
      (m : CompressedBitmaps w) (values : DataVector) (lower upper : Constraint f)
      → IsIndexOf w m values
      → is_lower lower.op ≡ true
      → is_upper upper.op ≡ true
      → is_number lower.operand_type ≡ true
      → is_number upper.operand_type ≡ true
      → Answers w f
          (filter_range_ewah w f m lower upper)
          (λ v. satisfies f lower v && satisfies f upper v)
          values
  unfolding filter_range_ewah
  filter_range_ewah-satisfies m values lower upper p l u n n' =
      (_, refl, λ j. logical_or_all-in_some w _ j ∙ collected j ∙ p.matches _ j)
    where
      below : ℤ → Bool
      below k = ltb_ℤ k (ceil_value w f upper)

      same : ℤ → Bool
      same = same_value w f upper.operand_type upper

      upper_test : ℤ → Bool
      upper_test k = below k || is_less_than_equal upper.op && same k

      collected :
          (j : ℕ)
          → in_some w (push_range w below (is_less_than_equal upper.op) same (start w f m lower)) j
            ≡ matched w (λ v. satisfies f lower v && satisfies f upper v) m j
      collected j =
          let (at_start, ordered) = start_at m p.ordered lower.op lower upper_test j refl l n in
          in_some-push_range w below same (is_less_than_equal upper.op) (start w f m lower) j
            (λ a b h s. ground arith) ordered
          ∙ at_start
          ∙ matched-same w f _ _ m j
              (λ k. ap (λ t. satisfies f lower k && t) (upper_at m p.ordered upper k u n'))
