-- ===== src/Index/VectorInteger/Range.antt =====
-- vector_integer_indexer.h: `FilterRange`, the operators that throw, and the doubles that `<=` and `>=`
-- leave out.
use jonoondb.Prelude.{
  ℕ, ◌≡◌, refl, ◌∙◌, some, Bool, true, false, ◌&&◌, arith, get_elem?, Bool-cases, inl, inr, ◌⊎◌,
}
use jonoondb.Prelude.Int.{ℤ, ltb_ℤ}
use jonoondb.Prelude.Outcome.{ok, throw, jonoondb_error}
use jonoondb.Bitmap.{Ewah, Bitmap}
use jonoondb.Index.Constraint.{
  is_lower, is_upper, Floats, Constraint, IndexConstraintOperator, equal, less_than,
  less_than_equal, greater_than, greater_than_equal, OperandType, integer, double, string, blob,
  satisfies,
}
use jonoondb.Index.VectorInteger.{
  DataVector, scan, filter, filter_by, get_bitmap_eq, get_bitmap_eq_as, get_bitmap_lt,
  get_bitmap_gt, upper_bound, lower_bound, filter_range, is_less_than_equal, is_greater_than_equal,
}
use jonoondb.Index.VectorInteger.Scan.{selected, scan_lem}
use jonoondb.Index.VectorInteger.Filter.{
  is_exact, Answers, answer, upper-strict, upper-closed, lower-strict, lower-closed,
}

unfoldable pub is_comparison : IndexConstraintOperator → Bool
is_comparison equal = true
is_comparison less_than = true
is_comparison less_than_equal = true
is_comparison greater_than = true
is_comparison greater_than_equal = true
is_comparison _ = false

module _ (w : Ewah) (f : Floats) where
  open w use {test}

  lower_at :
      (op : IndexConstraintOperator) (c : Constraint f) (v : ℤ)
      → c.op ≡ op
      → is_lower op ≡ true
      → is_exact c.op c.operand_type c.int64_val ≡ true
      → ltb_ℤ (lower_bound w f c (is_greater_than_equal op)) v ≡ satisfies f c v
  unfolding is_lower
  lower_at greater_than c v e l h = lower-strict w f c v e h
  lower_at greater_than_equal c v e l h = lower-closed w f c v e h
  lower_at _ c v e l h = cc

  upper_at :
      (op : IndexConstraintOperator) (c : Constraint f) (v : ℤ)
      → c.op ≡ op
      → is_upper op ≡ true
      → is_exact c.op c.operand_type c.int64_val ≡ true
      → ltb_ℤ v (upper_bound w f c (is_less_than_equal op)) ≡ satisfies f c v
  unfolding is_upper
  upper_at less_than c v e l h = upper-strict w f c v e h
  upper_at less_than_equal c v e l h = upper-closed w f c v e h
  upper_at _ c v e l h = cc

  -- For a lower and an upper bound that are exact, `FilterRange` returns, and the bitmap holds exactly
  -- the ids of the documents whose value satisfies both.
  pub filter_range-satisfies :
      (lower upper : Constraint f) (values : DataVector)
      → is_lower lower.op ≡ true
      → is_upper upper.op ≡ true
      → is_exact lower.op lower.operand_type lower.int64_val ≡ true
      → is_exact upper.op upper.operand_type upper.int64_val ≡ true
      → Answers w f
          (filter_range w f values lower upper)
          (λ v. satisfies f lower v && satisfies f upper v)
          values
  unfolding filter_range
  filter_range-satisfies lower upper values l u h k =
      answer w f _ _ values
        λ v. rw (lower_at lower.op lower v refl l h, upper_at upper.op upper v refl u k)

  equal_not_between :
      (d : f.Double) (v : ℤ)
      → f.equals d v ≡ true
      → (ltb_ℤ v (f.ceil d) ≡ false) × (ltb_ℤ (f.floor d) v ≡ false)
  equal_not_between d v h = rw (f.lt-ceil d v, f.floor-lt d v) (ground (arith, f.equals_total d v))

  left_out :
      (p : ℤ → Bool) (values : DataVector) (id : ℕ) (v : ℤ)
      → get_elem? values id ≡ some v
      → p v ≡ false
      → (b : Bitmap w) × (scan w f p 0 values w.blank ≡ ok b) × (test b id ≡ false)
  unfolding selected
  left_out p values id v there fails =
      let (b, done, tests) = scan_lem w f p values in (b, done, tests id ∙ rw there fails)

  le_misses :
      (c : Constraint f) (values : DataVector) (id : ℕ) (v : ℤ)
      → c.operand_type ≡ double
      → get_elem? values id ≡ some v
      → f.equals c.double_val v ≡ true
      → (b : Bitmap w) × (get_bitmap_lt w f values c true ≡ ok b) × (test b id ≡ false)
  unfolding get_bitmap_lt upper_bound
  le_misses c values id v k there same =
      left_out _ values id v there (ground (arith, equal_not_between c.double_val v))

  ge_misses :
      (c : Constraint f) (values : DataVector) (id : ℕ) (v : ℤ)
      → c.operand_type ≡ double
      → get_elem? values id ≡ some v
      → f.equals c.double_val v ≡ true
      → (b : Bitmap w) × (get_bitmap_gt w f values c true ≡ ok b) × (test b id ≡ false)
  unfolding get_bitmap_gt lower_bound
  ge_misses c values id v k there same =
      left_out _ values id v there (ground (arith, equal_not_between c.double_val v))

  -- A document whose value equals a double satisfies `<=` and `>=` of that double, and the index
  -- leaves it out: `Filter` returns a bitmap without its id.
  pub or_equal_double_misses :
      (c : Constraint f) (values : DataVector) (id : ℕ) (v : ℤ)
      → (c.op ≡ less_than_equal) ⊎ (c.op ≡ greater_than_equal)
      → c.operand_type ≡ double
      → get_elem? values id ≡ some v
      → f.equals c.double_val v ≡ true
      → (satisfies f c v ≡ true)
        × ((b : Bitmap w) × (filter w f values c ≡ ok b) × (test b id ≡ false))
  unfolding satisfies filter filter_by
  or_equal_double_misses c values id v (inl e) k there same =
      (ground arith, rw e (le_misses c values id v k there same))
  or_equal_double_misses c values id v (inr e) k there same =
      (ground arith, rw e (ge_misses c values id v k there same))

  returns :
      (p : ℤ → Bool) (values : DataVector) → (b : Bitmap w) × (scan w f p 0 values w.blank ≡ ok b)
  returns p values = let (b, done, tests) = scan_lem w f p values in (b, done)

  eq_returns :
      (t : OperandType) (c : Constraint f) (values : DataVector)
      → (b : Bitmap w) × (get_bitmap_eq_as w f t values c ≡ ok b)
  unfolding get_bitmap_eq_as
  eq_returns integer c values = returns _ values
  eq_returns double c values = elim (Bool-cases (f.equals c.double_val (f.to_int64 c.double_val))) [
    | inl whole ↦ rw whole (returns _ values)
    | inr fraction ↦ rw fraction (w.blank, refl)
  ]
  eq_returns string c values = (w.blank, refl)
  eq_returns blob c values = (w.blank, refl)

  outcome_at :
      (op : IndexConstraintOperator) (c : Constraint f) (values : DataVector)
      → ((is_comparison op ≡ true) × ((b : Bitmap w) × (filter_by w f op values c ≡ ok b)))
        ⊎ ((is_comparison op ≡ false) × (filter_by w f op values c ≡ throw jonoondb_error))
  unfolding is_comparison filter_by get_bitmap_eq get_bitmap_lt get_bitmap_gt
  outcome_at equal c values = inl (refl, eq_returns c.operand_type c values)
  outcome_at less_than c values = inl (refl, returns _ values)
  outcome_at less_than_equal c values = inl (refl, returns _ values)
  outcome_at greater_than c values = inl (refl, returns _ values)
  outcome_at greater_than_equal c values = inl (refl, returns _ values)
  outcome_at _ c values = inr (refl, refl)

  -- `Filter` returns a bitmap for each of the five comparison operators, whatever the operand and the
  -- values, and throws for every other operator.
  pub filter_outcome :
      (c : Constraint f) (values : DataVector)
      → ((is_comparison c.op ≡ true) × ((b : Bitmap w) × (filter w f values c ≡ ok b)))
        ⊎ ((is_comparison c.op ≡ false) × (filter w f values c ≡ throw jonoondb_error))
  unfolding filter
  filter_outcome c values = outcome_at c.op c values
