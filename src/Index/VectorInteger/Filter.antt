-- ===== src/Index/VectorInteger/Filter.antt =====
-- vector_integer_indexer.h: `Filter` and `FilterRange` against the meaning of the constraints.
use jonoondb.Prelude.{
  ℕ, List, ◌≡◌, refl, sym, ◌∙◌, Bool, true, false, not, arith, get_elem?, Option-cases, Bool-cases,
  inl, inr,
}
use jonoondb.Prelude.Int.{ℤ, ltb_ℤ, eq_of_parts}
use jonoondb.Prelude.Outcome.{Outcome, ok}
use jonoondb.Bitmap.{Ewah, Bitmap}
use jonoondb.Bitmap.Combine.{nothing_in_blank}
use jonoondb.Index.Constraint.{
  Floats, Constraint, IndexConstraintOperator, equal, less_than, less_than_equal, greater_than,
  greater_than_equal, match, like, glob, regex, OperandType, integer, double, string, blob, eq_ℤ,
  add_one, sub_one, int64_max, int64_min, satisfies,
}
use jonoondb.Index.VectorInteger.{
  DataVector, scan, filter, filter_by, get_bitmap_eq, get_bitmap_eq_as, upper_bound, lower_bound,
}
use jonoondb.Index.VectorInteger.Scan.{selected, scan_lem}

pub selected-eq :
    {A : Type 0} (p q : A → Bool) (values : List A) (j : ℕ)
    → ((v : A) → p v ≡ q v)
    → selected p values j ≡ selected q values j
unfolding selected
selected-eq p q values j h = elim (Option-cases (get_elem? values j)) [
  | inl out ↦ rw out
  | inr (v, there) ↦ rw there (h v)
]

pub selected-false :
    {A : Type 0} (values : List A) (j : ℕ) → selected (λ (v : A). false) values j ≡ false
unfolding selected
selected-false values j = ground arith

eq_ℤ_refl : (a : ℤ) → eq_ℤ a a ≡ true
eq_ℤ_refl a = ground arith

pub eq_ℤ→eq : (a b : ℤ) → eq_ℤ a b ≡ true → a ≡ b
eq_ℤ→eq a b h = eq_of_parts a b (ground arith)

clash : {b : Bool} → b ≡ false → b ≡ true → ⊥
clash p q = cc

lt-add_one : (n v : ℤ) → eq_ℤ n int64_max ≡ false → ltb_ℤ v (add_one n) ≡ not (ltb_ℤ n v)
unfolding add_one
lt-add_one n v h = ground arith

sub_one-lt : (n v : ℤ) → eq_ℤ n int64_min ≡ false → ltb_ℤ (sub_one n) v ≡ not (ltb_ℤ v n)
unfolding sub_one
sub_one-lt n v h = ground arith

-- The constraints that the indexer answers as the query means them: no bound that leaves the range of
-- int64_t when it is moved by one, and no double with `<=` or `>=`.
unfoldable pub is_exact : IndexConstraintOperator → OperandType → ℤ → Bool
is_exact equal t n = true
is_exact less_than integer n = true
is_exact less_than double n = true
is_exact greater_than integer n = true
is_exact greater_than double n = true
is_exact less_than_equal integer n = not (eq_ℤ n int64_max)
is_exact greater_than_equal integer n = not (eq_ℤ n int64_min)
is_exact _ t n = false

inexact_op : IndexConstraintOperator → Bool
inexact_op match = true
inexact_op like = true
inexact_op glob = true
inexact_op regex = true
inexact_op _ = false

module _ (w : Ewah) (f : Floats) where
  inexact :
      (c : Constraint f) (op : IndexConstraintOperator)
      → c.op ≡ op
      → is_exact c.op c.operand_type c.int64_val ≡ true
      → inexact_op op ≡ true
      → ⊥
  unfolding inexact_op is_exact
  inexact c op e h k = ground arith

  open w use {test}

  -- The bitmap holds exactly the ids whose values pass.
  abbrev pub Answers : Outcome (Bitmap w) → (ℤ → Bool) → DataVector → Type 0
  Answers result p values =
      (b : Bitmap w) × (result ≡ ok b) × ((j : ℕ) → test b j ≡ selected p values j)

  pub answer :
      (p q : ℤ → Bool) (values : DataVector)
      → ((v : ℤ) → p v ≡ q v)
      → Answers (scan w f p 0 values w.blank) q values
  answer p q values h =
      let (b, done, tests) = scan_lem w f p values in
      (b, done, λ j. tests j ∙ selected-eq p q values j h)

  module _ (c : Constraint f) (v : ℤ) where
    pub upper-strict :
        c.op ≡ less_than
        → is_exact c.op c.operand_type c.int64_val ≡ true
        → ltb_ℤ v (upper_bound w f c false) ≡ satisfies f c v
    unfolding upper_bound satisfies is_exact
    upper-strict e h = ground (arith, f.lt-ceil c.double_val v)

    pub upper-closed :
        c.op ≡ less_than_equal
        → is_exact c.op c.operand_type c.int64_val ≡ true
        → ltb_ℤ v (upper_bound w f c true) ≡ satisfies f c v
    unfolding upper_bound satisfies is_exact
    upper-closed e h = ground (arith, lt-add_one c.int64_val v)

    pub lower-strict :
        c.op ≡ greater_than
        → is_exact c.op c.operand_type c.int64_val ≡ true
        → ltb_ℤ (lower_bound w f c false) v ≡ satisfies f c v
    unfolding lower_bound satisfies is_exact
    lower-strict e h = ground (arith, f.floor-lt c.double_val v)

    pub lower-closed :
        c.op ≡ greater_than_equal
        → is_exact c.op c.operand_type c.int64_val ≡ true
        → ltb_ℤ (lower_bound w f c true) v ≡ satisfies f c v
    unfolding lower_bound satisfies is_exact
    lower-closed e h = ground (arith, sub_one-lt c.int64_val v)

  no_answer :
      (q : ℤ → Bool) (values : DataVector) → ((v : ℤ) → q v ≡ false) → Answers (ok w.blank) q values
  no_answer q values h = (w.blank, refl, λ j. nothing_in_blank w j ∙ none_selected j)
    where
      none_selected : (j : ℕ) → false ≡ selected q values j
      none_selected j = sym (selected-eq q (λ v. false) values j h ∙ selected-false values j)

  pub equals-to_int64 :
      (d : f.Double) (v : ℤ)
      → f.equals d (f.to_int64 d) ≡ true
      → eq_ℤ v (f.to_int64 d) ≡ f.equals d v
  equals-to_int64 d v h = elim (Bool-cases (f.equals d v)) [
    | inl same ↦ rw (same, f.to_int64-equals d v same) (eq_ℤ_refl v)
    | inr other ↦ elim (Bool-cases (eq_ℤ v (f.to_int64 d))) [
      | inl hit ↦ absurd (clash (rw (eq_ℤ→eq v (f.to_int64 d) hit) at other) h)
      | inr miss ↦ rw other miss
    ]
  ]

  pub never_equals :
      (d : f.Double) (v : ℤ) → f.equals d (f.to_int64 d) ≡ false → f.equals d v ≡ false
  never_equals d v h = elim (Bool-cases (f.equals d v)) [
    | inl same ↦ absurd (clash (rw (f.to_int64-equals d v same) at h) same)
    | inr other ↦ other
  ]

  eq-Answers :
      (t : OperandType) (c : Constraint f) (values : DataVector)
      → c.op ≡ equal
      → c.operand_type ≡ t
      → Answers (get_bitmap_eq_as w f t values c) (satisfies f c) values
  unfolding get_bitmap_eq_as satisfies
  eq-Answers integer c values e k = answer _ _ values (λ v. ground arith)
  eq-Answers double c values e k =
      elim (Bool-cases (f.equals c.double_val (f.to_int64 c.double_val))) [
        | inl whole ↦
            rw whole (answer _ _ values (λ v. ground (arith, equals-to_int64 c.double_val v)))
        | inr fraction ↦
            rw fraction (no_answer _ values (λ v. ground (arith, never_equals c.double_val v)))
      ]
  eq-Answers string c values e k = no_answer _ values (λ v. ground arith)
  eq-Answers blob c values e k = no_answer _ values (λ v. ground arith)

  filter_at :
      (op : IndexConstraintOperator) (c : Constraint f) (values : DataVector)
      → c.op ≡ op
      → is_exact c.op c.operand_type c.int64_val ≡ true
      → Answers (filter_by w f op values c) (satisfies f c) values
  unfolding filter_by inexact_op get_bitmap_eq
  filter_at equal c values e h = eq-Answers c.operand_type c values e refl
  filter_at less_than c values e h = answer _ _ values (λ v. upper-strict c v e h)
  filter_at less_than_equal c values e h = answer _ _ values (λ v. upper-closed c v e h)
  filter_at greater_than c values e h = answer _ _ values (λ v. lower-strict c v e h)
  filter_at greater_than_equal c values e h = answer _ _ values (λ v. lower-closed c v e h)
  filter_at match c values e h = absurd (inexact c match e h refl)
  filter_at like c values e h = absurd (inexact c like e h refl)
  filter_at glob c values e h = absurd (inexact c glob e h refl)
  filter_at regex c values e h = absurd (inexact c regex e h refl)

  -- For a constraint that is exact, `Filter` returns, and the bitmap holds exactly the ids of the
  -- documents whose value satisfies the constraint.
  pub filter-satisfies :
      (c : Constraint f) (values : DataVector)
      → is_exact c.op c.operand_type c.int64_val ≡ true
      → Answers (filter w f values c) (satisfies f c) values
  unfolding filter
  filter-satisfies c values h = filter_at c.op c values refl h
