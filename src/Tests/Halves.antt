-- ===== src/Tests/Halves.antt =====
-- Halves of integers for the doubles, and constraints on a column of four values.
use jonoondb.Prelude.{
  ◌≡◌, refl, List, [], ◌∷◌, Bool, true, false, not, ◌&&◌, ◌||◌, if◌then◌else◌, arith,
}
use jonoondb.Prelude.Int.{ℤ, pos, ltb_ℤ}
use jonoondb.Index.Constraint.{
  Floats, Constraint, less_than_equal, greater_than, like, integer, double, eq_ℤ, next_ℤ,
}

-- The number `base`, and a half more if the flag is set.
pub record Half : Type 0 where
  pub base : ℤ
  pub more : Bool

abbrev pub half_ceil : Half → ℤ
half_ceil d = if d.more then next_ℤ d.base else d.base

abbrev pub half_equals : Half → ℤ → Bool
half_equals d v = eq_ℤ d.base v && not d.more

abbrev pub half_above : Half → ℤ → Bool
half_above d v = ltb_ℤ v d.base || (eq_ℤ v d.base && d.more)

abbrev pub half_below : Half → ℤ → Bool
half_below d v = ltb_ℤ d.base v

pub half_lt-ceil : (d : Half) (v : ℤ) → ltb_ℤ v (half_ceil d) ≡ half_above d v
half_lt-ceil d v = ground arith

pub half_total :
    (d : Half) (v : ℤ) → half_equals d v ≡ (not (half_above d v) && not (half_below d v))
half_total d v = ground arith

pub half_disjoint : (d : Half) (v : ℤ) → (half_above d v && half_below d v) ≡ false
half_disjoint d v = ground arith

pub half_to_int64 : (d : Half) (v : ℤ) → half_equals d v ≡ true → d.base ≡ v
half_to_int64 d v h = ground arith

abbrev pub halves : Floats
halves = record {
  Double = Half;
  to_int64 = λ d. d.base;
  floor = λ d. d.base;
  ceil = half_ceil;
  equals = half_equals;
  above = half_above;
  below = half_below;
  lt-ceil = half_lt-ceil;
  floor-lt = λ d v. refl;
  equals_total = half_total;
  above_or_below = half_disjoint;
  to_int64-equals = half_to_int64;
}

abbrev pub one_to_four : List ℤ
one_to_four = pos 1 ∷ pos 2 ∷ pos 3 ∷ pos 4 ∷ []

-- `v <= 3`, `v < 3`, `v > 1`, and `v <= 2.0`.
abbrev pub at_most_3 : Constraint halves
at_most_3 = record {
  column_name = "v";
  op = less_than_equal;
  operand_type = integer;
  int64_val = pos 3;
  double_val = record { base = pos 0; more = false };
  str_val = [];
  blob_val = [];
}

abbrev pub above_1 : Constraint halves
above_1 = record at_most_3 { op = greater_than; int64_val = pos 1 }

abbrev pub at_most_2_0 : Constraint halves
at_most_2_0 = record at_most_3 {
  operand_type = double;
  double_val = record { base = pos 2; more = false };
}

abbrev pub like_3 : Constraint halves
like_3 = record at_most_3 { op = like }
