-- ===== src/Index/Constraint.antt =====
-- include/jonoondb_api/constraint.h: `Constraint`, one comparison of a WHERE clause. A 64-bit signed
-- integer is an integer of the model; a sum that leaves the range wraps around.
--
-- There are no floating-point numbers in the model. `Floats` stands for the doubles that the code
-- gets: finite, and near enough to 0 for the casts between them and int64_t to be exact.
use Prim.Native.String.{String}
use jonoondb.Prelude.{
  ℕ, ◌+◌, ◌-◌, ◌^◌, ◌≡◌, Bool, true, false, not, ◌&&◌, ◌||◌, ◌==◌, if◌then◌else◌, List,
}
use jonoondb.Prelude.Int.{ℤ, pos, negsuc, pos_part, neg_part, ltb_ℤ}

abbrev pub eq_ℤ : ℤ → ℤ → Bool
eq_ℤ a b = pos_part a + neg_part b == pos_part b + neg_part a

abbrev pub int64_max : ℤ
int64_max = pos (2 ^ 63 - 1)

abbrev pub int64_min : ℤ
int64_min = negsuc (2 ^ 63 - 1)

abbrev pub next_ℤ : ℤ → ℤ
next_ℤ (pos n) = pos (n + 1)
next_ℤ (negsuc n) = if n == 0 then pos 0 else negsuc (n - 1)

abbrev pub previous_ℤ : ℤ → ℤ
previous_ℤ (pos n) = if n == 0 then negsuc 0 else pos (n - 1)
previous_ℤ (negsuc n) = negsuc (n + 1)

-- `v + 1` and `v - 1` on int64_t, with the wrap-around of the machine.
unfoldable pub add_one : ℤ → ℤ
add_one v = if eq_ℤ v int64_max then int64_min else next_ℤ v

unfoldable pub sub_one : ℤ → ℤ
sub_one v = if eq_ℤ v int64_min then int64_max else previous_ℤ v

pub record Floats : Type 1 where
  pub Double : Type 0
  -- `static_cast<int64_t>` of a double, of `std::floor` of it, and of `std::ceil` of it.
  pub to_int64 : Double → ℤ
  pub floor : Double → ℤ
  pub ceil : Double → ℤ
  -- `d == i`, `i < d` and `d < i` for a double and an int64_t, which is converted.
  pub equals : Double → ℤ → Bool
  pub above : Double → ℤ → Bool
  pub below : Double → ℤ → Bool
  pub lt-ceil : (d : Double) (v : ℤ) → ltb_ℤ v (ceil d) ≡ above d v
  pub floor-lt : (d : Double) (v : ℤ) → ltb_ℤ (floor d) v ≡ below d v
  pub equals_total : (d : Double) (v : ℤ) → equals d v ≡ (not (above d v) && not (below d v))
  pub above_or_below : (d : Double) (v : ℤ) → (above d v && below d v) ≡ false
  pub to_int64-equals : (d : Double) (v : ℤ) → equals d v ≡ true → to_int64 d ≡ v

pub data IndexConstraintOperator : Type 0 where
  equal less_than less_than_equal greater_than greater_than_equal match like glob regex :
      IndexConstraintOperator

-- The operators of a lower and of an upper bound.
unfoldable pub is_lower : IndexConstraintOperator → Bool
is_lower greater_than = true
is_lower greater_than_equal = true
is_lower _ = false

unfoldable pub is_upper : IndexConstraintOperator → Bool
is_upper less_than = true
is_upper less_than_equal = true
is_upper _ = false

pub data OperandType : Type 0 where
  integer double string blob : OperandType

module _ (f : Floats) where
  open f use {Double, equals, above, below}

  -- The union `Operand` is two fields, of which the code reads the one that the type names; for text
  -- and blobs it is not set.
  pub record Constraint : Type 0 where
    pub column_name : String
    pub op : IndexConstraintOperator
    pub operand_type : OperandType
    pub int64_val : ℤ
    pub double_val : Double
    pub str_val : List ℕ
    pub blob_val : List ℕ

  -- What the query means: whether an integer stands in the relation to the operand. Text and blobs
  -- compare with no integer.
  unfoldable pub compares_int : IndexConstraintOperator → ℤ → ℤ → Bool
  compares_int equal n v = eq_ℤ v n
  compares_int less_than n v = ltb_ℤ v n
  compares_int less_than_equal n v = not (ltb_ℤ n v)
  compares_int greater_than n v = ltb_ℤ n v
  compares_int greater_than_equal n v = not (ltb_ℤ v n)
  compares_int _ n v = false

  unfoldable pub compares_double : IndexConstraintOperator → Double → ℤ → Bool
  compares_double equal d v = equals d v
  compares_double less_than d v = above d v
  compares_double less_than_equal d v = above d v || equals d v
  compares_double greater_than d v = below d v
  compares_double greater_than_equal d v = below d v || equals d v
  compares_double _ d v = false

  abbrev pub satisfies_as : OperandType → Constraint → ℤ → Bool
  satisfies_as integer c v = compares_int c.op c.int64_val v
  satisfies_as double c v = compares_double c.op c.double_val v
  satisfies_as string c v = false
  satisfies_as blob c v = false

  unfoldable pub satisfies : Constraint → ℤ → Bool
  unfolding compares_int compares_double
  satisfies c v = satisfies_as c.operand_type c v
