-- ===== src/Index/VectorString.antt =====
-- include/jonoondb_api/vector_string_indexer.h: `VectorStringIndexer`, which scans the texts of the
-- documents, and the null text of include/jonoondb_api/null_helpers.h. A `std::string` is its bytes. The
-- constructor's checks are left out; `insert_text` takes the value that `DocumentUtils::GetStringValue`
-- reads, for the document id that is the size of the vector.
pub mod Exact
use jonoondb.Prelude.{
  ℕ, ◌≡◌, List, [], ◌∷◌, ◌++◌, Option, none, some, Bool, true, false, not, ◌&&◌, ltb, ◌==◌,
  if◌then◌else◌, get_elem?, length, replicate,
}
use jonoondb.Prelude.Int.{ℤ}
use jonoondb.Prelude.Outcome.{Outcome, ok, throw, jonoondb_error}
use jonoondb.Bitmap.{Ewah, Bitmap}
use jonoondb.Buffer.Order.{lex_lt}
use jonoondb.Index.Constraint.{
  Floats, Constraint, IndexConstraintOperator, equal, less_than, less_than_equal, greater_than,
  greater_than_equal, match, like, glob, regex, OperandType, integer, double, string, blob,
}
use jonoondb.Index.VectorInteger.{scan}

abbrev pub Text : Type 0
Text = List ℕ

-- `==` on `std::string`
unfoldable pub text_eq : Text → Text → Bool
text_eq [] [] = true
text_eq [] (y ∷ ys) = false
text_eq (x ∷ xs) [] = false
text_eq (x ∷ xs) (y ∷ ys) = let rest = text_eq xs ys in x == y && rest

-- The other operators of `std::string` come from the order of the bytes.
abbrev pub text_le : Text → Text → Bool
text_le a b = not (lex_lt b a)

abbrev pub text_gt : Text → Text → Bool
text_gt a b = lex_lt b a

abbrev pub text_ge : Text → Text → Bool
text_ge a b = not (lex_lt a b)

-- `NullHelpers::IsNull`: four null characters.
unfoldable pub is_null_text : Text → Bool
unfolding text_eq
is_null_text s = length s == 4 && text_eq s (replicate 4 0)

-- `std::to_string` of an int64_t and of a double.
pub record NumberTexts (f : Floats) : Type 0 where
  pub of_int64 : ℤ → Text
  pub of_double : f.Double → Text

-- `Insert`
unfoldable pub insert_text : List Text → Text → List Text
insert_text values v = values ++ (v ∷ [])

-- `TryGetStringValue`
unfoldable pub try_get_string_value : List Text → ℕ → Option Text
try_get_string_value values id = if ltb id (length values) then get_elem? values id else none

module _ (w : Ewah) {f : Floats} (t : NumberTexts f) where
  abbrev pub text_operand_as : OperandType → Constraint f → Text
  text_operand_as integer c = t.of_int64 c.int64_val
  text_operand_as double c = t.of_double c.double_val
  text_operand_as string c = c.str_val
  text_operand_as blob c = c.str_val

  -- `GetOperandVal`
  abbrev pub text_operand : Constraint f → Text
  text_operand c = text_operand_as c.operand_type c

  unfoldable pub texts_eq : List Text → Constraint f → Outcome (Bitmap w)
  unfolding scan
  texts_eq values c =
      scan w f (λ v. text_eq v (text_operand c) && not (is_null_text v)) 0 values w.blank

  unfoldable pub texts_lt : List Text → Constraint f → Outcome (Bitmap w)
  unfolding scan
  texts_lt values c =
      scan w f (λ v. lex_lt v (text_operand c) && not (is_null_text v)) 0 values w.blank

  unfoldable pub texts_lte : List Text → Constraint f → Outcome (Bitmap w)
  unfolding scan
  texts_lte values c =
      scan w f (λ v. text_le v (text_operand c) && not (is_null_text v)) 0 values w.blank

  unfoldable pub texts_gt : List Text → Constraint f → Outcome (Bitmap w)
  unfolding scan
  texts_gt values c =
      scan w f (λ v. text_gt v (text_operand c) && not (is_null_text v)) 0 values w.blank

  unfoldable pub texts_gte : List Text → Constraint f → Outcome (Bitmap w)
  unfolding scan
  texts_gte values c =
      scan w f (λ v. text_ge v (text_operand c) && not (is_null_text v)) 0 values w.blank

  -- `Filter`
  unfoldable pub filter_texts_by :
      IndexConstraintOperator → List Text → Constraint f → Outcome (Bitmap w)
  unfolding texts_eq texts_lt texts_lte texts_gt texts_gte
  filter_texts_by equal values c = texts_eq values c
  filter_texts_by less_than values c = texts_lt values c
  filter_texts_by less_than_equal values c = texts_lte values c
  filter_texts_by greater_than values c = texts_gt values c
  filter_texts_by greater_than_equal values c = texts_gte values c
  filter_texts_by _ values c = throw jonoondb_error

  unfoldable pub filter_texts : List Text → Constraint f → Outcome (Bitmap w)
  unfolding filter_texts_by
  filter_texts values c = filter_texts_by c.op values c

  -- The loops of `FilterRange`, by the two operators.
  unfoldable pub texts_between :
      IndexConstraintOperator
      → IndexConstraintOperator
      → List Text
      → Text
      → Text
      → Outcome (Bitmap w)
  unfolding scan
  texts_between greater_than less_than values l u =
      scan w f (λ v. text_gt v l && lex_lt v u && not (is_null_text v)) 0 values w.blank
  texts_between greater_than less_than_equal values l u =
      scan w f (λ v. text_gt v l && text_le v u && not (is_null_text v)) 0 values w.blank
  texts_between greater_than_equal less_than values l u =
      scan w f (λ v. text_ge v l && lex_lt v u && not (is_null_text v)) 0 values w.blank
  texts_between greater_than_equal less_than_equal values l u =
      scan w f (λ v. text_ge v l && text_le v u && not (is_null_text v)) 0 values w.blank
  texts_between _ _ values l u = ok w.blank

  -- `FilterRange`
  unfoldable pub filter_range_texts : List Text → Constraint f → Constraint f → Outcome (Bitmap w)
  unfolding texts_between
  filter_range_texts values lower upper =
      texts_between lower.op upper.op values (text_operand lower) (text_operand upper)
