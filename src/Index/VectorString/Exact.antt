-- ===== src/Index/VectorString/Exact.antt =====
-- vector_string_indexer.h: `Filter` and `FilterRange` answer constraints as the query means them.
use Prim.Native.String.{String}
use jonoondb.Prelude.{
  ℕ, ◌≡◌, refl, ap, ◌∙◌, List, [], ◌∷◌, Bool, true, false, not, ◌&&◌, ◌||◌, arith,
}
use jonoondb.Prelude.Outcome.{ok}
use jonoondb.Bitmap.{Ewah, Bitmap}
use jonoondb.Buffer.Order.{lex_lt}
use jonoondb.Index.Constraint.{
  Floats, Constraint, IndexConstraintOperator, equal, less_than, less_than_equal, greater_than,
  greater_than_equal, OperandType, integer, double, string, blob, is_lower, is_upper,
}
use jonoondb.Index.Manager.{Indexer}
use jonoondb.Index.Manager.Filter.{IsExact}
use jonoondb.Index.Manager.Scanner.{and_eq, scan_holds, scanner-IsExact}
use jonoondb.Index.VectorInteger.{scan}
use jonoondb.Index.VectorInteger.Scan.{selected, scan_lem}
use jonoondb.Index.VectorInteger.Filter.{selected-eq}
use jonoondb.Index.VectorDouble.Exact.{is_comparison}
use jonoondb.Index.VectorString.{
  Text, text_eq, NumberTexts, is_null_text, text_operand_as, text_operand, filter_texts,
  filter_texts_by, texts_eq, texts_lt, texts_lte, texts_gt, texts_gte, filter_range_texts,
  texts_between,
}

-- The order of texts is total: of two texts one is smaller, or they are the same.
pub lex_lt_total : (a b : Text) → not (lex_lt b a) ≡ (lex_lt a b || text_eq a b)
unfolding lex_lt text_eq
lex_lt_total [] [] = refl
lex_lt_total [] (y ∷ ys) = refl
lex_lt_total (x ∷ xs) [] = refl
lex_lt_total (x ∷ xs) (y ∷ ys) = ground (arith, lex_lt_total xs ys)

text_eq_comm : (a b : Text) → text_eq a b ≡ text_eq b a
unfolding text_eq
text_eq_comm [] [] = refl
text_eq_comm [] (y ∷ ys) = refl
text_eq_comm (x ∷ xs) [] = refl
text_eq_comm (x ∷ xs) (y ∷ ys) = ground (arith, text_eq_comm xs ys)

pub lex_ge_total : (a b : Text) → not (lex_lt a b) ≡ (lex_lt b a || text_eq a b)
lex_ge_total a b = lex_lt_total b a ∙ ap (λ e. lex_lt b a || e) (text_eq_comm b a)

-- What a comparison with a text means.
abbrev pub compares_text : IndexConstraintOperator → Text → Text → Bool
compares_text equal x v = text_eq v x
compares_text less_than x v = lex_lt v x
compares_text less_than_equal x v = lex_lt v x || text_eq v x
compares_text greater_than x v = lex_lt x v
compares_text greater_than_equal x v = lex_lt x v || text_eq v x
compares_text _ x v = false

abbrev pub is_text_operand : OperandType → Bool
is_text_operand blob = false
is_text_operand _ = true

module _ {f : Floats} (t : NumberTexts f) where
  -- A null satisfies nothing; a number is compared as a text, and nothing is compared with a blob.
  abbrev pub text_satisfies_as : OperandType → Constraint f → Text → Bool
  text_satisfies_as integer c v =
      compares_text c.op (t.of_int64 c.int64_val) v && not (is_null_text v)
  text_satisfies_as double c v =
      compares_text c.op (t.of_double c.double_val) v && not (is_null_text v)
  text_satisfies_as string c v = compares_text c.op c.str_val v && not (is_null_text v)
  text_satisfies_as blob c v = false

  abbrev pub text_satisfies : Constraint f → Text → Bool
  text_satisfies c v = text_satisfies_as c.operand_type c v

  abbrev pub text_supports : Constraint f → Bool
  text_supports c = is_comparison c.op && is_text_operand c.operand_type

module _ (w : Ewah) {f : Floats} (t : NumberTexts f) where
  open w use {test}

  -- A scan by one test has the ids of another that agrees with it.
  scan_as :
      (p q : Text → Bool) (values : List Text)
      → ((v : Text) → p v ≡ q v)
      → (b : Bitmap w) × (scan w f p 0 values w.blank ≡ ok b)
        × ((j : ℕ) → test b j ≡ selected q values j)
  scan_as p q values same =
      let (b, done, tests) = scan_lem w f p values in
      (b, done, λ j. tests j ∙ selected-eq p q values j same)

  filter_texts_by-compares :
      (op : IndexConstraintOperator) (values : List Text) (c : Constraint f)
      → is_comparison op ≡ true
      → (b : Bitmap w) × (filter_texts_by w t op values c ≡ ok b)
        × ((j : ℕ)
            → test b j
              ≡ selected
                  (λ v. compares_text op (text_operand w t c) v && not (is_null_text v))
                  values
                  j)
  unfolding filter_texts_by texts_eq texts_lt texts_lte texts_gt texts_gte
  filter_texts_by-compares equal values c h = scan_lem w f _ values
  filter_texts_by-compares less_than values c h = scan_lem w f _ values
  filter_texts_by-compares less_than_equal values c h =
      scan_as _ _ values
        λ v. ap (λ x. x && not (is_null_text v)) (lex_lt_total v (text_operand w t c))
  filter_texts_by-compares greater_than values c h = scan_lem w f _ values
  filter_texts_by-compares greater_than_equal values c h =
      scan_as _ _ values
        λ v. ap (λ x. x && not (is_null_text v)) (lex_ge_total v (text_operand w t c))
  filter_texts_by-compares _ values c h = absurd cc

  texts_between-compares :
      (p q : IndexConstraintOperator) (values : List Text) (l u : Text)
      → is_lower p ≡ true
      → is_upper q ≡ true
      → (b : Bitmap w) × (texts_between w t p q values l u ≡ ok b)
        × ((j : ℕ)
            → test b j
              ≡ selected
                  (λ v.
                    compares_text p l v
                    && not (is_null_text v)
                    && (compares_text q u v && not (is_null_text v)))
                  values
                  j)
  unfolding texts_between is_lower is_upper
  texts_between-compares greater_than less_than values l u h k =
      scan_as _ _ values λ v. ground arith
  texts_between-compares greater_than less_than_equal values l u h k =
      scan_as _ _ values λ v. ground (arith, lex_lt_total v u)
  texts_between-compares greater_than_equal less_than values l u h k =
      scan_as _ _ values λ v. ground (arith, lex_ge_total v l)
  texts_between-compares greater_than_equal less_than_equal values l u h k =
      scan_as _ _ values λ v. ground (arith, lex_lt_total v u, lex_ge_total v l)
  texts_between-compares _ _ values l u h k = absurd cc

  satisfies_text :
      (o : OperandType) (c : Constraint f) (v : Text)
      → is_text_operand o ≡ true
      → (compares_text c.op (text_operand_as w t o c) v && not (is_null_text v))
        ≡ text_satisfies_as t o c v
  satisfies_text integer c v h = refl
  satisfies_text double c v h = refl
  satisfies_text string c v h = refl
  satisfies_text blob c v h = absurd cc

  supported :
      (c : Constraint f)
      → text_supports t c ≡ true
      → (is_comparison c.op ≡ true) × (is_text_operand c.operand_type ≡ true)
  supported c good = ground arith

  -- `VectorStringIndexer` as an `Indexer`.
  abbrev pub text_indexer : List Text → Indexer w f
  text_indexer values = record {
    filter = filter_texts w t values;
    filter_range = filter_range_texts w t values;
  }

  -- Filter of the vector index of texts returns, for each of the five comparisons with a text or with a
  -- number as a text, exactly the ids whose values are not null and satisfy the constraint in the order
  -- of the bytes, and FilterRange those that satisfy both bounds: the index keeps what the index manager
  -- expects of an indexer, for every column and its values.
  pub text_indexer-IsExact :
      (values_of : String → List Text) (column : String)
      → IsExact w f
          (text_supports t)
          (scan_holds w f (text_satisfies t) values_of)
          column
          (text_indexer (values_of column))
  unfolding filter_texts filter_range_texts
  text_indexer-IsExact values_of column =
      scanner-IsExact w f (text_satisfies t) (text_supports t) (text_indexer (values_of column))
        values_of column
        (λ c good.
          let (b, done, tests) =
            filter_texts_by-compares c.op (values_of column) c (supported c good).0 in
          (b, done, λ j. tests j ∙ selected-eq _ _ (values_of column) j (meaning c good)))
        (λ c c' l u good good'.
          let (b, done, tests) =
            texts_between-compares c.op c'.op (values_of column) (text_operand w t c)
              (text_operand w t c') l u in
          (
            b,
            done,
            λ j.
                tests j
                ∙ selected-eq _ _ (values_of column) j
                    (λ v. and_eq (meaning c good v) (meaning c' good' v)),
          ))
    where
      meaning :
          (c : Constraint f)
          → text_supports t c ≡ true
          → (v : Text)
          → (compares_text c.op (text_operand w t c) v && not (is_null_text v))
            ≡ text_satisfies t c v
      meaning c good v = satisfies_text c.operand_type c v (supported c good).1
