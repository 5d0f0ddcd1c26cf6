-- ===== src/Tests/Indexes.antt =====
-- The indexes of doubles, texts and blobs, with the doubles of `Tests.Halves`.
use Prim.Native.String.{String}
use jonoondb.Tests.Halves.{Half, halves}
use jonoondb.Prelude.{List, [], ◌∷◌, Bool, true, false, not, ◌&&◌, ◌||◌}
use jonoondb.Prelude.{ℕ, zero, suc, ◌+◌, ◌≡◌, refl, ap, ◌∙◌, subst, some, arith}
use jonoondb.Buffer.{Buffer, standard_delete}
use jonoondb.Buffer
use jonoondb.Buffer.Valid.{IsValid, empty-IsValid}
use jonoondb.FileNames.Names.{some_injective}
use jonoondb.Index.VectorBlob.Exact.{
  AreValid, blob_satisfies, blob_supports, blob_indexer, blob_indexer-IsExact,
}
use jonoondb.Index.VectorInteger
use jonoondb.Index.Manager.Documents.{DocumentIdGenerator, Inserting, index_documents}
use jonoondb.Index.Manager.Documents.Aligned.{IsCounting, AreAligned, index_documents-AreAligned}
use jonoondb.Prelude.Outcome.{ok}
use jonoondb.Prelude.{length, length-append}
use jonoondb.Prelude.Int.{ℤ, pos, ltb_ℤ}
use jonoondb.Bitmap.Plain.{plain}
use jonoondb.Index.Constraint.{eq_ℤ}
use jonoondb.Index.Manager.Filter.{IsExact}
use jonoondb.Index.Manager.Scanner.{scan_holds}
use jonoondb.Index.VectorDouble.{Doubles}
use jonoondb.Index.VectorDouble.Exact.{
  double_satisfies, double_supports, double_indexer, double_indexer-IsExact,
}
use jonoondb.Index.VectorString.{Text, NumberTexts}
use jonoondb.Index.VectorString.Exact.{
  text_satisfies, text_supports, text_indexer, text_indexer-IsExact,
}

abbrev half_lt : Half → Half → Bool
half_lt a b = ltb_ℤ a.base b.base || (eq_ℤ a.base b.base && not a.more && b.more)

abbrev half_eq : Half → Half → Bool
half_eq a b = not (half_lt a b) && not (half_lt b a)

abbrev half_doubles : Doubles halves
half_doubles = record {
  from_int64 = λ v. record { base = v; more = false };
  lt = half_lt;
  eq = half_eq;
}

-- 0.5 and 2
abbrev two_doubles : List Half
two_doubles = record { base = pos 0; more = true } ∷ record { base = pos 2; more = false } ∷ []

abbrev double_values : String → List Half
double_values column = two_doubles

double_indexer-IsExact_example :
    IsExact plain halves
      (double_supports half_doubles)
      (scan_holds plain halves (double_satisfies half_doubles) double_values)
      "v"
      (double_indexer plain half_doubles two_doubles)
double_indexer-IsExact_example = double_indexer-IsExact plain half_doubles double_values "v"

-- Every number as "7".
abbrev sevens : NumberTexts halves
sevens = record { of_int64 = λ v. 55 ∷ []; of_double = λ d. 55 ∷ [] }

-- "7", a null and "77".
abbrev three_texts : List Text
three_texts = (55 ∷ []) ∷ (0 ∷ 0 ∷ 0 ∷ 0 ∷ []) ∷ (55 ∷ 55 ∷ []) ∷ []

abbrev text_values : String → List Text
text_values column = three_texts

text_indexer-IsExact_example :
    IsExact plain halves
      (text_supports sevens)
      (scan_holds plain halves (text_satisfies sevens) text_values)
      "v"
      (text_indexer plain sevens three_texts)
text_indexer-IsExact_example = text_indexer-IsExact plain sevens text_values "v"

abbrev one_blob : ℕ → Buffer
one_blob x = record { bytes = some (x ∷ []); deleter = standard_delete; len = 1; capacity = 1 }

-- A null and two blobs.
abbrev three_blobs : List Buffer
three_blobs = Buffer.empty ∷ one_blob 7 ∷ one_blob 8 ∷ []

three_blobs-AreValid : AreValid three_blobs
three_blobs-AreValid zero v e = subst IsValid (some_injective e) empty-IsValid
three_blobs-AreValid (suc zero) v e =
    subst IsValid (some_injective e) (record { bounded = omega arith; sized = refl })
three_blobs-AreValid (suc (suc zero)) v e =
    subst IsValid (some_injective e) (record { bounded = omega arith; sized = refl })
three_blobs-AreValid (suc (suc (suc j))) v e = absurd (cc e)

abbrev blob_values : String → List Buffer
blob_values column = three_blobs

blob_indexer-IsExact_example :
    IsExact plain halves blob_supports
      (scan_holds plain halves blob_satisfies blob_values)
      "v"
      (blob_indexer plain halves three_blobs)
blob_indexer-IsExact_example =
    blob_indexer-IsExact plain halves blob_values "v" three_blobs-AreValid

-- Documents that are a number, in the vector index.
abbrev numbers : Inserting (List ℤ) ℤ
numbers = record { insert = λ id v values. (ok tt, VectorInteger.insert values v); size = length }

numbers-IsCounting : IsCounting numbers (λ v. true)
unfolding VectorInteger.insert
numbers-IsCounting = record {
  counts = λ id v values h good.
      (VectorInteger.insert values v, refl, length-append values (v ∷ []) ∙ ap (λ n. n + 1) h);
}

abbrev two_columns : List (String × List (List ℤ))
two_columns = ("a", (pos 5 ∷ []) ∷ []) ∷ ("b", (pos 6 ∷ []) ∷ (pos 7 ∷ []) ∷ []) ∷ []

index_documents-AreAligned_example :
    (g' : DocumentIdGenerator) × ((columns' : List (String × List (List ℤ))) × (index_documents
          numbers
          (record { current_id = 1 })
          (pos 3 ∷ pos 4 ∷ [])
          two_columns
        ≡ (ok 1, (g', columns')))
      × (g'.current_id ≡ 1 + 2)
      × AreAligned numbers g'.current_id columns')
index_documents-AreAligned_example =
    index_documents-AreAligned numbers (λ v. true) numbers-IsCounting (record { current_id = 1 })
      (pos 3 ∷ pos 4 ∷ []) two_columns ((refl, tt), ((refl, (refl, tt)), tt)) (refl, (refl, tt))
      (omega arith)
