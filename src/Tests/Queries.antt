-- ===== src/Tests/Queries.antt =====
-- Bitmaps, indexes and collections, with the array of `Bitmap.Plain` and the doubles of
-- `Tests.Halves`.
use jonoondb.Tests.Halves.{halves, one_to_four, at_most_3, above_1, at_most_2_0}
use jonoondb.Prelude.{ℕ, ◌+◌, ◌≡◌, refl, List, [], ◌∷◌, true, false, ◌&&◌, ◌==◌, arith, inl}
use jonoondb.Prelude.Int.{ℤ, pos}
use jonoondb.Prelude.Outcome.{ok}
use jonoondb.Bitmap.{Bitmap, logical_and_all}
use jonoondb.Bitmap.Plain.{Bits, bit, plain}
use jonoondb.Bitmap.Combine.{in_all, logical_and_all-in_all}
use jonoondb.Bitmap.Growth.{member, end_of}
use jonoondb.Index.Constraint.{Constraint, satisfies}
use Prim.Native.String.{String}
use jonoondb.Prelude.{Option, some, none, zero, suc, ◌<◌}
use jonoondb.Bitmap.{ones_from}
use jonoondb.Bitmap.Plain.{no_bits}
use jonoondb.DeleteVector.Valid.{IsValid, is_live}
use jonoondb.Collection.{DocumentCollection, filter_documents}
use jonoondb.Collection.Live.{filter_documents-is_live}
use jonoondb.IdSequence.{make_sequence, read_all}
use jonoondb.IdSequence.Chunks.{joined, IsCut, read_all-positions}
use jonoondb.Index.VectorInteger.Scan.{selected}
use jonoondb.Index.Manager.{ColumnIndexerMap, filter_all, find_indexer}
use jonoondb.Index.Manager.Filter.{IsExact, IsAnswerable, all_hold, filter_all-all_hold}
use jonoondb.Index.VectorInteger.Exact.{vector_indexer, supports, holds, vector_indexer-IsExact}
use jonoondb.Index.VectorInteger.{filter}
use jonoondb.Index.VectorInteger.Filter.{Answers, filter-satisfies, is_exact}
use jonoondb.Index.VectorInteger.Range.{or_equal_double_misses, is_comparison}

filter-satisfies_example :
    Answers plain halves
      (filter plain halves one_to_four at_most_3)
      (satisfies halves at_most_3)
      one_to_four
unfolding is_exact is_comparison
filter-satisfies_example = filter-satisfies plain halves at_most_3 one_to_four refl

or_equal_double_misses_example :
    (satisfies halves at_most_2_0 (pos 2) ≡ true)
    × ((b : Bitmap plain) × (filter plain halves one_to_four at_most_2_0 ≡ ok b)
        × (bit b 1 ≡ false))
or_equal_double_misses_example =
    or_equal_double_misses plain halves at_most_2_0 one_to_four 1 (pos 2) (inl refl) refl refl refl

abbrev one_bit : ℕ → Bits
one_bit n = record { size = n + 1; holds = λ i. i == n }

logical_and_all-in_all_example :
    (bit (logical_and_all plain (one_bit 3 ∷ one_bit 2 ∷ one_bit 3 ∷ [])) 3
      ≡ in_all plain (one_bit 3 ∷ one_bit 2 ∷ one_bit 3 ∷ []) 3)
    × (bit (logical_and_all plain []) 3 ≡ false)
logical_and_all-in_all_example =
    logical_and_all-in_all plain (one_bit 3) (one_bit 2 ∷ one_bit 3 ∷ []) 3

abbrev columns : ColumnIndexerMap plain halves
columns = ("v", vector_indexer plain halves one_to_four, []) ∷ []

abbrev values_of : String → List ℤ
values_of name = one_to_four

vector_indexer-IsExact_example :
    IsExact plain halves
      (supports halves)
      (holds halves values_of)
      "v"
      (vector_indexer plain halves one_to_four)
vector_indexer-IsExact_example = vector_indexer-IsExact plain halves values_of "v"

above_1_and_at_most_3 :
    IsAnswerable plain halves
      (supports halves)
      (holds halves values_of)
      columns
      (above_1 ∷ at_most_3 ∷ [])
unfolding find_indexer is_exact
above_1_and_at_most_3 = (
  (
    vector_indexer plain halves one_to_four,
    refl,
    vector_indexer-IsExact plain halves values_of "v",
    refl,
  ),
  (
    (
      vector_indexer plain halves one_to_four,
      refl,
      vector_indexer-IsExact plain halves values_of "v",
      refl,
    ),
    tt,
  ),
)

filter_all-all_hold_example :
    (b : Bitmap plain) × (filter_all plain halves columns (above_1 ∷ at_most_3 ∷ []) ≡ ok b)
    × ((j : ℕ)
        → bit b j
          ≡ all_hold plain halves
              (supports halves)
              (holds halves values_of)
              (above_1 ∷ at_most_3 ∷ [])
              j)
filter_all-all_hold_example =
    filter_all-all_hold plain halves (supports halves) (holds halves values_of) columns above_1
      (at_most_3 ∷ []) above_1_and_at_most_3

-- `Collection.Filter` on the four documents, of which the third is deleted.
abbrev four : DocumentCollection plain halves (Option Bits)
four = record {
  index_manager = columns;
  document_count = 4;
  delete_vector = record {
    deleted_doc_ids = 2 ∷ [];
    delete_vec_bitmap = no_bits;
    serialization_bitmap = one_bit 2;
    is_dirty = true;
    next_document_id = 4;
    database = none;
  };
}

four-IsValid : IsValid four.delete_vector
unfolding end_of member
four-IsValid = record {
  increasing = (omega arith, tt);
  inserted = omega arith;
  tracked = λ j. ground arith;
  tracked_size = omega arith;
  current = λ dirty. cc;
  sized = λ dirty. cc;
}

only_four : (k : Constraint halves) (j : ℕ) → holds halves values_of k j ≡ true → j < 4
unfolding selected
only_four k zero h = omega arith
only_four k (suc zero) h = omega arith
only_four k (suc (suc zero)) h = omega arith
only_four k (suc (suc (suc zero))) h = omega arith
only_four k (suc (suc (suc (suc j)))) h = cc

filter_documents-is_live_example :
    (b : Bitmap plain) × ((filter_documents plain halves four (above_1 ∷ at_most_3 ∷ [])).1 ≡ ok b)
    × ((j : ℕ)
        → bit b j ≡ (
            is_live 4 (2 ∷ []) j
            && all_hold plain halves
                (supports halves)
                (holds halves values_of)
                (above_1 ∷ at_most_3 ∷ [])
                j))
filter_documents-is_live_example =
    filter_documents-is_live plain halves (supports halves) (holds halves values_of) four
      (above_1 ∷ at_most_3 ∷ []) four-IsValid refl above_1_and_at_most_3 only_four

read_all-positions_example :
    (spans : List (List ℕ)) × (read_all 3 (make_sequence plain (one_bit 2) 4) ≡ some spans)
    × (joined spans ≡ plain.positions (one_bit 2))
    × IsCut 4 spans
unfolding ones_from
read_all-positions_example = read_all-positions plain (one_bit 2) 4 3 (omega arith) (omega arith)
