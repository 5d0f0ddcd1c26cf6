-- ===== src/Tests/Ewah.antt =====
-- The map of bitmaps, with the array of `Bitmap.Plain` and the doubles of `Tests.Halves`.
use jonoondb.Prelude.{ℕ, zero, suc, ◌≡◌, refl, [], ◌∷◌, Bool, ◌&&◌, ◌==◌, arith}
use jonoondb.Prelude.Int.{ℤ, pos}
use jonoondb.Prelude.Outcome.{ok}
use jonoondb.Bitmap.Plain.{Bits, plain}
use jonoondb.Index.Constraint.{satisfies, is_lower, is_upper}
use jonoondb.Index.VectorInteger.{insert}
use jonoondb.Index.VectorInteger.Scan.{selected}
use jonoondb.Index.VectorInteger.Filter.{Answers}
use jonoondb.Index.VectorInteger.Range.{is_comparison}
use jonoondb.Index.EwahInteger.{CompressedBitmaps, insert_value, filter_ewah, filter_range_ewah}
use jonoondb.Index.EwahInteger.Loops.{matched}
use jonoondb.Index.EwahInteger.Filter.{IsIndexOf, is_number, filter_ewah-satisfies}
use jonoondb.Index.EwahInteger.Insert.{insert_value-IsIndexOf}
use jonoondb.Index.EwahInteger.Range.{filter_range_ewah-satisfies}
use jonoondb.Tests.Halves.{halves, at_most_3, above_1, at_most_2_0}

abbrev just_0 : Bits
just_0 = record { size = 1; holds = λ i. i == 0 }

-- One document, with the value 2.
abbrev only_two : CompressedBitmaps plain
only_two = (pos 2, just_0) ∷ []

two_matches : (p : ℤ → Bool) (j : ℕ) → matched plain p only_two j ≡ selected p (pos 2 ∷ []) j
unfolding matched selected
two_matches p zero = ground arith
two_matches p (suc j) = ground arith

two-IsIndexOf : IsIndexOf plain only_two (pos 2 ∷ [])
two-IsIndexOf = record { ordered = (tt, tt); filled = (omega arith, tt); matches = two_matches }

filter_ewah-satisfies_example :
    Answers plain halves
      (filter_ewah plain halves only_two at_most_2_0)
      (satisfies halves at_most_2_0)
      (pos 2 ∷ [])
unfolding is_comparison is_number
filter_ewah-satisfies_example =
    filter_ewah-satisfies plain halves only_two (pos 2 ∷ []) at_most_2_0 two-IsIndexOf refl refl

filter_range_ewah-satisfies_example :
    Answers plain halves
      (filter_range_ewah plain halves only_two above_1 at_most_3)
      (λ v. satisfies halves above_1 v && satisfies halves at_most_3 v)
      (pos 2 ∷ [])
unfolding is_lower is_upper is_number
filter_range_ewah-satisfies_example =
    filter_range_ewah-satisfies plain halves only_two (pos 2 ∷ []) above_1 at_most_3 two-IsIndexOf
      refl refl refl refl

insert_value-IsIndexOf_example :
    (m : CompressedBitmaps plain) × (insert_value plain (pos 1) 1 only_two ≡ ok m)
    × IsIndexOf plain m (insert (pos 2 ∷ []) (pos 1))
insert_value-IsIndexOf_example =
    insert_value-IsIndexOf plain only_two (pos 2 ∷ []) (pos 1) two-IsIndexOf
