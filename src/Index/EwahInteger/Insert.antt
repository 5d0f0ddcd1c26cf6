-- ===== src/Index/EwahInteger/Insert.antt =====
-- ewah_compressed_bitmap_indexer_integer.h: `Insert` keeps the map an index of the values.
use jonoondb.Prelude.{
  ℕ, zero, suc, ◌+◌, ◌≡◌, refl, sym, ◌∙◌, [], ◌∷◌, Bool, true, ◌&&◌, ◌||◌, ◌==◌, arith, length,
  length-append, Bool-cases, inl, inr, subst,
}
use jonoondb.Prelude.Int.{ℤ, ltb_ℤ}
use jonoondb.Prelude.Outcome.{ok}
use jonoondb.Bitmap.{Ewah, Bitmap, add}
use jonoondb.Bitmap.Combine.{nothing_in_blank}
use jonoondb.Bitmap.Growth.{add_cases}
use jonoondb.Index.Constraint.{eq_ℤ}
use jonoondb.Index.VectorInteger.{DataVector, insert}
use jonoondb.Index.VectorInteger.Scan.{selected}
use jonoondb.Index.VectorInteger.Filter.{eq_ℤ→eq}
use jonoondb.Index.EwahInteger.{CompressedBitmaps, insert_value}
use jonoondb.Index.EwahInteger.Loops.{matched, IsAbove, IsOrdered, IsFilled, IsAbove-trans}
use jonoondb.Index.EwahInteger.Filter.{IsIndexOf}

selected-insert :
    (p : ℤ → Bool) (values : DataVector) (v : ℤ) (j : ℕ)
    → selected p (insert values v) j ≡ (selected p values j || j == length values && p v)
unfolding selected insert
selected-insert p [] v zero = refl
selected-insert p [] v (suc j) = ground arith
selected-insert p (x ∷ values) v zero = ground arith
selected-insert p (x ∷ values) v (suc j) = ground (arith, selected-insert p values v j)

module _ (w : Ewah) where
  open w use {test, size_in_bits}

  IsFilled-suc : (n : ℕ) (m : CompressedBitmaps w) → IsFilled w n m → IsFilled w (n + 1) m
  IsFilled-suc n [] h = tt
  IsFilled-suc n ((k, b) ∷ m) h = (omega (arith, h.0), IsFilled-suc n m h.1)

  -- A bitmap of one id.
  single :
      (id : ℕ)
      → (b : Bitmap w) × (add w w.blank id ≡ ok b)
        × (size_in_bits b ≡ id + 1)
        × ((j : ℕ) → test b j ≡ j == id)
  single id =
      let (b, adds, size, tests) = (add_cases w w.blank id).0 (omega (arith, w.size-blank)) in
      (b, adds, size, λ j. ground (arith, tests j, nothing_in_blank w j))

  insert_value_lem :
      (v : ℤ) (id : ℕ) (m : CompressedBitmaps w)
      → IsOrdered w m
      → IsFilled w id m
      → (m' : CompressedBitmaps w) × (insert_value w v id m ≡ ok m')
        × IsOrdered w m'
        × IsFilled w (id + 1) m'
        × ((p : ℤ → Bool) (j : ℕ) → matched w p m' j ≡ (matched w p m j || j == id && p v))
        × ((i : ℤ) → ltb_ℤ i v ≡ true → IsAbove w i m → IsAbove w i m')
  unfolding insert_value matched
  insert_value_lem v id [] o h =
      let (b, adds, size, tests) = single id in
      (
        (v, b) ∷ [],
        rw adds,
        (tt, tt),
        (omega (arith, size), tt),
        λ p j. ground (arith, tests j),
        λ i g a. (g, tt),
      )
  insert_value_lem v id ((k, b) ∷ m) o h = elim (Bool-cases (ltb_ℤ v k)) [
    | inl before ↦
        let (b', adds, size, tests) = single id in
        (
          (v, b') ∷ (k, b) ∷ m,
          rw (before, adds),
          ((before, IsAbove-trans w v k m before o.0), o),
          (omega (arith, size), IsFilled-suc id ((k, b) ∷ m) h),
          λ p j. ground (arith, tests j),
          λ i g a. (g, a),
        )
    | inr behind ↦ elim (Bool-cases (eq_ℤ v k)) [
      | inl same ↦
          let (b', adds, size, tests) = (add_cases w b id).0 h.0 in
          (
            (k, b') ∷ m,
            rw (behind, same, adds),
            o,
            (omega (arith, size), IsFilled-suc id m h.1),
            λ p j. ground (arith, tests j, eq_ℤ→eq v k same),
            λ i g a. a,
          )
      | inr other ↦
          let (m', inserts, o', h', matches, above) = insert_value_lem v id m o.1 h.1 in
          (
            (k, b) ∷ m',
            rw (behind, other, inserts),
            (above k (ground arith) o.0, o'),
            (omega (arith, h.0), h'),
            λ p j. ground (arith, matches p j),
            λ i g a. (a.0, above i g a.1),
          )
    ]
  ]

  -- Inserting the next document and its value into a map that indexes the values before returns, and
  -- the new map indexes the values with the new one.
  pub insert_value-IsIndexOf :
      (m : CompressedBitmaps w) (values : DataVector) (v : ℤ)
      → IsIndexOf w m values
      → (m' : CompressedBitmaps w) × (insert_value w v (length values) m ≡ ok m')
        × IsIndexOf w m' (insert values v)
  unfolding insert
  insert_value-IsIndexOf m values v x =
      let (m', inserts, o, h, matches, _) =
        insert_value_lem v (length values) m x.ordered x.filled in
      (
        m',
        inserts,
        record {
          ordered = o;
          filled = subst (λ n. IsFilled w n m') (sym (length-append values (v ∷ []))) h;
          matches = λ p j. matches p j ∙ rw (x.matches p j, selected-insert p values v j);
        },
      )
