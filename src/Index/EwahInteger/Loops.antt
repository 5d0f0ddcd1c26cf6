-- ===== src/Index/EwahInteger/Loops.antt =====
-- ewah_compressed_bitmap_indexer_integer.h: the loops over the map collect the bitmaps of the values
-- that pass a test.
use jonoondb.Prelude.{
  ◌≤◌, ℕ, ◌≡◌, refl, [], ◌∷◌, Bool, true, false, not, ◌&&◌, ◌||◌, arith, Bool-cases, inl, inr,
}
use jonoondb.Prelude.Int.{ℤ, ltb_ℤ}
use jonoondb.Bitmap.{Ewah}
use jonoondb.Bitmap.Combine.{in_some}
use jonoondb.Index.Constraint.{eq_ℤ}
use jonoondb.Index.EwahInteger.{
  CompressedBitmaps, find_bitmap, from_upper_bound, from_lower_bound, push_all, push_less,
  push_range,
}

module _ (w : Ewah) where
  open w use {test}

  -- Whether the document is in the bitmap of a value that passes the test.
  unfoldable pub matched : (ℤ → Bool) → CompressedBitmaps w → ℕ → Bool
  matched p [] j = false
  matched p ((k, b) ∷ m) j = p k && test b j || matched p m j

  -- Every key is larger.
  abbrev pub IsAbove : ℤ → CompressedBitmaps w → Type 0
  IsAbove i [] = Unit {0}
  IsAbove i ((k, b) ∷ m) = (ltb_ℤ i k ≡ true) × IsAbove i m

  -- The keys are increasing.
  abbrev pub IsOrdered : CompressedBitmaps w → Type 0
  IsOrdered [] = Unit {0}
  IsOrdered ((k, b) ∷ m) = IsAbove k m × IsOrdered m

  -- Every bitmap ends at the id or before it.
  abbrev pub IsFilled : ℕ → CompressedBitmaps w → Type 0
  IsFilled n [] = Unit {0}
  IsFilled n ((k, b) ∷ m) = (w.size_in_bits b ≤ n) × IsFilled n m

  pub IsAbove-trans :
      (i k : ℤ) (m : CompressedBitmaps w) → ltb_ℤ i k ≡ true → IsAbove k m → IsAbove i m
  IsAbove-trans i k [] h a = tt
  IsAbove-trans i k ((l, b) ∷ m) h a = (ground arith, IsAbove-trans i k m h a.1)

  -- Tests that agree on the larger keys.
  pub matched-eq :
      (p q : ℤ → Bool) (i : ℤ) (m : CompressedBitmaps w) (j : ℕ)
      → ((k : ℤ) → ltb_ℤ i k ≡ true → p k ≡ q k)
      → IsAbove i m
      → matched p m j ≡ matched q m j
  unfolding matched
  matched-eq p q i [] j h a = refl
  matched-eq p q i ((k, b) ∷ m) j h a = rw (h k a.0, matched-eq p q i m j h a.1)

  pub matched-none :
      (p : ℤ → Bool) (i : ℤ) (m : CompressedBitmaps w) (j : ℕ)
      → ((k : ℤ) → ltb_ℤ i k ≡ true → p k ≡ false)
      → IsAbove i m
      → matched p m j ≡ false
  unfolding matched
  matched-none p i [] j h a = refl
  matched-none p i ((k, b) ∷ m) j h a = ground (arith, h k a.0, matched-none p i m j h a.1)

  pub in_some-push_all :
      (m : CompressedBitmaps w) (j : ℕ) → in_some w (push_all w m) j ≡ matched (λ k. true) m j
  unfolding matched in_some push_all
  in_some-push_all [] j = refl
  in_some-push_all ((k, b) ∷ m) j = rw (in_some-push_all m j)

  -- From the upper bound of a value on there are the larger keys, and from its lower bound on those
  -- that are not smaller.
  pub matched-from_upper_bound :
      (v : ℤ) (q : ℤ → Bool) (m : CompressedBitmaps w) (j : ℕ)
      → IsOrdered m
      → matched q (from_upper_bound w v m) j ≡ matched (λ k. ltb_ℤ v k && q k) m j
  unfolding matched from_upper_bound
  matched-from_upper_bound v q [] j o = refl
  matched-from_upper_bound v q ((k, b) ∷ m) j o = elim (Bool-cases (ltb_ℤ v k)) [
    | inl above ↦
        rw above (rw (matched-eq q (λ l. ltb_ℤ v l && q l) k m j (λ l h. ground arith) o.0))
    | inr below ↦ rw below (matched-from_upper_bound v q m j o.1)
  ]

  pub matched-from_lower_bound :
      (v : ℤ) (q : ℤ → Bool) (m : CompressedBitmaps w) (j : ℕ)
      → IsOrdered m
      → matched q (from_lower_bound w v m) j ≡ matched (λ k. not (ltb_ℤ k v) && q k) m j
  unfolding matched from_lower_bound
  matched-from_lower_bound v q [] j o = refl
  matched-from_lower_bound v q ((k, b) ∷ m) j o = elim (Bool-cases (ltb_ℤ k v)) [
    | inl below ↦ rw below (matched-from_lower_bound v q m j o.1)
    | inr above ↦
        rw above (rw (matched-eq q (λ l. not (ltb_ℤ l v) && q l) k m j (λ l h. ground arith) o.0))
  ]

  pub from_upper_bound-IsOrdered :
      (v : ℤ) (m : CompressedBitmaps w) → IsOrdered m → IsOrdered (from_upper_bound w v m)
  unfolding from_upper_bound
  from_upper_bound-IsOrdered v [] o = tt
  from_upper_bound-IsOrdered v ((k, b) ∷ m) o = elim (Bool-cases (ltb_ℤ v k)) [
    | inl above ↦ rw above o
    | inr below ↦ rw below (from_upper_bound-IsOrdered v m o.1)
  ]

  pub from_lower_bound-IsOrdered :
      (v : ℤ) (m : CompressedBitmaps w) → IsOrdered m → IsOrdered (from_lower_bound w v m)
  unfolding from_lower_bound
  from_lower_bound-IsOrdered v [] o = tt
  from_lower_bound-IsOrdered v ((k, b) ∷ m) o = elim (Bool-cases (ltb_ℤ k v)) [
    | inl below ↦ rw below (from_lower_bound-IsOrdered v m o.1)
    | inr above ↦ rw above o
  ]

  -- For a test that fails for good at its first failure.
  pub in_some-push_range :
      (below same : ℤ → Bool) (or_equal : Bool) (m : CompressedBitmaps w) (j : ℕ)
      → ((k l : ℤ) → ltb_ℤ k l ≡ true → below k ≡ false → below l ≡ false)
      → IsOrdered m
      → in_some w (push_range w below or_equal same m) j
        ≡ matched (λ k. below k || or_equal && same k) m j
  unfolding matched in_some push_range
  in_some-push_range below same or_equal [] j h o = refl
  in_some-push_range below same true ((k, b) ∷ m) j h o =
      ground (arith, in_some-push_range below same true m j h o.1)
  in_some-push_range below same false ((k, b) ∷ m) j h o = elim (Bool-cases (below k)) [
    | inl yes_below ↦ rw yes_below (rw (in_some-push_range below same false m j h o.1))
    | inr stop ↦
        let later =
          matched-none (λ l. below l || false && same l) k m j (λ l g. ground (arith, h k l g stop))
            o.0 in
        rw stop (ground (arith, later))
  ]

  pub in_some-find_bitmap :
      (v : ℤ) (m : CompressedBitmaps w) (j : ℕ)
      → IsOrdered m
      → in_some w (find_bitmap w v m) j ≡ matched (λ k. eq_ℤ k v) m j
  unfolding matched in_some find_bitmap
  in_some-find_bitmap v [] j o = refl
  in_some-find_bitmap v ((k, b) ∷ m) j o = elim (Bool-cases (eq_ℤ k v)) [
    | inl here ↦
        let later = matched-none (λ l. eq_ℤ l v) k m j (λ l h. ground arith) o.0 in
        rw here (ground (arith, later))
    | inr other ↦ rw other (in_some-find_bitmap v m j o.1)
  ]

  -- A test that no key passes from the first failure on, but for the key of the failure itself.
  pub in_some-push_less :
      (below also : ℤ → Bool) (m : CompressedBitmaps w) (j : ℕ)
      → ((k l : ℤ) → ltb_ℤ k l ≡ true → below k ≡ false → (below l || also l) ≡ false)
      → IsOrdered m
      → in_some w (push_less w below also m) j ≡ matched (λ k. below k || also k) m j
  unfolding matched in_some push_less
  in_some-push_less below also [] j h o = refl
  in_some-push_less below also ((k, b) ∷ m) j h o = elim (Bool-cases (below k)) [
    | inl yes_below ↦ rw yes_below (rw (in_some-push_less below also m j h o.1))
    | inr from_here ↦
        let later = matched-none (λ l. below l || also l) k m j (λ l g. h k l g from_here) o.0 in
        rw from_here (ground (arith, later))
  ]
