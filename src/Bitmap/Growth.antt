-- ===== src/Bitmap/Growth.antt =====
-- mama_jennies_bitmap.cc: `Add` wants increasing ids.
use jonoondb.Prelude.{
  ℕ, ◌+◌, ◌≤◌, ◌<◌, ◌≡◌, refl, ◌∙◌, List, [], ◌∷◌, Bool, true, false, ◌||◌, arith, ◌==◌,
  if◌then◌else◌,
}
use jonoondb.Prelude.Outcome.{ok, throw, jonoondb_error}
use jonoondb.Bitmap.{Ewah, Bitmap, add, added, add_all}

-- Whether a list holds a number.
unfoldable pub member : ℕ → List ℕ → Bool
member i [] = false
member i (x ∷ xs) = i == x || member i xs

-- Each id is at least the bound, and the next bound is behind it.
abbrev pub IsIncreasing : ℕ → List ℕ → Type 0
IsIncreasing n [] = Unit {0}
IsIncreasing n (x ∷ xs) = (n ≤ x) × IsIncreasing (x + 1) xs

-- One past the last id, or the bound if there is none.
unfoldable pub end_of : ℕ → List ℕ → ℕ
end_of n [] = n
end_of n (x ∷ xs) = end_of (x + 1) xs

module _ (w : Ewah) where
  open w use {test, size_in_bits, set, set-refused, set-result, size-set, test-set}

  -- `Add` takes an id at or above the size, which becomes one more than the id, and adds that id alone.
  -- It throws for an id below the size.
  pub add_cases :
      (b : Bitmap w) (x : ℕ)
      → (size_in_bits b ≤ x
          → (b' : Bitmap w) × (add w b x ≡ ok b')
            × (size_in_bits b' ≡ x + 1)
            × ((j : ℕ) → test b' j ≡ (if j == x then true else test b j)))
        × (x < size_in_bits b → add w b x ≡ throw jonoondb_error)
  unfolding add
  add_cases b x = (
    λ h.
        ((set b x).0, accepted (set b x) (set-result b x h), size-set b x h, λ j. test-set b x j h),
    λ h. rw (set-refused b x h),
  )
    where
      accepted : (r : Bitmap w × Bool) → r.1 ≡ true → added w r ≡ ok r.0
      accepted (a, true) h = refl
      accepted (a, false) h = cc

  -- Increasing ids from the size on are all added, and nothing else.
  pub add_all-increasing :
      (b : Bitmap w) (xs : List ℕ)
      → IsIncreasing (size_in_bits b) xs
      → (b' : Bitmap w) × (add_all w b xs ≡ ok b')
        × (size_in_bits b' ≡ end_of (size_in_bits b) xs)
        × ((j : ℕ) → test b' j ≡ (test b j || member j xs))
  unfolding add_all end_of member
  add_all-increasing b [] h = (b, refl, refl, λ j. ground arith)
  add_all-increasing b (x ∷ xs) h =
      let (b1, adds, size1, test1) = (add_cases b x).0 h.0 in
      let (b2, rest, size2, test2) = add_all-increasing b1 xs (rw size1 h.1) in
      (b2, rw adds rest, size2 ∙ rw size1, λ j. ground (arith, test1 j, test2 j))
