-- ===== src/Index/VectorInteger/Scan.antt =====
-- vector_integer_indexer.h: the scanning loop adds exactly the ids whose values pass, and never throws.
use jonoondb.Prelude.{
  ℕ, zero, suc, ◌+◌, ◌≤◌, ◌<◌, ◌≡◌, refl, ◌∙◌, List, [], ◌∷◌, Option, none, some, Bool, false, ◌&&◌,
  ◌||◌, ◌==◌, arith, get_elem?, Bool-cases, inl, inr,
}
use jonoondb.Prelude.Outcome.{ok}
use jonoondb.Bitmap.{Ewah, Bitmap}
use jonoondb.Bitmap.Growth.{add_cases}
use jonoondb.Index.Constraint.{Floats}
use jonoondb.Index.VectorInteger.{scan}

-- Whether there is a value for the id and it passes the test.
abbrev pub passes : {A : Type 0} → (A → Bool) → Option A → Bool
passes p none = false
passes p (some v) = p v

unfoldable pub selected : {A : Type 0} → (A → Bool) → List A → ℕ → Bool
selected p values j = passes p (get_elem? values j)

-- The same for ids that count from `i`.
selected_from : {A : Type 0} → (A → Bool) → ℕ → List A → ℕ → Bool
selected_from p i [] j = false
selected_from p i (v ∷ values) j = j == i && p v || selected_from p (i + 1) values j

selected_from-below :
    {A : Type 0} (p : A → Bool) (i : ℕ) (values : List A) (j : ℕ)
    → j < i
    → selected_from p i values j ≡ false
unfolding selected_from
selected_from-below p i [] j h = refl
selected_from-below p i (v ∷ values) j h = ground (arith, selected_from-below p (i + 1) values j)

selected_from-selected :
    {A : Type 0} (p : A → Bool) (i : ℕ) (values : List A) (k : ℕ)
    → selected_from p i values (i + k) ≡ selected p values k
unfolding selected_from selected
selected_from-selected p i [] k = refl
selected_from-selected p i (v ∷ values) zero =
    ground (arith, selected_from-below p (i + 1) values (i + 0))
selected_from-selected p i (v ∷ values) (suc k) =
    let step : i + 1 + k ≡ i + suc k = omega arith in
    let rest = rw step at (selected_from-selected p (i + 1) values k) in ground (arith, rest)

module _ (w : Ewah) (f : Floats) where
  open w use {test, size_in_bits, size-blank, test-lt-size, blank}

  scan_from :
      {A : Type 0} (p : A → Bool) (i : ℕ) (values : List A) (b : Bitmap w)
      → size_in_bits b ≤ i
      → (b' : Bitmap w) × (scan w f p i values b ≡ ok b')
        × ((j : ℕ) → test b' j ≡ (test b j || selected_from p i values j))
  unfolding scan selected_from
  scan_from p i [] b h = (b, refl, λ j. ground arith)
  scan_from p i (v ∷ values) b h = elim (Bool-cases (p v)) [
    | inl hit ↦
        let (b1, adds, size1, test1) = (add_cases w b i).0 h in
        let (b2, rest, test2) = scan_from p (i + 1) values b1 (omega arith) in
        (b2, rw (hit, adds) rest, λ j. ground (arith, test1 j, test2 j))
    | inr miss ↦
        let (b2, rest, test2) = scan_from p (i + 1) values b (omega arith) in
        (b2, rw miss rest, λ j. ground (arith, test2 j))
  ]

  pub scan_lem :
      {A : Type 0} (p : A → Bool) (values : List A)
      → (b : Bitmap w) × (scan w f p 0 values blank ≡ ok b)
        × ((j : ℕ) → test b j ≡ selected p values j)
  scan_lem p values =
      let start : size_in_bits blank ≤ 0 = omega (arith, size-blank) in
      let (b, done, tests) = scan_from p 0 values blank start in
      (b, done, λ j. tests j ∙ from_blank j)
    where
      from_blank : (j : ℕ) → (test blank j || selected_from p 0 values j) ≡ selected p values j
      from_blank j =
          let zero_add : 0 + j ≡ j = omega arith in
          let meets = rw zero_add at (selected_from-selected p 0 values j) in
          ground (arith, meets, test-lt-size blank j, size-blank)
