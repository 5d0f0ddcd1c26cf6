-- ===== src/Index/Manager/Filter.antt =====
-- index_manager.cc: `Filter` answers the conjunction of its constraints.
use Prim.Native.String.{String}
use text.Mathlib.TextEquality.{eq_iff}
use jonoondb.Prelude.{
  ℕ, ◌≡◌, refl, sym, ◌∙◌, List, [], ◌∷◌, some, Bool, true, false, ◌&&◌, arith, Bool-cases, inl, inr,
}
use jonoondb.Prelude.Outcome.{Outcome, ok}
use jonoondb.Bitmap.{Ewah, Bitmap, logical_and_all}
use jonoondb.Bitmap.Combine.{in_all, logical_and_all-in_all}
use jonoondb.Index.Constraint.{Floats, Constraint, is_lower, is_upper}
use jonoondb.Index.Manager.{
  same_name, Indexer, ColumnIndexerMap, find_indexer, is_range, filter_each, filter_all,
}

abbrev is_nil {ℓ} : {A : Type ℓ} → List A → Bool
is_nil [] = true
is_nil (x ∷ xs) = false

module _ (w : Ewah) (f : Floats) where
  open w use {test}

  -- What an indexer promises for the constraints on its column that it supports: `Filter` returns the
  -- ids of the documents that satisfy the constraint, and `FilterRange` those that satisfy both.
  pub record IsExact (supports : Constraint f → Bool) (holds : Constraint f → ℕ → Bool)
      (column : String) (indexer : Indexer w f) : Type 0 where
    pub answers :
        (c : Constraint f)
        → c.column_name ≡ column
        → supports c ≡ true
        → (b : Bitmap w) × (indexer.filter c ≡ ok b) × ((j : ℕ) → test b j ≡ holds c j)
    pub answers_range :
        (c d : Constraint f)
        → c.column_name ≡ column
        → d.column_name ≡ column
        → is_lower c.op ≡ true
        → is_upper d.op ≡ true
        → supports c ≡ true
        → supports d ≡ true
        → (b : Bitmap w) × (indexer.filter_range c d ≡ ok b)
          × ((j : ℕ) → test b j ≡ (holds c j && holds d j))

  module _ (supports : Constraint f → Bool) (holds : Constraint f → ℕ → Bool) where
    -- The document satisfies every constraint.
    unfoldable pub all_hold : List (Constraint f) → ℕ → Bool
    all_hold [] j = true
    all_hold (c ∷ cs) j = holds c j && all_hold cs j

    -- Each constraint has a column whose first indexer is exact, and is supported.
    abbrev pub IsAnswerable : ColumnIndexerMap w f → List (Constraint f) → Type 0
    IsAnswerable columns [] = Unit {0}
    IsAnswerable columns (c ∷ cs) =
        ((indexer : Indexer w f) × (find_indexer w f columns c.column_name ≡ some indexer)
          × IsExact supports holds c.column_name indexer
          × (supports c ≡ true))
        × IsAnswerable columns cs

    range_parts :
        (c d : Constraint f)
        → is_range w f c d ≡ true
        → (d.column_name ≡ c.column_name) × (is_lower c.op ≡ true) × (is_upper d.op ≡ true)
    unfolding is_range
    range_parts c d h =
        let same : same_name c.column_name d.column_name ≡ true = ground arith in
        (sym ((eq_iff c.column_name d.column_name).0 same), ground arith, ground arith)

    -- The bitmaps of the loop stand for the constraints, and there is one if there is a constraint.
    filter_each-all_hold :
        (columns : ColumnIndexerMap w f) (cs : List (Constraint f))
        → IsAnswerable columns cs
        → (bs : List (Bitmap w)) × (filter_each w f columns cs ≡ ok bs)
          × (is_nil bs ≡ is_nil cs)
          × ((j : ℕ) → in_all w bs j ≡ all_hold cs j)
    unfolding filter_each in_all all_hold
    filter_each-all_hold columns [] _ = ([], refl, refl, λ j. refl)
    filter_each-all_hold columns (c ∷ []) ((indexer, finds, exact, good), _) =
        let (b, done, tests) = exact.answers c refl good in
        (b ∷ [], rw (finds, done), refl, λ j. rw (tests j))
    filter_each-all_hold columns (c ∷ d ∷ cs) ((indexer, finds, exact, good), (at_d, more)) =
        let (bs1, done1, _, tests1) = filter_each-all_hold columns (d ∷ cs) (at_d, more) in
        let (bs2, done2, _, tests2) = filter_each-all_hold columns cs more in
        elim (Bool-cases (is_range w f c d)) [
          | inl range ↦
              let (same, l, u) = range_parts c d range in
              let (b, done, tests) = exact.answers_range c d refl same l u good at_d.3 in
              (
                b ∷ bs2,
                rw (finds, range, done, done2),
                refl,
                λ j. ground (arith, tests j, tests2 j),
              )
          | inr single ↦
              let (b, done, tests) = exact.answers c refl good in
              (
                b ∷ bs1,
                rw (finds, single, done, done1),
                refl,
                λ j. ground (arith, tests j, tests1 j),
              )
        ]

    -- For one constraint or more, each on a column whose first indexer is exact and supports it,
    -- `Filter` returns, and the bitmap holds exactly the ids of the documents that satisfy every
    -- constraint, however adjacent constraints are answered as one range.
    pub filter_all-all_hold :
        (columns : ColumnIndexerMap w f) (c : Constraint f) (cs : List (Constraint f))
        → IsAnswerable columns (c ∷ cs)
        → (b : Bitmap w) × (filter_all w f columns (c ∷ cs) ≡ ok b)
          × ((j : ℕ) → test b j ≡ all_hold (c ∷ cs) j)
    unfolding filter_all
    filter_all-all_hold columns c cs h =
        let (bs, done, some_bitmap, tests) = filter_each-all_hold columns (c ∷ cs) h in
        rw done (go bs some_bitmap tests)
      where
        go :
            (bs : List (Bitmap w))
            → is_nil bs ≡ false
            → ((j : ℕ) → in_all w bs j ≡ all_hold (c ∷ cs) j)
            → (b : Bitmap w) × (Outcome.ok (logical_and_all w bs) ≡ ok b)
              × ((j : ℕ) → test b j ≡ all_hold (c ∷ cs) j)
        go [] e _ = absurd (cc)
        go (b ∷ bs) _ tests =
            (logical_and_all w (b ∷ bs), refl, λ j. (logical_and_all-in_all w b bs j).0 ∙ tests j)
