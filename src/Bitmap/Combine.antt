-- ===== src/Bitmap/Combine.antt =====
-- mama_jennies_bitmap.cc: the static `LogicalAND` and `LogicalOR` of many bitmaps.
use jonoondb.Prelude.{ℕ, ◌≡◌, List, [], ◌∷◌, Bool, true, false, ◌&&◌, ◌||◌, arith}
use jonoondb.Bitmap.{Ewah, Bitmap, and_loop, or_loop, logical_and_all, logical_or_all}

module _ (w : Ewah) where
  open w use {
    test, test-lt-size, size_in_bits, test-logical_and, test-logical_or, blank, size-blank,
  }

  -- In every bitmap, and in some bitmap.
  unfoldable pub in_all : List (Bitmap w) → ℕ → Bool
  in_all [] i = true
  in_all (b ∷ bs) i = test b i && in_all bs i

  unfoldable pub in_some : List (Bitmap w) → ℕ → Bool
  in_some [] i = false
  in_some (b ∷ bs) i = test b i || in_some bs i

  pub nothing_in_empty : (b : Bitmap w) (i : ℕ) → size_in_bits b ≡ 0 → test b i ≡ false
  nothing_in_empty b i h = ground (arith, test-lt-size b i)

  pub nothing_in_blank : (i : ℕ) → test blank i ≡ false
  nothing_in_blank i = nothing_in_empty blank i size-blank

  -- The loop holds its result so far in `b1` if the flag is set, else in `b2`.
  and_loop_lem :
      (xs : List (Bitmap w)) (combined b1 b2 : Bitmap w) (i : ℕ)
      → (test (and_loop w xs combined b1 combined false) i ≡ (test combined i && in_all xs i))
        × (test (and_loop w xs combined combined b2 true) i ≡ (test combined i && in_all xs i))
  unfolding and_loop in_all
  and_loop_lem [] combined b1 b2 i = (ground arith, ground arith)
  and_loop_lem (x ∷ xs) combined b1 b2 i =
      let next = w.logical_and x combined in
      let law = test-logical_and x combined i in
      let (ih0, ih1) = and_loop_lem xs next combined combined i in
      (
        ground (arith, law, ih1, nothing_in_empty next i),
        ground (arith, law, ih0, nothing_in_empty next i),
      )

  or_loop_lem :
      (xs : List (Bitmap w)) (combined b1 b2 : Bitmap w) (i : ℕ)
      → (test (or_loop w xs combined b1 combined false) i ≡ (test combined i || in_some xs i))
        × (test (or_loop w xs combined combined b2 true) i ≡ (test combined i || in_some xs i))
  unfolding or_loop in_some
  or_loop_lem [] combined b1 b2 i = (ground arith, ground arith)
  or_loop_lem (x ∷ xs) combined b1 b2 i =
      let next = w.logical_or x combined in
      let law = test-logical_or x combined i in
      let (ih0, ih1) = or_loop_lem xs next combined combined i in
      (ground (arith, law, ih1), ground (arith, law, ih0))

  -- `LogicalAND` of one bitmap or more holds an id exactly when all of them do, with the break at an
  -- empty result and the two output bitmaps that take turns. Of no bitmaps it is empty.
  pub logical_and_all-in_all :
      (b : Bitmap w) (bs : List (Bitmap w)) (i : ℕ)
      → (test (logical_and_all w (b ∷ bs)) i ≡ in_all (b ∷ bs) i)
        × (test (logical_and_all w []) i ≡ false)
  unfolding logical_and_all in_all and_loop
  logical_and_all-in_all b [] i = (ground arith, nothing_in_empty blank i size-blank)
  logical_and_all-in_all b (c ∷ bs) i =
      let next = w.logical_and c b in
      (
        ground (
          arith,
          test-logical_and c b i,
          (and_loop_lem bs next blank blank i).0,
          nothing_in_empty next i,
        ),
        nothing_in_empty blank i size-blank,
      )

  -- `LogicalOR` holds an id exactly when one of the bitmaps does, for any number of them.
  pub logical_or_all-in_some :
      (bs : List (Bitmap w)) (i : ℕ) → test (logical_or_all w bs) i ≡ in_some bs i
  unfolding logical_or_all in_some or_loop
  logical_or_all-in_some [] i = nothing_in_empty blank i size-blank
  logical_or_all-in_some (b ∷ []) i = ground arith
  logical_or_all-in_some (b ∷ c ∷ bs) i =
      ground (arith, test-logical_or c b i, (or_loop_lem bs (w.logical_or c b) blank blank i).0)
