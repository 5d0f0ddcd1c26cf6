-- ===== src/Bitmap.antt =====
-- src/jonoondb_api/mama_jennies_bitmap.cc: `MamaJenniesBitmap`, the set of document ids that the
-- indexes and the delete vector work with. It wraps `EWAHBoolArray` of thirdparty/ewah_boolarray,
-- which is the parameter `Ewah`: the calls that the wrapper makes, with the documented behaviour that
-- the code relies on. Copies and moves of a bitmap are values here.
pub mod Combine
pub mod Growth
pub mod Plain
use jonoondb.Prelude.{
  ℕ, zero, suc, ◌+◌, ◌≤◌, ◌<◌, ◌≡◌, List, [], ◌∷◌, ◌++◌, Bool, true, false, not, ◌&&◌, ◌||◌, ltb,
  ◌==◌, if◌then◌else◌,
}
use jonoondb.Prelude.Outcome.{Outcome, ok, throw, ◌>>=◌, jonoondb_error}

-- The places below `n` at which a test holds, in increasing order.
unfoldable pub ones_from : ℕ → ℕ → (ℕ → Bool) → List ℕ
ones_from i zero p = []
ones_from i (suc n) p = let rest = ones_from (i + 1) n p in if p i then i ∷ rest else rest

pub record Ewah : Type 1 where
  pub Array : Type 0
  -- A default-constructed array.
  pub blank : Array
  pub test : Array → ℕ → Bool
  pub size_in_bits : Array → ℕ
  -- `set`: the array after the call, and its result.
  pub set : Array → ℕ → Array × Bool
  pub reset : Array → Array
  -- The container after `a.logicaland(b, container)`, and likewise below.
  pub logical_and : Array → Array → Array
  pub logical_or : Array → Array → Array
  pub inplace_logical_not : Array → Array
  -- What an iteration from `begin` to `end` gives.
  pub positions : Array → List ℕ
  pub test-lt-size : (a : Array) (i : ℕ) → test a i ≡ true → i < size_in_bits a
  pub size-blank : size_in_bits blank ≡ 0
  -- Bits are set in increasing order: below the size `set` does nothing and says so.
  pub set-refused : (a : Array) (i : ℕ) → i < size_in_bits a → set a i ≡ (a, false)
  pub set-result : (a : Array) (i : ℕ) → size_in_bits a ≤ i → (set a i).1 ≡ true
  pub size-set : (a : Array) (i : ℕ) → size_in_bits a ≤ i → size_in_bits (set a i).0 ≡ i + 1
  pub test-set :
      (a : Array) (i j : ℕ)
      → size_in_bits a ≤ i
      → test (set a i).0 j ≡ (if j == i then true else test a j)
  pub size-reset : (a : Array) → size_in_bits (reset a) ≡ 0
  pub test-logical_and : (a b : Array) (i : ℕ) → test (logical_and a b) i ≡ (test a i && test b i)
  pub size-logical_and : (a b : Array) → size_in_bits (logical_and a b) ≡ size_in_bits a
  pub test-logical_or : (a b : Array) (i : ℕ) → test (logical_or a b) i ≡ (test a i || test b i)
  pub test-not :
      (a : Array) (i : ℕ)
      → test (inplace_logical_not a) i ≡ (ltb i (size_in_bits a) && not (test a i))
  pub size-not : (a : Array) → size_in_bits (inplace_logical_not a) ≡ size_in_bits a
  pub positions_lem : (a : Array) → positions a ≡ ones_from 0 (size_in_bits a) (test a)

module _ (w : Ewah) where
  open w use {
    Array, blank, size_in_bits, set, reset, logical_and, logical_or, inplace_logical_not, positions,
  }

  abbrev pub Bitmap : Type 0
  Bitmap = Array

  abbrev pub added : Array × Bool → Outcome Array
  added (a, true) = ok a
  added (a, false) = throw jonoondb_error

  -- `Add`
  unfoldable pub add : Bitmap → ℕ → Outcome Bitmap
  add b x = added (set b x)

  -- `Add` in a loop over increasing ids.
  unfoldable pub add_all : Bitmap → List ℕ → Outcome Bitmap
  unfolding add
  add_all b [] = ok b
  add_all b (x ∷ xs) = add b x >>= λ b'. add_all b' xs

  -- `Empty`
  unfoldable pub is_empty : Bitmap → Bool
  is_empty b = size_in_bits b == 0

  -- The loop of the static `LogicalAND`: the two bitmaps that take turns as its output, and which of
  -- them is next (`flipper`: `b2`). It stops early at an empty result.
  unfoldable pub and_loop : List Bitmap → Bitmap → Bitmap → Bitmap → Bool → Bitmap
  and_loop [] combined b1 b2 flipper = if flipper then b1 else b2
  and_loop (x ∷ xs) combined b1 b2 flipper =
      let output = logical_and x combined in
      let b1' = if flipper then b1 else output in
      let b2' = if flipper then output else b2 in
      let flipped = not flipper in
      let combined' = if flipped then b1' else b2' in
      let rest = and_loop xs combined' b1' b2' flipped in
      if size_in_bits combined' == 0 then (if flipped then b1' else b2') else rest

  -- `LogicalAND` of a vector of bitmaps.
  unfoldable pub logical_and_all : List Bitmap → Bitmap
  unfolding and_loop
  logical_and_all [] = blank
  logical_and_all (b ∷ []) = b
  logical_and_all (b ∷ c ∷ bs) = and_loop (c ∷ bs) b blank blank true

  unfoldable pub or_loop : List Bitmap → Bitmap → Bitmap → Bitmap → Bool → Bitmap
  or_loop [] combined b1 b2 flipper = if flipper then b1 else b2
  or_loop (x ∷ xs) combined b1 b2 flipper =
      let output = logical_or x combined in
      let b1' = if flipper then b1 else output in
      let b2' = if flipper then output else b2 in
      let flipped = not flipper in or_loop xs (if flipped then b1' else b2') b1' b2' flipped

  -- `LogicalOR` of a vector of bitmaps.
  unfoldable pub logical_or_all : List Bitmap → Bitmap
  unfolding or_loop
  logical_or_all [] = blank
  logical_or_all (b ∷ []) = b
  logical_or_all (b ∷ c ∷ bs) = or_loop (c ∷ bs) b blank blank true
