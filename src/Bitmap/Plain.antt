-- ===== src/Bitmap/Plain.antt =====
-- A bit array that meets `Ewah`: its size, and a test that counts below it. The witnesses use it.
use jonoondb.Prelude.{
  ℕ, ◌+◌, ◌≤◌, ◌<◌, ◌≡◌, refl, Bool, true, false, not, ◌&&◌, ◌||◌, ltb, ◌==◌, if◌then◌else◌, arith,
}
use jonoondb.Bitmap.{Ewah, ones_from}

pub record Bits : Type 0 where
  pub size : ℕ
  pub holds : ℕ → Bool

abbrev pub bit : Bits → ℕ → Bool
bit a i = ltb i a.size && a.holds i

abbrev pub set_bit : Bits → ℕ → Bits × Bool
set_bit a i =
    if ltb i a.size
    then (a, false)
    else (record { size = i + 1; holds = λ j. if j == i then true else bit a j }, true)

abbrev pub larger : ℕ → ℕ → ℕ
larger m n = if ltb m n then n else m

pub bit-lt : (a : Bits) (i : ℕ) → bit a i ≡ true → i < a.size
bit-lt a i h = ground arith

pub set_bit-refused : (a : Bits) (i : ℕ) → i < a.size → set_bit a i ≡ (a, false)
set_bit-refused a i h = ground arith

pub set_bit-result : (a : Bits) (i : ℕ) → a.size ≤ i → (set_bit a i).1 ≡ true
set_bit-result a i h = ground arith

pub size-set_bit : (a : Bits) (i : ℕ) → a.size ≤ i → (set_bit a i).0.size ≡ i + 1
size-set_bit a i h = ground arith

pub bit-set_bit :
    (a : Bits) (i j : ℕ) → a.size ≤ i → bit (set_bit a i).0 j ≡ (if j == i then true else bit a j)
bit-set_bit a i j h = ground arith

abbrev pub and_bits : Bits → Bits → Bits
and_bits a b = record { size = a.size; holds = λ i. bit a i && bit b i }

abbrev pub or_bits : Bits → Bits → Bits
or_bits a b = record { size = larger a.size b.size; holds = λ i. bit a i || bit b i }

abbrev pub not_bits : Bits → Bits
not_bits a = record { size = a.size; holds = λ i. not (bit a i) }

pub bit-and_bits : (a b : Bits) (i : ℕ) → bit (and_bits a b) i ≡ (bit a i && bit b i)
bit-and_bits a b i = ground arith

pub bit-or_bits : (a b : Bits) (i : ℕ) → bit (or_bits a b) i ≡ (bit a i || bit b i)
bit-or_bits a b i = ground arith

pub bit-not_bits : (a : Bits) (i : ℕ) → bit (not_bits a) i ≡ (ltb i a.size && not (bit a i))
bit-not_bits a i = ground arith

abbrev pub no_bits : Bits
no_bits = record { size = 0; holds = λ i. false }

abbrev pub plain : Ewah
plain = record {
  Array = Bits;
  blank = no_bits;
  test = bit;
  size_in_bits = λ a. a.size;
  set = set_bit;
  reset = λ a. no_bits;
  logical_and = and_bits;
  logical_or = or_bits;
  inplace_logical_not = not_bits;
  positions = λ a. ones_from 0 a.size (bit a);
  test-lt-size = bit-lt;
  size-blank = refl;
  set-refused = set_bit-refused;
  set-result = set_bit-result;
  size-set = size-set_bit;
  test-set = bit-set_bit;
  size-reset = λ a. refl;
  test-logical_and = bit-and_bits;
  size-logical_and = λ a b. refl;
  test-logical_or = bit-or_bits;
  test-not = bit-not_bits;
  size-not = λ a. refl;
  positions_lem = λ a. refl;
}
