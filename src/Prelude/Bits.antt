-- ===== src/Prelude/Bits.antt =====
-- Bit operations at variables: the digit recursion of `bit_or`, a sum of disjoint bits,
-- and the masks that the code uses.
use Prim.Native.Nat.{
  ℕ, zero, suc, ◌+◌, ◌*◌, ◌/◌, ◌%◌, ◌^◌, ◌≤◌, ◌<◌, max, bit_and, bit_or, digits, bit_or-bitwise,
  ◌-◌,
}
use mathlib.Core.Path.{◌≡◌, refl, ap, ◌∙◌}
use mathlib.Core.Bool.{Bool, true, ◌&&◌}
use native.Mathlib.Omega.{arith}
use native.Mathlib.Nat.{pow-suc}
use jonoondb.Prelude.Tests.{◌==◌}

-- `bit_or` stands for a recursion on digits, whose fuel is its first operand. One more unit of fuel
-- than that changes nothing, and so does any amount.
abbrev joined : ℕ → ℕ → ℕ → ℕ
joined fuel a b = digits (λ y. y) max fuel a b

joined-suc : (b a fuel : ℕ) → a ≤ fuel → joined (suc fuel) a b ≡ joined fuel a b
joined-suc b zero zero h = refl
joined-suc b zero (suc fuel) h = refl
joined-suc b (suc a) zero h = absurd (omega arith)
joined-suc b (suc a) (suc fuel) h =
    let halves = joined-suc (b / 2) (suc a / 2) fuel (omega arith) in omega (arith, halves)

joined-more : (extra b a fuel : ℕ) → a ≤ fuel → joined (fuel + extra) a b ≡ joined fuel a b
joined-more zero b a fuel h = let same : fuel + 0 ≡ fuel = omega arith in rw same
joined-more (suc extra) b a fuel h =
    let next : fuel + suc extra ≡ suc (fuel + extra) = omega arith in
    rw next (joined-suc b a (fuel + extra) (omega arith) ∙ joined-more extra b a fuel h)

pub zero-bit_or : (b : ℕ) → bit_or 0 b ≡ b
zero-bit_or b = bit_or-bitwise 0 b

pub bit_or_digit : (a b : ℕ) → bit_or a b ≡ bit_or (a / 2) (b / 2) * 2 + max (a % 2) (b % 2)
bit_or_digit a b = rw (bit_or-bitwise a b, bit_or-bitwise (a / 2) (b / 2)) (lowest a)
  where
    lowest : (a : ℕ) → joined a a b ≡ joined (a / 2) (a / 2) (b / 2) * 2 + max (a % 2) (b % 2)
    lowest zero = omega arith
    lowest (suc a) =
        let half = suc a / 2 in
        let total : half + (a - half) ≡ a = omega arith in
        let enough = rw total at (joined-more (a - half) (b / 2) half half (omega arith)) in
        omega (arith, enough)

-- Bits that lie below 2 ^ k and bits that lie above it are joined by a sum.
pub bit_or_disjoint : (k a x : ℕ) → a < 2 ^ k → bit_or a (x * 2 ^ k) ≡ a + x * 2 ^ k
bit_or_disjoint zero zero x h = omega (arith, zero-bit_or (x * 2 ^ 0))
bit_or_disjoint zero (suc a) x h = absurd (omega arith)
bit_or_disjoint (suc k) a x h = ground (
  arith,
  ap (λ (t : ℕ). x * t) (pow-suc 2 k),
  bit_or_digit a (x * 2 ^ suc k),
  bit_or_disjoint k (a / 2) x (omega (arith, pow-suc 2 k)),
)

-- A test that is true of each number below a bound, by evaluation.
true_below : (ℕ → Bool) → ℕ → Bool
true_below test zero = true
true_below test (suc bound) = true_below test bound && test bound

true_below-at :
    (test : ℕ → Bool) (x bound : ℕ) → x < bound → true_below test bound ≡ true → test x ≡ true
unfolding true_below
true_below-at test x zero inside all = absurd (omega arith)
true_below-at test x (suc bound) inside all = ground (arith, true_below-at test x bound)

byte_table :
    true_below
      (λ b.
        (bit_and b 127 == b % 128)
        && (bit_and b 128 == b / 128 * 128)
        && (bit_and b 240 / 16 == b / 16)
        && (bit_and b 1 == b % 2))
      256
    ≡ true
unfolding true_below
byte_table = refl

-- The masks 0x7F, 0x80, 0xF0 and 1 on a byte.
pub byte_masks :
    (b : ℕ)
    → b < 256
    → (bit_and b 127 ≡ b % 128)
      × (bit_and b 128 ≡ b / 128 * 128)
      × (bit_and b 240 / 16 ≡ b / 16)
      × (bit_and b 1 ≡ b % 2)
byte_masks b h = ground (arith, true_below-at _ b 256 h byte_table)

bit_or_even : (v x : ℕ) → bit_or v (2 * x) ≡ bit_or (v / 2) x * 2 + v % 2
bit_or_even v x =
    let half : 2 * x / 2 ≡ x = omega arith in bit_or_digit v (2 * x) ∙ rw half (omega arith)

-- The low byte of `value | 0x80`.
pub bit_or_high : (v : ℕ) → bit_or v 128 % 256 ≡ 128 + v % 128
bit_or_high v = omega (
  arith,
  bit_or_even v 64,
  bit_or_even (v / 2) 32,
  bit_or_even (v / 2 / 2) 16,
  bit_or_even (v / 2 / 2 / 2) 8,
  bit_or_even (v / 2 / 2 / 2 / 2) 4,
  bit_or_even (v / 2 / 2 / 2 / 2 / 2) 2,
  bit_or_even (v / 2 / 2 / 2 / 2 / 2 / 2) 1,
  bit_or_digit (v / 2 / 2 / 2 / 2 / 2 / 2 / 2) 1,
)
