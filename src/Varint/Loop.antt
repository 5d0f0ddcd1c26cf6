-- ===== src/Varint/Loop.antt =====
-- varint.h: what the encoding loop writes, the decoding loop reads back.
use jonoondb.Prelude.{
  ℕ, zero, suc, ◌+◌, ◌*◌, ◌/◌, ◌%◌, ◌^◌, ◌≤◌, ◌<◌, ◌≡◌, refl, ap, ◌∙◌, leb→le, List, [], ◌∷◌, ◌++◌,
  some, arith, length, leb, Bool-cases, inl, inr, bit_or,
}
use jonoondb.Prelude.Bits.{bit_or_disjoint, bit_or_high, byte_masks}
use native.Mathlib.Nat.{pow-suc, mod-eq_of_lt}
use jonoondb.Varint.{u64_mod, encode_loop, decoded, accumulate, decode_loop}

-- The rounds left, when the value is known to be below this bound: 2 * 128 ^ (rounds - 1).
unfoldable pub bound : ℕ → ℕ
bound zero = 0
bound (suc zero) = 2
bound (suc (suc n)) = 128 * bound (suc n)

bound-pos : (n : ℕ) → 128 ≤ bound (suc (suc n))
unfolding bound
bound-pos zero = omega arith
bound-pos (suc n) = omega (arith, bound-pos n)

bound_zero : (value : ℕ) → ¬ (value < bound 0)
unfolding bound
bound_zero value h = omega arith

-- A value of two groups or more leaves a round for the rest.
more_left :
    (fuel value : ℕ)
    → value < bound (suc fuel)
    → 128 ≤ value
    → (0 < fuel) × (value / 128 < bound fuel)
unfolding bound
more_left zero value small big = absurd (omega arith)
more_left (suc fuel) value small big = (omega arith, omega arith)

pub decoded_eq : {m n v w : ℕ} → m ≡ n → v ≡ w → decoded m v ≡ decoded n w
decoded_eq p q = cc

scale_suc : (count : ℕ) → 2 ^ (7 * suc count) ≡ 128 * 2 ^ (7 * count)
scale_suc count =
    let seven : 7 * suc count ≡ suc (suc (suc (suc (suc (suc (suc (7 * count))))))) = omega arith in
    rw seven (simp pow-suc (omega arith))

-- With `fuel` rounds left of ten, what the value may be and what is read already fill 64 bits.
scale-bound :
    (fuel count : ℕ) → count + suc fuel ≡ 10 → 2 ^ (7 * count) * bound (suc fuel) ≡ u64_mod
unfolding bound
scale-bound zero count h = let e : count ≡ 9 = omega arith in rw e refl
scale-bound (suc fuel) count h = omega (
  arith,
  scale-bound fuel (suc count) (omega arith),
  ap (λ (t : ℕ). t * bound (suc fuel)) (scale_suc count),
)

product_lt : (x b p m : ℕ) → x < b → 0 < p → p * b ≡ m → x * p < m
product_lt x b p m small pos e = grind arith

-- One group of seven bits is read back where it belongs.
accumulate_lem :
    (fuel count result b : ℕ)
    → count + suc fuel ≡ 10
    → result < 2 ^ (7 * count)
    → b < 256
    → b % 128 < bound (suc fuel)
    → accumulate result b count ≡ result + b % 128 * 2 ^ (7 * count)
accumulate_lem fuel count result b h fits byte small =
    rw ((byte_masks b byte).0, mod-eq_of_lt below)
      (bit_or_disjoint (7 * count) result (b % 128) fits)
  where
    below : b % 128 * 2 ^ (7 * count) < u64_mod
    below =
        product_lt (b % 128) (bound (suc fuel)) (2 ^ (7 * count)) _ small (omega arith)
          (scale-bound fuel count h)

decode_more :
    (b : ℕ) (input : List ℕ) (count result : ℕ)
    → count < 10
    → 128 ≤ b
    → b < 256
    → decode_loop (b ∷ input) count result
      ≡ decode_loop input (count + 1) (accumulate result b count)
unfolding decode_loop
decode_more b input count result h high byte = ground (arith, byte_masks b byte)

decode_last :
    (b : ℕ) (input : List ℕ) (count result : ℕ)
    → count < 10
    → b < 128
    → decode_loop (b ∷ input) count result ≡ decoded (count + 1) (accumulate result b count)
unfolding decode_loop
decode_last b input count result h low = ground (arith, byte_masks b (omega arith))

-- The value that a group and the rest of the loop add up to.
regroup :
    (value count result : ℕ)
    → result + value % 128 * 2 ^ (7 * count) + value / 128 * 2 ^ (7 * suc count)
      ≡ result + value * 2 ^ (7 * count)
regroup value count result =
    let split : value ≡ value / 128 * 128 + value % 128 = omega arith in
    omega (
      arith,
      ap (λ (t : ℕ). value / 128 * t) (scale_suc count),
      ap (λ (t : ℕ). t * 2 ^ (7 * count)) split,
    )

-- What the loop has read stays below the next group's place.
below_next :
    (b count result : ℕ)
    → result < 2 ^ (7 * count)
    → result + b % 128 * 2 ^ (7 * count) < 2 ^ (7 * suc count)
below_next b count result fits =
    let room : b % 128 * 2 ^ (7 * count) ≤ 127 * 2 ^ (7 * count) = grind arith in
    omega (arith, scale_suc count)

-- The last byte of an encoding, as the loop reads it.
read_last :
    (fuel count value result : ℕ) (rest : List ℕ)
    → count + suc fuel ≡ 10
    → value < bound (suc fuel)
    → value < 128
    → result < 2 ^ (7 * count)
    → decode_loop (value % 256 ∷ rest) count result
      ≡ decoded (count + 1) (result + value * 2 ^ (7 * count))
read_last fuel count value result rest h small low fits =
    let byte : value % 256 ≡ value = omega arith in
    let group : value % 128 ≡ value = omega arith in
    rw (
      byte,
      decode_last value rest count result (omega arith) low,
      accumulate_lem fuel count result value h fits (omega arith) (omega arith),
      group,
    )

-- A byte that is not the last of an encoding.
read_more :
    (fuel count value result : ℕ) (input : List ℕ)
    → count + suc fuel ≡ 10
    → 0 < fuel
    → value < bound (suc fuel)
    → result < 2 ^ (7 * count)
    → decode_loop (bit_or value 128 % 256 ∷ input) count result
      ≡ decode_loop input (suc count) (result + value % 128 * 2 ^ (7 * count))
read_more zero count value result input h left small fits = absurd (omega arith)
read_more (suc fuel) count value result input h left small fits =
    let b = bit_or value 128 % 256 in
    let low : b % 128 ≡ value % 128 = omega (arith, bit_or_high value) in
    let bounded : b % 128 < bound (suc (suc fuel)) = omega (arith, bound-pos fuel) in
    let next : count + 1 ≡ suc count = omega arith in
    decode_more b input count result (omega arith) (omega (arith, bit_or_high value)) (omega arith)
    ∙ rw (accumulate_lem (suc fuel) count result b h fits (omega arith) bounded, low, next)

-- With enough fuel the loop ends, and the decoding loop reads back what it wrote.
pub encode_loop-decode_loop :
    (fuel count value result : ℕ) (rest : List ℕ)
    → count + fuel ≡ 10
    → value < bound fuel
    → result < 2 ^ (7 * count)
    → (bytes : List ℕ) × (encode_loop fuel value ≡ some bytes)
      × (decode_loop (bytes ++ rest) count result
          ≡ decoded (count + length bytes) (result + value * 2 ^ (7 * count)))
unfolding encode_loop
encode_loop-decode_loop zero count value result rest h small fits = absurd (bound_zero value small)
encode_loop-decode_loop (suc fuel) count value result rest h small fits =
    elim (Bool-cases (leb 128 value)) [
      | inl more ↦
          let left = more_left fuel value small (leb→le 128 value more) in
          let scaled = below_next value count result fits in
          let (bytes, done, read) =
            encode_loop-decode_loop fuel (suc count) (value / 128)
              (result + value % 128 * 2 ^ (7 * count)) rest (omega arith) left.1 scaled in
          (
            bit_or value 128 % 256 ∷ bytes,
            rw (more, done),
            read_more fuel count value result (bytes ++ rest) h left.0 small fits
                ∙ read
                ∙ decoded_eq (omega arith) (regroup value count result),
          )
      | inr last ↦ (
        value % 256 ∷ [],
        rw last,
        read_last fuel count value result rest h small (ground arith) fits,
      )
    ]
