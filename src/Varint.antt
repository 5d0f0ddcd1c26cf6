-- ===== src/Varint.antt =====
-- include/jonoondb_utils/varint.h: variable-length integers, seven bits to a byte, and zigzag.
-- A value is a uint64_t, as in every call of the repository; a buffer is the list of the bytes from
-- the address given on. A read past the end of the list is the value `fault`.
pub mod Loop
pub mod RoundTrip
use jonoondb.Prelude.{
  ℕ, zero, suc, ◌+◌, ◌*◌, ◌/◌, ◌%◌, ◌^◌, List, [], ◌∷◌, Option, none, some, leb, ◌==◌,
  if◌then◌else◌, bit_and, bit_or,
}

abbrev pub u64_mod : ℕ
u64_mod = 2 ^ 64

abbrev pub max_varint_bytes : ℕ
max_varint_bytes = 10

abbrev pub prepend : ℕ → Option (List ℕ) → Option (List ℕ)
prepend byte none = none
prepend byte (some bytes) = some (byte ∷ bytes)

-- The `while` of `EncodeVarint`: the bytes that it stores from `target` on. The cast to `uint8_t`
-- keeps the low byte. `none` means that the fuel ran out.
unfoldable pub encode_loop : ℕ → ℕ → Option (List ℕ)
encode_loop zero value = none
encode_loop (suc fuel) value =
    let rest = encode_loop fuel (value / 128) in
    if leb 128 value then prepend (bit_or value 128 % 256) rest else some (value % 256 ∷ [])

-- `EncodeVarint`: the bytes written. The number that it returns is their count.
unfoldable pub encode_varint : ℕ → Option (List ℕ)
encode_varint value = encode_loop max_varint_bytes value

pub data Decoded : Type 0 where
  fault : Decoded
  malformed : Decoded
  decoded : ℕ → ℕ → Decoded

-- `*result |= static_cast<int_t>(b & 0x7F) << (7 * count)`
abbrev pub accumulate : ℕ → ℕ → ℕ → ℕ
accumulate result b count = bit_or result (bit_and b 127 * 2 ^ (7 * count) % u64_mod)

-- The `do`-`while` of `DecodeVarint`. `malformed` is its return value -1, `decoded count result`
-- its return value and what it leaves in `*result`.
unfoldable pub decode_loop : List ℕ → ℕ → ℕ → Decoded
decode_loop [] count result = if count == max_varint_bytes then malformed else fault
decode_loop (b ∷ input) count result =
    let more = decode_loop input (count + 1) (accumulate result b count) in
    if count == max_varint_bytes
    then malformed
    else if bit_and b 128 == 0
    then decoded (count + 1) (accumulate result b count)
    else more

-- `DecodeVarint`: the fast path reads up to two bytes before the loop.
unfoldable pub decode_varint : List ℕ → Decoded
unfolding decode_loop
decode_varint [] = fault
decode_varint (b ∷ []) = if bit_and b 128 == 0 then decoded 1 (accumulate 0 b 0) else fault
decode_varint (b ∷ c ∷ input) =
    if bit_and b 128 == 0
    then decoded 1 (accumulate 0 b 0)
    else if bit_and c 128 == 0
    then decoded 2 (accumulate (accumulate 0 b 0) c 1)
    else decode_loop input 2 (accumulate (accumulate 0 b 0) c 1)
