-- ===== src/Varint/RoundTrip.antt =====
-- varint.h: `EncodeVarint` against `DecodeVarint`.
use jonoondb.Prelude.{ℕ, ◌<◌, ◌≡◌, refl, ◌∙◌, List, [], ◌∷◌, ◌++◌, some, arith, length}
use jonoondb.Varint.{u64_mod, encode_varint, decoded, decode_loop, decode_varint}
use jonoondb.Varint.Loop.{bound, decoded_eq, encode_loop-decode_loop}

-- On every input, whatever its bytes, the fast path of `DecodeVarint` for up to two bytes gives what
-- its loop alone would give from the first byte on: the count, the value, the failure or the read
-- past the end.
pub decode_varint-decode_loop : (input : List ℕ) → decode_varint input ≡ decode_loop input 0 0
unfolding decode_varint
decode_varint-decode_loop [] = refl
decode_varint-decode_loop (b ∷ []) = ground arith
decode_varint-decode_loop (b ∷ c ∷ input) = ground arith

-- For every uint64_t, `EncodeVarint` ends within ten bytes, and `DecodeVarint` on these bytes,
-- whatever follows them, returns their count and the value.
pub decode_varint-encode_varint :
    (value : ℕ) (rest : List ℕ)
    → value < u64_mod
    → (bytes : List ℕ) × (encode_varint value ≡ some bytes)
      × (decode_varint (bytes ++ rest) ≡ decoded (length bytes) value)
unfolding encode_varint bound
decode_varint-encode_varint value rest small =
    let (bytes, done, read) = encode_loop-decode_loop 10 0 value 0 rest refl small (omega arith) in
    (
      bytes,
      done,
      decode_varint-decode_loop (bytes ++ rest) ∙ read ∙ decoded_eq (omega arith) (omega arith),
    )
