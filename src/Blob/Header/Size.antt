-- ===== src/Blob/Header/Size.antt =====
-- `BlobHeader::GetVarintSize` and `GetHeaderSize` against the bytes that are written.
use jonoondb.Prelude.{
  ℕ, zero, suc, ◌/◌, ◌≤◌, ◌<◌, ◌≡◌, List, some, arith, length, leb, Bool-cases, Option-cases, inl,
  inr, leb→le,
}
use jonoondb.Varint.{u64_mod, encode_loop, encode_varint}
use jonoondb.Blob.Header.{get_varint_size}

get_varint_size-small : (v : ℕ) → v < 128 → get_varint_size v ≡ 1
unfolding get_varint_size
get_varint_size-small v h = ground arith

get_varint_size-group :
    (v : ℕ) → 128 ≤ v → v < u64_mod → get_varint_size v ≡ suc (get_varint_size (v / 128))
unfolding get_varint_size
get_varint_size-group v h k = ground arith

encode_loop-length :
    (fuel v : ℕ) (bytes : List ℕ)
    → v < u64_mod
    → encode_loop fuel v ≡ some bytes
    → length bytes ≡ get_varint_size v
unfolding encode_loop
encode_loop-length zero v bytes h e = cc
encode_loop-length (suc fuel) v bytes h e = elim (Bool-cases (leb 128 v)) [
  | inl more ↦ elim (Option-cases (encode_loop fuel (v / 128))) [
    | inl stuck ↦ absurd (ground arith)
    | inr (rest, rest_done) ↦
        rw (get_varint_size-group v (leb→le 128 v more) h)
          (ground (arith, encode_loop-length fuel (v / 128) rest (omega arith) rest_done))
  ]
  | inr last ↦ ground (arith, get_varint_size-small v)
]

-- `EncodeVarint` writes `GetVarintSize` bytes, for every uint64_t.
pub encode_varint-length :
    (v : ℕ) (bytes : List ℕ)
    → v < u64_mod
    → encode_varint v ≡ some bytes
    → length bytes ≡ get_varint_size v
unfolding encode_varint
encode_varint-length v bytes h e = encode_loop-length 10 v bytes h e

pub get_varint_size_mono : (v w : ℕ) → v ≤ w → get_varint_size v ≤ get_varint_size w
unfolding get_varint_size
get_varint_size_mono v w h = ground arith
