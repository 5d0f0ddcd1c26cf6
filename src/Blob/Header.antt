-- ===== src/Blob/Header.antt =====
-- src/jonoondb_api/blob_manager.cc: `BlobHeader`, the bytes that stand before each stored blob.
pub mod Size
pub mod RoundTrip
use jonoondb.Prelude.{
  ℕ, zero, suc, ◌+◌, ◌*◌, ◌/◌, ◌%◌, ◌^◌, List, [], ◌∷◌, ◌++◌, Option, none, some, Bool, true, false,
  ltb, ◌==◌, if◌then◌else◌, bit_and, bit_or, length,
}
use jonoondb.Prelude.Outcome.{Exception, jonoondb_error, Outcome, ok, throw}
use jonoondb.Varint.{encode_varint, Decoded, fault, malformed, decoded, decode_varint}

-- A uint8_t, a bool and two uint64_t.
pub record BlobHeader : Type 0 where
  pub version : ℕ
  pub compressed : Bool
  pub blob_size : ℕ
  pub comp_size : ℕ

-- `GetVarintSize`
unfoldable pub get_varint_size : ℕ → ℕ
get_varint_size num =
    if ltb num 128
    then 1
    else if ltb num 16384
    then 2
    else if ltb num 2097152
    then 3
    else if ltb num 268435456
    then 4
    else if ltb num 34359738368
    then 5
    else if ltb num 4398046511104
    then 6
    else if ltb num 562949953421312
    then 7
    else if ltb num 72057594037927936
    then 8
    else if ltb num 9223372036854775808
    then 9
    else 10

-- `GetHeaderSize`. The int `compBlobSize` is `none` where the source passes -1.
unfoldable pub get_header_size : ℕ → Option ℕ → ℕ
get_header_size blob_size none = get_varint_size blob_size + 0 + 1
get_header_size blob_size (some comp) = get_varint_size blob_size + get_varint_size comp + 1

abbrev pub append : Option (List ℕ) → Option (List ℕ) → Option (List ℕ)
append (some xs) (some ys) = some (xs ++ ys)
append (some xs) none = none
append none ys = none

abbrev pub ver_and_flags : Bool → ℕ
ver_and_flags true = bit_or (bit_or 0 (1 * 2 ^ 4)) 1
ver_and_flags false = bit_or (bit_or 0 (1 * 2 ^ 4)) 0

abbrev pub comp_bytes : BlobHeader → Bool → Option (List ℕ)
comp_bytes header true = encode_varint header.comp_size
comp_bytes header false = some []

-- `WriteBlobHeader`: the bytes that it writes at the current position. It returns their number.
-- `none` means that the encoding of a number did not end.
unfoldable pub write_blob_header : BlobHeader → Option (List ℕ)
write_blob_header header =
    append (some (ver_and_flags header.compressed ∷ []))
      (append (encode_varint header.blob_size) (comp_bytes header header.compressed))

-- What a read through the mapped file gives: the value and the bytes behind it, an exception, or a
-- read past the end of the bytes.
pub data Reading {ℓ} (A : Type ℓ) : Type ℓ where
  done : A → List ℕ → Reading A
  failed : Exception → Reading A
  overrun : Reading A

-- `offsetAddress += count`
abbrev pub advance : ℕ → List ℕ → List ℕ
advance zero bytes = bytes
advance (suc n) [] = []
advance (suc n) (b ∷ bytes) = advance n bytes

abbrev pub and_then {ℓ} : {A B : Type ℓ} → Reading A → (A → List ℕ → Reading B) → Reading B
and_then (done a rest) f = f a rest
and_then (failed e) f = failed e
and_then overrun f = overrun

abbrev pub taken : List ℕ → Decoded → Reading ℕ
taken bytes fault = overrun
taken bytes malformed = failed jonoondb_error
taken bytes (decoded count value) = done value (advance count bytes)

-- `DecodeVarint` at `offsetAddress`, the check of its result, and the step over what it read.
unfoldable pub read_varint : List ℕ → Reading ℕ
read_varint bytes = taken bytes (decode_varint bytes)

-- The end of `ReadBlobHeader`: `compSize` of the header is written only if the blob is compressed,
-- and `stale` is what stands in it before.
unfoldable pub read_comp_size : ℕ → ℕ → Bool → ℕ → List ℕ → Reading BlobHeader
read_comp_size stale version false blob_size bytes =
    done
      (record { version = version; compressed = false; blob_size = blob_size; comp_size = stale })
      bytes
read_comp_size stale version true blob_size bytes = and_then (read_varint bytes) λ comp rest.
    done (record { version = version; compressed = true; blob_size = blob_size; comp_size = comp })
      rest

-- `ReadBlobHeader`, from `offsetAddress` on.
unfoldable pub read_blob_header : ℕ → List ℕ → Reading BlobHeader
unfolding read_comp_size
read_blob_header stale [] = overrun
read_blob_header stale (flags ∷ bytes) = and_then (read_varint bytes) λ blob_size rest.
    read_comp_size stale (bit_and flags 240 / 2 ^ 4) (bit_and flags 1 == 1) blob_size rest
