-- ===== src/Blob/Header/RoundTrip.antt =====
-- `BlobHeader::ReadBlobHeader` against `WriteBlobHeader`.
use jonoondb.Prelude.{
  ℕ, ◌<◌, ◌≡◌, refl, ap, List, [], ◌∷◌, ◌++◌, Option, none, some, Bool, arith, length,
  length-append, true, false,
}
use mathlib.Core.List.{append_assoc}
use jonoondb.Varint.{u64_mod, encode_varint}
use jonoondb.Varint.RoundTrip.{decode_varint-encode_varint}
use jonoondb.Blob.Header.{
  BlobHeader, get_varint_size, get_header_size, write_blob_header, read_blob_header, read_varint,
  advance, done, ver_and_flags,
}
use jonoondb.Blob.Header.Size.{encode_varint-length}

advance-append : (xs rest : List ℕ) → advance (length xs) (xs ++ rest) ≡ rest
advance-append [] rest = refl
advance-append (x ∷ xs) rest = advance-append xs rest

-- One number of a header, written and read.
number :
    (v : ℕ) (rest : List ℕ)
    → v < u64_mod
    → (bytes : List ℕ) × (encode_varint v ≡ some bytes)
      × (read_varint (bytes ++ rest) ≡ done v rest)
      × (length bytes ≡ get_varint_size v)
unfolding read_varint
number v rest small =
    let (bytes, written, read) = decode_varint-encode_varint v rest small in
    (
      bytes,
      written,
      rw read (ap (done v) (advance-append bytes rest)),
      encode_varint-length v bytes small written,
    )

-- What reading a written header gives: always version 1, and a compressed size only if there is one.
unfoldable pub header_read : ℕ → BlobHeader → Bool → BlobHeader
header_read stale header true = record header { version = 1; compressed = true }
header_read stale header false = record header {
  version = 1;
  compressed = false;
  comp_size = stale;
}

abbrev pub comp_size_of : BlobHeader → Bool → Option ℕ
comp_size_of header true = some header.comp_size
comp_size_of header false = none

round_trip :
    (stale : ℕ) (header : BlobHeader) (c : Bool) (rest : List ℕ)
    → header.compressed ≡ c
    → header.blob_size < u64_mod
    → header.comp_size < u64_mod
    → (bytes : List ℕ) × (write_blob_header header ≡ some bytes)
      × (read_blob_header stale (bytes ++ rest) ≡ done (header_read stale header c) rest)
      × (length bytes ≡ get_header_size header.blob_size (comp_size_of header c))
unfolding write_blob_header read_blob_header header_read get_header_size
round_trip stale header true rest e small small' =
    let (comp, comp_written, comp_read, comp_len) = number header.comp_size rest small' in
    let (blob, blob_written, blob_read, blob_len) = number header.blob_size (comp ++ rest) small in
    (
      ver_and_flags true ∷ blob ++ comp,
      rw (e, blob_written, comp_written),
      rw (append_assoc blob comp rest, blob_read, comp_read),
      omega (arith, length-append blob comp),
    )
round_trip stale header false rest e small small' =
    let (blob, blob_written, blob_read, blob_len) = number header.blob_size ([] ++ rest) small in
    (
      ver_and_flags false ∷ blob ++ [],
      rw (e, blob_written),
      rw (append_assoc blob [] rest, blob_read),
      omega (arith, length-append blob []),
    )

pub read_blob_header-write_blob_header :
    (stale : ℕ) (header : BlobHeader) (rest : List ℕ)
    → header.blob_size < u64_mod
    → header.comp_size < u64_mod
    → (bytes : List ℕ) × (write_blob_header header ≡ some bytes)
      × (read_blob_header stale (bytes ++ rest)
          ≡ done (header_read stale header header.compressed) rest)
      × (length bytes ≡ get_header_size header.blob_size (comp_size_of header header.compressed))
read_blob_header-write_blob_header stale header rest small small' =
    round_trip stale header header.compressed rest refl small small'
