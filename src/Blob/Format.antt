-- ===== src/Blob/Format.antt =====
-- src/jonoondb_api/blob_manager.cc: how a blob is stored behind its header, and how `Get` reads it.
pub mod RoundTrip
use jonoondb.Prelude.{
  ℕ, ◌+◌, ◌-◌, ◌^◌, List, [], ◌∷◌, Option, none, some, Bool, true, false, ltb, if◌then◌else◌,
  length, take, drop, ℕ_discrete,
}
use jonoondb.Prelude.Outcome.{Outcome, Done, Exception, ok, throw, jonoondb_error}
use jonoondb.Buffer.{Buffer, stored, contents, memcpy, resize, set_length, copy}
use jonoondb.Blob.Header.{
  BlobHeader, get_header_size, write_blob_header, Reading, done, failed, overrun, and_then,
  read_blob_header,
}
use jonoondb.Blob.Files.{Host}

-- What a blob takes behind its header, estimated as the source does.
abbrev pub size_or : ℕ → Option ℕ → ℕ
size_or len none = len
size_or len (some comp) = comp

-- The bytes of a header. Writing one ends for all sizes that are uint64_t.
abbrev pub header_bytes : BlobHeader → List ℕ
header_bytes header = elim (write_blob_header header) [ none ↦ [] | some bytes ↦ bytes ]

-- Writing through `GetDataForWrite`.
abbrev pub write_data : Buffer → List ℕ → Buffer
write_data b source = elim b.bytes [
  | none ↦ b
  | some l ↦ record b { bytes = some (memcpy l source (length source)) }
]

abbrev pub to_reading {ℓ} : {A : Type ℓ} → Outcome A → List ℕ → Reading A
to_reading (ok a) rest = done a rest
to_reading (throw e) rest = failed e

module _ (host : Host) where
  -- `GetCompressedSize`
  unfoldable pub get_compressed_size : ℕ → Outcome ℕ
  get_compressed_size size =
      if ltb host.max_input_size size then throw jonoondb_error else ok (host.compress_bound size)

  -- `compSize` of `Put` and `MultiPut`.
  unfoldable pub estimate : ℕ → Bool → Outcome (Option ℕ)
  estimate len false = ok none
  estimate len true = elim (get_compressed_size len) [
    | ok size ↦ ok (some size)
    | throw e ↦ throw e
  ]

  -- `m_compBuffer` when the blob has been compressed into it, before `SetLength`.
  abbrev pub compressed_into : Buffer → Buffer → ℕ → Buffer × ℕ
  compressed_into blob buffer max_comp_size =
      let target =
        if ltb buffer.capacity max_comp_size
        then resize host.fresh buffer max_comp_size
        else buffer in
      let compressed = host.compress (contents blob) target.capacity in
      (write_data target compressed, length compressed)

  -- The contents behind a header, into a buffer that is large enough.
  unfoldable pub read_contents : BlobHeader → List ℕ → Bool → Buffer → Reading Buffer
  read_contents header rest true b =
      to_reading
        (set_length (write_data b (host.decompress rest header.blob_size)) header.blob_size) rest
  read_contents header rest false b =
      if ltb (length rest) header.blob_size
      then overrun
      else to_reading (copy b (some rest) header.blob_size) (drop header.blob_size rest)

  -- What `Get` reads from an offset of a data file on. `stale` is what `compSize` has before.
  unfoldable pub read_blob : ℕ → List ℕ → Buffer → Reading Buffer
  read_blob stale bytes blob = and_then (read_blob_header stale bytes) λ header rest.
      read_contents header rest header.compressed (
        if ltb blob.capacity header.blob_size
        then resize host.fresh blob header.blob_size
        else blob)
