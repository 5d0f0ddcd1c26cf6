-- ===== src/Blob/Format/RoundTrip.antt =====
-- blob_manager.cc: what `PutInternal` writes for a blob, `Get` reads back.
use mathlib.Core.List.{append_assoc}
use jonoondb.Prelude.{
  ℕ, ◌≤◌, ◌<◌, ◌≡◌, refl, sym, ap, subst, ◌∙◌, List, [], ◌∷◌, ◌++◌, some, Bool, true, false, arith,
  length, take, drop, length-append, ltb, if◌then◌else◌, Bool-cases, Option-cases, ◌==◌, ==_iff,
  inl, inr,
}
use jonoondb.Prelude.Outcome.{ok}
use jonoondb.Varint.{u64_mod}
use jonoondb.Buffer.{Buffer, stored, contents, memcpy, resize, set_length}
use jonoondb.Buffer.Valid.{
  IsValid, copy_cases, copy-IsValid, resize-IsValid, contents-memcpy, length-memcpy,
}
use jonoondb.Blob.Header.{
  BlobHeader, get_header_size, Reading, done, read_blob_header, write_blob_header,
}
use jonoondb.Blob.Header.RoundTrip.{header_read, comp_size_of, read_blob_header-write_blob_header}
use jonoondb.Blob.Files.{Host}
use jonoondb.Blob.Format.{header_bytes, read_contents, read_blob, write_data}

-- What is relied on of new memory and of LZ4: `new char[n]` has n bytes; compressing into a target of the
-- bound writes at most the bound, and decompressing what it wrote, whatever follows, gives the source.
pub record IsFaithful (host : Host) : Type 0 where
  pub length-fresh : (n : ℕ) → length (host.fresh n) ≡ n
  pub length-compress :
      (source : List ℕ) (capacity : ℕ)
      → length (host.compress source capacity) ≤ host.compress_bound (length source)
  pub decompress-compress :
      (source rest : List ℕ) (capacity : ℕ)
      → host.compress_bound (length source) ≤ capacity
      → host.decompress (host.compress source capacity ++ rest) (length source) ≡ source

-- The reading gives a buffer, which stores the blob.
abbrev pub Gives : Reading Buffer → List ℕ → Type 0
Gives reading blob =
    (b : Buffer) × ((rest : List ℕ) × (reading ≡ done b rest) × (contents b ≡ blob) × IsValid b)

-- Reading the bytes, whatever follows them, into any buffer gives the blob.
abbrev pub HoldsBlob : Host → List ℕ → List ℕ → Type 0
HoldsBlob host bytes blob =
    (stale : ℕ) (rest : List ℕ) (b : Buffer)
    → IsValid b
    → Gives (read_blob host stale (bytes ++ rest) b) blob

written_bytes :
    (header : BlobHeader) (bytes : List ℕ)
    → write_blob_header header ≡ some bytes
    → header_bytes header ≡ bytes
written_bytes header bytes e = ap stored e

-- A header of sizes that are uint64_t takes `GetHeaderSize` bytes, and is read back.
pub header_bytes_lem :
    (stale : ℕ) (header : BlobHeader) (rest : List ℕ)
    → header.blob_size < u64_mod
    → header.comp_size < u64_mod
    → (read_blob_header stale (header_bytes header ++ rest)
        ≡ done (header_read stale header header.compressed) rest)
      × (length (header_bytes header)
          ≡ get_header_size header.blob_size (comp_size_of header header.compressed))
header_bytes_lem stale header rest small small' =
    let (bytes, written, read, size) =
      read_blob_header-write_blob_header stale header rest small small' in
    let same = written_bytes header bytes written in
    (
      subst
          (λ (l : List ℕ).
            read_blob_header stale (l ++ rest)
            ≡ done (header_read stale header header.compressed) rest)
          (sym same) read,
      ap length same ∙ size,
    )

pub take-append : (xs ys : List ℕ) → take (length xs) (xs ++ ys) ≡ xs
take-append [] ys = refl
take-append (x ∷ xs) ys = ap (◌∷◌ x) (take-append xs ys)

abbrev pub enough : Host → ℕ → Buffer → Buffer
enough host n b = if ltb b.capacity n then resize host.fresh b n else b

pub enough-IsValid :
    (host : Host) (faithful : IsFaithful host) (n : ℕ) (b : Buffer)
    → IsValid b
    → IsValid (enough host n b) × (n ≤ (enough host n b).capacity)
unfolding resize
enough-IsValid host faithful n b v = elim (Bool-cases (ltb b.capacity n)) [
  | inl small ↦ rw small (resize-IsValid host.fresh faithful.length-fresh b n v, ground arith)
  | inr large ↦ rw large (v, ground arith)
]

-- Reading goes on behind the header.
read_blob-header :
    (host : Host) (stale : ℕ) (header : BlobHeader) (c : Bool) (data' rest : List ℕ) (b : Buffer)
    → header.compressed ≡ c
    → header.blob_size < u64_mod
    → header.comp_size < u64_mod
    → read_blob host stale ((header_bytes header ++ data') ++ rest) b
      ≡ read_contents host
          (header_read stale header c)
          (data' ++ rest)
          (header_read stale header c).compressed
          (enough host (header_read stale header c).blob_size b)
unfolding read_blob
read_blob-header host stale header c data' rest b e small small' =
    rw
      (
        append_assoc (header_bytes header) data' rest,
        (header_bytes_lem stale header (data' ++ rest) small small').0,
        e,
      )
      refl

read_plain :
    (host : Host) (header : BlobHeader) (blob rest : List ℕ) (b : Buffer)
    → header.blob_size ≡ length blob
    → 0 < length blob
    → IsValid b
    → length blob ≤ b.capacity
    → Gives (read_contents host header (blob ++ rest) false b) blob
unfolding read_contents
read_plain host header blob rest b size some_bytes v large =
    let longer : length blob ≤ length (blob ++ rest) = omega (arith, length-append blob rest) in
    let inside : ltb (length (blob ++ rest)) (length blob) ≡ false = ground arith in
    elim (copy_cases b (blob ++ rest) (length blob) some_bytes longer) [
      | inl (over, _) ↦ absurd (omega arith)
      | inr (_, (b', copied, stored_bytes, _)) ↦ (
        b',
        (
          drop (length blob) (blob ++ rest),
          rw (size, inside, copied) refl,
          stored_bytes ∙ take-append blob rest,
          copy-IsValid b b' (blob ++ rest) (length blob) v longer copied,
        ),
      )
    ]

pub take-all : (xs : List ℕ) → take (length xs) xs ≡ xs
take-all [] = refl
take-all (x ∷ xs) = ap (◌∷◌ x) (take-all xs)

no_elements : (xs : List ℕ) → length xs ≤ 0 → xs ≡ []
no_elements [] h = refl
no_elements (x ∷ xs) h = absurd (omega arith)

-- The length is set, and the buffer stores the source.
abbrev pub Filled : Buffer → List ℕ → Buffer → Type 0
Filled b source target =
    (b' : Buffer) × (set_length target (length source) ≡ ok b')
    × (contents b' ≡ source)
    × (b'.capacity ≡ b.capacity)
    × IsValid b'

-- Setting the length of a buffer in which the bytes stand.
set_length-Filled :
    (b : Buffer) (source : List ℕ)
    → take (length source) (stored b.bytes) ≡ source
    → IsValid b
    → length source ≤ b.capacity
    → Filled b source b
unfolding set_length
set_length-Filled b source filled v fits = elim (Bool-cases (b.len == length source)) [
  | inl same ↦
      (b, ground arith, ap (λ n. take n (stored b.bytes)) ((==_iff _ _).0 same) ∙ filled, refl, v)
  | inr other ↦ (
    record b { len = length source },
    ground arith,
    filled,
    refl,
    record { bounded = fits; sized = v.sized },
  )
]

pub contents-write_data :
    (b : Buffer) (source : List ℕ)
    → IsValid b
    → length source ≤ b.capacity
    → Filled b source (write_data b source)
contents-write_data b source v fits = elim (Option-cases b.bytes) [
  | inl null ↦
      let empty : b.capacity ≡ 0 = sym v.sized ∙ ap (λ o. length (stored o)) null in
      let nothing = no_elements source (omega arith) in
      rw (write_data, null) (set_length-Filled b source (rw nothing refl) v fits)
  | inr (l, there) ↦
      let sized : length l ≡ b.capacity = ap (λ o. length (stored o)) (sym there) ∙ v.sized in
      let filled =
        contents-memcpy l source (length source) (length source) (omega arith) (omega arith)
        ∙ take-all source in
      rw (write_data, there)
        (set_length-Filled (record b { bytes = some (memcpy l source (length source)) }) source
          filled
          (record {
            bounded = v.bounded;
            sized = length-memcpy l source (length source) (omega arith) (omega arith) ∙ sized;
          })
          fits)
]

read_compressed :
    (host : Host) (header : BlobHeader) (blob source : List ℕ) (b : Buffer)
    → header.blob_size ≡ length blob
    → host.decompress source (length blob) ≡ blob
    → IsValid b
    → length blob ≤ b.capacity
    → Gives (read_contents host header source true b) blob
unfolding read_contents
read_compressed host header blob source b size back v large =
    let (b', set', same, _, v') = contents-write_data b blob v large in
    (b', (source, rw (size, back, set') refl, same, v'))

-- A blob of one byte or more that is stored as it is.
pub plain_form :
    (host : Host) (faithful : IsFaithful host) (header : BlobHeader) (blob : List ℕ)
    → header.compressed ≡ false
    → header.blob_size ≡ length blob
    → 0 < length blob
    → header.blob_size < u64_mod
    → header.comp_size < u64_mod
    → HoldsBlob host (header_bytes header ++ blob) blob
unfolding header_read
plain_form host faithful header blob plain size some_bytes small small' stale rest b v =
    let (v', large) = enough-IsValid host faithful header.blob_size b v in
    rw (read_blob-header host stale header false blob rest b plain small small') (
      read_plain host (header_read stale header false) blob rest (enough host header.blob_size b)
        size some_bytes v' (subst (λ n. n ≤ (enough host header.blob_size b).capacity) size large))

-- A blob that is compressed into a target of the bound.
pub compressed_form :
    (host : Host) (faithful : IsFaithful host) (header : BlobHeader) (blob : List ℕ) (capacity : ℕ)
    → header.compressed ≡ true
    → header.blob_size ≡ length blob
    → host.compress_bound (length blob) ≤ capacity
    → header.blob_size < u64_mod
    → header.comp_size < u64_mod
    → HoldsBlob host (header_bytes header ++ host.compress blob capacity) blob
unfolding header_read
compressed_form host faithful header blob capacity comp size bound small small' stale rest b v =
    let (v', large) = enough-IsValid host faithful header.blob_size b v in
    rw
      (read_blob-header host stale header true (host.compress blob capacity) rest b comp small
        small')
      (read_compressed host (header_read stale header true) blob
        (host.compress blob capacity ++ rest) (enough host header.blob_size b) size
        (faithful.decompress-compress blob rest capacity bound) v'
        (subst (λ n. n ≤ (enough host header.blob_size b).capacity) size large))
