-- ===== src/Blob/Iterator/Next.antt =====
-- blob_manager.cc: one round of `GetNextBatch` reads the bytes that `PutInternal` writes for a blob.
use mathlib.Core.List.{append_assoc}
use jonoondb.Prelude.{
  ℕ, ◌+◌, ◌*◌, ◌≤◌, ◌<◌, ◌≡◌, refl, List, [], ◌∷◌, ◌++◌, some, Bool, true, false, arith, length,
  drop, length-append, ltb, if◌then◌else◌, Bool-cases, inl, inr, ◌==◌,
}
use jonoondb.Varint.{u64_mod}
use jonoondb.Buffer.{Buffer, contents, resize, adopt, move_assign, standard_delete_no_op}
use jonoondb.Buffer.Valid.{IsValid, resize-IsValid}
use jonoondb.Blob.Header.{BlobHeader, done}
use jonoondb.Blob.Header.RoundTrip.{header_read}
use jonoondb.Blob.Files.{Host}
use jonoondb.Blob.Format.{header_bytes}
use jonoondb.Blob.Format.RoundTrip.{
  IsFaithful, header_bytes_lem, take-append, take-all, contents-write_data,
}
use jonoondb.Blob.Iterator.{advanced, next_contents, next_blob}

-- The iterator reads the bytes, whatever follows them, as the blob, and stops behind them.
abbrev pub IsNext : Host → List ℕ → List ℕ → Type 0
IsNext host form blob =
    (stale : ℕ) (rest : List ℕ) (slot : Buffer)
    → IsValid slot
    → (b : Buffer) × (next_blob host stale (form ++ rest) slot ≡ done b rest) × (contents b ≡ blob)

pub drop-append : (xs ys : List ℕ) → drop (length xs) (xs ++ ys) ≡ ys
drop-append [] ys = refl
drop-append (x ∷ xs) ys = drop-append xs ys

next_blob-header :
    (host : Host) (stale : ℕ) (header : BlobHeader) (c : Bool) (data' rest : List ℕ) (slot : Buffer)
    → header.compressed ≡ c
    → header.blob_size < u64_mod
    → header.comp_size < u64_mod
    → next_blob host stale ((header_bytes header ++ data') ++ rest) slot
      ≡ next_contents host
          (header_read stale header c)
          (data' ++ rest)
          (header_read stale header c).compressed
          slot
unfolding next_blob
next_blob-header host stale header c data' rest slot e small small' =
    rw
      (
        append_assoc (header_bytes header) data' rest,
        (header_bytes_lem stale header (data' ++ rest) small small').0,
        e,
      )
      refl

pub advanced-append :
    (position : ℕ) (xs ys : List ℕ) → advanced position (xs ++ ys) ys ≡ position + length xs
unfolding advanced
advanced-append position xs ys = omega (arith, length-append xs ys)

not_longer : (xs ys : List ℕ) → ltb (length (xs ++ ys)) (length xs) ≡ false
not_longer xs ys =
    let longer : length xs ≤ length (xs ++ ys) = omega (arith, length-append xs ys) in ground arith

abbrev twice : Host → Buffer → ℕ → Buffer
twice host slot n = if ltb slot.capacity n then resize host.fresh slot (n * 2) else slot

enough_twice :
    (host : Host) (faithful : IsFaithful host) (slot : Buffer) (n : ℕ)
    → IsValid slot
    → IsValid (twice host slot n) × (n ≤ (twice host slot n).capacity)
unfolding resize
enough_twice host faithful slot n v = elim (Bool-cases (ltb slot.capacity n)) [
  | inl small ↦
      rw small (resize-IsValid host.fresh faithful.length-fresh slot (n * 2) v, ground arith)
  | inr large ↦ rw large (v, ground arith)
]

module _ (host : Host) (faithful : IsFaithful host) where
  -- A blob of one byte or more that is stored as it is.
  pub plain-IsNext :
      (header : BlobHeader) (blob : List ℕ)
      → header.compressed ≡ false
      → header.blob_size ≡ length blob
      → 0 < length blob
      → header.blob_size < u64_mod
      → header.comp_size < u64_mod
      → IsNext host (header_bytes header ++ blob) blob
  unfolding header_read next_contents adopt move_assign
  plain-IsNext header blob plain size some_bytes small small' stale rest slot v =
      let not_empty : (length blob == 0) ≡ false = ground arith in
      let itself : ltb (length blob) (length blob) ≡ false = ground arith in
      (
        record {
          bytes = some blob;
          deleter = standard_delete_no_op;
          len = length blob;
          capacity = length blob;
        },
        rw
            (
              next_blob-header host stale header false blob rest slot plain small small',
              size,
              not_longer blob rest,
              not_empty,
              itself,
              take-append blob rest,
              drop-append blob rest,
            )
            refl,
        take-all blob,
      )

  -- A blob that is compressed into a target of the bound.
  pub compressed-IsNext :
      (header : BlobHeader) (blob : List ℕ) (capacity : ℕ)
      → header.compressed ≡ true
      → header.blob_size ≡ length blob
      → header.comp_size ≡ length (host.compress blob capacity)
      → host.compress_bound (length blob) ≤ capacity
      → header.blob_size < u64_mod
      → header.comp_size < u64_mod
      → IsNext host (header_bytes header ++ host.compress blob capacity) blob
  unfolding header_read next_contents
  compressed-IsNext header blob capacity comp size comp_size bound small small' stale rest slot v =
      let compressed = host.compress blob capacity in
      let (v', large) = enough_twice host faithful slot (length blob) v in
      let (b, filled, same, _, _) =
        contents-write_data (twice host slot (length blob)) blob v' large in
      (
        b,
        rw
            (
              next_blob-header host stale header true compressed rest slot comp small small',
              size,
              comp_size,
              not_longer compressed rest,
              faithful.decompress-compress blob rest capacity bound,
              filled,
              drop-append compressed rest,
            )
            refl,
        same,
      )
