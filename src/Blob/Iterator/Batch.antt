-- ===== src/Blob/Iterator/Batch.antt =====
-- blob_manager.cc: `GetNextBatch` gives the blobs of a data file in the order in which they were written.
use mathlib.Core.List.{append_assoc}
use jonoondb.Prelude.{
  ℕ, ◌+◌, ◌≤◌, ◌<◌, ◌≡◌, refl, sym, ap, subst, ◌∙◌, List, [], ◌∷◌, ◌++◌, Bool, true, false, arith,
  length, length-append,
}
use jonoondb.Prelude.Int.{pos, ltb_ℤ}
use jonoondb.Varint.{u64_mod}
use jonoondb.Buffer.{Buffer, contents}
use jonoondb.Buffer.Valid.{IsValid}
use jonoondb.FileNames.{FileInfo}
use jonoondb.Blob.Header.{BlobHeader, done}
use jonoondb.Blob.Files.{Host}
use jonoondb.Blob.Format.{header_bytes}
use jonoondb.Blob.Format.RoundTrip.{IsFaithful, header_bytes_lem}
use jonoondb.Blob.Manager.{BlobMetadata}
use jonoondb.Blob.Iterator.{advanced, prepend, next_blob, get_next_batch}
use jonoondb.Blob.Header.{get_header_size}
use jonoondb.Blob.Iterator.Next.{IsNext, advanced-append, plain-IsNext, compressed-IsNext}

-- A blob in a file, and if it is compressed, the capacity of the target.
pub record Entry : Type 0 where
  pub blob : List ℕ
  pub compressed : Bool
  pub capacity : ℕ

module _ (host : Host) where
  -- The header that PutInternal writes for it, and the bytes behind the header.
  abbrev pub entry_header : List ℕ → ℕ → Bool → BlobHeader
  entry_header blob capacity false = record {
    version = 1;
    compressed = false;
    blob_size = length blob;
    comp_size = 0;
  }
  entry_header blob capacity true = record {
    version = 1;
    compressed = true;
    blob_size = length blob;
    comp_size = length (host.compress blob capacity);
  }

  abbrev pub entry_bytes : List ℕ → ℕ → Bool → List ℕ
  entry_bytes blob capacity false = blob
  entry_bytes blob capacity true = host.compress blob capacity

  abbrev pub entry_form : Entry → List ℕ
  entry_form x =
      header_bytes (entry_header x.blob x.capacity x.compressed)
      ++ entry_bytes x.blob x.capacity x.compressed

  -- A plain blob has a byte or more, the target of a compressed one has the bound, and the sizes are
  -- uint64_t.
  pub record IsEntry (x : Entry) : Type 0 where
    pub not_empty : x.compressed ≡ false → 0 < length x.blob
    pub bound : x.compressed ≡ true → host.compress_bound (length x.blob) ≤ x.capacity
    pub small : length x.blob < u64_mod
    pub comp_small : length (host.compress x.blob x.capacity) < u64_mod

module _ (host : Host) (faithful : IsFaithful host) where
  -- The forms of blobs, one behind the other.
  unfoldable pub laid_out : List Entry → List ℕ
  laid_out [] = []
  laid_out (x ∷ entries) = entry_form host x ++ laid_out entries

  abbrev pub AreEntries : List Entry → Type 0
  AreEntries [] = Unit {0}
  AreEntries (x ∷ entries) = IsEntry host x × AreEntries entries

  -- What is written for a blob is read as the blob.
  entry-IsNext : (x : Entry) → IsEntry host x → IsNext host (entry_form host x) x.blob
  entry-IsNext x h = go x.compressed refl
    where
      go : (c : Bool) → x.compressed ≡ c → IsNext host (entry_form host x) x.blob
      go false e =
          rw (entry_form, e)
            (plain-IsNext host faithful (entry_header host x.blob x.capacity false) x.blob refl refl
              (h.not_empty e) h.small (omega arith))
      go true e =
          rw (entry_form, e)
            (compressed-IsNext host faithful (entry_header host x.blob x.capacity true) x.blob
              x.capacity refl refl refl (h.bound e) h.small h.comp_small)

  -- Each form takes a byte or more.
  length-entry_form : (x : Entry) → IsEntry host x → 0 < length (entry_form host x)
  unfolding get_header_size
  length-entry_form x h = go x.compressed refl
    where
      go : (c : Bool) → x.compressed ≡ c → 0 < length (entry_form host x)
      go false e =
          let header = entry_header host x.blob x.capacity false in
          rw (entry_form, e)
            (omega (
              arith,
              length-append (header_bytes header) x.blob,
              (header_bytes_lem 0 header [] h.small (omega arith)).1,
            ))
      go true e =
          let header = entry_header host x.blob x.capacity true in
          let bytes = host.compress x.blob x.capacity in
          rw (entry_form, e)
            (omega (
              arith,
              length-append (header_bytes header) bytes,
              (header_bytes_lem 0 header [] h.small h.comp_small).1,
            ))

  abbrev pub AreValid : List Buffer → Type 0
  AreValid [] = Unit {0}
  AreValid (slot ∷ slots) = IsValid slot × AreValid slots

  -- The buffers store the blobs, and the metadata have their places in the file.
  abbrev pub AreBlobs : FileInfo → ℕ → List Entry → List (Buffer × BlobMetadata) → Type 0
  AreBlobs info position [] [] = Unit {0}
  AreBlobs info position [] (x ∷ filled) = ⊥
  AreBlobs info position (x ∷ entries) [] = ⊥
  AreBlobs info position (x ∷ entries) ((b, metadata) ∷ filled) =
      (contents b ≡ x.blob)
      × (metadata ≡ record { file_key = info.file_key; offset = position })
      × AreBlobs info (position + length (entry_form host x)) entries filled

  get_next_batch-none :
      (stale : ℕ) (info : FileInfo) (position : ℕ) (bytes : List ℕ)
      → get_next_batch host stale info position bytes [] ≡ done [] bytes
  unfolding get_next_batch
  get_next_batch-none stale info position bytes = refl

  get_next_batch-end :
      (stale : ℕ) (info : FileInfo) (position : ℕ) (bytes : List ℕ) (slot : Buffer)
      (slots : List Buffer)
      → ltb_ℤ (pos position) info.data_length ≡ false
      → get_next_batch host stale info position bytes (slot ∷ slots) ≡ done [] bytes
  unfolding get_next_batch
  get_next_batch-end stale info position bytes slot slots at_end = rw at_end refl

  get_next_batch-more :
      (stale : ℕ) (info : FileInfo) (position : ℕ) (bytes rest : List ℕ) (slot : Buffer)
      (slots : List Buffer) (b : Buffer)
      → ltb_ℤ (pos position) info.data_length ≡ true
      → next_blob host stale bytes slot ≡ done b rest
      → get_next_batch host stale info position bytes (slot ∷ slots)
        ≡ prepend
            (b, record { file_key = info.file_key; offset = position })
            (get_next_batch host stale info (advanced position bytes rest) rest slots)
  unfolding get_next_batch
  get_next_batch-more stale info position bytes rest slot slots b more read = rw (more, read) refl

  -- For a file whose bytes up to the length of the data are the headers and bytes of blobs one behind the
  -- other, as PutInternal writes them (plain ones of a byte or more, and ones compressed into a target of
  -- the bound, all with sizes that are uint64_t), GetNextBatch with at least as many valid slots as there are blobs gives all blobs, in the order in which they stand
  -- in the file, each with its key and offset, and no more, whatever bytes follow.
  pub get_next_batch-laid_out :
      (stale : ℕ) (info : FileInfo) (position : ℕ) (entries : List Entry) (rest : List ℕ)
      (slots : List Buffer)
      → info.data_length ≡ pos (position + length (laid_out entries))
      → length entries ≤ length slots
      → AreEntries entries
      → AreValid slots
      → (filled : List (Buffer × BlobMetadata)) × (get_next_batch host stale info position
            (laid_out entries ++ rest)
            slots
          ≡ done filled rest)
        × AreBlobs info position entries filled
  unfolding laid_out
  get_next_batch-laid_out stale info position [] rest [] e n h v =
      ([], get_next_batch-none stale info position rest, tt)
  get_next_batch-laid_out stale info position [] rest (slot ∷ slots) e n h v =
      let at_end : ltb_ℤ (pos position) info.data_length ≡ false = rw e (ground arith) in
      ([], get_next_batch-end stale info position rest slot slots at_end, tt)
  get_next_batch-laid_out stale info position (x ∷ entries) rest [] e n h v = absurd (omega arith)
  get_next_batch-laid_out stale info position (x ∷ entries) rest (slot ∷ slots) e n h v =
      let later = laid_out entries ++ rest in
      let form = entry_form host x in
      let (is, others) = h in
      let some_bytes = length-entry_form x is in
      let more : ltb_ℤ (pos position) info.data_length ≡ true =
        rw e (ground (arith, length-append form (laid_out entries))) in
      let (b, read, same) = entry-IsNext x is stale later slot v.0 in
      let step = advanced-append position form later in
      let (filled, batch, blobs) =
        get_next_batch-laid_out stale info (position + length form) entries rest slots
          (e ∙ ap pos (omega (arith, length-append form (laid_out entries)))) (omega arith) others
          v.1 in
      (
        (b, record { file_key = info.file_key; offset = position }) ∷ filled,
        rw (append_assoc form (laid_out entries) rest) (
            get_next_batch-more stale info position (form ++ later) later slot slots b more read
            ∙ ap (prepend _) (
                subst (λ p. get_next_batch host stale info p later slots ≡ done filled rest)
                  (sym step) batch)),
        (same, refl, blobs),
      )
