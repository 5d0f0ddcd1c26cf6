-- ===== src/Blob/Iterator.antt =====
-- src/jonoondb_api/blob_manager.cc: `BlobIterator`, which reads the blobs of a data file one after the
-- other. `m_currentOffsetAddress` is the position in the file together with the bytes from there on.
pub mod Next
pub mod Batch
use Prim.Native.String.{String}
use jonoondb.Prelude.{
  ℕ, ◌+◌, ◌-◌, ◌*◌, List, [], ◌∷◌, Option, none, some, Bool, true, false, not, ltb, if◌then◌else◌,
  length, take, drop,
}
use jonoondb.Prelude.Int.{ℤ, pos, ltb_ℤ}
use jonoondb.Prelude.Outcome.{Outcome, ok, throw, ◌>>=◌}
use jonoondb.Buffer.{Buffer, resize, set_length, adopt, move_assign, standard_delete_no_op}
use jonoondb.FileNames.{FileInfo}
use jonoondb.Blob.Header.{BlobHeader, Reading, done, failed, overrun, and_then, read_blob_header}
use jonoondb.Blob.Files.{Files, bytes_of, Host, read_only, map_file}
use jonoondb.Blob.Format.{write_data, to_reading}
use jonoondb.Blob.Manager.{BlobMetadata}

-- The position behind what was read of the bytes.
unfoldable pub advanced : ℕ → List ℕ → List ℕ → ℕ
advanced position bytes rest = position + (length bytes - length rest)

pub record BlobIterator : Type 0 where
  pub file_info : FileInfo
  pub position : ℕ
  pub bytes : List ℕ

-- One more slot that is filled.
abbrev pub prepend :
    Buffer × BlobMetadata
    → Reading (List (Buffer × BlobMetadata))
    → Reading (List (Buffer × BlobMetadata))
prepend x (done filled rest) = done (x ∷ filled) rest
prepend x (failed e) = failed e
prepend x overrun = overrun

module _ (host : Host) where
  -- The constructor
  unfoldable pub open_iterator : FileInfo → Files → Outcome BlobIterator
  open_iterator info files = map_file host info.file_name_with_path read_only files >>= λ file.
      ok (record { file_info = info; position = 0; bytes = bytes_of files file.file_name })

  -- The blob behind a header, in a slot of the batch: decompressed, into twice the memory if there is too
  -- little, or a view of the mapped bytes.
  unfoldable pub next_contents : BlobHeader → List ℕ → Bool → Buffer → Reading Buffer
  next_contents header rest true slot =
      let target =
        if ltb slot.capacity header.blob_size
        then resize host.fresh slot (header.blob_size * 2)
        else slot in
      if ltb (length rest) header.comp_size
      then overrun
      else to_reading
          (set_length (write_data target (host.decompress rest header.blob_size)) header.blob_size)
          (drop header.comp_size rest)
  next_contents header rest false slot =
      if ltb (length rest) header.blob_size
      then overrun
      else to_reading
          (adopt (some (take header.blob_size rest)) header.blob_size header.blob_size
              (some standard_delete_no_op)
            >>= λ view. ok (move_assign false slot view).0)
          (drop header.blob_size rest)

  -- One round of the loop of `GetNextBatch`.
  unfoldable pub next_blob : ℕ → List ℕ → Buffer → Reading Buffer
  unfolding next_contents
  next_blob stale bytes slot =
      and_then (read_blob_header stale bytes)
        λ header rest. next_contents header rest header.compressed slot

  -- `GetNextBatch`, for the slots of the batch: the buffers filled and their metadata, as many as the
  -- result counts, and the bytes behind them. It stops at the length of the data.
  unfoldable pub get_next_batch :
      ℕ → FileInfo → ℕ → List ℕ → List Buffer → Reading (List (Buffer × BlobMetadata))
  unfolding next_blob
  get_next_batch stale info position bytes [] = done [] bytes
  get_next_batch stale info position bytes (slot ∷ slots) =
      if not (ltb_ℤ (pos position) info.data_length)
      then done [] bytes
      else elim (next_blob stale bytes slot) [
        | failed e ↦ failed e
        | overrun ↦ overrun
        | done blob rest ↦
            prepend (blob, record { file_key = info.file_key; offset = position })
              (get_next_batch stale info (advanced position bytes rest) rest slots)
      ]
