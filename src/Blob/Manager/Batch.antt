-- ===== src/Blob/Manager/Batch.antt =====
-- src/jonoondb_api/blob_manager.cc: `MultiPut`, which flushes once for each data file that it fills.
use jonoondb.Prelude.{ℕ, ◌+◌, List, [], ◌∷◌, ◌++◌, Bool, ltb, if◌then◌else◌}
use jonoondb.Prelude.Outcome.{Outcome, ok}
use jonoondb.Prelude.Exec.{◌▷◌, on_throw}
use jonoondb.Buffer.{Buffer}
use jonoondb.FileNames.Interface.{Sqlite, Paths}
use jonoondb.Blob.Header.{get_header_size}
use jonoondb.Blob.Format.{size_or, estimate}
use jonoondb.Blob.Files.{Host}
use jonoondb.Blob.Manager.{
  BlobMetadata, BlobManager, seek, flush, put_internal, switch_to_new_data_file, update_length,
}

-- `baseOffsetInFile` and `totalBytesWrittenInFile`
pub record Progress : Type 0 where
  pub base_offset_in_file : ℕ
  pub total_bytes_written_in_file : ℕ

module _ (host : Host) {S : Sqlite} where
  -- A flush of what the batch has written to the current file, with its rollback.
  abbrev pub flush_batch : Progress → BlobManager S → Outcome {0} Unit × BlobManager S
  flush_batch p m =
      on_throw (flush host p.base_offset_in_file p.total_bytes_written_in_file m)
        (seek p.base_offset_in_file)

  module _ (paths : Paths) where
    -- The flush and the switch before a blob that might not fit.
    unfoldable pub make_room_in_batch :
        ℕ → Progress → BlobManager S → Outcome Progress × BlobManager S
    make_room_in_batch estimated p m =
        if ltb m.max_data_file_size (estimated + m.current_blob_file.write_offset)
        then (flush_batch p m ▷ λ _ m. switch_to_new_data_file host paths m ▷ λ _ m. (
          ok (record {
            base_offset_in_file = m.current_blob_file.write_offset;
            total_bytes_written_in_file = 0;
          }),
          m,
        ))
        else (ok p, m)

    -- The loop of `MultiPut`, with the metadata filled in so far.
    unfoldable pub put_each :
        Bool
        → List Buffer
        → List BlobMetadata
        → Progress
        → BlobManager S
        → Outcome (Progress × List BlobMetadata) × BlobManager S
    put_each compress [] metadata p m = (ok (p, metadata), m)
    put_each compress (blob ∷ blobs) metadata p m =
        (estimate host blob.len compress, m) ▷ λ comp_size m.
        make_room_in_batch (get_header_size blob.len comp_size + size_or blob.len comp_size) p m
        ▷ λ p m.
            on_throw (put_internal host blob compress m) (seek p.base_offset_in_file)
            ▷ λ (written, count) m.
                put_each compress blobs (metadata ++ (written ∷ []))
                  (record p { total_bytes_written_in_file = p.total_bytes_written_in_file + count })
                  m

    -- `MultiPut`
    unfoldable pub multi_put :
        List Buffer → Bool → BlobManager S → Outcome (List BlobMetadata) × BlobManager S
    multi_put blobs compress m =
        put_each compress blobs []
          (record {
            base_offset_in_file = m.current_blob_file.write_offset;
            total_bytes_written_in_file = 0;
          })
          m
        ▷ λ (p, metadata) m. flush_batch p m ▷ λ _ m. update_length m ▷ λ _ m. (ok metadata, m)
