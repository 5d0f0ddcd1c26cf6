-- ===== src/Blob/Manager.antt =====
-- src/jonoondb_api/blob_manager.cc: `BlobManager`, which appends blobs to data files and reads them
-- back. Its state has the files and the file names as they stand. The write mutex makes `Put` and
-- `MultiPut` one step each. What is thrown comes with the state that it leaves; the metadata that `Put`
-- has filled in before a throw is not given back. Of a mapping for reading only the file's name
-- matters, which is what the cache holds.
pub mod Batch
pub mod Append
pub mod Ready
pub mod Kept
pub mod Switch
pub mod PutGet
pub mod Opened
pub mod Opening
use Prim.Native.String.{String}
use jonoondb.Prelude.{
  ℕ, ◌+◌, ◌-◌, ◌^◌, List, [], ◌∷◌, Option, none, some, Bool, true, false, ltb, if◌then◌else◌,
  length, take, drop, ℕ_discrete,
}
use jonoondb.Prelude.Int.{ℤ, pos, negsuc}
use jonoondb.Prelude.Outcome.{Outcome, Done, Exception, ok, throw, jonoondb_error}
use jonoondb.Prelude.Exec.{◌▷◌, on_throw}
use jonoondb.Buffer.{Buffer, stored, contents, memcpy, resize, set_length, copy}
use jonoondb.LruCache.{Cache, add, find, set_evictable, perform_eviction}
use jonoondb.FileNames.Interface.{Sqlite, Paths}
use jonoondb.FileNames.{
  FileInfo, FileNameManager, unset, get_current_data_file_info, get_next_data_file_info,
  update_data_file_length, get_file_info,
}
use jonoondb.Blob.Header.{
  BlobHeader, get_header_size, write_blob_header, Reading, done, failed, overrun, and_then,
  read_blob_header,
}
use jonoondb.Blob.Format.{
  size_or, header_bytes, get_compressed_size, estimate, compressed_into, read_blob,
}
use jonoondb.Blob.Files.{
  Files, bytes_of, exists, Host, Mode, read_only, read_write, MappedFile, fast_allocate, map_file,
  flush_region, set_current_write_offset, write_at_current_position,
}

-- `include/jonoondb_api/blob_metadata.h`
pub record BlobMetadata : Type 0 where
  pub file_key : ℕ
  pub offset : ℕ

pub record BlobManager (S : Sqlite) : Type 0 where
  pub names : FileNameManager S
  pub files : Files
  pub max_data_file_size : ℕ
  pub current_blob_file_info : FileInfo
  pub current_blob_file : MappedFile
  pub reader_files : Cache ℕ String
  pub comp_buffer : Buffer

-- A size_t from an int64_t.
abbrev pub to_size : ℤ → ℕ
to_size (pos n) = n
to_size (negsuc n) = 2 ^ 64 - (n + 1)

abbrev pub is_unset : ℤ → Bool
is_unset (pos n) = false
is_unset (negsuc n) = ltb n 1

-- A call of another component within a method.
abbrev pub on_names :
    {S : Sqlite} {A : Type 0}
    → BlobManager S
    → Outcome A × FileNameManager S
    → Outcome A × BlobManager S
on_names m (result, names) = (result, record m { names = names })

abbrev pub on_files :
    {S : Sqlite} {A : Type 0} → BlobManager S → Outcome A × Files → Outcome A × BlobManager S
on_files m (result, files) = (result, record m { files = files })

module _ {S : Sqlite} where
  abbrev pub seek : ℕ → BlobManager S → BlobManager S
  seek offset m = record m {
    current_blob_file = set_current_write_offset offset m.current_blob_file;
  }

  abbrev pub write : List ℕ → BlobManager S → Done × BlobManager S
  write data' m =
      let (result, (file, files)) = write_at_current_position data' m.current_blob_file m.files in
      (result, record m { current_blob_file = file; files = files })

  -- The length of the current file is stored.
  abbrev pub update_length : BlobManager S → Done × BlobManager S
  update_length m = on_names m (
      update_data_file_length m.current_blob_file_info.file_key
        (pos m.current_blob_file.write_offset) m.names)

  -- `UnmapLRUDataFiles`
  unfoldable pub unmap_lru_data_files : BlobManager S → BlobManager S
  unmap_lru_data_files m = record m { reader_files = perform_eviction ℕ_discrete m.reader_files }

  -- The end of `PutInternal`: the header and the bytes of the blob are written, and the metadata and the
  -- number of bytes written are returned.
  unfoldable pub append_blob :
      BlobHeader → Buffer → BlobManager S → Outcome (BlobMetadata × ℕ) × BlobManager S
  append_blob header data' m = write (header_bytes header) m ▷ λ _ m1.
      write (contents data') m1 ▷ λ _ m2. (
        ok (
          record {
            file_key = m.current_blob_file_info.file_key;
            offset = m.current_blob_file.write_offset;
          },
          length (header_bytes header) + data'.len,
        ),
        m2,
      )

module _ (host : Host) {S : Sqlite} where
  -- `PutInternal`
  unfoldable pub put_internal :
      Buffer → Bool → BlobManager S → Outcome (BlobMetadata × ℕ) × BlobManager S
  put_internal blob false m =
      append_blob (record { version = 1; compressed = false; blob_size = blob.len; comp_size = 0 })
        blob m
  put_internal blob true m = (get_compressed_size host blob.len, m) ▷ λ max_comp_size m.
      let (buffer, comp_size) = compressed_into host blob m.comp_buffer max_comp_size in
      (set_length buffer comp_size, record m { comp_buffer = buffer }) ▷ λ buffer m.
      append_blob
        (record { version = 1; compressed = true; blob_size = blob.len; comp_size = comp_size })
        buffer (record m { comp_buffer = buffer })

  -- `Flush`
  abbrev pub flush : ℕ → ℕ → BlobManager S → Done × BlobManager S
  flush offset num_bytes m = (flush_region host m.current_blob_file offset num_bytes, m)

  module _ (paths : Paths) where
    -- `SwitchToNewDataFile`
    unfoldable pub switch_to_new_data_file : BlobManager S → Done × BlobManager S
    switch_to_new_data_file m = on_names m (get_next_data_file_info paths m.names) ▷ λ info m.
        on_files m (fast_allocate host info.file_name_with_path m.max_data_file_size m.files)
        ▷ λ _ m. (map_file host info.file_name_with_path read_write m.files, m) ▷ λ file m.
            update_length m ▷ λ _ m.
            let (evictable, _) =
              set_evictable ℕ_discrete m.reader_files m.current_blob_file_info.file_key true in
            (
              ok tt,
              record m {
                current_blob_file_info = info;
                current_blob_file = file;
                reader_files = add ℕ_discrete evictable info.file_key file.file_name false;
              },
            )

    -- The switch of `Put`, where the blob might not fit.
    abbrev pub make_room : ℕ → BlobManager S → Done × BlobManager S
    make_room estimated m =
        if ltb m.max_data_file_size (estimated + m.current_blob_file.write_offset)
        then switch_to_new_data_file m
        else (ok tt, m)

    -- The `try` of `Put`.
    abbrev pub put_and_flush : Buffer → Bool → BlobManager S → Outcome BlobMetadata × BlobManager S
    put_and_flush blob compress m =
        on_throw
          (put_internal blob compress m ▷ λ (metadata, bytes_written) m'.
            flush m.current_blob_file.write_offset bytes_written m' ▷ λ _ m''. (ok metadata, m''))
          (seek m.current_blob_file.write_offset)

    -- `Put`
    unfoldable pub put : Buffer → Bool → BlobManager S → Outcome BlobMetadata × BlobManager S
    put blob compress m = (estimate host blob.len compress, m) ▷ λ comp_size m.
        make_room (get_header_size blob.len comp_size + size_or blob.len comp_size) m ▷ λ _ m.
        put_and_flush blob compress m ▷ λ metadata m. update_length m ▷ λ _ m. (ok metadata, m)

    -- The mapping that `Get` reads from: one of the cache, or a new one that the cache gets.
    abbrev pub reader_or_open :
        FileInfo → BlobManager S → Option String → Outcome String × BlobManager S
    reader_or_open info m (some name) = (ok name, m)
    reader_or_open info m none =
        (map_file host info.file_name_with_path read_only m.files, m) ▷ λ file m. (
          ok file.file_name,
          record m {
            reader_files = add ℕ_discrete m.reader_files info.file_key file.file_name true;
          },
        )

    -- `Get`: what it reads into the buffer, once it has the mapping. Where decompression fails the source
    -- throws nothing and keeps what the library has written.
    unfoldable pub get :
        ℕ → BlobMetadata → Buffer → BlobManager S → Outcome (Reading Buffer) × BlobManager S
    get stale metadata blob m =
        on_names m (get_file_info paths metadata.file_key m.names) ▷ λ info m.
        let (readers, found) = find ℕ_discrete m.reader_files info.file_key in
        reader_or_open info (record m { reader_files = readers }) found ▷ λ name m.
        (ok (read_blob host stale (drop metadata.offset (bytes_of m.files name)) blob), m)
