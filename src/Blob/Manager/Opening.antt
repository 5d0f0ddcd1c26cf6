-- ===== src/Blob/Manager/Opening.antt =====
-- src/jonoondb_api/blob_manager.cc: the constructor of `BlobManager`.
use jonoondb.Prelude.{ℕ, [], true, false, if◌then◌else◌, ℕ_discrete}
use jonoondb.Prelude.Outcome.{Done, ok}
use jonoondb.Prelude.Exec.{◌▷◌}
use jonoondb.Buffer
use jonoondb.LruCache.{add}
use jonoondb.FileNames.Interface.{Sqlite, Paths}
use jonoondb.FileNames.{FileInfo, FileNameManager, get_current_data_file_info, unset}
use jonoondb.Blob.Files.{Files, exists, Host, read_write, fast_allocate, map_file}
use jonoondb.Blob.Manager.{BlobManager, to_size, is_unset, on_names, on_files, seek, update_length}

-- `DEFAULT_MEM_MAP_LRU_CACHE_SIZE`
abbrev pub default_mem_map_lru_cache_size : ℕ
default_mem_map_lru_cache_size = 3

-- The members as they are initialised, before the body. The file and its info are set there.
abbrev pub initialised : {S : Sqlite} → FileNameManager S → Files → ℕ → BlobManager S
initialised names files max_size = record {
  names = names;
  files = files;
  max_data_file_size = max_size;
  current_blob_file_info = record {
    file_key = 0;
    file_name = "";
    file_name_with_path = "";
    data_length = unset;
  };
  current_blob_file = record { file_name = ""; write_offset = 0 };
  reader_files = record {
    entries = [];
    last_used = 0;
    max_cache_size = default_mem_map_lru_cache_size;
  };
  comp_buffer = Buffer.empty;
}

module _ (host : Host) (paths : Paths) {S : Sqlite} where
  abbrev pub allocate_if_missing : FileInfo → BlobManager S → Done × BlobManager S
  allocate_if_missing info m =
      if exists m.files info.file_name_with_path
      then (ok tt, m)
      else on_files m (fast_allocate host info.file_name_with_path m.max_data_file_size m.files)

  abbrev pub resume : FileInfo → BlobManager S → Done × BlobManager S
  resume info m =
      if is_unset info.data_length
      then (ok tt, m)
      else update_length (seek (to_size info.data_length) m)

  unfoldable pub open_blob_manager : FileNameManager S → Files → ℕ → Done × BlobManager S
  open_blob_manager names files max_size =
      on_names (initialised names files max_size) (get_current_data_file_info paths true names)
      ▷ λ info m. allocate_if_missing info m ▷ λ _ m.
          (map_file host info.file_name_with_path read_write m.files, m) ▷ λ file m.
          resume info (record m { current_blob_file_info = info; current_blob_file = file })
          ▷ λ _ m. (
            ok tt,
            record m {
              reader_files = add ℕ_discrete m.reader_files info.file_key file.file_name false;
            },
          )
