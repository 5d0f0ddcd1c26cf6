-- ===== src/Blob/Manager/Ready.antt =====
-- blob_manager.cc: the invariant of `BlobManager`, and what it means that a blob is stored.
use Prim.Native.String.{String}
use jonoondb.Prelude.{
  ℕ, ◌+◌, ◌≤◌, ◌≡◌, sym, ap, ◌∙◌, inl, inr, Bool, List, some, length, take, drop, ℕ_discrete,
}
use jonoondb.Prelude.Int.{pos}
use jonoondb.Buffer.Valid.{IsValid}
use jonoondb.LruCache.Reads.{peek, peek-add}
use jonoondb.LruCache.{Cache, add}
use jonoondb.FileNames.Interface.{Sqlite, Paths, IsLawful}
use jonoondb.FileNames.{FileNameManager, info_of}
use jonoondb.FileNames.Names.{ite-some, IsNamed, HasRow}
use jonoondb.Blob.Files.{Host}
use jonoondb.Blob.Format.RoundTrip.{HoldsBlob}
use jonoondb.Blob.Manager.{BlobMetadata, BlobManager}

-- The path of the data file of a key.
abbrev pub path_of : {S : Sqlite} → Paths → FileNameManager S → ℕ → String
path_of paths names key = (info_of paths names key (pos 0)).file_name_with_path

-- The cache has the paths of its keys.
abbrev pub HasPaths : {S : Sqlite} → Paths → FileNameManager S → Cache ℕ String → Type 0
HasPaths paths names c =
    (k : ℕ) (name : String) → peek ℕ_discrete c k ≡ some name → name ≡ path_of paths names k

pub add-HasPaths :
    {S : Sqlite} (paths : Paths) (names : FileNameManager S) (c : Cache ℕ String) (key : ℕ)
    (evictable : Bool)
    → HasPaths paths names c
    → HasPaths paths names (add ℕ_discrete c key (path_of paths names key) evictable)
add-HasPaths paths names c key evictable readers k name there =
    elim (ite-some key k (path_of paths names key) name (peek ℕ_discrete c k)
      (sym (peek-add ℕ_discrete c key (path_of paths names key) evictable k) ∙ there)) [
        | inl (same, new) ↦ new ∙ ap (path_of paths names) same
        | inr old ↦ readers k name old
      ]

module _ {S : Sqlite} (paths : Paths) (lawful : IsLawful S) where
  -- The rows have the names of their keys, the current key has one, and the current file is there, has
  -- the maximum size and is written up to an offset inside it; the cache has the files of its keys.
  pub record IsReady (m : BlobManager S) : Type 0 where
    pub named : IsNamed paths lawful m.names
    pub current_row : HasRow paths lawful m.names m.current_blob_file_info.file_key
    pub current_name :
        m.current_blob_file.file_name ≡ path_of paths m.names m.current_blob_file_info.file_key
    pub current_bytes : List ℕ
    pub current_file : m.files m.current_blob_file.file_name ≡ some current_bytes
    pub current_size : length current_bytes ≡ m.max_data_file_size
    pub within : m.current_blob_file.write_offset ≤ m.max_data_file_size
    pub readers : HasPaths paths m.names m.reader_files
    pub comp_buffer : IsValid m.comp_buffer

  -- The data file of the key has bytes that hold the blob at the offset, in the current file before the
  -- place where the next blob goes.
  pub record IsStored (host : Host) (m : BlobManager S) (metadata : BlobMetadata) (blob : List ℕ)
      : Type 0 where
    pub row : HasRow paths lawful m.names metadata.file_key
    pub form : List ℕ
    pub holds : HoldsBlob host form blob
    pub bytes : List ℕ
    pub file : m.files (path_of paths m.names metadata.file_key) ≡ some bytes
    pub region : take (length form) (drop metadata.offset bytes) ≡ form
    pub inside :
        path_of paths m.names metadata.file_key ≡ m.current_blob_file.file_name
        → metadata.offset + length form ≤ m.current_blob_file.write_offset
