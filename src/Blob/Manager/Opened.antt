-- ===== src/Blob/Manager/Opened.antt =====
-- blob_manager.cc: the constructor of `BlobManager` gives a manager that is ready.
use Prim.Native.String.{String}
use jonoondb.Prelude.{
  none, if◌then◌else◌, ℕ, ◌≤◌, ◌≡◌, refl, sym, ap, subst, ◌∙◌, List, [], some, false, arith, length,
  length-replicate, replicate, Bool-cases, Option-cases, ◌⊎◌, inl, inr, ℕ_discrete,
}
use jonoondb.Prelude.Int.{ℤ}
use jonoondb.Prelude.Outcome.{Done, Exception, ok, throw, file_io_error, foreign}
use jonoondb.Prelude.Exec.{◌▷◌}
use jonoondb.Buffer.Valid.{IsValid, empty-IsValid}
use jonoondb.LruCache.{Cache, lookup, add}
use jonoondb.LruCache.Reads.{peek}
use jonoondb.FileNames.Interface.{Sqlite, Paths, IsLawful}
use jonoondb.FileNames.{FileNameManager, FileInfo, unset, info_of}
use jonoondb.FileNames.Keys.{row_of, get_current_data_file_info_cases}
use jonoondb.FileNames.Names.{IsNamed, HasRow, extended-IsNamed, new-HasRow}
use jonoondb.Blob.Files.{
  Files, MappedFile, exists, with_file, Host, read_write, map_file, set_current_write_offset,
}
use jonoondb.Blob.Manager.{BlobManager, to_size, is_unset, seek, update_length}
use jonoondb.Blob.Manager.Opening.{
  default_mem_map_lru_cache_size, initialised, allocate_if_missing, resume, open_blob_manager,
}
use jonoondb.Blob.Manager.Ready.{path_of, HasPaths, add-HasPaths, IsReady}
use jonoondb.Blob.Manager.Kept.{readers-IsKept, with_file_self, there-with_file}
use jonoondb.Blob.Manager.Switch.{
  IsReliable, fast_allocate-IsReliable, map_file-IsReliable, fast_allocate_cases, map_file_cases,
  update_length-IsKept,
}

abbrev no_readers : Cache ℕ String
no_readers = record { entries = []; last_used = 0; max_cache_size = default_mem_map_lru_cache_size }

no_reader : (k : ℕ) (name : String) → peek ℕ_discrete no_readers k ≡ some name → ⊥
unfolding lookup
no_reader k name e = absurd cc

module _ {S : Sqlite} (paths : Paths) (lawful : IsLawful S) (host : Host) where
  -- What the constructor finds: rows with the names of their keys, data files of the maximum size, and
  -- lengths inside it.
  pub record IsSound (names : FileNameManager S) (files : Files) (max_size : ℕ) : Type 0 where
    pub named : IsNamed paths lawful names
    pub sizes :
        (k : ℕ) (bytes : List ℕ)
        → files (path_of paths names k) ≡ some bytes
        → length bytes ≡ max_size
    pub lengths :
        (k : ℕ) (name : String) (len : ℤ)
        → row_of lawful names k ≡ some (name, len)
        → is_unset len ≡ false
        → to_size len ≤ max_size

  -- The manager with the file of the key at an offset.
  abbrev mapped_at : BlobManager S → ℕ → ℤ → ℕ → BlobManager S
  mapped_at m key len offset = record m {
    current_blob_file_info = info_of paths m.names key len;
    current_blob_file = record { file_name = path_of paths m.names key; write_offset = offset };
  }

  -- A file of the maximum size is there under the key, which has a row.
  record HasFile (m : BlobManager S) (key : ℕ) : Type 0 where
    named : IsNamed paths lawful m.names
    row : HasRow paths lawful m.names key
    bytes : List ℕ
    there : m.files (path_of paths m.names key) ≡ some bytes
    size : length bytes ≡ m.max_data_file_size
    readers : HasPaths paths m.names m.reader_files
    comp_buffer : IsValid m.comp_buffer

  mapped_at-IsReady :
      (m : BlobManager S) (key : ℕ) (len : ℤ) (offset : ℕ)
      → HasFile m key
      → offset ≤ m.max_data_file_size
      → IsReady paths lawful (mapped_at m key len offset)
  mapped_at-IsReady m key len offset h inside = record {
    named = h.named;
    current_row = h.row;
    current_name = refl;
    current_bytes = h.bytes;
    current_file = h.there;
    current_size = h.size;
    within = inside;
    readers = h.readers;
    comp_buffer = h.comp_buffer;
  }

  -- What is written to a file by its row: nothing, if the length is not set.
  abbrev pub written_length : ℤ → ℕ
  written_length len = if is_unset len then 0 else to_size len

  -- All files that were there are there as they were.
  abbrev pub KeepsFiles : Files → Files → Type 0
  KeepsFiles files files' =
      (path : String) (bytes : List ℕ) → files path ≡ some bytes → files' path ≡ some bytes

  -- The constructor throws, which it does not where no call of the host fails, or it gives a manager that is
  -- ready and writes next at the offset of the file of the key.
  abbrev pub Opens : ℕ → ℕ → ℕ → Files → Done × BlobManager S → Type 0
  Opens max_size key offset files result =
      ((e : Exception) × ((m : BlobManager S) × (result ≡ (throw e, m)) × ¬ IsReliable host))
      ⊎ ((m : BlobManager S) × (result ≡ (ok tt, m))
          × IsReady paths lawful m
          × (m.max_data_file_size ≡ max_size)
          × (m.current_blob_file_info.file_key ≡ key)
          × (m.current_blob_file.write_offset ≡ offset)
          × KeepsFiles files m.files)

  -- The key of the last row and what is written to its file; 0 and nothing where there is no row.
  abbrev pub IsLast : FileNameManager S → ℕ → ℕ → Type 0
  IsLast names key offset =
      (((j : ℕ) → row_of lawful names j ≡ none) × (key ≡ 0) × (offset ≡ 0))
      ⊎ ((name : String) × ((len : ℤ) × (row_of lawful names key ≡ some (name, len))
            × ((j : ℕ) (r : String × ℤ) → row_of lawful names j ≡ some r → j ≤ key)
            × (offset ≡ written_length len)))

  Opens-files :
      (max_size key offset : ℕ) (files files' : Files) (result : Done × BlobManager S)
      → KeepsFiles files files'
      → Opens max_size key offset files' result
      → Opens max_size key offset files result
  Opens-files max_size key offset files files' result keeps (inl thrown) = inl thrown
  Opens-files max_size key offset files files' result keeps
        (inr (m, returned, ready, max, here, there, kept)) =
      inr
        (m, returned, ready, max, here, there, λ path bytes e. kept path bytes (keeps path bytes e))

  abbrev with_reader : FileInfo → String → BlobManager S → BlobManager S
  with_reader info name m = record m {
    reader_files = add ℕ_discrete m.reader_files info.file_key name false;
  }

  -- The constructor from where the file is there and mapped.
  abbrev after_mapping : FileInfo → MappedFile → BlobManager S → Done × BlobManager S
  after_mapping info file m =
      resume host paths info (record m { current_blob_file_info = info; current_blob_file = file })
      ▷ λ _ now. (ok tt, with_reader info file.file_name now)

  resume-old :
      (info : FileInfo) (m : BlobManager S)
      → is_unset info.data_length ≡ false
      → resume host paths info m ≡ update_length (seek (to_size info.data_length) m)
  resume-old info m old = rw old refl

  with_reader-IsReady :
      (m : BlobManager S)
      → IsReady paths lawful m
      → IsReady paths lawful (record m {
        reader_files =
            add ℕ_discrete m.reader_files m.current_blob_file_info.file_key
              m.current_blob_file.file_name false;
      })
  with_reader-IsReady m r =
      (readers-IsKept paths lawful host m _ r (
        subst
          (λ name.
            HasPaths paths m.names
              (add ℕ_discrete m.reader_files m.current_blob_file_info.file_key name false))
          (sym r.current_name)
          (add-HasPaths paths m.names m.reader_files m.current_blob_file_info.file_key false
            r.readers))).ready

  resumed :
      (m : BlobManager S) (key : ℕ) (len : ℤ)
      → HasFile m key
      → (is_unset len ≡ false → to_size len ≤ m.max_data_file_size)
      → Opens m.max_data_file_size key (written_length len) m.files (
          after_mapping
            (info_of paths m.names key len)
            (record { file_name = path_of paths m.names key; write_offset = 0 })
            m)
  unfolding set_current_write_offset
  resumed m key len h inside = elim (Bool-cases (is_unset len)) [
    | inl new ↦
        let at_start = mapped_at m key len 0 in
        inr (
          record at_start {
            reader_files = add ℕ_discrete m.reader_files key (path_of paths m.names key) false;
          },
          rw new refl,
          with_reader-IsReady at_start (mapped_at-IsReady m key len 0 h (omega arith)),
          refl,
          refl,
          rw new refl,
          λ path bytes e. e,
        )
    | inr old ↦
        let at_end = mapped_at m key len (to_size len) in
        let (db, done, _, kept) =
          update_length-IsKept paths lawful host at_end
            (mapped_at-IsReady m key len (to_size len) h (inside old)) in
        inr (
          record at_end {
            names = record m.names { database = db };
            reader_files = add ℕ_discrete m.reader_files key (path_of paths m.names key) false;
          },
          ap
              (λ r. r ▷ λ _ now. (
                ok tt,
                with_reader (info_of paths m.names key len) (path_of paths m.names key) now,
              ))
              (resume-old (info_of paths m.names key len) (mapped_at m key len 0) old ∙ done),
          with_reader-IsReady (record at_end { names = record m.names { database = db } })
              kept.ready,
          refl,
          refl,
          rw old refl,
          λ path bytes e. e,
        )
  ]

  -- From where the file's info is known.
  abbrev after_info : FileInfo → BlobManager S → Done × BlobManager S
  after_info info m = allocate_if_missing host paths info m ▷ λ _ m.
      (map_file host info.file_name_with_path read_write m.files, m) ▷ λ file m.
      after_mapping info file m

  mapped :
      (m : BlobManager S) (key : ℕ) (len : ℤ)
      → HasFile m key
      → (is_unset len ≡ false → to_size len ≤ m.max_data_file_size)
      → Opens m.max_data_file_size key (written_length len) m.files (
          (map_file host (path_of paths m.names key) read_write m.files, m) ▷ λ file now.
          after_mapping (info_of paths m.names key len) file now)
  mapped m key len h inside =
      elim (map_file_cases host (path_of paths m.names key) read_write m.files) [
        | inl refused ↦ rw refused (
            inl (
              foreign,
              (
                m,
                refl,
                λ u. absurd (
                    cc (
                      refused,
                      map_file-IsReliable host u (path_of paths m.names key) read_write m.files
                          h.bytes h.there,
                    )),
              ),
            ))
        | inr there ↦ rw there (resumed m key len h inside)
      ]

  informed :
      (m : BlobManager S) (key : ℕ) (len : ℤ)
      → IsNamed paths lawful m.names
      → HasRow paths lawful m.names key
      → ((bytes : List ℕ)
          → m.files (path_of paths m.names key) ≡ some bytes
          → length bytes ≡ m.max_data_file_size)
      → HasPaths paths m.names m.reader_files
      → IsValid m.comp_buffer
      → (is_unset len ≡ false → to_size len ≤ m.max_data_file_size)
      → Opens m.max_data_file_size key
          (written_length len)
          m.files
          (after_info (info_of paths m.names key len) m)
  informed m key len named row sizes readers valid inside =
      let path = path_of paths m.names key in
      elim (Option-cases (m.files path)) [
        | inr (bytes, there) ↦
            rw (exists, there)
              (mapped m key len
                (record {
                  named = named;
                  row = row;
                  bytes = bytes;
                  there = there;
                  size = sizes bytes there;
                  readers = readers;
                  comp_buffer = valid;
                })
                inside)
        | inl missing ↦
            let made_there = λ (u : IsReliable host).
              fast_allocate-IsReliable host u path m.max_data_file_size m.files missing in
            rw (exists, missing)
              (elim (fast_allocate_cases host path m.max_data_file_size m.files) [
                | inl refused ↦
                    rw refused
                      (inl (file_io_error, (m, refl, λ u. absurd (cc (refused, made_there u)))))
                | inr (inl (_, (bytes, refused))) ↦ rw refused (
                    inl (
                      file_io_error,
                      (
                        record m { files = with_file m.files path bytes },
                        refl,
                        λ u. absurd (cc (refused, made_there u)),
                      ),
                    ))
                | inr (inr (_, made)) ↦
                    let zeros = replicate m.max_data_file_size 0 in
                    rw made (
                      Opens-files m.max_data_file_size key (written_length len) m.files
                        (with_file m.files path zeros) _
                        (λ other bytes e. there-with_file m.files path other zeros bytes missing e)
                        (mapped (record m { files = with_file m.files path zeros }) key len
                          (record {
                            named = named;
                            row = row;
                            bytes = zeros;
                            there = with_file_self m.files path zeros;
                            size = length-replicate m.max_data_file_size 0;
                            readers = readers;
                            comp_buffer = valid;
                          })
                          inside))
              ])
      ]

  -- For rows with the names of their keys, data files of the maximum size and lengths inside it, the
  -- constructor throws, which it does not where no call of the host fails, or it gives a manager that is
  -- ready. The manager writes next to the file of the last row, behind what is written to it by its row
  -- (at the start if the length is not set), or to the start of a first file of key 0 where there is no
  -- row. All files that were there are as they were.
  pub open_blob_manager-Opens :
      (names : FileNameManager S) (files : Files) (max_size : ℕ)
      → IsSound names files max_size
      → (key : ℕ) × ((offset : ℕ) × IsLast names key offset
          × Opens max_size key offset files (open_blob_manager host paths names files max_size))
  unfolding open_blob_manager
  open_blob_manager-Opens names files max_size sound =
      elim (get_current_data_file_info_cases lawful paths names) [
        | inl (empty, _, (db, made, extended)) ↦
            let created = record names { database = db } in
            (
              0,
              (
                0,
                inl (empty, refl, refl),
                rw made (
                    informed (initialised created files max_size) 0 unset
                      (extended-IsNamed paths lawful names db 0 sound.named extended)
                      (new-HasRow paths lawful names db 0 _ extended) (sound.sizes 0)
                      (λ k name e. absurd (no_reader k name e)) empty-IsValid (λ e. absurd cc)),
              ),
            )
        | inr (k, (name, (len, there, _, (row, top)))) ↦ (
          k,
          (
            written_length len,
            inr (name, (len, row, top, refl)),
            rw there (
                informed (initialised names files max_size) k len sound.named ((name, len), row)
                  (sound.sizes k) (λ j reader e. absurd (no_reader j reader e)) empty-IsValid
                  (sound.lengths k name len row)),
          ),
        )
      ]
