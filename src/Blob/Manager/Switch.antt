-- ===== src/Blob/Manager/Switch.antt =====
-- blob_manager.cc: `SwitchToNewDataFile` keeps the invariant and what is stored, wherever it stops.
use Prim.Native.String.{String}
use jonoondb.Prelude.{
  ℕ, ◌+◌, ◌≡◌, refl, sym, ap, ◌∙◌, List, [], none, some, true, false, arith, replicate,
  length-replicate, Bool-cases, Option-cases, ◌⊎◌, inl, inr, ℕ_discrete, not, ◌||◌,
}
use jonoondb.Prelude.Int.{pos}
use jonoondb.Prelude.Outcome.{Exception, ok, throw, jonoondb_error, file_io_error, foreign}
use jonoondb.LruCache.{Cache, set_evictable, add}
use jonoondb.LruCache.Reads.{peek-set_evictable}
use jonoondb.FileNames.Interface.{Sqlite, Paths, IsLawful}
use jonoondb.FileNames.{FileNameManager, unset, info_of}
use jonoondb.FileNames.Keys.{
  row_of, above-fresh, get_next_data_file_info_cases, update_data_file_length-row,
}
use jonoondb.FileNames.Names.{
  HasRow, extended-IsNamed, update-IsNamed, extended-HasRow, new-HasRow, update-HasRow,
}
use jonoondb.Blob.Files.{Files, exists, with_file, Host, Mode, read_write, fast_allocate, map_file}
use jonoondb.Blob.Manager.{BlobManager, update_length, switch_to_new_data_file}
use jonoondb.Blob.Manager.Ready.{path_of, HasPaths, add-HasPaths, IsReady}
use jonoondb.Blob.Manager.Kept.{
  IsKept, IsKept-refl, IsKept-trans, names-IsKept, files-IsKept, with_file_self,
}

exists-false : (files : Files) (name : String) → exists files name ≡ false → files name ≡ none
exists-false files name e = elim (Option-cases (files name)) [
  | inl missing ↦ missing
  | inr (bytes, there) ↦ absurd (ground arith)
]

module _ (host : Host) where
  -- FastAllocate either makes a new file of zeros, or throws and has made at most a new file.
  pub fast_allocate_cases :
      (name : String) (size : ℕ) (files : Files)
      → (fast_allocate host name size files ≡ (throw file_io_error, files))
        ⊎ ((files name ≡ none)
              × ((bytes : List ℕ) × (fast_allocate host name size files
                    ≡ (throw file_io_error, with_file files name bytes)))
            ⊎ (files name ≡ none)
              × (fast_allocate host name size files
                  ≡ (ok tt, with_file files name (replicate size 0))))
  unfolding fast_allocate
  fast_allocate_cases name size files =
      elim (Bool-cases (exists files name || not (host.can_create name))) [
        | inl refused ↦ inl (rw refused refl)
        | inr created ↦
            let missing = exists-false files name (ground arith) in
            elim (Bool-cases (host.can_truncate name size)) [
              | inr cut ↦ inr (inl (missing, ([], rw (created, cut) refl)))
              | inl sized ↦ elim (Bool-cases (host.can_close name)) [
                | inr open_still ↦
                    inr (inl (missing, (replicate size 0, rw (created, sized, open_still) refl)))
                | inl closed ↦ inr (inr (missing, rw (created, sized, closed) refl))
              ]
            ]
      ]

  pub map_file_cases :
      (name : String) (mode : Mode) (files : Files)
      → (map_file host name mode files ≡ throw foreign)
        ⊎ (map_file host name mode files ≡ ok (record { file_name = name; write_offset = 0 }))
  unfolding map_file
  map_file_cases name mode files = elim (Bool-cases (exists files name)) [
    | inr missing ↦ inl (rw missing refl)
    | inl there ↦ elim (Bool-cases (host.can_map name mode)) [
      | inl mapped ↦ inr (rw (there, mapped) refl)
      | inr refused ↦ inl (rw (there, refused) refl)
    ]
  ]

-- No call of the host fails.
pub record IsReliable (host : Host) : Type 0 where
  pub creates : (name : String) → host.can_create name ≡ true
  pub truncates : (name : String) (size : ℕ) → host.can_truncate name size ≡ true
  pub closes : (name : String) → host.can_close name ≡ true
  pub maps : (name : String) (mode : Mode) → host.can_map name mode ≡ true
  pub flushes : (name : String) (offset count : ℕ) → host.can_flush name offset count ≡ true

module _ (host : Host) (reliable : IsReliable host) where
  pub fast_allocate-IsReliable :
      (name : String) (size : ℕ) (files : Files)
      → files name ≡ none
      → fast_allocate host name size files ≡ (ok tt, with_file files name (replicate size 0))
  unfolding fast_allocate
  fast_allocate-IsReliable name size files missing =
      let new : exists files name ≡ false = rw (exists, missing) refl in
      rw (new, reliable.creates name, reliable.truncates name size, reliable.closes name) refl

  pub map_file-IsReliable :
      (name : String) (mode : Mode) (files : Files) (bytes : List ℕ)
      → files name ≡ some bytes
      → map_file host name mode files ≡ ok (record { file_name = name; write_offset = 0 })
  unfolding map_file
  map_file-IsReliable name mode files bytes there =
      let found : exists files name ≡ true = rw (exists, there) refl in
      rw (found, reliable.maps name mode) refl

module _ {S : Sqlite} (paths : Paths) (lawful : IsLawful S) (host : Host) where
  -- No call of the host fails, and no file is there under the name of a key that has no row.
  pub record IsUntroubled (m : BlobManager S) : Type 0 where
    pub reliable : IsReliable host
    pub unused : (k : ℕ) → row_of lawful m.names k ≡ none → m.files (path_of paths m.names k) ≡ none

  -- The length of the current file is stored without a failure.
  pub update_length-IsKept :
      (m : BlobManager S)
      → IsReady paths lawful m
      → (db : S.Database) × (update_length m
          ≡ (ok tt, record m { names = record m.names { database = db } }))
        × ((k : ℕ)
            → HasRow paths lawful m.names k
            → HasRow paths lawful (record m.names { database = db }) k)
        × IsKept paths lawful host m (record m { names = record m.names { database = db } })
  update_length-IsKept m r =
      let key = m.current_blob_file_info.file_key in
      let len = pos m.current_blob_file.write_offset in
      let (db, done, rows) = update_data_file_length-row lawful m.names key len in
      (
        db,
        rw done refl,
        (λ k. update-HasRow paths lawful m.names db key k len rows),
        names-IsKept paths lawful host m (record m.names { database = db }) r (λ k. refl)
            (λ k. update-HasRow paths lawful m.names db key k len rows)
            (update-IsNamed paths lawful m.names db key len r.named rows),
      )

  -- The cache when the old file may be evicted and the new one is added.
  abbrev switched_readers : Cache ℕ String → ℕ → ℕ → String → Cache ℕ String
  switched_readers c old new name =
      add ℕ_discrete (set_evictable ℕ_discrete c old true).0 new name false

  -- The manager at the start of the file of a key.
  abbrev at_new_file : BlobManager S → ℕ → Cache ℕ String → BlobManager S
  at_new_file m key c = record m {
    current_blob_file_info = info_of paths m.names key unset;
    current_blob_file = record { file_name = path_of paths m.names key; write_offset = 0 };
    reader_files = c;
  }

  -- The manager after a switch to a new file of zeros, from `m`, whose files do not have it.
  switched-IsKept :
      (m m' : BlobManager S) (key : ℕ)
      → IsReady paths lawful m
      → IsKept paths lawful host m m'
      → m.files (path_of paths m'.names key) ≡ none
      → m'.files (path_of paths m'.names key) ≡ some (replicate m'.max_data_file_size 0)
      → ((k : ℕ) → path_of paths m'.names k ≡ path_of paths m.names k)
      → HasRow paths lawful m'.names key
      → (c : Cache ℕ String) → HasPaths paths m'.names c
      → IsKept paths lawful host m (at_new_file m' key c)
  switched-IsKept m m' key r k missing zeros same row c readers = record {
    ready = record {
      named = k.ready.named;
      current_row = row;
      current_name = refl;
      current_bytes = replicate m'.max_data_file_size 0;
      current_file = zeros;
      current_size = length-replicate m'.max_data_file_size 0;
      within = omega arith;
      readers = readers;
      comp_buffer = k.ready.comp_buffer;
    };
    kept = λ metadata blob s.
        let t = k.kept metadata blob s in
        record {
          row = t.row;
          form = t.form;
          holds = t.holds;
          bytes = t.bytes;
          file = t.file;
          region = t.region;
          inside =
              λ e. absurd (cc (missing, s.file, ap m.files (sym (same metadata.file_key) ∙ e)));
        };
  }

  switched-HasPaths :
      (names : FileNameManager S) (c : Cache ℕ String) (old new : ℕ)
      → HasPaths paths names c
      → HasPaths paths names (switched_readers c old new (path_of paths names new))
  switched-HasPaths names c old new readers =
      add-HasPaths paths names (set_evictable ℕ_discrete c old true).0 new false
        λ k name there. readers k name (sym (peek-set_evictable ℕ_discrete c old true k) ∙ there)

  -- SwitchToNewDataFile goes on at the start of a new file of the maximum size, or it throws; either way
  -- the manager stays ready and every blob stays stored.
  pub switch_to_new_data_file_cases :
      (m : BlobManager S)
      → IsReady paths lawful m
      → ((e : Exception) × ((m' : BlobManager S) × (switch_to_new_data_file host paths m
              ≡ (throw e, m'))
            × IsKept paths lawful host m m'
            × ¬ IsUntroubled m))
        ⊎ ((m' : BlobManager S) × (switch_to_new_data_file host paths m ≡ (ok tt, m'))
            × IsKept paths lawful host m m'
            × (m'.current_blob_file.write_offset ≡ 0)
            × (m'.max_data_file_size ≡ m.max_data_file_size))
  unfolding switch_to_new_data_file
  switch_to_new_data_file_cases m r = elim (get_next_data_file_info_cases lawful paths m.names) [
    | inl (empty, refused) ↦ inl (
      jonoondb_error,
      (
        m,
        rw refused refl,
        IsKept-refl paths lawful host m r,
        λ u. absurd (cc (empty m.current_blob_file_info.file_key, r.current_row.1)),
      ),
    )
    | inr (k, (db, given, (_, top), extended)) ↦
        let path = path_of paths m.names (k + 1) in
        let names = record m.names { database = db } in
        let m1 = record m { names = names } in
        let kept1 =
          names-IsKept paths lawful host m names r (λ j. refl)
            (λ j. extended-HasRow paths lawful m.names db (k + 1) j _ extended)
            (extended-IsNamed paths lawful m.names db (k + 1) r.named extended) in
        let allocates = λ (u : IsUntroubled m).
          fast_allocate-IsReliable host u.reliable path m.max_data_file_size m.files
            (u.unused (k + 1) (above-fresh lawful m.names k top)) in
        elim (fast_allocate_cases host path m.max_data_file_size m.files) [
          | inl refused ↦ inl (
            file_io_error,
            (m1, rw (given, refused) refl, kept1, λ u. absurd (cc (refused, allocates u))),
          )
          | inr (inl (missing, (bytes, refused))) ↦
              let kept2 = files-IsKept paths lawful host m1 path bytes kept1.ready missing in
              inl (
                file_io_error,
                (
                  record m1 { files = with_file m.files path bytes },
                  rw (given, refused) refl,
                  IsKept-trans paths lawful host kept1 kept2,
                  λ u. absurd (cc (refused, allocates u)),
                ),
              )
          | inr (inr (missing, made)) ↦
              let zeros = replicate m.max_data_file_size 0 in
              let m2 = record m1 { files = with_file m.files path zeros } in
              let kept2 =
                IsKept-trans paths lawful host kept1
                  (files-IsKept paths lawful host m1 path zeros kept1.ready missing) in
              elim (map_file_cases host path read_write m2.files) [
                | inl refused ↦ inl (
                  foreign,
                  (
                    m2,
                    rw (given, made, refused) refl,
                    kept2,
                    λ u. absurd (
                        cc (
                          refused,
                          map_file-IsReliable host u.reliable path read_write m2.files zeros
                              (with_file_self m.files path zeros),
                        )),
                  ),
                )
                | inr mapped ↦
                    let (db', done, rows, kept3) = update_length-IsKept m2 kept2.ready in
                    let m3 = record m2 { names = record names { database = db' } } in
                    let kept = IsKept-trans paths lawful host kept2 kept3 in
                    let readers =
                      switched_readers m3.reader_files m3.current_blob_file_info.file_key (k + 1)
                        path in
                    inr (
                      at_new_file m3 (k + 1) readers,
                      rw (given, made, mapped, done) refl,
                      switched-IsKept m m3 (k + 1) r kept missing
                          (with_file_self m.files path zeros) (λ j. refl)
                          (rows (k + 1) (new-HasRow paths lawful m.names db (k + 1) _ extended))
                          readers
                          (switched-HasPaths m3.names m3.reader_files
                            m3.current_blob_file_info.file_key (k + 1) kept.ready.readers),
                      refl,
                      refl,
                    )
              ]
        ]
  ]
