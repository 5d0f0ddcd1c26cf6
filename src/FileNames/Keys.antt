-- ===== src/FileNames/Keys.antt =====
-- filename_manager.cc: the keys that the methods give out, on a database that has no failure.
use Prim.Native.String.{String}
use text.Mathlib.TextPositions.{eq_refl}
use jonoondb.Prelude.{
  ℕ, ◌+◌, ◌≤◌, ◌≡◌, ◌≢◌, refl, sym, ◌∙◌, List, [], ◌∷◌, Option, none, some, true, false, ◌&&◌, ◌==◌,
  arith, if◌then◌else◌, ℕ_discrete, ◌⊎◌, inl, inr, Option-cases,
}
use jonoondb.Prelude.Int.{ℤ}
use jonoondb.Prelude.Outcome.{ok, throw, jonoondb_error}
use jonoondb.FileNames.Interface.{
  Sqlite, Paths, IsLawful, Statement, same_text, with_length, map_row,
}
use jonoondb.FileNames.{
  FileNameManager, bind_each, unset, new_file_name, info_of, add_file_record,
  get_current_data_file_info, get_next_data_file_info, update_data_file_length,
}

module _ {S : Sqlite} (lawful : IsLawful S) where
  open lawful use {row, bind-ok, put-fresh, put-taken, last_row, update-done}

  pub bind_each-ok : (db : S.Database) (s : Statement) (is : List ℕ) → bind_each S db s is ≡ ok tt
  unfolding bind_each
  bind_each-ok db s [] = refl
  bind_each-ok db s (i ∷ is) = rw (bind-ok db s i) (bind_each-ok db s is)

  -- The rows of a manager's own collection.
  abbrev pub row_of : FileNameManager S → ℕ → Option (String × ℤ)
  row_of m = row m.database m.collection_name

  -- `db` has the row of the key with the name, and else the rows that the manager's database has.
  abbrev pub IsExtended : FileNameManager S → S.Database → ℕ → String → Type 0
  IsExtended m db key name =
      (c : String) (j : ℕ)
      → row db c j ≡ (
          if same_text m.collection_name c && key == j
          then some (name, unset)
          else row m.database c j)

  pub add_file_record-fresh :
      (m : FileNameManager S) (key : ℕ) (name : String)
      → row_of m key ≡ none
      → (db : S.Database) × (add_file_record m key name ≡ (ok tt, record m { database = db }))
        × IsExtended m db key name
  unfolding add_file_record
  add_file_record-fresh m key name fresh =
      let (db, done, rows) = put-fresh m.database m.collection_name key name unset fresh in
      (db, rw (bind_each-ok, done) refl, rows)

  -- A key that is taken is refused, and nothing changes.
  pub add_file_record-taken :
      (m : FileNameManager S) (key : ℕ) (name : String) (r : String × ℤ)
      → row_of m key ≡ some r
      → add_file_record m key name ≡ (throw jonoondb_error, m)
  unfolding add_file_record
  add_file_record-taken m key name r taken =
      rw (bind_each-ok, put-taken m.database m.collection_name key name unset r taken) refl

  pub above-fresh :
      (m : FileNameManager S) (k : ℕ)
      → ((j : ℕ) (r : String × ℤ) → row_of m j ≡ some r → j ≤ k)
      → row_of m (k + 1) ≡ none
  above-fresh m k top = elim (Option-cases (row_of m (k + 1))) [
    | inl missing ↦ missing
    | inr (r, there) ↦ absurd (omega (arith, top (k + 1) r there))
  ]

  module _ (paths : Paths) where
    -- GetNextDataFileInfo throws where the collection has no data file. Else it gives the key behind the
    -- last one, with no length set, and adds the row of that key, which was not there, and no other.
    pub get_next_data_file_info_cases :
        (m : FileNameManager S)
        → (((j : ℕ) → row_of m j ≡ none)
            × (get_next_data_file_info paths m ≡ (throw jonoondb_error, m)))
          ⊎ ((k : ℕ) × ((db : S.Database) × (get_next_data_file_info paths m
                  ≡ (ok (info_of paths m (k + 1) unset), record m { database = db }))
                × ((row_of m k ≢ none) × ((j : ℕ) (r : String × ℤ) → row_of m j ≡ some r → j ≤ k))
                × IsExtended m db (k + 1) (new_file_name paths m (k + 1))))
    unfolding get_next_data_file_info
    get_next_data_file_info_cases m = elim (last_row m.database m.collection_name) [
      | inl (columns, done, empty) ↦ inl (empty, rw (bind_each-ok, done) refl)
      | inr (k, (name, (len, found, there, top))) ↦
          let (db, added, extended) =
            add_file_record-fresh m (k + 1) (new_file_name paths m (k + 1)) (above-fresh m k top) in
          inr (k, (db, rw (bind_each-ok, found, added) refl, (λ e. cc, top), extended))
    ]

    -- GetCurrentDataFileInfo gives the last key of the collection and the length that is stored for it.
    -- Where there is none it throws, or, if it is to create one, adds key 0 with no length set.
    pub get_current_data_file_info_cases :
        (m : FileNameManager S)
        → (((j : ℕ) → row_of m j ≡ none)
            × (get_current_data_file_info paths false m ≡ (throw jonoondb_error, m))
            × ((db : S.Database) × (get_current_data_file_info paths true m
                  ≡ (ok (info_of paths m 0 unset), record m { database = db }))
                × IsExtended m db 0 (new_file_name paths m 0)))
          ⊎ ((k : ℕ) × ((name : String) × ((len : ℤ) × (get_current_data_file_info paths true m
                    ≡ (ok (info_of paths m k len), m))
                  × (get_current_data_file_info paths false m ≡ (ok (info_of paths m k len), m))
                  × ((row_of m k ≡ some (name, len))
                      × ((j : ℕ) (r : String × ℤ) → row_of m j ≡ some r → j ≤ k)))))
    unfolding get_current_data_file_info
    get_current_data_file_info_cases m = elim (last_row m.database m.collection_name) [
      | inl (columns, done, empty) ↦
          let (db, added, extended) =
            add_file_record-fresh m 0 (new_file_name paths m 0) (empty 0) in
          inl (
            empty,
            rw (bind_each-ok, done) refl,
            (db, rw (bind_each-ok, done, added) refl, extended),
          )
      | inr (k, (name, (len, found, there, top))) ↦ inr (
        k,
        (name, (len, rw (bind_each-ok, found) refl, rw (bind_each-ok, found) refl, (there, top))),
      )
    ]

  -- UpdateDataFileLength sets the length in the row of the key, and changes nothing else.
  pub update_data_file_length-row :
      (m : FileNameManager S) (key : ℕ) (len : ℤ)
      → (db : S.Database) × (update_data_file_length key len m
          ≡ (ok tt, record m { database = db }))
        × ((c : String) (j : ℕ)
            → row db c j ≡ (
                if same_text m.collection_name c && key == j
                then map_row (with_length len) (row m.database c j)
                else row m.database c j))
  unfolding update_data_file_length
  update_data_file_length-row m key len =
      let (db, done, rows) = update-done m.database len m.collection_name key in
      (db, rw (bind_each-ok, done) refl, rows)

  module _ (paths : Paths) where
    last_is :
        (m : FileNameManager S) (db : S.Database) (key k : ℕ) (name : String) (len : ℤ)
        (r : String × ℤ)
        → ((j : ℕ) (q : String × ℤ) → row_of m j ≡ some q → j ≤ key)
        → ((j : ℕ) (q : String × ℤ) → row db m.collection_name j ≡ some q → j ≤ k)
        → row db m.collection_name key ≡ some (name, len)
        → row db m.collection_name k ≡ some r
        → (key ≢ k → row db m.collection_name k ≡ row_of m k)
        → (k ≡ key) × (r ≡ (name, len))
    last_is m db key k name len r top top' there found other = elim (ℕ_discrete k key) [
      | yes same ↦ (same, cc)
      | no different ↦ absurd (
          omega (
            arith,
            top' key (name, len) there,
            top k r (sym (other (λ e. different (sym e))) ∙ found),
          ))
    ]

    updated :
        (m : FileNameManager S) (db : S.Database) (key : ℕ) (name : String) (old len : ℤ)
        → row_of m key ≡ some (name, old)
        → ((j : ℕ) (r : String × ℤ) → row_of m j ≡ some r → j ≤ key)
        → ((j : ℕ)
            → row db m.collection_name j
              ≡ (if key == j then map_row (with_length len) (row_of m j) else row_of m j))
        → get_current_data_file_info paths true (record m { database = db })
          ≡ (ok (info_of paths m key len), record m { database = db })
    updated m db key name old len there top rows =
        elim (get_current_data_file_info_cases paths (record m { database = db })) [
          | inl (empty, _, _) ↦ absurd (ground (arith, empty key, rows key))
          | inr (k, (name', (len', found, _, (there', top')))) ↦
              let (same, same_row) =
                last_is m db key k name len (name', len') top top' (ground (arith, rows key)) there'
                  (λ ne. ground (arith, rows k)) in
              cc
        ]

    -- After UpdateDataFileLength of the last file, GetCurrentDataFileInfo gives this file with the new
    -- length.
    pub get_current_data_file_info-update :
        (m : FileNameManager S) (key : ℕ) (name : String) (old len : ℤ)
        → row_of m key ≡ some (name, old)
        → ((j : ℕ) (r : String × ℤ) → row_of m j ≡ some r → j ≤ key)
        → (m' : FileNameManager S) × (update_data_file_length key len m ≡ (ok tt, m'))
          × (get_current_data_file_info paths true m' ≡ (ok (info_of paths m key len), m'))
    get_current_data_file_info-update m key name old len there top =
        let (db, done, rows) = update_data_file_length-row m key len in
        (
          record m { database = db },
          done,
          updated m db key name old len there top
              (λ j. ground (arith, eq_refl m.collection_name, rows m.collection_name j)),
        )
