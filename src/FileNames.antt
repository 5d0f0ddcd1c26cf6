-- ===== src/FileNames.antt =====
-- src/jonoondb_api/filename_manager.cc: `FileNameManager`, which keeps the data files of a collection
-- in a table of the database and gives out their keys. Its lock makes each method one step. The
-- guards that reset a statement are taken not to fail, and a file key, an int, not to overflow.
pub mod Interface
pub mod Keys
pub mod Lookup
pub mod Names
pub mod Calls
pub mod Table
use Prim.Native.String.{String, ◌++◌}
use jonoondb.Prelude.{
  ℕ, ◌+◌, ◌≡◌, List, [], ◌∷◌, Option, none, some, Bool, true, false, not, ◌&&◌, ◌==◌, ℕ_discrete,
  if◌then◌else◌,
}
use jonoondb.Prelude.Int.{ℤ, pos, negsuc}
use jonoondb.Prelude.Outcome.{
  Outcome, Done, ok, throw, jonoondb_error, sql_error, invalid_argument, missing_database_folder,
  missing_database_file, ◌>>=◌,
}
use jonoondb.Prelude.Exec.{◌▷◌}
use jonoondb.LruCache.{lookup, overwrite, store}
use jonoondb.FileNames.Interface.{
  Sqlite, Paths, Code, sqlite_ok, sqlite_row, sqlite_done, sqlite_constraint, other_code, Statement,
  put, get_file_name, get_last_file_key, update, same_text,
}

-- `include/jonoondb_api/file_info.h`
pub record FileInfo : Type 0 where
  pub file_key : ℕ
  pub file_name : String
  pub file_name_with_path : String
  pub data_length : ℤ

-- The members of the class. A prepared statement has no state between the calls.
pub record FileNameManager (S : Sqlite) : Type 0 where
  pub db_name : String
  pub db_path : String
  pub collection_name : String
  pub database : S.Database
  pub file_info_map : List (ℕ × FileInfo)

-- The length of a file that has not been set.
abbrev pub unset : ℤ
unset = negsuc 0

-- `if (sqliteCode != SQLITE_OK) throw SQLException`
abbrev pub check_ok : Code → Done
check_ok sqlite_ok = ok tt
check_ok _ = throw sql_error

unfoldable pub check_each : List Code → Done
check_each [] = ok tt
check_each (code ∷ codes) = let rest = check_each codes in check_ok code >>= λ _. rest

module _ (paths : Paths) where
  -- `include/jonoondb_api/path_utils.h`: `NormalizePath`. A text that is not empty ends in '/' or gets
  -- one; `ends_in_slash` is the test of its last character.
  unfoldable pub normalize_path : (String → Bool) → String → String
  normalize_path ends_in_slash path =
      let normalized = paths.generic_string path in
      if ends_in_slash normalized then normalized else normalized ++ "/"

  -- The checks at the start of the constructor; the result is `m_dbPath`.
  unfoldable pub check_arguments : (String → Bool) → String → String → Bool → Outcome String
  unfolding normalize_path
  check_arguments ends_in_slash db_path db_name create_if_missing =
      if same_text db_path ""
      then throw invalid_argument
      else if same_text db_name ""
      then throw invalid_argument
      else let folder = normalize_path ends_in_slash db_path in
        if not (paths.exists folder)
        then throw missing_database_folder
        else if not (paths.exists (folder ++ db_name ++ ".dat")) && not create_if_missing
        then throw missing_database_file
        else ok folder

  -- The constructor. `codes` are the results of opening the database, of the statements that set it
  -- up, and of preparing the four statements, in this order; `database` is what they leave.
  unfoldable pub open_manager :
      {S : Sqlite}
      → (String → Bool)
      → List Code
      → S.Database
      → String
      → String
      → String
      → Bool
      → Outcome (FileNameManager S)
  unfolding check_arguments check_each
  open_manager ends_in_slash codes database db_path db_name collection_name create_if_missing =
      check_arguments ends_in_slash db_path db_name create_if_missing >>= λ folder.
      check_each codes >>= λ _. ok (record {
        db_name = db_name;
        db_path = folder;
        collection_name = collection_name;
        database = database;
        file_info_map = [];
      })

-- The wildcards of a statement are bound one after the other.
unfoldable pub bind_each : (S : Sqlite) → S.Database → Statement → List ℕ → Done
bind_each S db s [] = ok tt
bind_each S db s (i ∷ rest) =
    let bound = bind_each S db s rest in check_ok (S.bind db s i) >>= λ _. bound

abbrev pub put_result : Code → Done
put_result sqlite_done = ok tt
put_result sqlite_constraint = throw jonoondb_error
put_result _ = throw sql_error

abbrev pub update_result : Code → Done
update_result sqlite_done = ok tt
update_result _ = throw sql_error

module _ {S : Sqlite} where
  -- `AddFileRecord`
  unfoldable pub add_file_record : FileNameManager S → ℕ → String → Done × FileNameManager S
  unfolding bind_each
  add_file_record m key name = (bind_each S m.database put (1 ∷ 2 ∷ 3 ∷ 4 ∷ []), m) ▷ λ _ m.
      let (code, db) = S.step_put m.database m.collection_name key name unset in
      (put_result code, record m { database = db })

  -- `UpdateDataFileLength`
  unfoldable pub update_data_file_length : ℕ → ℤ → FileNameManager S → Done × FileNameManager S
  unfolding bind_each
  update_data_file_length key len m = (bind_each S m.database update (1 ∷ 2 ∷ 3 ∷ []), m) ▷ λ _ m.
      let (code, db) = S.step_update m.database len m.collection_name key in
      (update_result code, record m { database = db })

module _ (paths : Paths) {S : Sqlite} where
  -- `m_dbName << "_" << m_collectionName << "." << fileKey`
  abbrev pub new_file_name : FileNameManager S → ℕ → String
  new_file_name m key = m.db_name ++ "_" ++ m.collection_name ++ "." ++ paths.decimal key

  -- The assignments to the fields of `fileInfo`.
  abbrev pub info_named : FileNameManager S → ℕ → String → ℤ → FileInfo
  info_named m key name len = record {
    file_key = key;
    file_name = name;
    file_name_with_path = paths.join m.db_path name;
    data_length = len;
  }

  abbrev pub info_of : FileNameManager S → ℕ → ℤ → FileInfo
  info_of m key len = info_named m key (new_file_name m key) len

  -- What `GetCurrentDataFileInfo` does with the result of the query.
  abbrev pub current_from :
      Bool → FileNameManager S → Code × (ℕ × ℤ) → Outcome FileInfo × FileNameManager S
  current_from create_if_missing m (sqlite_row, (key, len)) = (ok (info_of m key len), m)
  current_from true m (sqlite_done, _) =
      add_file_record m 0 (new_file_name m 0) ▷ λ _ m'. (ok (info_of m 0 unset), m')
  current_from false m (sqlite_done, _) = (throw jonoondb_error, m)
  current_from _ m (sqlite_ok, _) = (throw sql_error, m)
  current_from _ m (sqlite_constraint, _) = (throw sql_error, m)
  current_from _ m (other_code, _) = (throw sql_error, m)

  -- `GetCurrentDataFileInfo`
  unfoldable pub get_current_data_file_info :
      Bool → FileNameManager S → Outcome FileInfo × FileNameManager S
  unfolding bind_each add_file_record
  get_current_data_file_info create_if_missing m =
      (bind_each S m.database get_last_file_key (1 ∷ []), m) ▷ λ _ m.
      current_from create_if_missing m (S.step_get_last_file_key m.database m.collection_name)

  -- What `GetNextDataFileInfo` does with the result of the query.
  abbrev pub next_from : FileNameManager S → Code × (ℕ × ℤ) → Outcome FileInfo × FileNameManager S
  next_from m (sqlite_row, (key, _)) =
      add_file_record m (key + 1) (new_file_name m (key + 1)) ▷ λ _ m'.
      (ok (info_of m (key + 1) unset), m')
  next_from m (sqlite_done, _) = (throw jonoondb_error, m)
  next_from m (sqlite_ok, _) = (throw sql_error, m)
  next_from m (sqlite_constraint, _) = (throw sql_error, m)
  next_from m (other_code, _) = (throw sql_error, m)

  -- `GetNextDataFileInfo`
  unfoldable pub get_next_data_file_info : FileNameManager S → Outcome FileInfo × FileNameManager S
  unfolding bind_each add_file_record
  get_next_data_file_info m = (bind_each S m.database get_last_file_key (1 ∷ []), m) ▷ λ _ m.
      next_from m (S.step_get_last_file_key m.database m.collection_name)

  -- What `GetFileInfo` does with the result of the query. `new FileInfo()` sets the length to 0.
  abbrev pub info_from :
      FileNameManager S → ℕ → Code × String → Outcome FileInfo × FileNameManager S
  info_from m key (sqlite_row, name) =
      let info = info_named m key name (pos 0) in
      let known = lookup ℕ_discrete key m.file_info_map in
      (ok info, record m { file_info_map = store ℕ_discrete key info m.file_info_map known })
  info_from m key (sqlite_done, _) = (throw jonoondb_error, m)
  info_from m key (sqlite_ok, _) = (throw sql_error, m)
  info_from m key (sqlite_constraint, _) = (throw sql_error, m)
  info_from m key (other_code, _) = (throw sql_error, m)

  abbrev pub info_or_query :
      FileNameManager S → ℕ → Option FileInfo → Outcome FileInfo × FileNameManager S
  info_or_query m key (some info) = (ok info, m)
  info_or_query m key none = (bind_each S m.database get_file_name (1 ∷ 2 ∷ []), m) ▷ λ _ m.
      info_from m key (S.step_get_file_name m.database m.collection_name key)

  -- `GetFileInfo`, which asks the map (`include/jonoondb_api/concurrent_map.h`) first.
  unfoldable pub get_file_info : ℕ → FileNameManager S → Outcome FileInfo × FileNameManager S
  unfolding bind_each lookup overwrite
  get_file_info key m = info_or_query m key (lookup ℕ_discrete key m.file_info_map)
