-- ===== src/FileNames/Interface.antt =====
-- What src/jonoondb_api/filename_manager.cc uses of SQLite and of paths, which are libraries outside
-- the repository: four prepared statements on the table CollectionDataFile, and the names of files.
use Prim.Native.String.{String, compare}
use text.Mathlib.Text.{is_eq}
use jonoondb.Prelude.{ℕ, ◌≤◌, ◌≡◌, ◌⊎◌, Option, none, some, Bool, ◌&&◌, ◌==◌, if◌then◌else◌}
use jonoondb.Prelude.Int.{ℤ}

abbrev pub same_text : String → String → Bool
same_text s t = is_eq (compare s t)

-- The result codes that the code tells apart.
pub data Code : Type 0 where
  sqlite_ok sqlite_row sqlite_done sqlite_constraint other_code : Code

-- The prepared statements.
pub data Statement : Type 0 where
  put get_file_name get_last_file_key update : Statement

-- `bind` is the result of `sqlite3_bind_...` for a wildcard of a statement. A step gives its code and
-- the columns of its row; the columns mean nothing with another code than `sqlite_row`.
pub record Sqlite : Type 1 where
  pub Database : Type 0
  pub bind : Database → Statement → ℕ → Code
  pub step_put : Database → String → ℕ → String → ℤ → Code × Database
  pub step_get_file_name : Database → String → ℕ → Code × String
  pub step_get_last_file_key : Database → String → Code × (ℕ × ℤ)
  pub step_update : Database → ℤ → String → ℕ → Code × Database

abbrev pub with_length : ℤ → String × ℤ → String × ℤ
with_length len (name, _) = (name, len)

abbrev pub map_row : (String × ℤ → String × ℤ) → Option (String × ℤ) → Option (String × ℤ)
map_row f none = none
map_row f (some r) = some (f r)

-- What the statements do on a database that has no failure. `row` is the name and the length that
-- the table has for a collection and a key, which are its primary key.
pub record IsLawful (S : Sqlite) : Type 0 where
  pub row : S.Database → String → ℕ → Option (String × ℤ)
  pub bind-ok : (db : S.Database) (s : Statement) (i : ℕ) → S.bind db s i ≡ sqlite_ok
  pub put-fresh :
      (db : S.Database) (c : String) (k : ℕ) (name : String) (len : ℤ)
      → row db c k ≡ none
      → (db' : S.Database) × (S.step_put db c k name len ≡ (sqlite_done, db'))
        × ((d : String) (j : ℕ)
            → row db' d j ≡ (if same_text c d && k == j then some (name, len) else row db d j))
  pub put-taken :
      (db : S.Database) (c : String) (k : ℕ) (name : String) (len : ℤ) (r : String × ℤ)
      → row db c k ≡ some r
      → S.step_put db c k name len ≡ (sqlite_constraint, db)
  pub get_file_name-row :
      (db : S.Database) (c : String) (k : ℕ) (r : String × ℤ)
      → row db c k ≡ some r
      → S.step_get_file_name db c k ≡ (sqlite_row, r.0)
  pub get_file_name-missing :
      (db : S.Database) (c : String) (k : ℕ)
      → row db c k ≡ none
      → (column : String) × (S.step_get_file_name db c k ≡ (sqlite_done, column))
  pub last_row :
      (db : S.Database) (c : String)
      → ((columns : ℕ × ℤ) × (S.step_get_last_file_key db c ≡ (sqlite_done, columns))
          × ((k : ℕ) → row db c k ≡ none))
        ⊎ ((k : ℕ) × ((name : String) × ((len : ℤ) × (S.step_get_last_file_key db c
                  ≡ (sqlite_row, (k, len)))
                × (row db c k ≡ some (name, len))
                × ((j : ℕ) (r : String × ℤ) → row db c j ≡ some r → j ≤ k))))
  pub update-done :
      (db : S.Database) (len : ℤ) (c : String) (k : ℕ)
      → (db' : S.Database) × (S.step_update db len c k ≡ (sqlite_done, db'))
        × ((d : String) (j : ℕ)
            → row db' d j ≡ (
                if same_text c d && k == j
                then map_row (with_length len) (row db d j)
                else row db d j))

-- `operator<<` of an int into an `ostringstream`, and `boost::filesystem`: `operator/` of a path and a
-- name, `generic_string` of a text, and `exists`.
pub record Paths : Type 0 where
  pub decimal : ℕ → String
  pub join : String → String → String
  pub generic_string : String → String
  pub exists : String → Bool
