-- ===== src/FileNames/Names.antt =====
-- filename_manager.cc: the name that belongs to each key, as an invariant of the manager.
use Prim.Native.String.{String}
use text.Mathlib.TextPositions.{eq_refl}
use mathlib.Core.Logic.{ite, if_pos, if_neg}
use jonoondb.Prelude.{
  ℕ, ◌≡◌, sym, ap, ◌∙◌, List, Option, none, some, arith, ◌==◌, ℕ_discrete, ==_iff, ◌⊎◌, inl, inr,
  Option-cases, Bool-cases, ◌&&◌, if◌then◌else◌,
}
use jonoondb.Prelude.Int.{ℤ, pos}
use jonoondb.Prelude.Outcome.{ok}
use jonoondb.LruCache.{lookup}
use jonoondb.FileNames.Interface.{Sqlite, Paths, IsLawful, with_length, map_row, same_text}
use jonoondb.FileNames.{
  FileInfo, FileNameManager, unset, new_file_name, info_named, info_of, get_file_info,
}
use jonoondb.FileNames.Keys.{row_of, IsExtended}
use jonoondb.FileNames.Lookup.{get_file_info_cases, get_file_info-known}

pub some_injective : {A : Type 0} {a b : A} → some a ≡ some b → a ≡ b
some_injective e = cc

pub ite-some :
    {A : Type 0} (k j : ℕ) (a b : A) (o : Option A)
    → ite (ℕ_discrete k j) (some a) o ≡ some b
    → ((k ≡ j) × (b ≡ a)) ⊎ (o ≡ some b)
ite-some k j a b o e = elim (ℕ_discrete k j) [
  | yes same ↦ inl (same, some_injective (sym (sym (if_pos (ℕ_discrete k j) same (some a) o) ∙ e)))
  | no other ↦ inr (sym (if_neg (ℕ_discrete k j) other (some a) o) ∙ e)
]

module _ {S : Sqlite} (paths : Paths) (lawful : IsLawful S) where
  -- Each row of the collection has the name of its key, and the map in memory has what GetFileInfo
  -- gives for a key that has a row.
  pub record IsNamed (m : FileNameManager S) : Type 0 where
    pub rows : (j : ℕ) (r : String × ℤ) → row_of lawful m j ≡ some r → r.0 ≡ new_file_name paths m j
    pub known :
        (j : ℕ) (info : FileInfo)
        → lookup ℕ_discrete j m.file_info_map ≡ some info
        → info ≡ info_of paths m j (pos 0)

  -- The row of a key, whatever its length, or none.
  abbrev pub HasRow : FileNameManager S → ℕ → Type 0
  HasRow m key = (r : String × ℤ) × (row_of lawful m key ≡ some r)

  -- For a key that has a row GetFileInfo gives its name and path, from the map or the database, and
  -- changes nothing but the map.
  pub get_file_info-IsNamed :
      (m : FileNameManager S) (key : ℕ)
      → IsNamed m
      → HasRow m key
      → (known : List (ℕ × FileInfo)) × (get_file_info paths key m
          ≡ (ok (info_of paths m key (pos 0)), record m { file_info_map = known }))
        × IsNamed (record m { file_info_map = known })
  get_file_info-IsNamed m key named (r, there) =
      elim (Option-cases (lookup ℕ_discrete key m.file_info_map)) [
        | inl unknown ↦ elim (get_file_info_cases paths lawful m key unknown) [
          | inl (missing, _) ↦ absurd cc
          | inr (q, there', (known, found, _, changed)) ↦ (
            known,
            found
                ∙ ap
                    (λ name. (
                      ok (info_named paths m key name (pos 0)),
                      record m { file_info_map = known },
                    ))
                    (named.rows key q there'),
            record {
              rows = named.rows;
              known = λ j info e. elim (ite-some key j _ info _ (sym (changed j) ∙ e)) [
                | inl (same, new) ↦
                    new
                    ∙ ap (λ name. info_named paths m key name (pos 0)) (named.rows key q there')
                    ∙ ap (λ i. info_of paths m i (pos 0)) same
                | inr old ↦ named.known j info old
              ];
            },
          )
        ]
        | inr (info, hit) ↦ (
          m.file_info_map,
          get_file_info-known paths m key info hit ∙ ap (λ i. (ok i, m)) (named.known key info hit),
          named,
        )
      ]

  -- The rows of a manager's own collection in a database that has one row more.
  pub row_of-extended :
      (m : FileNameManager S) (db : S.Database) (key j : ℕ) (name : String)
      → IsExtended lawful m db key name
      → row_of lawful (record m { database = db }) j
        ≡ (if key == j then some (name, unset) else row_of lawful m j)
  row_of-extended m db key j name extended =
      ground (arith, eq_refl m.collection_name, extended m.collection_name j)

  -- A new row with the name of its key, and a new length of a row, keep the names.
  pub extended-IsNamed :
      (m : FileNameManager S) (db : S.Database) (key : ℕ)
      → IsNamed m
      → IsExtended lawful m db key (new_file_name paths m key)
      → IsNamed (record m { database = db })
  extended-IsNamed m db key named extended = record {
    rows = λ j r there. go j r (sym (row_of-extended m db key j _ extended) ∙ there);
    known = named.known;
  }
    where
      go :
          (j : ℕ) (r : String × ℤ)
          → (if key == j then some (new_file_name paths m key, unset) else row_of lawful m j)
            ≡ some r
          → r.0 ≡ new_file_name paths m j
      go j r e = elim (Bool-cases (key == j)) [
        | inl same ↦ grind (arith, (==_iff key j).0 same)
        | inr other ↦ named.rows j r (ground arith)
      ]

  pub update-IsNamed :
      (m : FileNameManager S) (db : S.Database) (key : ℕ) (len : ℤ)
      → IsNamed m
      → ((c : String) (j : ℕ)
          → lawful.row db c j ≡ (
              if same_text m.collection_name c && key == j
              then map_row (with_length len) (lawful.row m.database c j)
              else lawful.row m.database c j))
      → IsNamed (record m { database = db })
  update-IsNamed m db key len named rows = record {
    rows = λ j r there.
        go j r (Option-cases (row_of lawful m j)) (sym (rows m.collection_name j) ∙ there);
    known = named.known;
  }
    where
      go :
          (j : ℕ) (r : String × ℤ)
          → (row_of lawful m j ≡ none) ⊎ ((q : String × ℤ) × (row_of lawful m j ≡ some q))
          → (if same_text m.collection_name m.collection_name && key == j
              then map_row (with_length len) (row_of lawful m j)
              else row_of lawful m j)
            ≡ some r
          → r.0 ≡ new_file_name paths m j
      go j r (inl missing) e = absurd (ground (arith, missing))
      go j r (inr (q, there)) e = grind (arith, named.rows j q there)

  -- Rows stay rows.
  pub extended-HasRow :
      (m : FileNameManager S) (db : S.Database) (key j : ℕ) (name : String)
      → IsExtended lawful m db key name
      → HasRow m j
      → HasRow (record m { database = db }) j
  extended-HasRow m db key j name extended (r, there) = elim (Bool-cases (key == j)) [
    | inl same ↦ ((name, unset), row_of-extended m db key j name extended ∙ ground arith)
    | inr other ↦ (r, row_of-extended m db key j name extended ∙ ground arith)
  ]

  pub new-HasRow :
      (m : FileNameManager S) (db : S.Database) (key : ℕ) (name : String)
      → IsExtended lawful m db key name
      → HasRow (record m { database = db }) key
  new-HasRow m db key name extended =
      ((name, unset), row_of-extended m db key key name extended ∙ ground arith)

  pub update-HasRow :
      (m : FileNameManager S) (db : S.Database) (key j : ℕ) (len : ℤ)
      → ((c : String) (i : ℕ)
          → lawful.row db c i ≡ (
              if same_text m.collection_name c && key == i
              then map_row (with_length len) (lawful.row m.database c i)
              else lawful.row m.database c i))
      → HasRow m j
      → HasRow (record m { database = db }) j
  update-HasRow m db key j len rows (r, there) = elim (Bool-cases (key == j)) [
    | inl same ↦
        (with_length len r, ground (arith, eq_refl m.collection_name, rows m.collection_name j))
    | inr other ↦ (r, ground (arith, rows m.collection_name j))
  ]
