-- ===== src/FileNames/Lookup.antt =====
-- filename_manager.cc: `GetFileInfo` and its map in memory.
use Prim.Native.String.{String}
use mathlib.Core.Logic.{ite, if_pos}
use jonoondb.Prelude.{
  ℕ, ◌≡◌, refl, subst, ◌∙◌, List, none, some, ℕ_discrete, ◌⊎◌, inl, inr, Option-cases,
}
use jonoondb.Prelude.Int.{ℤ, pos}
use jonoondb.Prelude.Outcome.{ok, throw, jonoondb_error}
use jonoondb.LruCache.{lookup, store}
use jonoondb.LruCache.Reads.{lookup-store}
use jonoondb.FileNames.Interface.{Sqlite, Paths, IsLawful}
use jonoondb.FileNames.{FileInfo, FileNameManager, info_named, get_file_info}
use jonoondb.FileNames.Keys.{row_of, bind_each-ok}

module _ {S : Sqlite} (paths : Paths) where
  -- What the map in memory has is given without a question to the database, failing or not.
  pub get_file_info-known :
      (m : FileNameManager S) (key : ℕ) (info : FileInfo)
      → lookup ℕ_discrete key m.file_info_map ≡ some info
      → get_file_info paths key m ≡ (ok info, m)
  unfolding get_file_info
  get_file_info-known m key info known = rw known refl

  module _ (lawful : IsLawful S) where
    open lawful use {get_file_name-row, get_file_name-missing}

    -- GetFileInfo of a key that only the database has.
    get_file_info-row :
        (m : FileNameManager S) (key : ℕ) (r : String × ℤ)
        → lookup ℕ_discrete key m.file_info_map ≡ none
        → row_of lawful m key ≡ some r
        → get_file_info paths key m ≡ (
          ok (info_named paths m key r.0 (pos 0)),
          record m {
            file_info_map =
                store ℕ_discrete key (info_named paths m key r.0 (pos 0)) m.file_info_map none;
          },
        )
    unfolding get_file_info
    get_file_info-row m key r unknown there =
        rw
          (
            unknown,
            bind_each-ok lawful,
            get_file_name-row m.database m.collection_name key r there,
            unknown,
          )
          refl

    -- For a key that is not yet in the map GetFileInfo throws, changing nothing, where the database has
    -- no row of it. Else it gives the key with the name of the row and the length 0, and a second call
    -- gives the same from the map; no other key of the map changes.
    pub get_file_info_cases :
        (m : FileNameManager S) (key : ℕ)
        → lookup ℕ_discrete key m.file_info_map ≡ none
        → ((row_of lawful m key ≡ none) × (get_file_info paths key m ≡ (throw jonoondb_error, m)))
          ⊎ ((r : String × ℤ) × (row_of lawful m key ≡ some r)
              × ((known : List (ℕ × FileInfo)) × (get_file_info paths key m
                    ≡ (ok (info_named paths m key r.0 (pos 0)), record m { file_info_map = known }))
                  × (get_file_info paths key (record m { file_info_map = known }) ≡ (
                    ok (info_named paths m key r.0 (pos 0)),
                    record m { file_info_map = known },
                  ))
                  × ((j : ℕ)
                      → lookup ℕ_discrete j known
                        ≡ ite
                            (ℕ_discrete key j)
                            (some (info_named paths m key r.0 (pos 0)))
                            (lookup ℕ_discrete j m.file_info_map))))
    unfolding get_file_info
    get_file_info_cases m key unknown = elim (Option-cases (row_of lawful m key)) [
      | inl missing ↦
          let (column, done) = get_file_name-missing m.database m.collection_name key missing in
          inl (missing, rw (unknown, bind_each-ok lawful, done) refl)
      | inr (r, there) ↦
          let info = info_named paths m key r.0 (pos 0) in
          let known = store ℕ_discrete key info m.file_info_map none in
          let stored = λ (j : ℕ).
            subst
              (λ o.
                lookup ℕ_discrete j (store ℕ_discrete key info m.file_info_map o)
                ≡ ite (ℕ_discrete key j) (some info) (lookup ℕ_discrete j m.file_info_map))
              unknown (lookup-store ℕ_discrete key j info m.file_info_map) in
          inr (
            r,
            there,
            (
              known,
              get_file_info-row m key r unknown there,
              get_file_info-known (record m { file_info_map = known }) key info
                  (stored key
                    ∙ if_pos (ℕ_discrete key key) refl (some info)
                        (lookup ℕ_discrete key m.file_info_map)),
              stored,
            ),
          )
    ]
