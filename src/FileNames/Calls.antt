-- ===== src/FileNames/Calls.antt =====
-- filename_manager.cc: what every call of the methods keeps.
use jonoondb.Prelude.{
  ℕ, ◌+◌, ◌≡◌, sym, subst, List, Bool, true, false, ℕ_discrete, inl, inr, Option-cases,
}
use jonoondb.Prelude.Int.{ℤ}
use jonoondb.Prelude.Outcome.{Outcome}
use jonoondb.LruCache.{lookup}
use jonoondb.FileNames.Interface.{Sqlite, Paths, IsLawful}
use jonoondb.FileNames.{
  FileNameManager, get_current_data_file_info, get_next_data_file_info, update_data_file_length,
  get_file_info,
}
use jonoondb.FileNames.Keys.{
  get_next_data_file_info_cases, get_current_data_file_info_cases, update_data_file_length-row,
}
use jonoondb.FileNames.Lookup.{get_file_info_cases, get_file_info-known}
use jonoondb.FileNames.Names.{IsNamed, get_file_info-IsNamed, extended-IsNamed, update-IsNamed}

pub data Call : Type 0 where
  get_current : Bool → Call
  get_next : Call
  update_length : ℕ → ℤ → Call
  get_info : ℕ → Call

module _ {S : Sqlite} (paths : Paths) where
  -- The manager behind a call, whether the call returns or throws.
  unfoldable pub after_call : Call → FileNameManager S → FileNameManager S
  unfolding get_current_data_file_info get_next_data_file_info update_data_file_length get_file_info
  after_call (get_current create_if_missing) m =
      (get_current_data_file_info paths create_if_missing m).1
  after_call get_next m = (get_next_data_file_info paths m).1
  after_call (update_length key len) m = (update_data_file_length key len m).1
  after_call (get_info key) m = (get_file_info paths key m).1

  unfoldable pub after_calls : List Call → FileNameManager S → FileNameManager S
  unfolding after_call
  after_calls List.[] m = m
  after_calls (List.◌∷◌ c cs) m = after_calls cs (after_call c m)

  module _ (lawful : IsLawful S) where
    result_state :
        {A : Type 0} {m' : FileNameManager S} {o : Outcome A} (r : Outcome A × FileNameManager S)
        → r ≡ (o, m')
        → IsNamed paths lawful m'
        → IsNamed paths lawful (r.1)
    result_state r e named = subst (λ p. IsNamed paths lawful p.1) (sym e) named

    pub after_call-IsNamed :
        (c : Call) (m : FileNameManager S)
        → IsNamed paths lawful m
        → IsNamed paths lawful (after_call c m)
    unfolding after_call
    after_call-IsNamed (get_current true) m named =
        elim (get_current_data_file_info_cases lawful paths m) [
          | inl (_, _, (db, made, extended)) ↦
              result_state _ made (extended-IsNamed paths lawful m db 0 named extended)
          | inr (_, (_, (_, there, _, _))) ↦ result_state _ there named
        ]
    after_call-IsNamed (get_current false) m named =
        elim (get_current_data_file_info_cases lawful paths m) [
          | inl (_, refused, _) ↦ result_state _ refused named
          | inr (_, (_, (_, _, there, _))) ↦ result_state _ there named
        ]
    after_call-IsNamed get_next m named = elim (get_next_data_file_info_cases lawful paths m) [
      | inl (_, refused) ↦ result_state _ refused named
      | inr (k, (db, given, _, extended)) ↦
          result_state _ given (extended-IsNamed paths lawful m db (k + 1) named extended)
    ]
    after_call-IsNamed (update_length key len) m named =
        let (db, done, rows) = update_data_file_length-row lawful m key len in
        result_state _ done (update-IsNamed paths lawful m db key len named rows)
    after_call-IsNamed (get_info key) m named =
        elim (Option-cases (lookup ℕ_discrete key m.file_info_map)) [
          | inr (info, hit) ↦ result_state _ (get_file_info-known paths m key info hit) named
          | inl unknown ↦ elim (get_file_info_cases paths lawful m key unknown) [
            | inl (_, refused) ↦ result_state _ refused named
            | inr (r, there, _) ↦
                let (known, given, named') =
                  get_file_info-IsNamed paths lawful m key named (r, there) in
                result_state _ given named'
          ]
        ]

    -- Whatever is called, and however often, on a database that has no failure: every row of the
    -- collection keeps the name that belongs to its key, and so does the map in memory.
    pub after_calls-IsNamed :
        (cs : List Call) (m : FileNameManager S)
        → IsNamed paths lawful m
        → IsNamed paths lawful (after_calls cs m)
    unfolding after_calls
    after_calls-IsNamed List.[] m named = named
    after_calls-IsNamed (List.◌∷◌ c cs) m named =
        after_calls-IsNamed cs (after_call c m) (after_call-IsNamed c m named)
