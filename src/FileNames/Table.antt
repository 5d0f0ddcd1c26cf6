-- ===== src/FileNames/Table.antt =====
-- The table CollectionDataFile as a list of rows, which keeps what filename_manager.cc expects of its
-- statements: the expectations can be met.
use Prim.Native.String.{String}
use text.Mathlib.TextEquality.{eq_iff}
use jonoondb.Prelude.{
  ℕ, ◌≤◌, ◌≡◌, refl, List, [], ◌∷◌, Option, none, some, Bool, arith, ◌==◌, ltb, if◌then◌else◌, ◌&&◌,
  ◌⊎◌, inl, inr, Bool-cases,
}
use jonoondb.Prelude.Int.{ℤ, pos}
use jonoondb.FileNames.Interface.{
  Sqlite, IsLawful, Code, sqlite_ok, sqlite_row, sqlite_done, sqlite_constraint, same_text,
  with_length, map_row,
}

pub record Row : Type 0 where
  pub collection : String
  pub key : ℕ
  pub file : String × ℤ

abbrev pub is_row : String → ℕ → Row → Bool
is_row c k r = same_text r.collection c && r.key == k

unfoldable pub find_row : List Row → String → ℕ → Option (String × ℤ)
find_row [] c k = none
find_row (r ∷ rows) c k = let rest = find_row rows c k in if is_row c k r then some r.file else rest

unfoldable pub set_length : ℤ → String → ℕ → List Row → List Row
set_length len c k [] = []
set_length len c k (r ∷ rows) =
    let rest = set_length len c k rows in
    (if is_row c k r then record r { file = with_length len r.file } else r) ∷ rest

abbrev pub later : Option (ℕ × ℤ) → Row → Option (ℕ × ℤ)
later none r = some (r.key, r.file.1)
later (some (k, len)) r = if ltb r.key k then some (k, len) else some (r.key, r.file.1)

unfoldable pub last_of : List Row → String → Option (ℕ × ℤ)
last_of [] c = none
last_of (r ∷ rows) c =
    let rest = last_of rows c in if same_text r.collection c then later rest r else rest

abbrev pub put_row : List Row → Row → Option (String × ℤ) → Code × List Row
put_row rows r none = (sqlite_done, r ∷ rows)
put_row rows r (some _) = (sqlite_constraint, rows)

abbrev pub name_row : Option (String × ℤ) → Code × String
name_row none = (sqlite_done, "")
name_row (some (name, _)) = (sqlite_row, name)

abbrev pub key_row : Option (ℕ × ℤ) → Code × (ℕ × ℤ)
key_row none = (sqlite_done, (0, pos 0))
key_row (some columns) = (sqlite_row, columns)

abbrev pub table : Sqlite
table = record {
  Database = List Row;
  bind = λ _ _ _. sqlite_ok;
  step_put = λ rows c k name len.
      put_row rows (record { collection = c; key = k; file = (name, len) }) (find_row rows c k);
  step_get_file_name = λ rows c k. name_row (find_row rows c k);
  step_get_last_file_key = λ rows c. key_row (last_of rows c);
  step_update = λ rows len c k. (sqlite_done, set_length len c k rows);
}

pub find_row-set_length :
    (len : ℤ) (c : String) (k : ℕ) (rows : List Row) (d : String) (j : ℕ)
    → find_row (set_length len c k rows) d j ≡ (
        if same_text c d && k == j
        then map_row (with_length len) (find_row rows d j)
        else find_row rows d j)
unfolding find_row set_length
find_row-set_length len c k [] d j = ground arith
find_row-set_length len c k (r ∷ rows) d j = ground (
  arith,
  eq_iff r.collection c,
  eq_iff r.collection d,
  eq_iff c d,
  find_row-set_length len c k rows d j,
)

-- The last key of a collection: there is none, or it is that of a row and no row has a higher one.
pub last_of-cases :
    (rows : List Row) (c : String)
    → ((last_of rows c ≡ none) × ((k : ℕ) → find_row rows c k ≡ none))
      ⊎ ((k : ℕ) × ((name : String) × ((len : ℤ) × (last_of rows c ≡ some (k, len))
              × (find_row rows c k ≡ some (name, len))
              × ((j : ℕ) (r : String × ℤ) → find_row rows c j ≡ some r → j ≤ k))))
unfolding find_row last_of
last_of-cases [] c = inl (refl, λ k. refl)
last_of-cases (r ∷ rows) c = elim (last_of-cases rows c) [
  | inl (none_last, empty) ↦ elim (Bool-cases (same_text r.collection c)) [
    | inr other ↦ inl (ground arith, λ k. ground (arith, empty k))
    | inl same ↦ inr (
      r.key,
      (r.file.0, (r.file.1, ground arith, ground arith, λ j q e. ground (arith, empty j))),
    )
  ]
  | inr (k, (name, (len, last, there, top))) ↦ elim (Bool-cases (same_text r.collection c)) [
    | inr other ↦
        inr (k, (name, (len, ground arith, ground arith, λ j q e. ground (arith, top j q))))
    | inl same ↦ elim (Bool-cases (ltb r.key k)) [
      | inl lower ↦
          inr (k, (name, (len, ground arith, ground arith, λ j q e. ground (arith, top j q))))
      | inr higher ↦ inr (
        r.key,
        (r.file.0, (r.file.1, ground arith, ground arith, λ j q e. ground (arith, top j q))),
      )
    ]
  ]
]

pub find_row-cons :
    (c : String) (k : ℕ) (name : String) (len : ℤ) (rows : List Row) (d : String) (j : ℕ)
    → find_row (record { collection = c; key = k; file = (name, len) } ∷ rows) d j
      ≡ (if same_text c d && k == j then some (name, len) else find_row rows d j)
unfolding find_row
find_row-cons c k name len rows d j = refl

abbrev pub table-IsLawful : IsLawful table
table-IsLawful = record {
  row = find_row;
  bind-ok = λ db s i. refl;
  put-fresh = λ db c k name len fresh. (
    record { collection = c; key = k; file = (name, len) } ∷ db,
    rw fresh refl,
    find_row-cons c k name len db,
  );
  put-taken = λ db c k name len r taken. rw taken refl;
  get_file_name-row = λ db c k r there. rw there refl;
  get_file_name-missing = λ db c k missing. ("", rw missing refl);
  last_row = λ db c. elim (last_of-cases db c) [
    | inl (last, empty) ↦ inl ((0, pos 0), rw last refl, empty)
    | inr (k, (name, (len, last, there, top))) ↦ inr (k, (name, (len, rw last refl, there, top)))
  ];
  update-done = λ db len c k. (set_length len c k db, refl, find_row-set_length len c k db);
}
