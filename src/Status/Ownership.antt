-- ===== src/Status/Ownership.antt =====
-- status_impl.cc: what a status reports, and who owns the data.
use jonoondb.Prelude.{
  ℕ, ◌+◌, ◌≤◌, ◌≡◌, refl, sym, ap, ◌∙◌, none, some, true, false, ◌==◌, if◌then◌else◌, arith,
}
use jonoondb.Status.{
  StatusImpl, StatusKind, generic_error, invalid_argument, missing_database_file,
  missing_database_folder, failed_to_open_metadata_database_file, out_of_memory_error,
  duplicate_key_error, file_io_error, api_misuse_error, key_not_found, collection_already_exist,
  index_already_exist, collection_not_found, schema_parse_error, index_out_of_bound, code_of,
  reports, is_ok, copied, copy_construct, delete_data, copy_assign, make_status,
}

-- The kind that a code stands for.
kind_of : ℕ → StatusKind
kind_of code =
    if code == 1
    then generic_error
    else if code == 2
    then invalid_argument
    else if code == 3
    then missing_database_file
    else if code == 4
    then missing_database_folder
    else if code == 5
    then failed_to_open_metadata_database_file
    else if code == 6
    then out_of_memory_error
    else if code == 7
    then duplicate_key_error
    else if code == 12
    then file_io_error
    else if code == 13
    then api_misuse_error
    else if code == 14
    then key_not_found
    else if code == 15
    then collection_already_exist
    else if code == 16
    then index_already_exist
    else if code == 17
    then collection_not_found
    else if code == 18
    then schema_parse_error
    else index_out_of_bound

kind_of-code_of : (kind : StatusKind) → kind_of (code_of kind) ≡ kind
unfolding kind_of code_of
kind_of-code_of generic_error = refl
kind_of-code_of invalid_argument = refl
kind_of-code_of missing_database_file = refl
kind_of-code_of missing_database_folder = refl
kind_of-code_of failed_to_open_metadata_database_file = refl
kind_of-code_of out_of_memory_error = refl
kind_of-code_of duplicate_key_error = refl
kind_of-code_of file_io_error = refl
kind_of-code_of api_misuse_error = refl
kind_of-code_of key_not_found = refl
kind_of-code_of collection_already_exist = refl
kind_of-code_of index_already_exist = refl
kind_of-code_of collection_not_found = refl
kind_of-code_of schema_parse_error = refl
kind_of-code_of index_out_of_bound = refl

-- A status is of one kind at most: two functions that return true for it are the same function. A
-- status of a kind is not OK.
pub reports-same :
    (s : StatusImpl) (kind other : StatusKind)
    → reports kind s ≡ true
    → reports other s ≡ true
    → (kind ≡ other) × (is_ok s ≡ false)
unfolding reports is_ok
reports-same none kind other h k = absurd (cc)
reports-same (some d) kind other h k =
    let first : d.code ≡ code_of kind = ground arith in
    let second : d.code ≡ code_of other = ground arith in
    (sym (kind_of-code_of kind) ∙ ap kind_of (sym first ∙ second) ∙ kind_of-code_of other, refl)

-- The number of `StatusData` that a status owns.
unfoldable pub owned : StatusImpl → ℕ
owned none = 0
owned (some d) = 1

-- `copy_construct` makes an equal status and allocates what it owns.
copy_construct_lem :
    (heap : ℕ) (other : StatusImpl)
    → ((copy_construct heap other).0 ≡ other) × ((copy_construct heap other).1 ≡ heap + owned other)
unfolding copy_construct copied make_status owned
copy_construct_lem heap none = (refl, omega arith)
copy_construct_lem heap (some d) = (refl, refl)

delete_data_lem : (heap : ℕ) (s : StatusImpl) → owned s ≤ heap → delete_data heap s + owned s ≡ heap
unfolding delete_data owned
delete_data_lem heap none h = omega arith
delete_data_lem heap (some d) h = omega arith

-- After the copy assignment of another status the status reports all that the other one does, and the
-- heap has what it had, less what the status owned before, and with what it owns after.
pub copy_assign-owned :
    (heap : ℕ) (self other : StatusImpl)
    → owned self ≤ heap
    → ((copy_assign false heap self other).0 ≡ other)
      × ((copy_assign false heap self other).1 + owned self
          ≡ heap + owned (copy_assign false heap self other).0)
unfolding copy_assign
copy_assign-owned heap self other h =
    let (same, size) = copy_construct_lem (delete_data heap self) other in
    (same, rw same (omega (arith, size, delete_data_lem heap self h)))
