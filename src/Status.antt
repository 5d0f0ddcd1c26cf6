-- ===== src/Status.antt =====
-- src/jonoondb_api/status_impl.cc: `StatusImpl`, which is OK or owns a `StatusData`. A null pointer is
-- `none`. The heap is the number of the `StatusData` that are allocated, which `new` and `delete`
-- change; where an object is assigned, a flag says whether it is assigned to itself.
pub mod Ownership
use Prim.Native.String.{String}
use jonoondb.Prelude.{ℕ, ◌+◌, ◌-◌, Option, none, some, Bool, true, false, not, ◌==◌, if◌then◌else◌}

pub record StatusData : Type 0 where
  pub code : ℕ
  pub message : String
  pub file_name : String
  pub func_name : String
  pub line_num : ℕ

-- `m_statusData`
abbrev pub StatusImpl : Type 0
StatusImpl = Option StatusData

-- The kinds of errors that a status has a function for.
pub data StatusKind : Type 0 where
  generic_error invalid_argument missing_database_file missing_database_folder
        failed_to_open_metadata_database_file out_of_memory_error duplicate_key_error file_io_error
        api_misuse_error key_not_found collection_already_exist index_already_exist
        collection_not_found schema_parse_error index_out_of_bound :
      StatusKind

-- The constants that the functions compare with.
unfoldable pub code_of : StatusKind → ℕ
code_of generic_error = 1
code_of invalid_argument = 2
code_of missing_database_file = 3
code_of missing_database_folder = 4
code_of failed_to_open_metadata_database_file = 5
code_of out_of_memory_error = 6
code_of duplicate_key_error = 7
code_of file_io_error = 12
code_of api_misuse_error = 13
code_of key_not_found = 14
code_of collection_already_exist = 15
code_of index_already_exist = 16
code_of collection_not_found = 17
code_of schema_parse_error = 18
code_of index_out_of_bound = 19

-- `InvalidArgument` and the other functions, one for each kind.
unfoldable pub reports : StatusKind → StatusImpl → Bool
unfolding code_of
reports kind none = false
reports kind (some data') = data'.code == code_of kind

-- `OK`, and `operator!`
unfoldable pub is_ok : StatusImpl → Bool
is_ok none = true
is_ok (some data') = false

unfoldable pub is_not_ok : StatusImpl → Bool
unfolding is_ok
is_not_ok s = not (is_ok s)

unfoldable pub get_code : StatusImpl → ℕ
get_code none = 0
get_code (some data') = data'.code

unfoldable pub get_message : StatusImpl → String
get_message none = "OK"
get_message (some data') = data'.message

unfoldable pub get_source_file_name : StatusImpl → String
get_source_file_name none = ""
get_source_file_name (some data') = data'.file_name

unfoldable pub get_function_name : StatusImpl → String
get_function_name none = ""
get_function_name (some data') = data'.func_name

unfoldable pub get_line_number : StatusImpl → ℕ
get_line_number none = 0
get_line_number (some data') = data'.line_num

-- The constructor from a code, with the heap after it.
unfoldable pub make_status : ℕ → ℕ → String → String → String → ℕ → StatusImpl × ℕ
make_status heap code message file_name func_name line_num = (
  some (record {
    code = code;
    message = message;
    file_name = file_name;
    func_name = func_name;
    line_num = line_num;
  }),
  heap + 1,
)

-- `new StatusData` from what the functions of the other status give.
unfoldable pub copied : ℕ → StatusImpl → StatusImpl × ℕ
unfolding make_status get_code get_message get_source_file_name get_function_name get_line_number
copied heap other =
    make_status heap (get_code other) (get_message other) (get_source_file_name other)
      (get_function_name other) (get_line_number other)

-- The copy constructor
unfoldable pub copy_construct : ℕ → StatusImpl → StatusImpl × ℕ
unfolding copied
copy_construct heap none = (none, heap)
copy_construct heap (some data') = copied heap (some data')

-- The move constructor: the new status, and the other after it.
unfoldable pub move_construct : StatusImpl → StatusImpl × StatusImpl
move_construct other = (other, none)

-- `delete m_statusData`
unfoldable pub delete_data : ℕ → StatusImpl → ℕ
delete_data heap none = heap
delete_data heap (some data') = heap - 1

-- The destructor
unfoldable pub destroy : ℕ → StatusImpl → StatusImpl × ℕ
unfolding delete_data
destroy heap s = (none, delete_data heap s)

-- Copy assignment
unfoldable pub copy_assign : Bool → ℕ → StatusImpl → StatusImpl → StatusImpl × ℕ
unfolding delete_data copy_construct
copy_assign true heap self other = (self, heap)
copy_assign false heap self other = copy_construct (delete_data heap self) other

-- Move assignment: the status and the other after it, and the heap.
unfoldable pub status_move_assign : Bool → ℕ → StatusImpl → StatusImpl → StatusImpl × StatusImpl × ℕ
status_move_assign true heap self other = (self, other, heap)
status_move_assign false heap self other = (other, none, heap)
