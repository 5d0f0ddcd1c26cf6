-- ===== src/Tests/Errors.antt =====
-- Statuses.
use jonoondb.Prelude.{◌+◌, ◌≡◌, some, false, arith}
use jonoondb.Status.{StatusImpl, copy_assign}
use jonoondb.Status.Ownership.{owned, copy_assign-owned}

abbrev missing_key : StatusImpl
missing_key = some (record {
  code = 14;
  message = "no such key";
  file_name = "a.cc";
  func_name = "f";
  line_num = 7;
})

abbrev no_memory : StatusImpl
no_memory =
    some (record {
      code = 6;
      message = "no memory";
      file_name = "b.cc";
      func_name = "g";
      line_num = 1;
    })

copy_assign-owned_example :
    ((copy_assign false 2 missing_key no_memory).0 ≡ no_memory)
    × ((copy_assign false 2 missing_key no_memory).1 + owned missing_key
        ≡ 2 + owned (copy_assign false 2 missing_key no_memory).0)
unfolding owned
copy_assign-owned_example = copy_assign-owned 2 missing_key no_memory (omega arith)
