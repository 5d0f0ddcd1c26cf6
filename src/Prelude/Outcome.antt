-- ===== src/Prelude/Outcome.antt =====
-- The exceptions of include/jonoondb_api/jonoondb_exceptions.h as values. What a throw carries
-- beside its class (message, file, function, line) is not modelled. `foreign` is an exception of a
-- library outside the repository. `invalid_write` is no exception of the source: it is the end of a run
-- that writes outside of a mapping, after which nothing is defined.
use mathlib.Core.Bool.{Bool, true, false}

pub data Exception : Type 0 where
  jonoondb_error invalid_argument missing_database_file missing_database_folder out_of_memory
        duplicate_key collection_already_exist index_already_exist collection_not_found
        invalid_schema index_out_of_bound sql_error file_io_error missing_document api_misuse
        foreign invalid_write :
      Exception

abbrev pub is_fault : Exception → Bool
is_fault invalid_write = true
is_fault _ = false

-- A call returns a value or throws.
pub data Outcome {ℓ} (A : Type ℓ) : Type ℓ where
  ok : A → Outcome A
  throw : Exception → Outcome A

infixl 5 ◌>>=◌
abbrev pub ◌>>=◌ {ℓ κ} : {A : Type ℓ} {B : Type κ} → Outcome A → (A → Outcome B) → Outcome B
ok a >>= f = f a
throw e >>= f = throw e

-- The result of a `void` function.
abbrev pub Done : Type 0
Done = Outcome {0} Unit
