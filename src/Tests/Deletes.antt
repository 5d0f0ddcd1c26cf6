-- ===== src/Tests/Deletes.antt =====
-- The delete vector, with the bit array of `Bitmap.Plain` and a database that is the stored bitmap.
use jonoondb.Prelude.{ℕ, ◌≡◌, refl, [], ◌∷◌, Option, none, some, true, false, ◌==◌, ◌||◌, arith}
use jonoondb.Prelude.Outcome.{Outcome, ok, throw, sql_error}
use jonoondb.Bitmap.{Bitmap}
use jonoondb.Bitmap.Plain.{Bits, bit, plain, no_bits}
use jonoondb.Bitmap.Growth.{member, end_of}
use jonoondb.DeleteVector.{
  DeleteVector, get_delete_vector_bitmap, on_document_deleted, load_bitmap, roll_back,
}
use jonoondb.DeleteVector.Valid.{IsValid, is_live, get_delete_vector_bitmap-is_live}
use jonoondb.DeleteVector.Deletion.{IsSettled, on_document_deleted_cases}
use jonoondb.DeleteVector.Reopen.{load_bitmap-reopen}

abbrev Stored : Type 0
Stored = Option Bits

abbrev accept : Stored → Bits → Outcome Stored
accept d b = ok (some b)

abbrev refuse : Stored → Bits → Outcome Stored
refuse d b = throw sql_error

-- Five documents, of which none is deleted.
abbrev five : DeleteVector plain Stored
five = record {
  deleted_doc_ids = [];
  delete_vec_bitmap = no_bits;
  serialization_bitmap = no_bits;
  is_dirty = true;
  next_document_id = 5;
  database = none;
}

five-IsValid : IsValid five
unfolding end_of member
five-IsValid = record {
  increasing = tt;
  inserted = omega arith;
  tracked = λ j. ground arith;
  tracked_size = omega arith;
  current = λ dirty. cc;
  sized = λ dirty. cc;
}

delete_three : (on_document_deleted plain accept five 3).0.deleted_doc_ids ≡ 3 ∷ []
unfolding on_document_deleted
delete_three = refl

delete_refused : (on_document_deleted plain refuse five 3).0.deleted_doc_ids ≡ []
unfolding on_document_deleted roll_back
delete_refused = refl

get_delete_vector_bitmap-is_live_example :
    (b : Bitmap plain) × (get_delete_vector_bitmap plain five
      ≡ (record five { delete_vec_bitmap = b; is_dirty = false }, ok b))
    × ((j : ℕ) → bit b j ≡ is_live 5 [] j)
    × IsValid (record five { delete_vec_bitmap = b; is_dirty = false })
get_delete_vector_bitmap-is_live_example = get_delete_vector_bitmap-is_live plain five five-IsValid

on_document_deleted_cases_example :
    (b : Bitmap plain) × ((j : ℕ) → bit b j ≡ (j == 3 || member j []))
    × IsValid (on_document_deleted plain refuse five 3).0
    × IsSettled plain refuse five 3 b (on_document_deleted plain refuse five 3)
unfolding member
on_document_deleted_cases_example =
    on_document_deleted_cases plain refuse five 3 five-IsValid (omega arith) refl

load_bitmap-reopen_example :
    ((load_bitmap plain (some no_bits) 6 (some no_bits)).deleted_doc_ids ≡ [])
    × IsValid (load_bitmap plain (some no_bits) 6 (some no_bits))
load_bitmap-reopen_example =
    load_bitmap-reopen plain five (some no_bits) 6 no_bits five-IsValid (omega arith) refl λ j. refl
