-- ===== src/Tests/Store.antt =====
-- A data file table, a host that never fails, and a blob manager over them.
use Prim.Native.String.{String}
use jonoondb.Prelude.{
  ℕ, zero, suc, ◌≤◌, ◌≡◌, refl, sym, ap, List, [], ◌∷◌, none, some, true, arith, take, replicate,
  length-replicate, get_or, if◌then◌else◌,
}
use jonoondb.Prelude.Int.{ℤ, pos}
use jonoondb.Buffer.{Buffer, standard_delete, contents}
use jonoondb.Buffer
use jonoondb.Buffer.Valid.{empty-IsValid}
use jonoondb.Blob.Header.{get_header_size, get_varint_size}
use jonoondb.LruCache.{lookup}
use jonoondb.FileNames.Interface.{Paths, same_text}
use jonoondb.FileNames.{FileNameManager, new_file_name}
use jonoondb.FileNames.Table.{table, find_row, table-IsLawful}
use jonoondb.FileNames.Names.{some_injective, IsNamed}
use jonoondb.Blob.Files.{Host}
use jonoondb.Blob.Format.RoundTrip.{IsFaithful, take-append}
use jonoondb.Blob.Manager.{BlobManager}
use jonoondb.Blob.Manager.Append.{IsStorable, estimated_size}
use jonoondb.Blob.Manager.Ready.{IsReady}

abbrev pub paths : Paths
paths = record {
  decimal = λ n. get_or ("0" ∷ "1" ∷ "2" ∷ "3" ∷ []) n "many";
  join = λ folder name. name;
  generic_string = λ path. path;
  exists = λ path. true;
}

-- Compression that changes nothing.
abbrev pub host : Host
host = record {
  can_create = λ _. true;
  can_truncate = λ _ _. true;
  can_close = λ _. true;
  can_map = λ _ _. true;
  page_size = 4096;
  can_flush = λ _ _ _. true;
  fresh = λ n. replicate n 0;
  max_input_size = 1000;
  compress_bound = λ n. n;
  compress = λ source _. source;
  decompress = λ source n. take n source;
}

pub host-IsFaithful : IsFaithful host
host-IsFaithful = record {
  length-fresh = λ n. length-replicate n 0;
  length-compress = λ source capacity. omega arith;
  decompress-compress = λ source rest capacity h. take-append source rest;
}

-- One data file, the first 5 bytes of which are written.
abbrev pub one_file : FileNameManager table
one_file = record {
  db_name = "db";
  db_path = "/";
  collection_name = "c";
  database = record { collection = "c"; key = 0; file = ("db_c.0", pos 5) } ∷ [];
  file_info_map = [];
}

abbrev pub no_file : FileNameManager table
no_file = record one_file { database = [] }

first_row :
    (j : ℕ) (r : String × ℤ)
    → find_row one_file.database "c" j ≡ some r
    → r.0 ≡ new_file_name paths one_file j
unfolding find_row
first_row zero r e = ap (λ (q : String × ℤ). q.0) (some_injective (sym e))
first_row (suc j) r e = absurd (ground arith)

pub one_file-IsNamed : IsNamed paths table-IsLawful one_file
unfolding lookup
one_file-IsNamed = record { rows = first_row; known = λ j info e. absurd (cc e) }

pub no_file-IsNamed : IsNamed paths table-IsLawful no_file
unfolding find_row lookup
no_file-IsNamed = record { rows = λ j r e. absurd (cc e); known = λ j info e. absurd (cc e) }

-- A blob of three bytes behind its header, and zeros.
abbrev pub first_bytes : List ℕ
first_bytes = 16 ∷ 3 ∷ 7 ∷ 8 ∷ 9 ∷ replicate 59 0

-- A blob manager with one data file of 64 bytes, the first 5 of which are written.
abbrev pub ready : BlobManager table
ready = record {
  names = one_file;
  files = λ name. if same_text name "db_c.0" then some first_bytes else none;
  max_data_file_size = 64;
  current_blob_file_info = record {
    file_key = 0;
    file_name = "db_c.0";
    file_name_with_path = "db_c.0";
    data_length = pos 5;
  };
  current_blob_file = record { file_name = "db_c.0"; write_offset = 5 };
  reader_files = record { entries = []; last_used = 0; max_cache_size = 3 };
  comp_buffer = Buffer.empty;
}

pub ready-IsReady : IsReady paths table-IsLawful ready
unfolding find_row lookup
ready-IsReady = record {
  named = one_file-IsNamed;
  current_row = (("db_c.0", pos 5), refl);
  current_name = refl;
  current_bytes = first_bytes;
  current_file = refl;
  current_size = refl;
  within = omega arith;
  readers = λ k name e. absurd (cc e);
  comp_buffer = empty-IsValid;
}

abbrev pub blob : Buffer
blob = record { bytes = some (7 ∷ 8 ∷ 9 ∷ []); deleter = standard_delete; len = 3; capacity = 3 }

pub blob-IsStorable : IsStorable host blob true
blob-IsStorable = record {
  valid = omega arith;
  not_empty = omega arith;
  small = omega arith;
  bound_small = omega arith;
  compressible = λ _. omega arith;
}

pub blob_fits : estimated_size 3 (some 3) ≤ 64
unfolding get_header_size get_varint_size
blob_fits = omega arith
