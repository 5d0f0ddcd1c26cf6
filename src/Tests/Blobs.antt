-- ===== src/Tests/Blobs.antt =====
-- The theorems on file names and blobs, over the table and the host of `Tests.Store`.
use jonoondb.Tests.Store.{
  paths, host, host-IsFaithful, one_file, one_file-IsNamed, no_file, no_file-IsNamed, first_bytes,
  ready, ready-IsReady, blob, blob-IsStorable, blob_fits,
}
use Prim.Native.String.{String}
use mathlib.Core.Logic.{ite}
use jonoondb.Prelude.{
  false, sym, ap, take, drop, ◌≤◌, ℕ, zero, suc, ◌+◌, ◌≤◌, ◌≡◌, ◌≢◌, refl, subst, List, [], ◌∷◌,
  ◌++◌, none, some, true, false, arith, length, replicate, ℕ_discrete, ◌⊎◌,
}
use jonoondb.Prelude.Int.{ℤ, pos}
use jonoondb.Prelude.Outcome.{ok, throw, jonoondb_error}
use jonoondb.Buffer.{Buffer, standard_delete, contents}
use jonoondb.Buffer
use jonoondb.Buffer.Valid.{IsValid, empty-IsValid}
use jonoondb.Blob.Header.{
  get_varint_size, get_header_size, Reading, done, BlobHeader, write_blob_header,
}
use jonoondb.LruCache.{lookup}
use jonoondb.FileNames.{
  FileInfo, FileNameManager, unset, info_of, info_named, new_file_name, get_current_data_file_info,
  get_next_data_file_info, update_data_file_length, get_file_info,
}
use jonoondb.FileNames.Table.{Row, table, find_row, table-IsLawful}
use jonoondb.FileNames.Keys.{
  row_of, IsExtended, get_next_data_file_info_cases, get_current_data_file_info-update,
}
use jonoondb.FileNames.Lookup.{get_file_info_cases}
use jonoondb.FileNames.Names.{some_injective, IsNamed}
use jonoondb.FileNames.Calls.{
  get_current, get_next, update_length, get_info, after_calls, after_calls-IsNamed,
}
use jonoondb.Blob.Format.RoundTrip.{Gives, HoldsBlob, plain_form}
use jonoondb.Blob.Format.{header_bytes}
use jonoondb.Varint.{encode_varint, encode_loop}
use jonoondb.Blob.Manager.{is_unset, to_size, BlobMetadata, BlobManager, put, get}
use jonoondb.Blob.Manager.{put_internal}
use jonoondb.Blob.Manager.Opening.{open_blob_manager}
use jonoondb.Blob.Manager.Opened.{IsLast, IsSound, Opens, open_blob_manager-Opens}
use jonoondb.Blob.Manager.Append.{
  current_metadata, IsPut, comp_bound, HasRoom, current_bytes, current_size, put_internal_ok,
}
use jonoondb.Blob.Manager.Ready.{IsStored, path_of}
use jonoondb.Blob.Manager.Kept.{IsKept}
use jonoondb.Blob.Manager.Switch.{IsReliable, IsUntroubled}
use jonoondb.Blob.Iterator.{get_next_batch}
use jonoondb.Blob.Iterator.Batch.{Entry, AreEntries, AreBlobs, laid_out, get_next_batch-laid_out}
use jonoondb.Blob.Manager.PutGet.{Stores, put-Stores, get-IsStored, get-put}

one_file_first : row_of table-IsLawful one_file 0 ≡ some ("db_c.0", pos 5)
unfolding find_row
one_file_first = refl

one_file_top : (j : ℕ) (r : String × ℤ) → row_of table-IsLawful one_file j ≡ some r → j ≤ 0
unfolding find_row
one_file_top zero r e = omega arith
one_file_top (suc j) r e = absurd (ground arith)

nothing_known : lookup ℕ_discrete 0 one_file.file_info_map ≡ none
unfolding lookup
nothing_known = refl

get_next_data_file_info_cases_example :
    (((j : ℕ) → row_of table-IsLawful one_file j ≡ none)
      × (get_next_data_file_info paths one_file ≡ (throw jonoondb_error, one_file)))
    ⊎ ((k : ℕ) × ((db : List Row) × (get_next_data_file_info paths one_file
            ≡ (ok (info_of paths one_file (k + 1) unset), record one_file { database = db }))
          × ((row_of table-IsLawful one_file k ≢ none)
              × ((j : ℕ) (r : String × ℤ) → row_of table-IsLawful one_file j ≡ some r → j ≤ k))
          × IsExtended table-IsLawful one_file db (k + 1) (new_file_name paths one_file (k + 1))))
get_next_data_file_info_cases_example = get_next_data_file_info_cases table-IsLawful paths one_file

get_current_data_file_info-update_example :
    (m' : FileNameManager table) × (update_data_file_length 0 (pos 9) one_file ≡ (ok tt, m'))
    × (get_current_data_file_info paths true m' ≡ (ok (info_of paths one_file 0 (pos 9)), m'))
get_current_data_file_info-update_example =
    get_current_data_file_info-update table-IsLawful paths one_file 0 "db_c.0" (pos 5) (pos 9)
      one_file_first one_file_top

get_file_info_cases_example :
    ((row_of table-IsLawful one_file 0 ≡ none)
      × (get_file_info paths 0 one_file ≡ (throw jonoondb_error, one_file)))
    ⊎ ((r : String × ℤ) × (row_of table-IsLawful one_file 0 ≡ some r)
        × ((known : List (ℕ × FileInfo)) × (get_file_info paths 0 one_file ≡ (
          ok (info_named paths one_file 0 r.0 (pos 0)),
          record one_file { file_info_map = known },
        ))
            × (get_file_info paths 0 (record one_file { file_info_map = known }) ≡ (
              ok (info_named paths one_file 0 r.0 (pos 0)),
              record one_file { file_info_map = known },
            ))
            × ((j : ℕ)
                → lookup ℕ_discrete j known
                  ≡ ite
                      (ℕ_discrete 0 j)
                      (some (info_named paths one_file 0 r.0 (pos 0)))
                      (lookup ℕ_discrete j one_file.file_info_map))))
get_file_info_cases_example = get_file_info_cases paths table-IsLawful one_file 0 nothing_known

after_calls-IsNamed_example : IsNamed paths table-IsLawful (
    after_calls paths
      (get_current true ∷ get_next ∷ update_length 0 (pos 3) ∷ get_info 1 ∷ [])
      no_file)
after_calls-IsNamed_example =
    after_calls-IsNamed paths table-IsLawful
      (get_current true ∷ get_next ∷ update_length 0 (pos 3) ∷ get_info 1 ∷ []) no_file
      no_file-IsNamed

put-Stores_example :
    Stores host host-IsFaithful paths table-IsLawful
      (IsUntroubled paths table-IsLawful host ready)
      ready
      (contents blob)
      (put host paths blob true ready)
put-Stores_example =
    put-Stores host host-IsFaithful paths table-IsLawful ready blob true ready-IsReady
      blob-IsStorable blob_fits

abbrev first_header : BlobHeader
first_header = record { version = 1; compressed = false; blob_size = 3; comp_size = 0 }

first_form : header_bytes first_header ++ (7 ∷ 8 ∷ 9 ∷ []) ≡ 16 ∷ 3 ∷ 7 ∷ 8 ∷ 9 ∷ []
unfolding write_blob_header encode_varint encode_loop
first_form = refl

abbrev first_place : BlobMetadata
first_place = record { file_key = 0; offset = 0 }

first_IsStored : IsStored paths table-IsLawful host ready first_place (7 ∷ 8 ∷ 9 ∷ [])
unfolding find_row
first_IsStored = record {
  row = (("db_c.0", pos 5), refl);
  form = 16 ∷ 3 ∷ 7 ∷ 8 ∷ 9 ∷ [];
  holds =
      subst (λ form. HoldsBlob host form (7 ∷ 8 ∷ 9 ∷ [])) first_form
        (plain_form host host-IsFaithful first_header (7 ∷ 8 ∷ 9 ∷ []) refl refl (omega arith)
          (omega arith) (omega arith));
  bytes = first_bytes;
  file = refl;
  region = refl;
  inside = λ _. omega arith;
}

get-IsStored_example :
    (reading : Reading Buffer) × ((m' : BlobManager table) × (get host paths 0 first_place
          Buffer.empty ready
        ≡ (ok reading, m'))
      × Gives reading (7 ∷ 8 ∷ 9 ∷ [])
      × IsKept paths table-IsLawful host ready m')
get-IsStored_example =
    get-IsStored host host-IsFaithful paths table-IsLawful ready first_place (7 ∷ 8 ∷ 9 ∷ []) 0
      Buffer.empty ready-IsReady first_IsStored refl empty-IsValid

host-IsReliable : IsReliable host
host-IsReliable = record {
  creates = λ _. refl;
  truncates = λ _ _. refl;
  closes = λ _. refl;
  maps = λ _ _. refl;
  flushes = λ _ _ _. refl;
}

no_other_file :
    (k : ℕ)
    → row_of table-IsLawful one_file k ≡ none
    → ready.files (path_of paths one_file k) ≡ none
unfolding find_row
no_other_file zero e = absurd (ground arith)
no_other_file (suc zero) e = refl
no_other_file (suc (suc zero)) e = refl
no_other_file (suc (suc (suc zero))) e = refl
no_other_file (suc (suc (suc (suc k)))) e = refl

get-put_example :
    (metadata : BlobMetadata) × ((m' : BlobManager table) × (put host paths blob true ready
        ≡ (ok metadata, m'))
      × ((stale : ℕ) (b : Buffer)
          → IsValid b
          → (reading : Reading Buffer) × ((m'' : BlobManager table) × (get host paths stale metadata
                  b m'
                ≡ (ok reading, m''))
              × Gives reading (contents blob))))
get-put_example =
    get-put host host-IsFaithful paths table-IsLawful ready blob true ready-IsReady blob-IsStorable
      blob_fits (record { reliable = host-IsReliable; unused = no_other_file })

abbrev first_info : FileInfo
first_info = record {
  file_key = 0;
  file_name = "db_c.0";
  file_name_with_path = "db_c.0";
  data_length = pos 5;
}

abbrev first_entry : List Entry
first_entry = record { blob = 7 ∷ 8 ∷ 9 ∷ []; compressed = false; capacity = 0 } ∷ []

first_entry-AreEntries : AreEntries host host-IsFaithful first_entry
first_entry-AreEntries = (
  record {
    not_empty = λ _. omega arith;
    bound = λ e. absurd (cc e);
    small = omega arith;
    comp_small = omega arith;
  },
  tt,
)

first_entry-length :
    first_info.data_length ≡ pos (0 + length (laid_out host host-IsFaithful first_entry))
unfolding laid_out write_blob_header encode_varint encode_loop
first_entry-length = refl

get_next_batch-laid_out_example :
    (filled : List (Buffer × BlobMetadata)) × (get_next_batch host 0 first_info 0
        (laid_out host host-IsFaithful first_entry ++ replicate 59 0)
        (Buffer.empty ∷ Buffer.empty ∷ [])
      ≡ done filled (replicate 59 0))
    × AreBlobs host host-IsFaithful first_info 0 first_entry filled
get_next_batch-laid_out_example =
    get_next_batch-laid_out host host-IsFaithful 0 first_info 0 first_entry (replicate 59 0)
      (Buffer.empty ∷ Buffer.empty ∷ []) first_entry-length (omega arith) first_entry-AreEntries
      (empty-IsValid, (empty-IsValid, tt))

blob-HasRoom : HasRoom host host-IsFaithful ready blob true
unfolding get_header_size get_varint_size
blob-HasRoom = omega arith

put_internal_ok_example :
    (m' : BlobManager table) × (put : IsPut host host-IsFaithful ready blob
      (comp_bound host 3 true)
      m')
    × (put_internal host blob true ready ≡ (ok (current_metadata ready, length put.form), m'))
    × (current_bytes m'
        ≡ take 5 (current_bytes ready)
          ++ (put.form ++ drop (5 + length put.form) (current_bytes ready)))
    × (m'.current_blob_file.write_offset ≤ current_size m')
put_internal_ok_example =
    put_internal_ok host host-IsFaithful ready blob true blob-IsStorable empty-IsValid blob-HasRoom

-- The file of the first row, 5 bytes of which are written.
one_file-IsSound : IsSound paths table-IsLawful host one_file ready.files 64
unfolding find_row
one_file-IsSound = record { named = one_file-IsNamed; sizes = sizes; lengths = lengths }
  where
    sizes :
        (k : ℕ) (bytes : List ℕ)
        → ready.files (path_of paths one_file k) ≡ some bytes
        → length bytes ≡ 64
    sizes zero bytes e = ap length (some_injective (sym e))
    sizes (suc zero) bytes e = absurd (cc e)
    sizes (suc (suc zero)) bytes e = absurd (cc e)
    sizes (suc (suc (suc zero))) bytes e = absurd (cc e)
    sizes (suc (suc (suc (suc k)))) bytes e = absurd (cc e)

    lengths :
        (k : ℕ) (name : String) (len : ℤ)
        → row_of table-IsLawful one_file k ≡ some (name, len)
        → is_unset len ≡ false
        → to_size len ≤ 64
    lengths zero name len e known =
        subst (λ (r : String × ℤ). to_size r.1 ≤ 64) (some_injective e) (omega arith)
    lengths (suc k) name len e known = absurd (ground arith)

open_blob_manager-Opens_example :
    (key : ℕ) × ((offset : ℕ) × IsLast paths table-IsLawful host one_file key offset
      × Opens paths table-IsLawful host 64 key offset ready.files
          (open_blob_manager host paths one_file ready.files 64))
open_blob_manager-Opens_example =
    open_blob_manager-Opens paths table-IsLawful host one_file ready.files 64 one_file-IsSound
