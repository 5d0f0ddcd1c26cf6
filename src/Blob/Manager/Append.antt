-- ===== src/Blob/Manager/Append.antt =====
-- blob_manager.cc: `PutInternal` appends the stored form of a blob to the current data file.
use Prim.Native.String.{String}
use text.Mathlib.TextPositions.{eq_refl}
use jonoondb.Prelude.{
  ℕ, ◌+◌, ◌≤◌, ◌<◌, ◌≡◌, refl, sym, ap, subst, ◌∙◌, List, [], ◌++◌, Option, none, some, Bool, true,
  false, arith, length, length-append, length-take, ltb, take, drop,
}
use jonoondb.Prelude.Outcome.{ok}
use jonoondb.Varint.{u64_mod}
use jonoondb.Buffer.{Buffer, contents, stored}
use jonoondb.Buffer.Valid.{IsValid}
use jonoondb.FileNames.Interface.{Sqlite}
use jonoondb.Blob.Header.{BlobHeader, get_header_size}
use jonoondb.Blob.Header.Size.{get_varint_size_mono}
use jonoondb.Blob.Files.{Files, bytes_of, with_file, Host, overwrite_at, write_at_current_position}
use jonoondb.Blob.Files.Bytes.{overwrite_at-append, length-overwrite_at, overwrite_at_lem}
use jonoondb.Blob.Format.{header_bytes, get_compressed_size, estimate, size_or}
use jonoondb.Blob.Format.RoundTrip.{
  IsFaithful, HoldsBlob, header_bytes_lem, plain_form, compressed_form, enough, enough-IsValid,
  contents-write_data,
}
use jonoondb.Blob.Manager.{BlobMetadata, BlobManager, append_blob, put_internal, write}

with_file-with_file :
    (files : Files) (name other : String) (bs cs : List ℕ)
    → with_file (with_file files name bs) name cs other ≡ with_file files name cs other
with_file-with_file files name other bs cs = ground arith

pub bytes_of-with_file :
    (files : Files) (name : String) (bs : List ℕ) → bytes_of (with_file files name bs) name ≡ bs
bytes_of-with_file files name bs = rw (bytes_of, eq_refl name) refl

pub contents-length : (b : Buffer) → IsValid b → length (contents b) ≡ b.len
contents-length b v = omega (arith, length-take b.len (stored b.bytes), v.bounded, v.sized)

module _ {S : Sqlite} where
  -- `m'` is `m` with the bytes written at the offset, which has moved behind them. Only the buffer for
  -- compression may differ else.
  pub record IsAppended (m : BlobManager S) (ds : List ℕ) (m' : BlobManager S) : Type 0 where
    pub names : m'.names ≡ m.names
    pub max_size : m'.max_data_file_size ≡ m.max_data_file_size
    pub info : m'.current_blob_file_info ≡ m.current_blob_file_info
    pub file_name : m'.current_blob_file.file_name ≡ m.current_blob_file.file_name
    pub write_offset :
        m'.current_blob_file.write_offset ≡ m.current_blob_file.write_offset + length ds
    pub reader_files : m'.reader_files ≡ m.reader_files
    pub files :
        (name : String)
        → m'.files name
          ≡ with_file m.files m.current_blob_file.file_name
              (overwrite_at m.current_blob_file.write_offset ds
                (bytes_of m.files m.current_blob_file.file_name))
              name

  abbrev pub current_metadata : BlobManager S → BlobMetadata
  current_metadata m = record {
    file_key = m.current_blob_file_info.file_key;
    offset = m.current_blob_file.write_offset;
  }

  -- The current file, its size, and the manager after a write inside it.
  abbrev pub current_bytes : BlobManager S → List ℕ
  current_bytes m = bytes_of m.files m.current_blob_file.file_name

  abbrev pub current_size : BlobManager S → ℕ
  current_size m = length (bytes_of m.files m.current_blob_file.file_name)

  abbrev written : List ℕ → BlobManager S → BlobManager S
  written ds m = record m {
    current_blob_file = record m.current_blob_file {
      write_offset = m.current_blob_file.write_offset + length ds;
    };
    files = with_file m.files m.current_blob_file.file_name (
        overwrite_at m.current_blob_file.write_offset ds
          (bytes_of m.files m.current_blob_file.file_name));
  }

  write-written :
      (m : BlobManager S) (ds : List ℕ)
      → m.current_blob_file.write_offset + length ds ≤ current_size m
      → write ds m ≡ (ok tt, written ds m)
  unfolding write_at_current_position
  write-written m ds fits =
      let inside : ltb (current_size m) (m.current_blob_file.write_offset + length ds) ≡ false =
        ground arith in
      rw inside refl

  current_size-written :
      (m : BlobManager S) (ds : List ℕ) → current_size (written ds m) ≡ current_size m
  current_size-written m ds =
      ap length (bytes_of-with_file m.files m.current_blob_file.file_name _)
      ∙ length-overwrite_at m.current_blob_file.write_offset ds _

  written-written :
      (m : BlobManager S) (ds es : List ℕ) → IsAppended m (ds ++ es) (written es (written ds m))
  written-written m ds es = record {
    names = refl;
    max_size = refl;
    info = refl;
    file_name = refl;
    write_offset = omega (arith, length-append ds es);
    reader_files = refl;
    files = λ name.
        with_file-with_file m.files m.current_blob_file.file_name name _ _
        ∙ ap (λ bs. with_file m.files m.current_blob_file.file_name bs name)
            (ap (overwrite_at (m.current_blob_file.write_offset + length ds) es)
                (bytes_of-with_file m.files m.current_blob_file.file_name _)
              ∙ overwrite_at-append m.current_blob_file.write_offset ds es
                  (bytes_of m.files m.current_blob_file.file_name));
  }

  appended_bytes :
      (m : BlobManager S) (ds : List ℕ) (m' : BlobManager S)
      → IsAppended m ds m'
      → current_bytes m' ≡ overwrite_at m.current_blob_file.write_offset ds (current_bytes m)
  appended_bytes m ds m' appended =
      ap (bytes_of m'.files) appended.file_name
      ∙ rw
          (
            bytes_of,
            appended.files m.current_blob_file.file_name,
            eq_refl m.current_blob_file.file_name,
          )
          refl

  pub append_blob-IsAppended :
      (header : BlobHeader) (b : Buffer) (m : BlobManager S)
      → IsValid b
      → m.current_blob_file.write_offset + length (header_bytes header ++ contents b)
        ≤ current_size m
      → (m' : BlobManager S) × (append_blob header b m ≡ (
        ok (
          record {
            file_key = m.current_blob_file_info.file_key;
            offset = m.current_blob_file.write_offset;
          },
          length (header_bytes header ++ contents b),
        ),
        m',
      ))
        × IsAppended m (header_bytes header ++ contents b) m'
        × (m'.comp_buffer ≡ m.comp_buffer)
  unfolding append_blob
  append_blob-IsAppended header b m v fits =
      let both = length-append (header_bytes header) (contents b) in
      let first = written (header_bytes header) m in
      let headed = write-written m (header_bytes header) (omega (arith, both, fits)) in
      let filled =
        write-written first (contents b)
          (omega (arith, both, fits, current_size-written m (header_bytes header))) in
      (
        written (contents b) first,
        rw (headed, filled, both, contents-length b v) refl,
        written-written m (header_bytes header) (contents b),
        refl,
      )

-- What a blob of the length, compressed or not, can take in a file, by the estimate of `Put`.
abbrev pub estimated_size : ℕ → Option ℕ → ℕ
estimated_size len comp = get_header_size len comp + size_or len comp

get_header_size_mono :
    (len comp bound : ℕ)
    → comp ≤ bound
    → get_header_size len (some comp) ≤ get_header_size len (some bound)
unfolding get_header_size
get_header_size_mono len comp bound h = omega (arith, get_varint_size_mono comp bound h)

-- The size that `Put` expects of the compressed blob.
abbrev pub comp_bound : Host → ℕ → Bool → Option ℕ
comp_bound host len false = none
comp_bound host len true = some (host.compress_bound len)

-- A blob that can be stored: valid, not empty, of a size that LZ4 takes if it is to be compressed.
pub record IsStorable (host : Host) (blob : Buffer) (compress : Bool) : Type 0 where
  pub valid : IsValid blob
  pub not_empty : 0 < blob.len
  pub small : blob.len < u64_mod
  pub bound_small : host.compress_bound blob.len < u64_mod
  pub compressible : compress ≡ true → blob.len ≤ host.max_input_size

pub estimate-comp_bound :
    (host : Host) (blob : Buffer) (compress : Bool)
    → IsStorable host blob compress
    → estimate host blob.len compress ≡ ok (comp_bound host blob.len compress)
unfolding estimate get_compressed_size
estimate-comp_bound host blob false st = refl
estimate-comp_bound host blob true st =
    let no_refusal : ltb host.max_input_size blob.len ≡ false =
      ground (arith, st.compressible refl) in
    rw (estimate, no_refusal) refl

module _ (host : Host) (faithful : IsFaithful host) {S : Sqlite} where
  -- Where PutInternal gets to: it has appended bytes that hold the blob, as many as estimated at most,
  -- and returns where they start and how many they are.
  pub record IsPut (m : BlobManager S) (blob : Buffer) (comp : Option ℕ) (m' : BlobManager S)
      : Type 0 where
    pub form : List ℕ
    pub holds : HoldsBlob host form (contents blob)
    pub fits : length form ≤ estimated_size blob.len comp
    pub appended : IsAppended m form m'
    pub comp_buffer : IsValid m'.comp_buffer

  -- The estimate for the blob fits in the current file behind the offset.
  abbrev pub HasRoom : BlobManager S → Buffer → Bool → Type 0
  HasRoom m blob compress =
      m.current_blob_file.write_offset + estimated_size blob.len (comp_bound host blob.len compress)
      ≤ current_size m

  put_internal-plain :
      (m : BlobManager S) (blob : Buffer)
      → IsStorable host blob false
      → IsValid m.comp_buffer
      → HasRoom m blob false
      → (m' : BlobManager S) × (put : IsPut m blob none m') × (put_internal host blob false m
          ≡ (ok (current_metadata m, length put.form), m'))
  unfolding put_internal
  put_internal-plain m blob st v room =
      let header : BlobHeader = record {
        version = 1;
        compressed = false;
        blob_size = blob.len;
        comp_size = 0;
      } in
      let len = contents-length blob st.valid in
      let bounded_form : length (header_bytes header ++ contents blob)
          ≤ estimated_size blob.len none =
        omega (
          arith,
          length-append (header_bytes header) (contents blob),
          len,
          (header_bytes_lem 0 header [] st.small (omega arith)).1,
        ) in
      let (m', result, appended, same) =
        append_blob-IsAppended header blob m st.valid (omega (arith, bounded_form, room)) in
      (
        m',
        record {
          form = header_bytes header ++ contents blob;
          holds =
              plain_form host faithful header (contents blob) refl (sym len) (omega arith) st.small
                (omega arith);
          fits = bounded_form;
          appended = appended;
          comp_buffer = subst IsValid (sym same) v;
        },
        result,
      )

  put_internal-compressed :
      (m : BlobManager S) (blob : Buffer)
      → IsStorable host blob true
      → IsValid m.comp_buffer
      → HasRoom m blob true
      → (m' : BlobManager S) × (put : IsPut m blob (some (host.compress_bound blob.len)) m')
        × (put_internal host blob true m ≡ (ok (current_metadata m, length put.form), m'))
  unfolding put_internal get_compressed_size
  put_internal-compressed m blob st v room =
      let len = contents-length blob st.valid in
      let target = enough host (host.compress_bound blob.len) m.comp_buffer in
      let (target_valid, large) =
        enough-IsValid host faithful (host.compress_bound blob.len) m.comp_buffer v in
      let compressed = host.compress (contents blob) target.capacity in
      let bounded : length compressed ≤ host.compress_bound blob.len =
        subst (λ n. length compressed ≤ host.compress_bound n) len
          (faithful.length-compress (contents blob) target.capacity) in
      let (buffer, set', same, cap, buffer_valid) =
        contents-write_data target compressed target_valid (omega arith) in
      let header : BlobHeader = record {
        version = 1;
        compressed = true;
        blob_size = blob.len;
        comp_size = length compressed;
      } in
      let bounded_form : length (header_bytes header ++ contents buffer)
          ≤ estimated_size blob.len (some (host.compress_bound blob.len)) =
        omega (
          arith,
          length-append (header_bytes header) (contents buffer),
          ap length same,
          (header_bytes_lem 0 header [] st.small (omega (arith, st.bound_small))).1,
          get_header_size_mono blob.len (length compressed) (host.compress_bound blob.len) bounded,
        ) in
      let (m', result, appended, same') =
        append_blob-IsAppended header buffer (record m { comp_buffer = buffer }) buffer_valid
          (omega (arith, bounded_form, room)) in
      let no_refusal : ltb host.max_input_size blob.len ≡ false =
        ground (arith, st.compressible refl) in
      (
        m',
        record {
          form = header_bytes header ++ contents buffer;
          holds =
              subst (λ l. HoldsBlob host (header_bytes header ++ l) (contents blob)) (sym same)
                (compressed_form host faithful header (contents blob) target.capacity refl (sym len)
                  (subst (λ n. host.compress_bound n ≤ target.capacity) (sym len) large) st.small
                  (omega (arith, st.bound_small)));
          fits = bounded_form;
          appended = record {
            names = appended.names;
            max_size = appended.max_size;
            info = appended.info;
            file_name = appended.file_name;
            write_offset = appended.write_offset;
            reader_files = appended.reader_files;
            files = appended.files;
          };
          comp_buffer = subst IsValid (sym same') buffer_valid;
        },
        rw (no_refusal, set') result,
      )

  put_internal-either :
      (m : BlobManager S) (blob : Buffer) (compress : Bool)
      → IsStorable host blob compress
      → IsValid m.comp_buffer
      → HasRoom m blob compress
      → (m' : BlobManager S) × (put : IsPut m blob (comp_bound host blob.len compress) m')
        × (put_internal host blob compress m ≡ (ok (current_metadata m, length put.form), m'))
  put_internal-either m blob false st v room = put_internal-plain m blob st v room
  put_internal-either m blob true st v room = put_internal-compressed m blob st v room

  -- PutInternal of a blob that can be stored, one byte or more and compressed or not, where the estimate of
  -- Put for it fits in the current file behind the offset, writes inside of the mapping and does not throw.
  -- It takes at most the estimate: from the old offset on the file has bytes that hold the blob, in front of
  -- it and behind them the file is as before, and the new offset is inside the file. It returns the old
  -- offset with the key of the file, and the number of the bytes.
  pub put_internal_ok :
      (m : BlobManager S) (blob : Buffer) (compress : Bool)
      → IsStorable host blob compress
      → IsValid m.comp_buffer
      → HasRoom m blob compress
      → (m' : BlobManager S) × (put : IsPut m blob (comp_bound host blob.len compress) m')
        × (put_internal host blob compress m ≡ (ok (current_metadata m, length put.form), m'))
        × (current_bytes m'
            ≡ take m.current_blob_file.write_offset (current_bytes m)
              ++ (put.form
                  ++ drop (m.current_blob_file.write_offset + length put.form) (current_bytes m)))
        × (m'.current_blob_file.write_offset ≤ current_size m')
  put_internal_ok m blob compress st v room =
      let (m', put, result) = put_internal-either m blob compress st v room in
      let inside : m.current_blob_file.write_offset + length put.form ≤ current_size m =
        omega (arith, put.fits, room) in
      let same = appended_bytes m put.form m' put.appended in
      (
        m',
        put,
        result,
        same ∙ overwrite_at_lem m.current_blob_file.write_offset put.form (current_bytes m) inside,
        omega (
          arith,
          inside,
          put.appended.write_offset,
          ap length same,
          length-overwrite_at m.current_blob_file.write_offset put.form (current_bytes m),
        ),
      )
