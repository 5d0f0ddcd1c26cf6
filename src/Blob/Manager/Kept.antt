-- ===== src/Blob/Manager/Kept.antt =====
-- blob_manager.cc: what each step of `Put` keeps of the invariant and of the blobs that are stored.
use Prim.Native.String.{String}
use text.Mathlib.TextEquality.{eq_iff}
use text.Mathlib.TextPositions.{eq_refl}
use jonoondb.Prelude.{
  ℕ, zero, suc, ◌+◌, ◌≤◌, ◌≡◌, refl, sym, ap, subst, ◌∙◌, List, [], ◌∷◌, none, some, false, arith,
  length, take, drop, Bool-cases, inl, inr, ℕ_discrete,
}
use jonoondb.Buffer.Valid.{IsValid}
use jonoondb.LruCache.{Cache}
use jonoondb.LruCache.Reads.{peek}
use jonoondb.FileNames.Interface.{Sqlite, Paths, IsLawful, same_text}
use jonoondb.FileNames.{FileNameManager}
use jonoondb.FileNames.Names.{IsNamed, HasRow}
use jonoondb.Blob.Files.{Files, bytes_of, with_file, Host, overwrite_at, set_current_write_offset}
use jonoondb.Blob.Files.Bytes.{length-overwrite_at, drop-overwrite_at}
use jonoondb.Blob.Format.RoundTrip.{HoldsBlob, take-append}
use jonoondb.Blob.Manager.{BlobMetadata, BlobManager, seek}
use jonoondb.Blob.Manager.Append.{IsAppended, current_metadata}
use jonoondb.Blob.Manager.Ready.{path_of, HasPaths, IsReady, IsStored}

-- A region in front of the offset is not touched.
region-overwrite_at :
    (k o n : ℕ) (ds bytes : List ℕ)
    → o + k ≤ n
    → take k (drop o (overwrite_at n ds bytes)) ≡ take k (drop o bytes)
unfolding overwrite_at
region-overwrite_at zero o n ds bytes h = refl
region-overwrite_at (suc k) zero zero ds bytes h = absurd (omega arith)
region-overwrite_at (suc k) zero (suc n) ds [] h = refl
region-overwrite_at (suc k) zero (suc n) ds (b ∷ bytes) h =
    ap (◌∷◌ b) (region-overwrite_at k zero n ds bytes (omega arith))
region-overwrite_at (suc k) (suc o) zero ds bytes h = absurd (omega arith)
region-overwrite_at (suc k) (suc o) (suc n) ds [] h = refl
region-overwrite_at (suc k) (suc o) (suc n) ds (b ∷ bytes) h =
    region-overwrite_at (suc k) o n ds bytes (omega arith)

pub with_file_self :
    (files : Files) (name : String) (bs : List ℕ) → with_file files name bs name ≡ some bs
with_file_self files name bs = rw (eq_refl name) refl

with_file-other :
    (files : Files) (name other : String) (bs : List ℕ)
    → same_text name other ≡ false
    → with_file files name bs other ≡ files other
with_file-other files name other bs e = rw e refl

pub bytes_of-some :
    (files : Files) (name : String) (bs : List ℕ) → files name ≡ some bs → bytes_of files name ≡ bs
bytes_of-some files name bs e = rw (bytes_of, e) refl

pub there-with_file :
    (files : Files) (name other : String) (bs cs : List ℕ)
    → files name ≡ none
    → files other ≡ some cs
    → with_file files name bs other ≡ some cs
there-with_file files name other bs cs missing there = elim (Bool-cases (same_text name other)) [
  | inl same ↦ absurd (cc (missing, ap files ((eq_iff name other).0 same), there))
  | inr different ↦ rw different there
]

module _ {S : Sqlite} (paths : Paths) (lawful : IsLawful S) (host : Host) where
  -- `m'` is ready, and every blob that `m` stores is stored in it.
  pub record IsKept (m m' : BlobManager S) : Type 0 where
    pub ready : IsReady paths lawful m'
    pub kept :
        (metadata : BlobMetadata) (blob : List ℕ)
        → IsStored paths lawful host m metadata blob
        → IsStored paths lawful host m' metadata blob

  pub IsKept-refl : (m : BlobManager S) → IsReady paths lawful m → IsKept m m
  IsKept-refl m r = record { ready = r; kept = λ _ _ s. s }

  pub IsKept-trans : {m m' m'' : BlobManager S} → IsKept m m' → IsKept m' m'' → IsKept m m''
  IsKept-trans p q = record {
    ready = q.ready;
    kept = λ metadata blob s. q.kept metadata blob (p.kept metadata blob s);
  }

  -- Other rows and another map in memory, with the same names.
  pub names-IsKept :
      (m : BlobManager S) (names : FileNameManager S)
      → IsReady paths lawful m
      → ((k : ℕ) → path_of paths names k ≡ path_of paths m.names k)
      → ((k : ℕ) → HasRow paths lawful m.names k → HasRow paths lawful names k)
      → IsNamed paths lawful names
      → IsKept m (record m { names = names })
  names-IsKept m names r same rows named = record {
    ready = record {
      named = named;
      current_row = rows _ r.current_row;
      current_name = r.current_name ∙ sym (same _);
      current_bytes = r.current_bytes;
      current_file = r.current_file;
      current_size = r.current_size;
      within = r.within;
      readers = λ k e there. r.readers k e there ∙ sym (same k);
      comp_buffer = r.comp_buffer;
    };
    kept = λ metadata blob s. record {
      row = rows _ s.row;
      form = s.form;
      holds = s.holds;
      bytes = s.bytes;
      file = ap m.files (same _) ∙ s.file;
      region = s.region;
      inside = λ e. s.inside (sym (same _) ∙ e);
    };
  }

  pub readers-IsKept :
      (m : BlobManager S) (c : Cache ℕ String)
      → IsReady paths lawful m
      → HasPaths paths m.names c
      → IsKept m (record m { reader_files = c })
  readers-IsKept m c r has = record {
    ready = record {
      named = r.named;
      current_row = r.current_row;
      current_name = r.current_name;
      current_bytes = r.current_bytes;
      current_file = r.current_file;
      current_size = r.current_size;
      within = r.within;
      readers = has;
      comp_buffer = r.comp_buffer;
    };
    kept = λ metadata blob s. record {
      row = s.row;
      form = s.form;
      holds = s.holds;
      bytes = s.bytes;
      file = s.file;
      region = s.region;
      inside = s.inside;
    };
  }

  -- A new file, where there was none.
  pub files-IsKept :
      (m : BlobManager S) (name : String) (bytes : List ℕ)
      → IsReady paths lawful m
      → m.files name ≡ none
      → IsKept m (record m { files = with_file m.files name bytes })
  files-IsKept m name bytes r missing = record {
    ready = record {
      named = r.named;
      current_row = r.current_row;
      current_name = r.current_name;
      current_bytes = r.current_bytes;
      current_file = there-with_file m.files name _ bytes r.current_bytes missing r.current_file;
      current_size = r.current_size;
      within = r.within;
      readers = r.readers;
      comp_buffer = r.comp_buffer;
    };
    kept = λ metadata blob s. record {
      row = s.row;
      form = s.form;
      holds = s.holds;
      bytes = s.bytes;
      file = there-with_file m.files name _ bytes s.bytes missing s.file;
      region = s.region;
      inside = s.inside;
    };
  }

  module _ (m m' : BlobManager S) (ds : List ℕ) (end : ℕ) (r : IsReady paths lawful m)
      (a : IsAppended m ds m') (v : IsValid m'.comp_buffer)
      (after : m.current_blob_file.write_offset ≤ end) (fits : end ≤ m.max_data_file_size) where
    same_paths : (k : ℕ) → path_of paths m'.names k ≡ path_of paths m.names k
    same_paths k = ap (λ n. path_of paths n k) a.names

    appended-IsReady : IsReady paths lawful (seek end m')
    unfolding set_current_write_offset
    appended-IsReady = record {
      named = subst (IsNamed paths lawful) (sym a.names) r.named;
      current_row =
          subst (λ n. HasRow paths lawful n m'.current_blob_file_info.file_key) (sym a.names)
            (subst (λ i. HasRow paths lawful m.names i.file_key) (sym a.info) r.current_row);
      current_name =
          a.file_name
          ∙ r.current_name
          ∙ ap (λ i. path_of paths m.names i.file_key) (sym a.info)
          ∙ sym (same_paths _);
      current_bytes =
          overwrite_at m.current_blob_file.write_offset ds
            (bytes_of m.files m.current_blob_file.file_name);
      current_file =
          ap m'.files a.file_name
          ∙ a.files m.current_blob_file.file_name
          ∙ with_file_self m.files m.current_blob_file.file_name _;
      current_size =
          length-overwrite_at _ ds _
          ∙ ap length (bytes_of-some m.files _ _ r.current_file)
          ∙ r.current_size
          ∙ sym a.max_size;
      within = subst (λ n. end ≤ n) (sym a.max_size) fits;
      readers = λ k e there.
          r.readers k e (ap (λ c. peek ℕ_discrete c k) (sym a.reader_files) ∙ there)
          ∙ sym (same_paths k);
      comp_buffer = v;
    }

    appended-IsStored :
        (metadata : BlobMetadata) (blob : List ℕ)
        → IsStored paths lawful host m metadata blob
        → IsStored paths lawful host (seek end m') metadata blob
    unfolding set_current_write_offset
    appended-IsStored metadata blob s =
        let p = path_of paths m.names metadata.file_key in
        let cur = m.current_blob_file.file_name in
        let row = subst (λ n. HasRow paths lawful n metadata.file_key) (sym a.names) s.row in
        let moved = ap m'.files (same_paths metadata.file_key) ∙ a.files p in
        elim (Bool-cases (same_text cur p)) [
          | inl same ↦
              let here : cur ≡ p = (eq_iff cur p).0 same in
              let old = bytes_of-some m.files cur s.bytes (ap m.files here ∙ s.file) in
              record {
                row = row;
                form = s.form;
                holds = s.holds;
                bytes = overwrite_at m.current_blob_file.write_offset ds (bytes_of m.files cur);
                file =
                    moved ∙ ap (with_file m.files cur _) (sym here) ∙ with_file_self m.files cur _;
                region =
                    region-overwrite_at (length s.form) metadata.offset _ ds _ (s.inside (sym here))
                    ∙ ap (λ bs. take (length s.form) (drop metadata.offset bs)) old
                    ∙ s.region;
                inside = λ _. omega (arith, s.inside (sym here));
              }
          | inr other ↦ record {
            row = row;
            form = s.form;
            holds = s.holds;
            bytes = s.bytes;
            file = moved ∙ with_file-other m.files cur p _ other ∙ s.file;
            region = s.region;
            inside = λ e. absurd (
                cc (
                  other,
                  (eq_iff cur p).1 (sym a.file_name ∙ sym e ∙ same_paths metadata.file_key),
                ));
          }
        ]

    -- What PutInternal appends inside the maximum size, with the offset anywhere behind the blobs that
    -- were there: behind the new one, or set back to where it was.
    pub appended-IsKept : IsKept m (seek end m')
    appended-IsKept = record { ready = appended-IsReady; kept = appended-IsStored }

    -- The bytes that are appended are a stored blob.
    pub appended-new :
        (blob : List ℕ)
        → HoldsBlob host ds blob
        → m.current_blob_file.write_offset + length ds ≤ end
        → IsStored paths lawful host (seek end m') (current_metadata m) blob
    unfolding set_current_write_offset
    appended-new blob holds inside =
        let offset = m.current_blob_file.write_offset in
        let cur = m.current_blob_file.file_name in
        let key = m.current_blob_file_info.file_key in
        let old = bytes_of-some m.files cur r.current_bytes r.current_file in
        record {
          row = subst (λ n. HasRow paths lawful n key) (sym a.names) r.current_row;
          form = ds;
          holds = holds;
          bytes = overwrite_at offset ds (bytes_of m.files cur);
          file =
              ap m'.files (same_paths key ∙ sym r.current_name)
              ∙ a.files cur
              ∙ with_file_self m.files cur _;
          region =
              ap (take (length ds)) (
                drop-overwrite_at offset ds (bytes_of m.files cur)
                  (omega (arith, ap length old, r.current_size)))
              ∙ take-append ds _;
          inside = λ _. inside;
        }
