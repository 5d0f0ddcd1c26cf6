-- ===== src/Blob/Manager/PutGet.antt =====
-- blob_manager.cc: `Put` stores a blob, keeps those that are stored, and `Get` reads it back.
use jonoondb.Prelude.{
  ℕ, ◌+◌, ◌*◌, ◌/◌, ◌%◌, ◌≤◌, ◌≡◌, refl, sym, ap, subst, ◌∙◌, List, ◌++◌, Bool, true, arith, length,
  drop, take-append-drop, Bool-cases, Option-cases, ◌⊎◌, inl, inr, ltb, ℕ_discrete,
}
use jonoondb.Prelude.Outcome.{Outcome, Exception, ok, throw, file_io_error}
use jonoondb.Prelude.Exec.{◌▷◌}
use jonoondb.Buffer.{Buffer, contents}
use jonoondb.Buffer.Valid.{IsValid}
use jonoondb.LruCache.{find, add}
use jonoondb.LruCache.Reads.{peek, peek-find}
use jonoondb.FileNames.Interface.{Sqlite, Paths, IsLawful}
use jonoondb.FileNames.Names.{get_file_info-IsNamed}
use jonoondb.Blob.Header.{Reading}
use jonoondb.Blob.Files.{
  Host, bytes_of, exists, MappedFile, read_only, flush_region, map_file, set_current_write_offset,
}
use jonoondb.Blob.Format.{read_blob}
use jonoondb.Blob.Format.RoundTrip.{IsFaithful, Gives}
use jonoondb.Blob.Manager.{BlobMetadata, BlobManager, seek, put_and_flush, put, get, update_length}
use jonoondb.Blob.Manager.Append.{
  IsStorable, comp_bound, estimated_size, estimate-comp_bound, current_metadata, current_size,
  put_internal_ok,
}
use jonoondb.Blob.Manager.Ready.{path_of, HasPaths, add-HasPaths, IsReady, IsStored}
use jonoondb.Blob.Manager.Kept.{
  IsKept, IsKept-refl, IsKept-trans, names-IsKept, readers-IsKept, bytes_of-some, appended-IsKept,
  appended-new,
}
use jonoondb.Blob.Manager.Switch.{
  IsReliable, IsUntroubled, update_length-IsKept, switch_to_new_data_file_cases,
}

flush_region_cases :
    (host : Host) (file : MappedFile) (offset count : ℕ)
    → (flush_region host file offset count ≡ ok tt)
      ⊎ (flush_region host file offset count ≡ throw file_io_error)
unfolding flush_region
flush_region_cases host file offset count =
    elim (Bool-cases (
      host.can_flush file.file_name (host.page_size * (offset / host.page_size))
        (count + offset % host.page_size))) [
          | inl can ↦ inl (rw can refl)
          | inr cannot ↦ inr (rw cannot refl)
        ]

flush_region-IsReliable :
    (host : Host) (reliable : IsReliable host) (file : MappedFile) (offset count : ℕ)
    → flush_region host file offset count ≡ ok tt
unfolding flush_region
flush_region-IsReliable host reliable file offset count =
    rw (reliable.flushes file.file_name _ _) refl

module _ (host : Host) (faithful : IsFaithful host) {S : Sqlite} (paths : Paths)
    (lawful : IsLawful S) where
  -- What a call of `Put` on `m` comes to, where it does not throw if the condition holds.
  abbrev pub Stores :
      Type 0 → BlobManager S → List ℕ → Outcome BlobMetadata × BlobManager S → Type 0
  Stores Calm m blob result =
      ((e : Exception) × ((m' : BlobManager S) × (result ≡ (throw e, m'))
          × IsKept paths lawful host m m'
          × ¬ Calm))
      ⊎ ((metadata : BlobMetadata) × ((m' : BlobManager S) × (result ≡ (ok metadata, m'))
            × IsKept paths lawful host m m'
            × IsStored paths lawful host m' metadata blob))

  -- The `try` of `Put`, where the blob fits behind the offset.
  put_and_flush-Stores :
      (m : BlobManager S) (blob : Buffer) (compress : Bool)
      → IsReady paths lawful m
      → IsStorable host blob compress
      → estimated_size blob.len (comp_bound host blob.len compress)
          + m.current_blob_file.write_offset
        ≤ m.max_data_file_size
      → Stores (IsReliable host) m (contents blob) (put_and_flush host paths blob compress m)
  unfolding set_current_write_offset
  put_and_flush-Stores m blob compress r st fits =
      let size : current_size m ≡ m.max_data_file_size =
        ap length (bytes_of-some m.files _ _ r.current_file) ∙ r.current_size in
      let (m', p, result, _, _) =
        put_internal_ok host faithful m blob compress st r.comp_buffer
          (omega (arith, fits, size)) in
      let offset = m.current_blob_file.write_offset in
      let inside : offset + length p.form ≤ m.max_data_file_size = omega (arith, p.fits) in
      let rolled_back =
        appended-IsKept paths lawful host m m' p.form offset r p.appended p.comp_buffer
          (omega arith) r.within in
      elim (flush_region_cases host m'.current_blob_file offset (length p.form)) [
        | inr refused ↦ inl (
          file_io_error,
          (
            seek offset m',
            rw (result, refused) refl,
            rolled_back,
            λ u. absurd (cc (refused, flush_region-IsReliable host u _ _ _)),
          ),
        )
        | inl flushed ↦
            let end = m'.current_blob_file.write_offset in
            let moved : end ≡ offset + length p.form = p.appended.write_offset in
            inr (
              current_metadata m,
              (
                m',
                rw (result, flushed) refl,
                appended-IsKept paths lawful host m m' p.form end r p.appended p.comp_buffer
                    (omega arith) (omega arith),
                appended-new paths lawful host m m' p.form end r p.appended p.comp_buffer
                    (omega arith) (omega arith) (contents blob) p.holds (omega arith),
              ),
            )
      ]

  -- `Put` from where there is room.
  stored_and_recorded :
      (Calm : Type 0) (m : BlobManager S) (blob : List ℕ)
      (result : Outcome BlobMetadata × BlobManager S)
      → Stores Calm m blob result
      → Stores Calm m blob (result ▷ λ metadata m. update_length m ▷ λ _ m. (ok metadata, m))
  stored_and_recorded Calm m blob result (inl (e, (m', thrown, kept, trouble))) =
      inl (e, (m', rw thrown refl, kept, trouble))
  stored_and_recorded Calm m blob result (inr (metadata, (m', returned, kept, stored))) =
      let (db, done, _, kept') = update_length-IsKept paths lawful host m' kept.ready in
      inr (
        metadata,
        (
          _,
          rw (returned, done) refl,
          IsKept-trans paths lawful host kept kept',
          kept'.kept metadata blob stored,
        ),
      )

  Stores-after :
      (Calm Calm' : Type 0) (m m' : BlobManager S) (blob : List ℕ)
      (result : Outcome BlobMetadata × BlobManager S)
      → IsKept paths lawful host m m'
      → (Calm → Calm')
      → Stores Calm' m' blob result
      → Stores Calm m blob result
  Stores-after Calm Calm' m m' blob result kept calm (inl (e, (m'', thrown, kept', trouble))) =
      inl (e, (m'', thrown, IsKept-trans paths lawful host kept kept', λ u. trouble (calm u)))
  Stores-after Calm Calm' m m' blob result kept calm
        (inr (metadata, (m'', returned, kept', stored))) =
      inr (metadata, (m'', returned, IsKept-trans paths lawful host kept kept', stored))

  -- Put of a blob that can be stored and is estimated to fit in an empty data file: it returns metadata
  -- under which the blob is stored, or it throws, which it does not where no call of the host fails and
  -- no file is there for a key without a row. Either way, also if it has switched to a new file or fails
  -- half way, the manager stays ready and every blob that was stored is still stored.
  pub put-Stores :
      (m : BlobManager S) (blob : Buffer) (compress : Bool)
      → IsReady paths lawful m
      → IsStorable host blob compress
      → estimated_size blob.len (comp_bound host blob.len compress) ≤ m.max_data_file_size
      → Stores (IsUntroubled paths lawful host m) m (contents blob) (put host paths blob compress m)
  unfolding put
  put-Stores m blob compress r st fits =
      let estimated = estimated_size blob.len (comp_bound host blob.len compress) in
      rw (estimate-comp_bound host blob compress st)
        (elim (Bool-cases
          (ltb m.max_data_file_size (estimated + m.current_blob_file.write_offset))) [
            | inr room ↦ rw room (
                Stores-after (IsUntroubled paths lawful host m) (IsReliable host) m m
                  (contents blob) _ (IsKept-refl paths lawful host m r) (λ u. u.reliable)
                  (stored_and_recorded (IsReliable host) m (contents blob)
                    (put_and_flush host paths blob compress m)
                    (put_and_flush-Stores m blob compress r st (ground arith))))
            | inl full ↦ elim (switch_to_new_data_file_cases paths lawful host m r) [
              | inl (e, (m', thrown, kept, trouble)) ↦
                  rw (full, thrown) (inl (e, (m', refl, kept, trouble)))
              | inr (m', switched, kept, start, size) ↦
                  rw (full, switched)
                    (Stores-after (IsUntroubled paths lawful host m) (IsReliable host) m m'
                      (contents blob) _ kept (λ u. u.reliable)
                      (stored_and_recorded (IsReliable host) m' (contents blob)
                        (put_and_flush host paths blob compress m')
                        (put_and_flush-Stores m' blob compress kept.ready st
                          (omega (arith, start, size)))))
            ]
          ])

  -- What Get reads at the place of a stored blob.
  read_blob-IsStored :
      (m : BlobManager S) (metadata : BlobMetadata) (blob : List ℕ) (stale : ℕ) (b : Buffer)
      → IsStored paths lawful host m metadata blob
      → IsValid b
      → Gives
          (read_blob host stale
            (drop metadata.offset (bytes_of m.files (path_of paths m.names metadata.file_key)))
            b)
          blob
  read_blob-IsStored m metadata blob stale b s v =
      let from = drop metadata.offset s.bytes in
      let rest = drop (length s.form) from in
      let split : from ≡ s.form ++ rest =
        sym (take-append-drop (length s.form) from) ∙ ap (λ l. l ++ rest) s.region in
      subst (λ l. Gives (read_blob host stale l b) blob)
        (sym (ap (drop metadata.offset) (bytes_of-some m.files _ s.bytes s.file) ∙ split))
        (s.holds stale rest b v)

  map_file-IsStored :
      (m : BlobManager S) (metadata : BlobMetadata) (blob : List ℕ)
      → IsStored paths lawful host m metadata blob
      → host.can_map (path_of paths m.names metadata.file_key) read_only ≡ true
      → map_file host (path_of paths m.names metadata.file_key) read_only m.files
        ≡ ok (record { file_name = path_of paths m.names metadata.file_key; write_offset = 0 })
  unfolding map_file
  map_file-IsStored m metadata blob s can = rw (exists, s.file, can) refl

  -- Get of a stored blob whose file can be mapped does not throw: it gives the blob, in whatever valid
  -- buffer it is asked to, from a mapping of the cache or a new one. The manager stays ready, and what is
  -- stored stays stored.
  pub get-IsStored :
      (m : BlobManager S) (metadata : BlobMetadata) (blob : List ℕ) (stale : ℕ) (b : Buffer)
      → IsReady paths lawful m
      → IsStored paths lawful host m metadata blob
      → host.can_map (path_of paths m.names metadata.file_key) read_only ≡ true
      → IsValid b
      → (reading : Reading Buffer) × ((m' : BlobManager S) × (get host paths stale metadata b m
            ≡ (ok reading, m'))
          × Gives reading blob
          × IsKept paths lawful host m m')
  unfolding get
  get-IsStored m metadata blob stale b r s can v =
      let key = metadata.file_key in
      let path = path_of paths m.names key in
      let (known, given, named) = get_file_info-IsNamed paths lawful m.names key r.named s.row in
      let names = record m.names { file_info_map = known } in
      let kept = names-IsKept paths lawful host m names r (λ k. refl) (λ k h. h) named in
      let m1 = record m { names = names } in
      let found = peek-find ℕ_discrete m.reader_files key in
      let readers = (find ℕ_discrete m.reader_files key).0 in
      let has : HasPaths paths names readers =
        λ k name there. r.readers k name (sym ((found k).0) ∙ there) in
      let kept' = readers-IsKept paths lawful host m1 readers kept.ready has in
      let reading = read_blob host stale (drop metadata.offset (bytes_of m.files path)) b in
      elim (Option-cases (peek ℕ_discrete m.reader_files key)) [
        | inr (name, hit) ↦ (
          reading,
          (
            record m1 { reader_files = readers },
            rw (given, (found key).1, hit, r.readers key name hit) refl,
            read_blob-IsStored m metadata blob stale b s v,
            IsKept-trans paths lawful host kept kept',
          ),
        )
        | inl miss ↦
            let opened = add ℕ_discrete readers key path true in
            (
              reading,
              (
                record m1 { reader_files = opened },
                rw (given, (found key).1, miss, map_file-IsStored m metadata blob s can) refl,
                read_blob-IsStored m metadata blob stale b s v,
                IsKept-trans paths lawful host kept (
                    readers-IsKept paths lawful host m1 opened kept.ready
                      (add-HasPaths paths names readers key true has)),
              ),
            )
      ]

  -- Where no call of the host fails and no file is there for a key without a row, Put of a blob that can
  -- be stored and is estimated to fit in an empty data file returns, and Get with the metadata that it
  -- returned gives the blob, in whatever valid buffer.
  pub get-put :
      (m : BlobManager S) (blob : Buffer) (compress : Bool)
      → IsReady paths lawful m
      → IsStorable host blob compress
      → estimated_size blob.len (comp_bound host blob.len compress) ≤ m.max_data_file_size
      → IsUntroubled paths lawful host m
      → (metadata : BlobMetadata) × ((m' : BlobManager S) × (put host paths blob compress m
            ≡ (ok metadata, m'))
          × ((stale : ℕ) (b : Buffer)
              → IsValid b
              → (reading : Reading Buffer) × ((m'' : BlobManager S) × (get host paths stale metadata
                      b m'
                    ≡ (ok reading, m''))
                  × Gives reading (contents blob))))
  get-put m blob compress r st fits calm = elim (put-Stores m blob compress r st fits) [
    | inl (e, (m', thrown, kept, trouble)) ↦ absurd (trouble calm)
    | inr (metadata, (m', returned, kept, stored)) ↦ (
      metadata,
      (
        m',
        returned,
        λ stale b v.
            let (reading, (m'', got, gives, _)) =
              get-IsStored m' metadata (contents blob) stale b kept.ready stored
                (calm.reliable.maps _ read_only) v in
            (reading, (m'', got, gives)),
      ),
    )
  ]
