-- ===== src/Blob/Files.antt =====
-- include/jonoondb_api/file.h: `File::FastAllocate`, and include/jonoondb_api/memory_mapped_file.h:
-- `MemoryMappedFile`. The files are their contents by name. All mappings of a file share its bytes, so
-- a mapping is the name of its file and the offset where the next write goes.
pub mod Bytes
use Prim.Native.String.{String}
use jonoondb.Prelude.{
  ℕ, zero, suc, ◌+◌, ◌*◌, ◌/◌, ◌%◌, List, [], ◌∷◌, Option, none, some, Bool, true, false, not, ◌||◌,
  ltb, if◌then◌else◌, length, replicate,
}
use jonoondb.Prelude.Outcome.{Outcome, Done, ok, throw, file_io_error, foreign, invalid_write}
use jonoondb.FileNames.Interface.{Paths, same_text}

abbrev pub Files : Type 0
Files = String → Option (List ℕ)

abbrev pub bytes_of : Files → String → List ℕ
bytes_of files name = elim (files name) [ none ↦ [] | some bytes ↦ bytes ]

abbrev pub exists : Files → String → Bool
exists files name = elim (files name) [ none ↦ false | some _ ↦ true ]

abbrev pub with_file : Files → String → List ℕ → Files
with_file files name bytes other = if same_text name other then some bytes else files other

pub data Mode : Type 0 where
  read_only read_write : Mode

-- What the operating system, Boost and LZ4 do, as far as the code depends on it: whether a file can be
-- created, resized and closed, whether a file can be mapped, the size of a page, and whether a region
-- can be flushed; the contents of new memory; the largest size, the bound and the two directions of
-- the compression. `compress` takes the source and the capacity of the target and gives the bytes that
-- it writes, and `decompress` takes the source and the original size.
pub record Host : Type 0 where
  pub can_create : String → Bool
  pub can_truncate : String → ℕ → Bool
  pub can_close : String → Bool
  pub can_map : String → Mode → Bool
  pub page_size : ℕ
  pub can_flush : String → ℕ → ℕ → Bool
  pub fresh : ℕ → List ℕ
  pub max_input_size : ℕ
  pub compress_bound : ℕ → ℕ
  pub compress : List ℕ → ℕ → List ℕ
  pub decompress : List ℕ → ℕ → List ℕ

-- `memcpy` to an offset of a mapping, within it.
unfoldable pub overwrite_at : ℕ → List ℕ → List ℕ → List ℕ
overwrite_at zero [] bytes = bytes
overwrite_at zero (d ∷ ds) [] = []
overwrite_at zero (d ∷ ds) (b ∷ bytes) = d ∷ overwrite_at zero ds bytes
overwrite_at (suc n) ds [] = []
overwrite_at (suc n) ds (b ∷ bytes) = b ∷ overwrite_at n ds bytes

pub record MappedFile : Type 0 where
  pub file_name : String
  pub write_offset : ℕ

module _ (host : Host) where
  -- `FastAllocate` on Linux: a new file of the size, filled with zeros. Each failing call throws, and
  -- leaves what was done before it.
  unfoldable pub fast_allocate : String → ℕ → Files → Done × Files
  fast_allocate name size files =
      if exists files name || not (host.can_create name)
      then (throw file_io_error, files)
      else if not (host.can_truncate name size)
      then (throw file_io_error, with_file files name [])
      else if not (host.can_close name)
      then (throw file_io_error, with_file files name (replicate size 0))
      else (ok tt, with_file files name (replicate size 0))

  -- The constructor, with `writeOffset` 0.
  unfoldable pub map_file : String → Mode → Files → Outcome MappedFile
  map_file name mode files =
      if exists files name
      then (if host.can_map name mode
          then ok (record { file_name = name; write_offset = 0 })
          else throw foreign)
      else throw foreign

  -- `Flush`: the region starts at a page.
  unfoldable pub flush_region : MappedFile → ℕ → ℕ → Done
  flush_region file offset num_bytes =
      let quotient = offset / host.page_size in
      let remainder = offset % host.page_size in
      if host.can_flush file.file_name (host.page_size * quotient) (num_bytes + remainder)
      then ok tt
      else throw file_io_error

-- `SetCurrentWriteOffset`
unfoldable pub set_current_write_offset : ℕ → MappedFile → MappedFile
set_current_write_offset offset file = record file { write_offset = offset }

-- `WriteAtCurrentPosition`. The mapping ends with the file; the code does not check that the bytes fit,
-- and a write behind the end is invalid.
unfoldable pub write_at_current_position : List ℕ → MappedFile → Files → Done × (MappedFile × Files)
unfolding overwrite_at
write_at_current_position data' file files =
    if ltb (length (bytes_of files file.file_name)) (file.write_offset + length data')
    then (throw invalid_write, (file, files))
    else (
      ok tt,
      (
        record file { write_offset = file.write_offset + length data' },
        with_file files file.file_name
            (overwrite_at file.write_offset data' (bytes_of files file.file_name)),
      ),
    )
