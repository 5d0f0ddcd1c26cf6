-- ===== src/Lib.antt =====
-- JonoonDB: an append-only document database with bitmap indexes, queried through SQLite.
--
-- The library models the engine under src/jonoondb_api, include/jonoondb_api and
-- include/jonoondb_utils. A collection keeps its documents as blobs in memory-mapped data files.
-- The blob manager writes a header of varints before each blob (Varint, Blob.Header) and hands out
-- buffers (Buffer); files that are not in use are evicted from a cache (LruCache). Every document has
-- an id; an index answers a constraint of a query with a bitmap of ids (Index), and the bitmaps of
-- several constraints are combined (Bitmap) by the index manager. The delete vector keeps the deleted
-- ids and takes them out of every result (Collection), which is read in spans of ids (IdSequence).
--
-- Files:
--   Prelude            shared names, list, order, integer and bit lemmas; Prelude.Outcome has the
--                      exceptions of include/jonoondb_api/jonoondb_exceptions.h and calls that throw
--   Prelude.Exec       calls that change a state and return or throw
--   Varint             include/jonoondb_utils/varint.h: EncodeVarint, DecodeVarint. Varint.Loop and
--                      Varint.RoundTrip have the proofs
--   Blob.Header        src/jonoondb_api/blob_manager.cc: BlobHeader, ReadBlobHeader, WriteBlobHeader,
--                      GetVarintSize, GetHeaderSize. Proofs in Blob.Header.Size, Blob.Header.RoundTrip
--   Blob.Files         the files as bytes, with the mappings and calls of
--                      include/jonoondb_api/memory_mapped_file.h and file.h
--   Blob.Format        blob_manager.cc: how PutInternal, Get and BlobIterator turn a blob into a header
--                      and bytes, and back. Proof in Blob.Format.RoundTrip
--   Blob.Manager       blob_manager.cc: BlobManager with Put, Get, the switch to a new data file and the
--                      eviction. Blob.Manager.Opening has the constructor, .Batch has MultiPut. Proofs in
--                      .Append (PutInternal), .Ready (the invariant), .Kept, .Switch, .PutGet and .Opened
--   Blob.Iterator      blob_manager.cc: BlobIterator. Proofs in Blob.Iterator.Next (one round)
--                      and Blob.Iterator.Batch
--   FileNames          src/jonoondb_api/filename_manager.cc: FileNameManager, which keeps the data files
--                      of a collection in a table, over the database FileNames.Interface.Sqlite. Proofs in
--                      .Keys (the keys), .Lookup (GetFileInfo), .Names and .Calls (the names);
--                      FileNames.Table is a concrete table
--   Buffer             src/jonoondb_api/buffer_impl.cc: BufferImpl, all its operations. Proofs in
--                      Buffer.Valid (the invariant, copies) and Buffer.Order (the comparisons)
--   LruCache           include/jonoondb_api/concurrent_lru_cache.h: Add, Find, SetEvictable,
--                      PerformEviction. Proofs in LruCache.Eviction, .Victims, .Reads, .Pinned
--   Bitmap             src/jonoondb_api/mama_jennies_bitmap.cc: Add, Empty, LogicalAND, LogicalOR.
--                      Proofs in Bitmap.Growth and Bitmap.Combine; Bitmap.Plain is a concrete bit array
--   Index.Constraint   include/jonoondb_api/constraint.h, and what a constraint means
--   Index.VectorInteger
--                      include/jonoondb_api/vector_integer_indexer.h. Proofs in its child modules Scan,
--                      Filter and Range; Index.VectorInteger.Exact fills the interface of the index
--                      manager
--   Index.EwahInteger  include/jonoondb_api/ewah_compressed_bitmap_indexer_integer.h: the map from values
--                      to bitmaps. Proofs in its child modules Loops, Filter, Insert and Range
--   Index.VectorDouble include/jonoondb_api/vector_double_indexer.h. Proofs in Index.VectorDouble.Exact
--   Index.VectorString include/jonoondb_api/vector_string_indexer.h and null_helpers.h. Proofs in
--                      Index.VectorString.Exact
--   Index.VectorBlob   include/jonoondb_api/vector_blob_indexer.h. Proofs in Index.VectorBlob.Exact
--   Index.Manager      src/jonoondb_api/index_manager.cc: the indexers of each column, and Filter with
--                      its ranges, over the interface Indexer of include/jonoondb_api/indexer.h. Proofs
--                      in Index.Manager.Filter; Index.Manager.Scanner fills the interface for an index that scans;
--                      Index.Manager.Documents has IndexDocuments and document_id_generator.cc
--   DeleteVector       src/jonoondb_api/delete_vector.cc: the deleted documents. Proofs in its child
--                      modules Ids (the set), Valid (the invariant), Deletion and Reopen
--   Collection         src/jonoondb_api/document_collection.cc: Filter. Proofs in Collection.Live
--   IdSequence         src/jonoondb_api/id_seq.cc: IDSequence. Proofs in IdSequence.Chunks
--   Status             src/jonoondb_api/status_impl.cc: StatusImpl. Proofs in Status.Ownership
--   ObjectPool         include/jonoondb_api/object_pool.h: ObjectPool. Proofs in
--                      ObjectPool.Places, .Balance (pools in use) and .Construction
--   Tests              runs on small inputs, and each theorem at a concrete input
--
-- Parameters: the compressed bit array EWAHBoolArray of thirdparty/ewah_boolarray is the record
-- Bitmap.Ewah, the calls of it with the documented behaviour the code needs. Doubles are the record
-- Index.Constraint.Floats. The bytes of fresh memory are an argument `fresh` of the buffer operations,
-- since they are unspecified. The SQLite table of the delete vector is a state and a function `update`
-- that returns or throws. The allocator of the object pool is an argument `allocate`,
-- which may throw, and its reset function an argument `reset`.
--
-- SQLite, as FileNameManager calls it, is the record FileNames.Interface.Sqlite: each statement is a
-- function of the state of the database with a result code, and IsLawful states what a table with the
-- unique constraint of the source gives where no call fails. Paths has the calls of Boost and
-- std::to_string. Blob.Files.Host says which calls of the operating system fail, what fresh memory holds
-- and how LZ4 compresses; IsFaithful states that LZ4 keeps to its bound and gives back what it has
-- compressed. Index.VectorDouble.Doubles has the comparisons of the processor, and
-- Index.VectorString.NumberTexts std::to_string of numbers. The virtual function Insert of an indexer is
-- the record Index.Manager.Documents.Inserting.
--
-- Numbers: bytes are numbers below 256 in a list; uint64_t arithmetic keeps its `% 2 ^ 64`; int64_t is
-- an integer whose step by one wraps around at the ends. EncodeVarint runs on fuel ten, which is enough
-- for each uint64_t, as the round trip shows. The loop of a caller over IDSequence::Next runs on a
-- number of calls, and as many as there are ids and one more are enough.
-- A write outside of a mapping, after which nothing is defined, is the exception `invalid_write`, for
-- which no handler runs. Everything else is structural recursion. Offsets in files are numbers without a bound; a blob that can
-- be stored is smaller than 2 ^ 64 bytes.
--
-- Not modelled: locks and threads (each method is one atomic step), the text of messages, the code of
-- SQLite, LZ4, Boost and the operating system, which are parameters, the virtual table and the query
-- processor (calls of the virtual table interface of SQLite), FlatBuffers documents and schemas, the
-- compressed indexes of doubles, strings and blobs, the facade of the database with its C interface,
-- the options, the command line tool and the database generator. Of the document collection only
-- the queries are modelled, and of the index manager these and IndexDocuments.
pub mod Prelude
pub mod Varint
pub mod Blob
pub mod Buffer
pub mod LruCache
pub mod Bitmap
pub mod Index
pub mod DeleteVector
pub mod Collection
pub mod FileNames
pub mod IdSequence
pub mod Status
pub mod ObjectPool
mod Tests
