-- ===== src/Blob.antt =====
-- src/jonoondb_api/blob_manager.cc: how blobs are laid out in the data files.
pub mod Header
pub mod Files
pub mod Format
pub mod Manager
pub mod Iterator
