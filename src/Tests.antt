-- ===== src/Tests.antt =====
-- Runs of the code's functions on small inputs, and each theorem at a concrete input.
mod Storage
mod Store
mod Blobs
mod Indexes
mod Halves
mod Queries
mod Ewah
mod Deletes
mod Errors
mod Pools
