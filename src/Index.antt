-- ===== src/Index.antt =====
-- The indexes of a collection: the constraints of a query, the indexers, and the index manager.
pub mod Constraint
pub mod VectorInteger
pub mod VectorDouble
pub mod VectorString
pub mod VectorBlob
pub mod Manager
pub mod EwahInteger
