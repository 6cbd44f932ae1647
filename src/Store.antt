-- ===== src/Store.antt =====
-- src/store: the trait `ChunkStore` and its in-memory implementation.
pub mod Access
pub mod Memory
