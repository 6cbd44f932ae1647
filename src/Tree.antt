-- ===== src/Tree.antt =====
-- src/tree: the recursive operations on the nodes, and the methods of `ProllyTree`.
pub mod Types
pub mod Core
pub mod Underflow
pub mod Delete
pub mod Session
pub mod Sync
pub mod Holds
pub mod SortedMap
