-- ===== src/Examples.antt =====
-- Concrete runs: an encoding, a hash and a chunker for the parameters, and a small tree.
pub mod Codec
pub mod World
pub mod Runs
pub mod BigEndian
pub mod Collections
pub mod Blocks
pub mod Deletions
pub mod Locks
pub mod Traversals
pub mod Leaves
pub mod Files
