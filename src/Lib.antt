-- ===== src/Lib.antt =====
-- A verification library for the prolly tree of this repository: an ordered map from byte strings
-- to byte strings, kept as content-addressed nodes in a chunk store, whose every version stays
-- readable under its root hash.
--
-- The parts and their files:
-- Prelude: tests, lists and byte strings with their order, as the standard library has them.
-- Errors: src/error.rs, and the results of operations with state. A panic and the end of fuel are
--   outcomes of their own.
-- Node: src/common.rs and src/node/definition.rs. Node/Order has the laws of sorted entries.
-- Externals: the crates blake3, bincode and fastcdc as parameters. `IsLawful` has that no two byte
--   strings collide and that a node decodes from its encoding; `IsChunker` that the chunks of a
--   value lie in it and cover it.
-- Store: src/store/chunk_store.rs as the record `Access` of a read and a write, with the contract
--   `IsAccess`; Store/Memory is src/store/mem_store.rs, whose async and sync methods both keep it.
-- Io: src/chunk.rs and src/tree/io.rs: nodes and values in a store.
-- Tree/Core: `get_recursive_impl` and `insert_recursive_impl` of src/tree/core_logic.rs;
--   Tree/Delete: its `delete_recursive_impl`; Tree/Underflow: src/tree/modification.rs;
--   Tree/Session: the methods of `ProllyTree` in src/tree/prolly_tree.rs; Tree/Sync: the sync
--   variants, which are the same code at the sync methods of the store.
-- Tree/Holds and Tree/Session/Represents: what a root stands for in a store, down to the map of
--   Tree/SortedMap.
-- Cursor: the cursor of src/tree/cursor.rs, whose path is a stack with its top first. Cursor/Ahead
--   and Cursor/Next have what is still ahead of it, Cursor/Seek the descent to a key.
-- Scan: the arguments and pages of src/tree/types.rs, `new_for_scan` and `next_in_scan` of
--   src/tree/cursor.rs, and `ProllyTree::scan`. Scan/Slice has the part of the map that a forward
--   scan is about, by its bounds alone.
-- Diff: src/diff.rs and `ProllyTree::diff`.
-- Gc: src/gc.rs and `ProllyTree::gc`.
-- Format: the blocks of src/store/format_v2.rs. The integers of the crate byteorder are a parameter.
-- FileIo: whole files in format 2, src/store/file_io_v2.rs. The checksums, the JSON encoding of the
--   metadata and the time are parameters. FileIo/RoundTrip has the conditions on a map of chunks.
-- Examples: concrete parameters that keep the contracts, and the theorems at concrete inputs.
--
-- The functions of the tree take the store through `Access`, so that one definition stands for an
-- async function and its sync twin. The recursion over hashes runs on fuel, since a store may hold
-- any bytes: the theorems show that fuel beyond the depth of a tree is enough, and for the
-- collector that the number of roots and references in the store is. Counts are kept modulo 2 ^ 64
-- and levels modulo 2 ^ 8, as a release build computes them, and `usize` has the 32 bits of
-- `wasm32`, for which the crate is built; the theorems on insertion ask for
-- fewer than 255 levels. Awaiting a lock of the in-memory store always succeeds; a sync method sees
-- the lock that others hold. Log messages and the data in formatted error messages are left out.
--
-- A cursor's calls take two fuels: rounds over leaves, where two are enough since no leaf is empty,
-- and the levels of a descent. The walk of the diff takes fuel for the nodes of a tree.
--
-- Not modelled: the hierarchy cursor (src/tree/hierarchy_cursor.rs), `new_for_scan_sync` and
-- `scan_sync`, and the bindings to JavaScript (src/lib.rs, src/wasm_bridge.rs), which only convert
-- values.
pub mod Prelude
pub mod Errors
pub mod Node
pub mod Externals
pub mod Store
pub mod Io
pub mod Tree
pub mod Cursor
pub mod Scan
pub mod Diff
pub mod Gc
pub mod Format
pub mod FileIo
pub mod Examples
