-- ===== src/Store/Memory.antt =====
-- src/store/mem_store.rs: the in-memory store. The `HashMap` is an association list whose order
-- stands for the iteration order; `lock` is what other tasks hold of the `RwLock` at the time of a
-- call. An async method waits for the lock, so it never sees it; a sync method fails when the lock
-- is taken.
pub mod Map
pub mod Laws
use prolly_gunna.Prelude.{
  String, Bool, true, false, Option, none, some, List, [], ◌∷◌, map, is_empty, if◌then◌else◌,
}
use prolly_gunna.Prelude.Bytes.{Bytes}
use prolly_gunna.Errors.{Result, ok, err, Exec, pure, fail, ◌>>=◌, ◌>>◌, and_then, storage_error}
use prolly_gunna.Node.{Hash}
use prolly_gunna.Externals.{Externals}
use prolly_gunna.Store.Access.{Access}
use prolly_gunna.Store.Memory.Map.{Chunks, find, put_new, remove, remove_all, keys}

pub data Lock : Type 0 where
  free read_held write_held : Lock

pub record InMemoryStore : Type 0 where
  pub chunks : Chunks
  pub lock : Lock

unfoldable pub new : InMemoryStore
new = record { chunks = []; lock = free }

-- `try_read().map_err(..)?`
unfoldable pub try_read : Exec InMemoryStore (Unit {0})
try_read s = elim s.lock [
  | write_held ↦ (
    err (
        storage_error
          "Failed to acquire synchronous read lock on store. An async write operation is likely in progress."),
    s,
  )
  | _ ↦ (ok tt, s)
]

-- `try_write().map_err(..)?`
unfoldable pub try_write : String → Exec InMemoryStore (Unit {0})
try_write message s = elim s.lock [ free ↦ (ok tt, s) | _ ↦ (err (storage_error message), s) ]

unfoldable pub get : Hash → Exec InMemoryStore (Option Bytes)
get hash s = (ok (find hash s.chunks), s)

unfoldable pub contains : Hash → Exec InMemoryStore Bool
contains hash s = (ok (elim (find hash s.chunks) [ none ↦ false | some _ ↦ true ]), s)

unfoldable pub delete_batch : List Hash → Exec InMemoryStore (Unit {0})
delete_batch hashes s =
    if is_empty hashes
    then (ok tt, s)
    else (ok tt, record s { chunks = remove_all hashes s.chunks })

unfoldable pub all_hashes : Exec InMemoryStore (List Hash)
all_hashes s = (ok (keys s.chunks), s)

unfoldable pub get_sync : Hash → Exec InMemoryStore (Option Bytes)
unfolding try_read get
get_sync hash = try_read >> get hash

unfoldable pub delete_batch_sync : List Hash → Exec InMemoryStore (Unit {0})
unfolding try_write delete_batch
delete_batch_sync hashes =
    if is_empty hashes
    then pure tt
    else (try_write
          "Failed to acquire synchronous write lock on store for delete. An async operation is likely in progress."
        >> delete_batch hashes)

module _ (x : Externals) where
  unfoldable pub put : Bytes → Exec InMemoryStore Hash
  put bytes s =
      let hash = x.hash_bytes bytes in (ok hash, record s { chunks = put_new hash bytes s.chunks })

  unfoldable pub put_sync : Bytes → Exec InMemoryStore Hash
  unfolding try_write put
  put_sync bytes =
      try_write
        "Failed to acquire synchronous write lock on store. An async operation is likely in progress."
      >> put bytes

  -- The async and the sync methods of the trait.
  abbrev pub async_access : Access InMemoryStore
  async_access = record { get = get; put = put }

  abbrev pub sync_access : Access InMemoryStore
  sync_access = record { get = get_sync; put = put_sync }
