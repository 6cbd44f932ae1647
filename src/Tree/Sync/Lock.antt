-- ===== src/Tree/Sync/Lock.antt =====
-- The synchronous methods and the lock of the in-memory store.
use prolly_gunna.Prelude.{
  arith, ℕ, ◌+◌, ◌%◌, ◌^◌, List, [], ◌∷◌, Bool-cases, Option-cases, inl, inr, ◌⊎◌, ltb, leb, length,
  refl, some, none, Option, suc, ◌≤◌, ◌<◌, ◌≡◌, if◌then◌else◌,
}
use prolly_gunna.Errors.{ProllyError, Result, err, panic, storage_error, bincode_error, ok, ◌>>◌}
use prolly_gunna.Node.{Hash, Node, inline, leaf, ValueRepr, TreeConfig, Key, Value}
use prolly_gunna.Io.{
  load_node, load_chunk, chunk_node, store_node_and_get_key_hash_pair, store_chunks,
  prepare_value_repr, repr_of_hashes,
}
use prolly_gunna.Externals.{encode, Externals, IsLawful, IsChunker}
use prolly_gunna.Prelude.Bytes.{Bytes, bytes_eq}
use prolly_gunna.Store.Memory.{
  write_held, get_sync, put_sync, try_read, try_write, sync_access, InMemoryStore, free,
}
use prolly_gunna.Store.Memory.Laws.{IsAddressed, view, sync_access-IsAccess}
use prolly_gunna.Tree.SortedMap.{SortedMap, lookup}
use prolly_gunna.Tree.Session
use prolly_gunna.Tree.Session.{insert_repr, Session, root}
use prolly_gunna.Tree.Session.Represents.{Represents}
use prolly_gunna.Tree.Session.History.{get-insert}
use prolly_gunna.Tree.Sync

-- Over the in-memory store with its lock free and every chunk under its own hash, under the
-- conditions of an insertion: `get_sync` after `insert_sync` returns the new value at its key and
-- at any other key what the map had that the tree stood for.
pub get_sync-insert_sync :
    (x : Externals) (lawful : IsLawful x) (fuel d : ℕ) (k j : Key) (value : Value) (m : SortedMap)
    (w : Session InMemoryStore)
    → IsChunker x w.tree.config
    → 1 ≤ w.tree.config.target_fanout
    → suc d < fuel
    → suc d < 256
    → IsAddressed x w.store
    → w.store.lock ≡ free
    → Represents x (view w.store) d (root w) m
    → (do Sync.insert_sync x fuel k value; Sync.get_sync x fuel j) w ≡ (
      ok (if bytes_eq k j then some value else lookup j m),
      (Sync.insert_sync x fuel k value w).1,
    )
unfolding sync_access-IsAccess
get_sync-insert_sync x lawful fuel d k j value m w chunker wide enough shallow addressed unlocked
      at =
    get-insert (sync_access-IsAccess x lawful) lawful fuel d k j value m w chunker wide enough
      shallow (addressed, unlocked) at

abbrev read_locked : ProllyError
read_locked =
    storage_error
      "Failed to acquire synchronous read lock on store. An async write operation is likely in progress."

abbrev write_locked : ProllyError
write_locked =
    storage_error
      "Failed to acquire synchronous write lock on store. An async operation is likely in progress."

-- A run that returns no value and leaves the state as it was.
pub data Refused {A S : Type 0} (s : S) (r : Result A × S) : Type 0 where
  failed : (e : ProllyError) → r ≡ (err e, s) → Refused s r
  panicked : r ≡ (panic, s) → Refused s r

-- A run that leaves the state as it was.
data Idle {A S : Type 0} (s : S) (r : Result A × S) : Type 0 where
  returned : (a : A) → r ≡ (ok a, s) → Idle s r
  refused : Refused s r → Idle s r

encode_cases :
    (x : Externals) (n : Node)
    → (encode x n ≡ err bincode_error) ⊎ ((b : Bytes) × (encode x n ≡ ok b))
unfolding encode
encode_cases x n = elim (Option-cases (x.serialize n)) [
  | inl none_made ↦ inl (ground (arith, none_made))
  | inr (b, made) ↦ inr (b, ground (arith, made))
]

module _ (x : Externals) (s : InMemoryStore) (locked : s.lock ≡ write_held) where
  put_locked : (b : Bytes) → put_sync x b s ≡ (err write_locked, s)
  unfolding put_sync try_write
  put_locked b = rw locked refl

  load_node_locked : (h : Hash) → Refused s (load_node x (sync_access x) h s)
  unfolding load_node load_chunk get_sync try_read
  load_node_locked h = failed read_locked (rw locked refl)

  store_node_locked :
      (n : Node) → Refused s (store_node_and_get_key_hash_pair x (sync_access x) n s)
  unfolding store_node_and_get_key_hash_pair chunk_node
  store_node_locked n = elim (encode_cases x n) [
    | inl none_made ↦ failed bincode_error (rw none_made refl)
    | inr (b, made) ↦ failed write_locked (rw (made, put_locked b) refl)
  ]

  store_chunks_locked :
      (value : Value) (entries : List (ℕ × ℕ))
      → Idle s (store_chunks x (sync_access x) value entries s)
  unfolding store_chunks put_sync try_write
  store_chunks_locked value [] = returned [] refl
  store_chunks_locked value ((offset, len) ∷ entries) =
      elim (Bool-cases (ltb (length value) (offset + len))) [
        | inl out ↦ refused (panicked (rw out refl))
        | inr within ↦ refused (failed write_locked (rw (within, locked) refl))
      ]

  prepare_locked :
      (config : TreeConfig) (value : Value)
      → Idle s (prepare_value_repr x (sync_access x) config value s)
  unfolding prepare_value_repr
  prepare_locked config value =
      elim (Bool-cases (leb (length value) config.max_inline_value_size)) [
        | inl small ↦ returned (inline value) (rw small refl)
        | inr large ↦
            elim (Option-cases (
              x.fast_cdc value (config.cdc_min_size % 2 ^ 32) (config.cdc_avg_size % 2 ^ 32)
                (config.cdc_max_size % 2 ^ 32))) [
                  | inl none_cut ↦ refused (panicked (rw (large, none_cut) refl))
                  | inr (entries, cut) ↦ elim (store_chunks_locked value entries) [
                    | returned hs e ↦
                        returned (repr_of_hashes x (sync_access x) value hs)
                          (rw (large, cut, e) refl)
                    | refused r ↦ elim r [
                      | failed e f ↦ refused (failed e (rw (large, cut, f) refl))
                      | panicked f ↦ refused (panicked (rw (large, cut, f) refl))
                    ]
                  ]
                ]
      ]

module _ (x : Externals) (fuel : ℕ) (k : Key) where
  insert_repr_locked :
      (config : TreeConfig) (repr : ValueRepr) (o : Option Hash) (w : Session InMemoryStore)
      → w.store.lock ≡ write_held
      → Refused w (insert_repr x (sync_access x) config fuel k repr o w)
  unfolding insert_repr
  insert_repr_locked config repr none w locked =
      elim (store_node_locked x w.store locked (leaf 0 (record { key = k; value = repr } ∷ []))) [
        | failed e f ↦ failed e (rw f refl)
        | panicked f ↦ panicked (rw f refl)
      ]
  insert_repr_locked config repr (some h) w locked = elim (load_node_locked x w.store locked h) [
    | failed e f ↦ failed e (rw f refl)
    | panicked f ↦ panicked (rw f refl)
  ]

  -- While a writer holds the lock of the in-memory store, `insert_sync` returns no value and changes
  -- nothing, whatever the tree, the key and the value are: also where the tree is empty, and where
  -- the value goes to chunks.
  pub insert_sync_locked :
      (value : Value) (w : Session InMemoryStore)
      → w.store.lock ≡ write_held
      → Refused w (Sync.insert_sync x fuel k value w)
  unfolding Session.insert
  insert_sync_locked value w locked = elim (prepare_locked x w.store locked w.tree.config value) [
    | returned repr e ↦ elim (insert_repr_locked w.tree.config repr (root w) w locked) [
      | failed e' f ↦ failed e' (rw (e, f) refl)
      | panicked f ↦ panicked (rw (e, f) refl)
    ]
    | refused r ↦ elim r [ failed e f ↦ failed e (rw f refl) | panicked f ↦ panicked (rw f refl) ]
  ]
