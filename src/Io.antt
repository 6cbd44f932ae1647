-- ===== src/Io.antt =====
-- src/chunk.rs and src/tree/io.rs, with the loading functions of src/tree/prolly_tree.rs: nodes and
-- values in a store.
pub mod Laws
pub mod Values
pub mod RoundTrip
use prolly_gunna.Prelude.{
  ℕ, zero, suc, ◌+◌, ◌%◌, ◌^◌, Option, none, some, List, [], ◌∷◌, ◌++◌, ltb, leb, if◌then◌else◌,
  length,
}
use prolly_gunna.Prelude.Bytes.{Bytes}
use prolly_gunna.Errors.{
  Exec, pure, fail, abort, lift, ok_or, or_panic, and_then, ◌>>=◌, ◌>>◌, chunk_not_found,
  internal_error,
}
use prolly_gunna.Node.{
  Hash, Key, Value, TreeConfig, ValueRepr, inline, chunked, chunked_sequence, Node, boundary_of,
  u64_mod,
}
use prolly_gunna.Externals.{Externals, encode, decode, slice}
use prolly_gunna.Store.Access.{Access}

module _ {S : Type 0} (x : Externals) (a : Access S) where
  -- `chunk_node`: the hash of the encoded node, and its bytes.
  unfoldable pub chunk_node : Node → Exec S (Hash × Bytes)
  unfolding encode
  chunk_node node = do
    encoded_bytes ← lift (encode x node)
    pure (x.hash_bytes encoded_bytes, encoded_bytes)

  unfoldable pub store_node_and_get_key_hash_pair : Node → Exec S (Key × Hash)
  unfolding chunk_node
  store_node_and_get_key_hash_pair node = do
    (hash, bytes) ← chunk_node node
    a.put bytes
    boundary_key ←
        ok_or (internal_error "Attempted to get boundary key from empty or invalid node")
          (boundary_of node)
    pure (boundary_key, hash)

  -- A chunk that has to be there.
  unfoldable pub load_chunk : Hash → Exec S Bytes
  load_chunk hash = do found ← a.get hash; ok_or (chunk_not_found hash) found

  unfoldable pub load_node : Hash → Exec S Node
  unfolding decode load_chunk
  load_node hash = do bytes ← load_chunk hash; lift (decode x bytes)

  -- The loop over the chunks that the chunker yields; a slice out of range panics.
  unfoldable pub store_chunks : Value → List (ℕ × ℕ) → Exec S (List Hash)
  store_chunks value [] = pure []
  store_chunks value ((offset, len) ∷ entries) =
      if ltb (length value) (offset + len) then abort else do
        a.put (slice value (offset, len))
        rest ← store_chunks value entries
        pure (x.hash_bytes (slice value (offset, len)) ∷ rest)

  -- One chunk is stored by its hash, several by the sequence of their hashes.
  unfoldable pub repr_of_hashes : Value → List Hash → ValueRepr
  repr_of_hashes value [] = inline value
  repr_of_hashes value (h ∷ []) = chunked h
  repr_of_hashes value (h ∷ h' ∷ hs) = chunked_sequence (h ∷ h' ∷ hs) (length value % u64_mod)

  unfoldable pub prepare_value_repr : TreeConfig → Value → Exec S ValueRepr
  unfolding store_chunks repr_of_hashes
  prepare_value_repr config value =
      if leb (length value) config.max_inline_value_size then pure (inline value) else do
        entries ← or_panic (
            x.fast_cdc value (config.cdc_min_size % 2 ^ 32) (config.cdc_avg_size % 2 ^ 32)
              (config.cdc_max_size % 2 ^ 32))
        chunk_hashes ← store_chunks value entries
        pure (repr_of_hashes value chunk_hashes)

  -- The loop that appends the chunks of a sequence to `acc`.
  unfoldable pub load_chunks : List Hash → Value → Exec S Value
  unfolding load_chunk
  load_chunks [] acc = pure acc
  load_chunks (h ∷ hs) acc = do bytes ← load_chunk h; load_chunks hs (acc ++ bytes)

  -- A size that differs from `total_size` is logged, and the value is returned all the same.
  unfoldable pub load_value_repr : ValueRepr → Exec S Value
  unfolding load_chunk load_chunks
  load_value_repr (inline value) = pure value
  load_value_repr (chunked data_hash) = load_chunk data_hash
  load_value_repr (chunked_sequence chunk_hashes total_size) = load_chunks chunk_hashes []
