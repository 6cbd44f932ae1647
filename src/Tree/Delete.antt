-- ===== src/Tree/Delete.antt =====
-- src/tree/core_logic.rs: deletion by descent from a node. The flag that the source writes through
-- is the second result.
pub mod Absent
use prolly_gunna.Prelude.{
  ℕ, zero, suc, ◌-◌, Bool, true, false, none, List, [], ◌∷◌, ◌==◌, if◌then◌else◌, get_elem?, set,
  remove_at, is_empty, found, absent,
}
use prolly_gunna.Errors.{Exec, pure, fail, stop, ok_or, or_panic, ◌>>=◌, internal_error}
use prolly_gunna.Node.{
  Hash, Key, TreeConfig, LeafEntry, InternalEntry, Node, leaf, internal, last_key, last_boundary,
  is_underflow,
}
use prolly_gunna.Externals.{Externals}
use prolly_gunna.Store.Access.{Access}
use prolly_gunna.Io.{load_node}
use prolly_gunna.Tree.Types.{
  ProcessedNodeUpdate, DeleteRecursionResult, not_found, updated, merged, entry_of,
}
use prolly_gunna.Tree.Core.{child_idx, search_entries, store_leaf, store_internal}
use prolly_gunna.Tree.Underflow.{handle_underflow_strategy}

module _ {S : Type 0} (x : Externals) (a : Access S) (config : TreeConfig) where
  unfoldable pub delete_in_leaf :
      Hash → Key → ℕ → List LeafEntry → Exec S (DeleteRecursionResult × Bool)
  delete_in_leaf node_hash key level entries = elim (search_entries key entries) [
    | found index ↦
        let entries' = remove_at entries index in
        if is_empty entries'
        then pure (merged, true)
        else do u ← store_leaf x a config level entries'; pure (updated u, true)
    | absent index ↦ do
      boundary_key ←
          ok_or (internal_error "Cannot get boundary key from empty leaf (key not found path)")
            (last_key entries)
      pure (not_found node_hash boundary_key, false)
  ]

  -- The node is stored with its new children, or is gone with the last of them.
  unfoldable pub store_children :
      ℕ → List InternalEntry → Bool → Exec S (DeleteRecursionResult × Bool)
  store_children level children deleted =
      if is_empty children
      then pure (merged, deleted)
      else do u ← store_internal x a config level children none; pure (updated u, deleted)

  -- The child at `idx` was updated: an underflow is mended before the node is stored.
  unfoldable pub mend_child :
      ℕ
      → ℕ
      → List InternalEntry
      → ProcessedNodeUpdate
      → Bool
      → Exec S (DeleteRecursionResult × Bool)
  unfolding store_children
  mend_child level idx children u deleted =
      let children' = set children idx (entry_of u) in
      do
        child ← load_node x a u.new_hash
        if is_underflow config child
            then (do
              children'' ← handle_underflow_strategy x a config children' idx
              store_children level children'' deleted)
            else do v ← store_internal x a config level children' none; pure (updated v, deleted)

  unfoldable pub after_child :
      Hash
      → ℕ
      → ℕ
      → List InternalEntry
      → DeleteRecursionResult × Bool
      → Exec S (DeleteRecursionResult × Bool)
  unfolding mend_child store_children
  after_child node_hash level idx children (not_found h b, deleted) = do
    boundary_key ←
        ok_or (internal_error "Internal node empty during NotFound propagation")
          (last_boundary children)
    pure (not_found node_hash boundary_key, deleted)
  after_child node_hash level idx children (updated u, deleted) =
      mend_child level idx children u deleted
  after_child node_hash level idx children (merged, deleted) =
      store_children level (remove_at children idx) deleted

  unfoldable pub delete_in_node :
      (Hash → Key → ℕ → Exec S (DeleteRecursionResult × Bool))
      → Hash
      → Key
      → ℕ
      → Node
      → Exec S (DeleteRecursionResult × Bool)
  unfolding delete_in_leaf after_child
  delete_in_node rec node_hash key level (leaf own_level entries) =
      delete_in_leaf node_hash key own_level entries
  delete_in_node rec node_hash key level (internal own_level []) =
      fail (internal_error "Internal node has no children during delete.")
  delete_in_node rec node_hash key level (internal own_level (c ∷ cs)) =
      let children = c ∷ cs in
      do
        child ← or_panic (get_elem? children (child_idx key children))
        if level == 0
            then fail
                (internal_error "Internal node level is 0, cannot descend further for delete.")
            else do
              result ← rec child.child_hash key (level - 1)
              after_child node_hash own_level (child_idx key children) children result

  unfoldable pub delete_recursive_impl : ℕ → Hash → Key → ℕ → Exec S (DeleteRecursionResult × Bool)
  unfolding delete_in_node
  delete_recursive_impl zero node_hash key level = stop
  delete_recursive_impl (suc fuel) node_hash key level = do
    node ← load_node x a node_hash
    delete_in_node (delete_recursive_impl fuel) node_hash key level node
