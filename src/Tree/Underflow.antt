-- ===== src/Tree/Underflow.antt =====
-- src/tree/modification.rs: what happens to a child that has become too small. Each function
-- returns the parent's new list of children.
pub mod Nodes
pub mod Siblings
pub mod Strategy
use prolly_gunna.Prelude.{
  ℕ, ◌+◌, ◌-◌, ◌%◌, Bool, false, not, none, some, List, [], ◌∷◌, ◌++◌, ltb, leb, ◌==◌,
  if◌then◌else◌, length, get_elem?, set, remove_at, last, init,
}
use prolly_gunna.Errors.{Result, ok, err, Exec, pure, fail, lift, or_panic, ◌>>=◌, internal_error}
use prolly_gunna.Node.{
  TreeConfig, InternalEntry, Node, leaf, internal, u64_mod, num_entries, item_count,
}
use prolly_gunna.Externals.{Externals}
use prolly_gunna.Store.Access.{Access}
use prolly_gunna.Io.{load_node, store_node_and_get_key_hash_pair}

-- `left.pop()` and `underflow.insert(0, ..)`
unfoldable pub borrow_last : Node → Node → Result (Node × Node)
borrow_last (leaf l left) (leaf l' entries) = elim (last left) [
  | none ↦ err (internal_error "Attempted to borrow from empty left leaf sibling")
  | some e ↦ ok (leaf l (init left), leaf l' (e ∷ entries))
]
borrow_last (internal l left) (internal l' children) = elim (last left) [
  | none ↦ err (internal_error "Attempted to borrow from empty left internal sibling")
  | some c ↦ ok (internal l (init left), internal l' (c ∷ children))
]
borrow_last _ _ = err (internal_error "Mismatched node types during rebalance from left")

-- `right.remove(0)` and `underflow.push(..)`
unfoldable pub borrow_first : Node → Node → Result (Node × Node)
borrow_first (leaf l entries) (leaf l' []) =
    err (internal_error "Attempted to borrow from empty right leaf sibling")
borrow_first (leaf l entries) (leaf l' (e ∷ right)) = ok (leaf l (entries ++ e ∷ []), leaf l' right)
borrow_first (internal l children) (internal l' []) =
    err (internal_error "Attempted to borrow from empty right internal sibling")
borrow_first (internal l children) (internal l' (c ∷ right)) =
    ok (internal l (children ++ c ∷ []), internal l' right)
borrow_first _ _ = err (internal_error "Mismatched node types during rebalance from right")

unfoldable pub merge_nodes : Node → Node → Result Node
merge_nodes (leaf l left) (leaf l' right) = ok (leaf l (left ++ right))
merge_nodes (internal l left) (internal l' right) = ok (internal l (left ++ right))
merge_nodes _ _ = err (internal_error "Mismatched node types during merge")

module _ {S : Type 0} (x : Externals) (a : Access S) where
  -- The node of the child at an index, which panics out of range.
  unfoldable pub load_child : List InternalEntry → ℕ → Exec S Node
  load_child children i = do child ← or_panic (get_elem? children i); load_node x a child.child_hash

  -- Stores two neighbours and writes their entries.
  unfoldable pub store_pair : List InternalEntry → ℕ → ℕ → Node × Node → Exec S (List InternalEntry)
  store_pair children l r (left, right) = do
    (left_boundary, left_hash) ← store_node_and_get_key_hash_pair x a left
    (right_boundary, right_hash) ← store_node_and_get_key_hash_pair x a right
    pure (
        set
          (set children l (record {
            boundary_key = left_boundary;
            child_hash = left_hash;
            num_items_subtree = item_count left;
          }))
          r
          (record {
            boundary_key = right_boundary;
            child_hash = right_hash;
            num_items_subtree = item_count right;
          }))

  unfoldable pub rebalance_borrow_from_left :
      List InternalEntry → ℕ → ℕ → Exec S (List InternalEntry)
  unfolding load_child store_pair borrow_last
  rebalance_borrow_from_left children left_idx underflow_idx = do
    left ← load_child children left_idx
    underflow ← load_child children underflow_idx
    nodes ← lift (borrow_last left underflow)
    store_pair children left_idx underflow_idx nodes

  unfoldable pub rebalance_borrow_from_right :
      List InternalEntry → ℕ → ℕ → Exec S (List InternalEntry)
  unfolding load_child store_pair borrow_first
  rebalance_borrow_from_right children underflow_idx right_idx = do
    underflow ← load_child children underflow_idx
    right ← load_child children right_idx
    nodes ← lift (borrow_first underflow right)
    store_pair children underflow_idx right_idx nodes

  -- The loads, the merge and the write of `merge_into_left_sibling_internal`, after its two tests.
  unfoldable pub merge_entries :
      List InternalEntry → ℕ → ℕ → InternalEntry → InternalEntry → Exec S (List InternalEntry)
  unfolding merge_nodes
  merge_entries children left_idx right_idx left_entry right_entry = do
    left ← load_node x a left_entry.child_hash
    right ← load_node x a right_entry.child_hash
    merged ← lift (merge_nodes left right)
    (boundary, hash) ← store_node_and_get_key_hash_pair x a merged
    pure (
        remove_at
          (set children left_idx (record {
            boundary_key = boundary;
            child_hash = hash;
            num_items_subtree =
                (left_entry.num_items_subtree + right_entry.num_items_subtree) % u64_mod;
          }))
          right_idx)

  unfoldable pub merge_into_left_sibling_internal :
      List InternalEntry → ℕ → ℕ → Exec S (List InternalEntry)
  unfolding merge_entries
  merge_into_left_sibling_internal children left_idx right_idx =
      if not (left_idx + 1 == right_idx)
      then fail (internal_error "Attempted to merge non-adjacent siblings")
      else if leb (length children) right_idx
      then fail (internal_error "Right sibling index is out of bounds for parent_children_vec")
      else do
        left_entry ← or_panic (get_elem? children left_idx)
        right_entry ← or_panic (get_elem? children right_idx)
        merge_entries children left_idx right_idx left_entry right_entry

  module _ (config : TreeConfig) where
    -- Whether the neighbour at `i` has an entry to spare.
    unfoldable pub can_lend : List InternalEntry → ℕ → Exec S Bool
    unfolding load_child
    can_lend children i = do
      sibling ← load_child children i
      pure (ltb config.min_fanout (num_entries sibling))

    unfoldable pub can_lend_left : List InternalEntry → ℕ → Exec S Bool
    unfolding can_lend
    can_lend_left children idx = if ltb 0 idx then can_lend children (idx - 1) else pure false

    unfoldable pub can_lend_right : List InternalEntry → ℕ → Exec S Bool
    unfolding can_lend
    can_lend_right children idx =
        if ltb (idx + 1) (length children) then can_lend children (idx + 1) else pure false

    unfoldable pub merge_underflow : List InternalEntry → ℕ → Exec S (List InternalEntry)
    unfolding merge_into_left_sibling_internal
    merge_underflow children idx =
        if ltb 0 idx
        then merge_into_left_sibling_internal children (idx - 1) idx
        else if leb (length children) 1
        then fail (internal_error "Underflow node has no sibling to merge with.")
        else merge_into_left_sibling_internal children idx (idx + 1)

    unfoldable pub handle_underflow_strategy : List InternalEntry → ℕ → Exec S (List InternalEntry)
    unfolding can_lend_left can_lend_right merge_underflow rebalance_borrow_from_left
        rebalance_borrow_from_right
    handle_underflow_strategy children idx = do
      from_left ← can_lend_left children idx
      if from_left then rebalance_borrow_from_left children (idx - 1) idx else do
        from_right ← can_lend_right children idx
        if from_right
            then rebalance_borrow_from_right children idx (idx + 1)
            else merge_underflow children idx
