-- ===== src/Tree/Types.antt =====
-- src/tree/types.rs: what the recursive operations return.
use prolly_gunna.Prelude.{ℕ, Option}
use prolly_gunna.Node.{Hash, Key, InternalEntry}

pub record ProcessedNodeUpdate : Type 0 where
  pub new_hash : Hash
  pub new_boundary_key : Key
  pub new_item_count : ℕ
  pub split_info : Option (Key × Hash × ℕ)

pub data DeleteRecursionResult : Type 0 where
  not_found : (node_hash : Hash) → (boundary_key : Key) → DeleteRecursionResult
  updated : ProcessedNodeUpdate → DeleteRecursionResult
  merged : DeleteRecursionResult

-- The entry of the updated node in its parent.
abbrev pub entry_of : ProcessedNodeUpdate → InternalEntry
entry_of u = record {
  boundary_key = u.new_boundary_key;
  child_hash = u.new_hash;
  num_items_subtree = u.new_item_count;
}

-- The entry of the right sibling of a split.
abbrev pub sibling_of : Key × Hash × ℕ → InternalEntry
sibling_of (b, h, n) = record { boundary_key = b; child_hash = h; num_items_subtree = n }
