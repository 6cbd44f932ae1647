-- ===== src/Tree/Sync.antt =====
-- The synchronous functions of src/tree: the code of the async functions at the sync methods of the
-- store. Here they stand at the in-memory store.
pub mod Lock
use prolly_gunna.Prelude.{ℕ, Bool, Option, List}
use prolly_gunna.Errors.{Exec}
use prolly_gunna.Node.{Hash, Key, Value, TreeConfig, ValueRepr, InternalEntry, Node}
use prolly_gunna.Externals.{Externals}
use prolly_gunna.Store.Memory.{InMemoryStore, sync_access}
use prolly_gunna.Io
use prolly_gunna.Tree.Types.{ProcessedNodeUpdate, DeleteRecursionResult}
use prolly_gunna.Tree.Core
use prolly_gunna.Tree.Underflow
use prolly_gunna.Tree.Delete
use prolly_gunna.Tree.Session
use prolly_gunna.Tree.Session.{Session}

module _ (x : Externals) where
  abbrev pub store_node_and_get_key_hash_pair_sync : Node → Exec InMemoryStore (Key × Hash)
  store_node_and_get_key_hash_pair_sync = Io.store_node_and_get_key_hash_pair x (sync_access x)

  abbrev pub load_node_sync : Hash → Exec InMemoryStore Node
  load_node_sync = Io.load_node x (sync_access x)

  abbrev pub prepare_value_repr_sync : TreeConfig → Value → Exec InMemoryStore ValueRepr
  prepare_value_repr_sync = Io.prepare_value_repr x (sync_access x)

  abbrev pub load_value_repr_sync : ValueRepr → Exec InMemoryStore Value
  load_value_repr_sync = Io.load_value_repr x (sync_access x)

  abbrev pub get_recursive_sync_impl : ℕ → Hash → Key → Exec InMemoryStore (Option Value)
  get_recursive_sync_impl = Core.get_recursive_impl x (sync_access x)

  abbrev pub insert_recursive_sync_impl :
      TreeConfig → ℕ → Hash → Key → ValueRepr → ℕ → Exec InMemoryStore ProcessedNodeUpdate
  insert_recursive_sync_impl = Core.insert_recursive_impl x (sync_access x)

  abbrev pub delete_recursive_sync_impl :
      TreeConfig → ℕ → Hash → Key → ℕ → Exec InMemoryStore (DeleteRecursionResult × Bool)
  delete_recursive_sync_impl = Delete.delete_recursive_impl x (sync_access x)

  abbrev pub rebalance_borrow_from_left_sync :
      List InternalEntry → ℕ → ℕ → Exec InMemoryStore (List InternalEntry)
  rebalance_borrow_from_left_sync = Underflow.rebalance_borrow_from_left x (sync_access x)

  abbrev pub rebalance_borrow_from_right_sync :
      List InternalEntry → ℕ → ℕ → Exec InMemoryStore (List InternalEntry)
  rebalance_borrow_from_right_sync = Underflow.rebalance_borrow_from_right x (sync_access x)

  abbrev pub merge_into_left_sibling_internal_sync :
      List InternalEntry → ℕ → ℕ → Exec InMemoryStore (List InternalEntry)
  merge_into_left_sibling_internal_sync =
      Underflow.merge_into_left_sibling_internal x (sync_access x)

  abbrev pub handle_underflow_strategy_sync :
      TreeConfig → List InternalEntry → ℕ → Exec InMemoryStore (List InternalEntry)
  handle_underflow_strategy_sync = Underflow.handle_underflow_strategy x (sync_access x)

  abbrev pub get_sync : ℕ → Key → Exec (Session InMemoryStore) (Option Value)
  get_sync = Session.get x (sync_access x)

  abbrev pub insert_sync : ℕ → Key → Value → Exec (Session InMemoryStore) Bool
  insert_sync = Session.insert x (sync_access x)

  abbrev pub delete_sync : ℕ → Key → Exec (Session InMemoryStore) Bool
  delete_sync = Session.delete x (sync_access x)
