-- ===== src/Tree/Session.antt =====
-- src/tree/prolly_tree.rs: the methods of `ProllyTree`. A session is a tree with the store that it
-- shares; a method leaves a session behind, also where it fails.
pub mod Represents
pub mod Get
pub mod Insert
pub mod History
pub mod Invariant
pub mod Delete
use prolly_gunna.Prelude.{
  ℕ, ◌+◌, ◌*◌, ◌%◌, Bool, true, false, not, ◌||◌, Option, none, some, List, [], ◌∷◌, ◌==◌, ltb,
  if◌then◌else◌, length,
}
use prolly_gunna.Prelude.Bytes.{bytes_eq}
use prolly_gunna.Errors.{Result, ok, panic, Exec, pure, lift, ◌>>=◌, ◌>>◌, abort}
use prolly_gunna.Node.{
  Hash, Key, Value, TreeConfig, ValueRepr, Node, leaf, internal, new_internal, level_of, u64_mod,
  usize_mod, u8_mod, sum_items,
}
use prolly_gunna.Externals.{Externals}
use prolly_gunna.Store.Access.{Access}
use prolly_gunna.Io.{load_node, prepare_value_repr, store_node_and_get_key_hash_pair}
use prolly_gunna.Tree.Types.{
  ProcessedNodeUpdate, DeleteRecursionResult, not_found, updated, merged, entry_of, sibling_of,
}
use prolly_gunna.Tree.Core.{get_recursive_impl, insert_recursive_impl}
use prolly_gunna.Tree.Delete.{delete_recursive_impl}

pub record ProllyTree : Type 0 where
  pub root_hash : Option Hash
  pub config : TreeConfig

pub record Session (S : Type 0) : Type 0 where
  pub tree : ProllyTree
  pub store : S

abbrev pub root : {S : Type 0} → Session S → Option Hash
root w = w.tree.root_hash

-- `!=` on `Option<Hash>`
unfoldable pub root_differs : Option Hash → Option Hash → Bool
root_differs none none = false
root_differs (some h) (some j) = not (bytes_eq h j)
root_differs _ _ = true

-- The test of `new` and `from_root_hash`, which panic on such a configuration.
unfoldable pub is_bad_config : TreeConfig → Bool
is_bad_config config =
    (config.min_fanout == 0)
    || ltb config.target_fanout (config.min_fanout * 2 % usize_mod)
    || (config.target_fanout == 0)

unfoldable pub new : TreeConfig → Result ProllyTree
unfolding is_bad_config
new config =
    if is_bad_config config then panic else ok (record { root_hash = none; config = config })

module _ {S : Type 0} where
  abbrev pub on_store : {A : Type 0} → Exec S A → Exec (Session S) A
  on_store m w = let (r, s) = m w.store in (r, record w { store = s })

  abbrev pub with_tree : {A : Type 0} → (ProllyTree → Exec (Session S) A) → Exec (Session S) A
  with_tree k w = k w.tree w

  abbrev pub with_root : {A : Type 0} → (Option Hash → Exec (Session S) A) → Exec (Session S) A
  with_root k w = k w.tree.root_hash w

  abbrev pub set_root : Option Hash → Exec (Session S) (Unit {0})
  set_root h w = (ok tt, record w { tree = record { root_hash = h; config = w.tree.config } })

module _ {S : Type 0} (x : Externals) (a : Access S) where
  unfoldable pub from_root_hash : Hash → TreeConfig → Exec S ProllyTree
  unfolding is_bad_config
  from_root_hash root_hash config =
      if is_bad_config config
      then abort
      else do load_node x a root_hash; pure (record { root_hash = some root_hash; config = config })

  -- `get`, with the fuel of the descent
  unfoldable pub get_from : ℕ → Key → Option Hash → Exec (Session S) (Option Value)
  get_from fuel key none = pure none
  get_from fuel key (some h) = on_store (get_recursive_impl x a fuel h key)

  unfoldable pub get : ℕ → Key → Exec (Session S) (Option Value)
  unfolding get_from
  get fuel key = with_root (get_from fuel key)

  -- The two halves of a split root become the children of a new root.
  unfoldable pub grow_root : ℕ → ProcessedNodeUpdate → Exec (Session S) (Unit {0})
  unfolding new_internal
  grow_root level u = elim u.split_info [
    | none ↦ pure tt
    | some split ↦ do
      new_root ← lift (new_internal (entry_of u ∷ sibling_of split ∷ []) ((level + 1) % u8_mod))
      (_, final_root_hash) ← on_store (store_node_and_get_key_hash_pair x a new_root)
      set_root (some final_root_hash)
  ]

  unfoldable pub insert_repr :
      TreeConfig → ℕ → Key → ValueRepr → Option Hash → Exec (Session S) Bool
  unfolding grow_root level_of root_differs
  insert_repr config fuel key value_repr none = do
    (_, h) ← on_store (
        store_node_and_get_key_hash_pair x a
          (leaf 0 (record { key = key; value = value_repr } ∷ [])))
    set_root (some h)
    pure true
  insert_repr config fuel key value_repr (some h) = do
    root_node ← on_store (load_node x a h)
    u ← on_store (insert_recursive_impl x a config fuel h key value_repr (level_of root_node))
    set_root (some u.new_hash)
    grow_root (level_of root_node) u
    with_root λ new_root. pure (root_differs (some h) new_root)

  unfoldable pub insert : ℕ → Key → Value → Exec (Session S) Bool
  unfolding insert_repr
  insert fuel key value = with_tree λ tree. do
    value_repr ← on_store (prepare_value_repr x a tree.config value)
    insert_repr tree.config fuel key value_repr tree.root_hash

  unfoldable pub insert_items : ℕ → List (Key × Value) → Exec (Session S) (Unit {0})
  insert_items fuel [] = pure tt
  insert_items fuel ((key, value) ∷ items) = do insert fuel key value; insert_items fuel items

  unfoldable pub insert_batch : ℕ → List (Key × Value) → Exec (Session S) Bool
  unfolding insert_items root_differs
  insert_batch fuel items =
      with_root
        λ old. do insert_items fuel items; with_root λ new_root. pure (root_differs old new_root)

  -- An internal root with a single child gives way to that child.
  unfoldable pub collapse_root : Node → Exec (Session S) (Unit {0})
  collapse_root (internal level (c ∷ [])) = set_root (some c.child_hash)
  collapse_root _ = pure tt

  unfoldable pub apply_delete : DeleteRecursionResult × Bool → Exec (Session S) Bool
  unfolding collapse_root
  apply_delete (not_found h b, deleted) = pure deleted
  apply_delete (updated u, deleted) = do
    set_root (some u.new_hash)
    new_root ← on_store (load_node x a u.new_hash)
    collapse_root new_root
    pure deleted
  apply_delete (merged, deleted) = do set_root none; pure deleted

  unfoldable pub delete_from : TreeConfig → ℕ → Key → Option Hash → Exec (Session S) Bool
  unfolding apply_delete level_of
  delete_from config fuel key none = pure false
  delete_from config fuel key (some h) = do
    root_node ← on_store (load_node x a h)
    result ← on_store (delete_recursive_impl x a config fuel h key (level_of root_node))
    apply_delete result

  unfoldable pub delete : ℕ → Key → Exec (Session S) Bool
  unfolding delete_from
  delete fuel key = with_tree λ tree. delete_from tree.config fuel key tree.root_hash

  unfoldable pub checkout : Option Hash → Exec (Session S) Bool
  unfolding root_differs
  checkout none = with_root λ old. do set_root none; pure (root_differs old none)
  checkout (some h) =
      with_root
        λ old. do on_store (load_node x a h); set_root (some h); pure (root_differs old (some h))

  unfoldable pub count_items : Node → ℕ
  unfolding sum_items
  count_items (leaf level entries) = length entries % u64_mod
  count_items (internal level children) = sum_items children

  unfoldable pub count_from : Option Hash → Exec (Session S) ℕ
  unfolding count_items
  count_from none = pure 0
  count_from (some h) = do node ← on_store (load_node x a h); pure (count_items node)

  unfoldable pub count_all_items : Exec (Session S) ℕ
  unfolding count_from
  count_all_items = with_root count_from
