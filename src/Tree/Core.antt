-- ===== src/Tree/Core.antt =====
-- src/tree/core_logic.rs: lookup and insertion by descent from a node. The recursion over hashes
-- runs on fuel. Each function is written once, over the reads and writes of an `Access`: the async
-- functions are it at the async methods, and the sync ones at the sync methods of a store.
pub mod Descend
pub mod Get
pub mod Insert
use prolly_gunna.Prelude.{
  ℕ, zero, suc, ◌+◌, ◌-◌, ◌/◌, ◌%◌, Option, none, some, List, [], ◌∷◌, ltb, if◌then◌else◌, length,
  get_elem?, set, insert_at, take, drop, position, Search, found, absent, binary_search_by,
}
use prolly_gunna.Prelude.Bytes.{cmp, le_key}
use prolly_gunna.Errors.{Exec, pure, stop, ok_or, or_panic, ◌>>=◌, internal_error}
use prolly_gunna.Node.{
  Hash, Key, Value, TreeConfig, ValueRepr, LeafEntry, InternalEntry, Node, leaf, internal, u64_mod,
  u8_mod, sum_items, last_key, last_boundary,
}
use prolly_gunna.Externals.{Externals}
use prolly_gunna.Store.Access.{Access}
use prolly_gunna.Io.{load_node, load_value_repr, store_node_and_get_key_hash_pair}
use prolly_gunna.Tree.Types.{ProcessedNodeUpdate, entry_of, sibling_of}

-- The first child whose boundary is not below the key, or else the last child.
unfoldable pub child_idx : Key → List InternalEntry → ℕ
child_idx key children = elim (position (λ c. le_key key c.boundary_key) children) [
  | none ↦ length children - 1
  | some idx ↦ idx
]

abbrev pub search_entries : Key → List LeafEntry → Search
search_entries key entries = binary_search_by (λ e. cmp e.key key) entries

-- The value of an entry in the leaf is replaced, or a new entry goes to its place.
unfoldable pub put_entry : Key → ValueRepr → List LeafEntry → List LeafEntry
put_entry key value entries = elim (search_entries key entries) [
  | found index ↦ elim (get_elem? entries index) [
    | none ↦ entries
    | some e ↦ set entries index (record e { value = value })
  ]
  | absent index ↦ insert_at entries index (record { key = key; value = value })
]

-- Where the sibling of a split child goes: `binary_search_by_key(..).unwrap_or_else(|e| e)`.
unfoldable pub put_sibling : InternalEntry → List InternalEntry → List InternalEntry
put_sibling entry children =
    elim (binary_search_by (λ c. cmp c.boundary_key entry.boundary_key) children) [
      | found index ↦ insert_at children index entry
      | absent index ↦ insert_at children index entry
    ]

module _ {S : Type 0} (x : Externals) (a : Access S) where
  unfoldable pub get_in_leaf : Key → List LeafEntry → Exec S (Option Value)
  get_in_leaf key entries = elim (search_entries key entries) [
    | found index ↦ do
      entry ← or_panic (get_elem? entries index)
      value ← load_value_repr x a entry.value
      pure (some value)
    | absent index ↦ pure none
  ]

  unfoldable pub get_in_node :
      (Hash → Key → Exec S (Option Value)) → Key → Node → Exec S (Option Value)
  unfolding get_in_leaf child_idx
  get_in_node rec key (leaf level entries) = get_in_leaf key entries
  get_in_node rec key (internal level []) = pure none
  get_in_node rec key (internal level (c ∷ cs)) = do
    child ← or_panic (get_elem? (c ∷ cs) (child_idx key (c ∷ cs)))
    rec child.child_hash key

  unfoldable pub get_recursive_impl : ℕ → Hash → Key → Exec S (Option Value)
  unfolding get_in_node
  get_recursive_impl zero node_hash key = stop
  get_recursive_impl (suc fuel) node_hash key = do
    node ← load_node x a node_hash
    get_in_node (get_recursive_impl fuel) key node

  module _ (config : TreeConfig) where
    -- The right half of a leaf that is too long is stored first, then the left half.
    unfoldable pub split_leaf : ℕ → List LeafEntry → Exec S ProcessedNodeUpdate
    split_leaf level entries =
        let left = take (length entries / 2) entries in
        let right = drop (length entries / 2) entries in
        do
          right_boundary ←
              ok_or (internal_error "Split leaf created empty right sibling") (last_key right)
          (_, right_hash) ← store_node_and_get_key_hash_pair x a (leaf 0 right)
          (left_boundary, left_hash) ← store_node_and_get_key_hash_pair x a (leaf level left)
          pure (record {
            new_hash = left_hash;
            new_boundary_key = left_boundary;
            new_item_count = length left % u64_mod;
            split_info = some (right_boundary, right_hash, length right % u64_mod);
          })

    unfoldable pub store_leaf : ℕ → List LeafEntry → Exec S ProcessedNodeUpdate
    store_leaf level entries = do
      (new_boundary, new_hash) ← store_node_and_get_key_hash_pair x a (leaf level entries)
      pure (record {
        new_hash = new_hash;
        new_boundary_key = new_boundary;
        new_item_count = length entries % u64_mod;
        split_info = none;
      })

    unfoldable pub insert_in_leaf :
        Key → ValueRepr → ℕ → List LeafEntry → Exec S ProcessedNodeUpdate
    unfolding put_entry split_leaf store_leaf
    insert_in_leaf key value level entries =
        let entries' = put_entry key value entries in
        if ltb config.target_fanout (length entries')
        then split_leaf level entries'
        else store_leaf level entries'

    -- The node is stored with the children that it keeps.
    unfoldable pub store_internal :
        ℕ → List InternalEntry → Option (Key × Hash × ℕ) → Exec S ProcessedNodeUpdate
    store_internal level children split_info = do
      (new_boundary, new_hash) ← store_node_and_get_key_hash_pair x a (internal level children)
      pure (record {
        new_hash = new_hash;
        new_boundary_key = new_boundary;
        new_item_count = sum_items children;
        split_info = split_info;
      })

    -- `own_level` is the level in the node, `level` the one that the recursion passes down.
    unfoldable pub split_internal : ℕ → ℕ → List InternalEntry → Exec S ProcessedNodeUpdate
    unfolding store_internal
    split_internal own_level level children =
        let left = take (length children / 2) children in
        let right = drop (length children / 2) children in
        do
          right_boundary ←
              ok_or (internal_error "Split internal created empty right sibling")
                (last_boundary right)
          (_, right_hash) ← store_node_and_get_key_hash_pair x a (internal level right)
          store_internal own_level left (some (right_boundary, right_hash, sum_items right))

    -- The child at `idx` was updated, and perhaps split.
    unfoldable pub update_child :
        ℕ → ℕ → ℕ → List InternalEntry → ProcessedNodeUpdate → Exec S ProcessedNodeUpdate
    unfolding store_internal split_internal put_sibling
    update_child own_level level idx children u =
        let children' = set children idx (entry_of u) in
        elim u.split_info [
          | none ↦ store_internal own_level children' none
          | some split ↦
              let children'' = put_sibling (sibling_of split) children' in
              if ltb config.target_fanout (length children'')
              then split_internal own_level level children''
              else store_internal own_level children'' none
        ]

    unfoldable pub insert_in_node :
        (Hash → Key → ValueRepr → ℕ → Exec S ProcessedNodeUpdate)
        → Key
        → ValueRepr
        → ℕ
        → Node
        → Exec S ProcessedNodeUpdate
    unfolding insert_in_leaf child_idx update_child
    insert_in_node rec key value level (leaf own_level entries) =
        insert_in_leaf key value own_level entries
    insert_in_node rec key value level (internal own_level children) = do
      child ← or_panic (get_elem? children (child_idx key children))
      u ← rec child.child_hash key value ((level + u8_mod - 1) % u8_mod)
      update_child own_level level (child_idx key children) children u

    unfoldable pub insert_recursive_impl :
        ℕ → Hash → Key → ValueRepr → ℕ → Exec S ProcessedNodeUpdate
    unfolding insert_in_node
    insert_recursive_impl zero node_hash key value level = stop
    insert_recursive_impl (suc fuel) node_hash key value level = do
      node ← load_node x a node_hash
      insert_in_node (insert_recursive_impl fuel) key value level node
