-- ===== src/Cursor.antt =====
-- src/tree/cursor.rs: the cursor over the entries of a tree. Its path is a stack from the root to
-- the current leaf; here the top of the stack comes first. The cursor carries the store that it
-- shares with the tree, and not the configuration, which it never reads. The descents run on fuel.
pub mod Ahead
pub mod Next
pub mod Seek
pub mod Traverse
use prolly_gunna.Prelude.{
  ℕ, zero, suc, ◌+◌, ◌-◌, ◌^◌, String, Option, none, some, List, [], ◌∷◌, Bool, true, false, ◌&&◌,
  ◌==◌, if◌then◌else◌, length, get_elem?, binary_search_by, found, absent, Search,
}
use prolly_gunna.Prelude.Bytes.{cmp}
use prolly_gunna.Errors.{
  Result, ok, Exec, pure, fail, stop, ok_or, or_panic, ◌>>=◌, ◌>>◌, internal_error,
}
use prolly_gunna.Node.{Hash, Key, Value, LeafEntry, InternalEntry, Node, leaf, internal}
use prolly_gunna.Externals.{Externals}
use prolly_gunna.Store.Access.{Access}
use prolly_gunna.Io.{load_node, load_value_repr}
use prolly_gunna.Tree.Core.{child_idx}
use prolly_gunna.Tree.Session.{Session}

-- A node on the path with its hash and its index among the children of its parent.
abbrev pub Step : Type 0
Step = Hash × Node × ℕ

pub record Cursor (S : Type 0) : Type 0 where
  pub path : List Step
  pub current_leaf_entry_idx : ℕ
  pub store : S

-- `usize::MAX`: the index of the root, and the place before the first entry of a leaf.
abbrev pub usize_max : ℕ
usize_max = 2 ^ 32 - 1

-- `map_or_else(|idx| idx, |idx| idx)`
abbrev pub search_index : Search → ℕ
search_index (found idx) = idx
search_index (absent idx) = idx

-- Where the first entry at or above the key stands in a leaf.
unfoldable pub entry_idx : Key → List LeafEntry → ℕ
entry_idx key entries = search_index (binary_search_by (λ e. cmp e.key key) entries)

-- The index of the last entry of a leaf, and of the last child of a node.
unfoldable pub last_entry_idx : List LeafEntry → ℕ
last_entry_idx [] = usize_max
last_entry_idx (e ∷ es) = length es

unfoldable pub last_child_idx : List InternalEntry → ℕ
last_child_idx children = length children - 1

-- `checked_sub(1)`
abbrev pub checked_pred : ℕ → Option ℕ
checked_pred zero = none
checked_pred (suc i) = some i

module _ {S : Type 0} where
  -- A cursor before it is placed.
  abbrev pub new_cursor : S → Cursor S
  new_cursor s = record { path = []; current_leaf_entry_idx = 0; store = s }

  abbrev pub on_store : {A : Type 0} → Exec S A → Exec (Cursor S) A
  on_store m c = let (r, s) = m c.store in (r, record c { store = s })

  abbrev pub with_path : {A : Type 0} → (List Step → Exec (Cursor S) A) → Exec (Cursor S) A
  with_path k c = k c.path c

  abbrev pub with_index : {A : Type 0} → (ℕ → Exec (Cursor S) A) → Exec (Cursor S) A
  with_index k c = k c.current_leaf_entry_idx c

  abbrev pub set_path : List Step → Exec (Cursor S) (Unit {0})
  set_path path c = (ok tt, record c { path = path })

  abbrev pub push : Step → Exec (Cursor S) (Unit {0})
  push step c = (ok tt, record c { path = step ∷ c.path })

  abbrev pub set_index : ℕ → Exec (Cursor S) (Unit {0})
  set_index i c = (ok tt, record c { current_leaf_entry_idx = i })

-- The errors of the two versions of the code that moves to another leaf.
pub record Messages : Type 0 where
  pub empty_node : String
  pub parent_not_internal : String

abbrev pub async_messages : Messages
async_messages = record {
  empty_node = "Empty internal node during static advance";
  parent_not_internal = "Cursor path parent not internal during static advance";
}

abbrev pub sync_messages : Messages
sync_messages = record {
  empty_node = "Empty internal node found";
  parent_not_internal = "Parent is not an internal node";
}

module _ {S : Type 0} (x : Externals) (a : Access S) where
  -- The loops that descend to a leaf. They differ in the child they take, and in what they do at an
  -- internal node with no children.
  unfoldable pub descend_from :
      Exec (Cursor S) (Unit {0})
      → (List InternalEntry → ℕ)
      → (Hash → ℕ → Exec (Cursor S) (Unit {0}))
      → Node
      → Exec (Cursor S) (Unit {0})
  descend_from on_empty pick down (leaf level entries) = pure tt
  descend_from on_empty pick down (internal level []) = on_empty
  descend_from on_empty pick down (internal level (c ∷ cs)) = do
    child ← or_panic (get_elem? (c ∷ cs) (pick (c ∷ cs)))
    down child.child_hash (pick (c ∷ cs))

  unfoldable pub descend :
      Exec (Cursor S) (Unit {0})
      → (List InternalEntry → ℕ)
      → ℕ
      → Hash
      → ℕ
      → Exec (Cursor S) (Unit {0})
  unfolding descend_from
  descend on_empty pick zero hash idx = stop
  descend on_empty pick (suc fuel) hash idx = do
    node ← on_store (load_node x a hash)
    push (hash, node, idx)
    descend_from on_empty pick (descend on_empty pick fuel) node

  -- A cursor that is made anew.
  abbrev pub at_start : Exec (Cursor S) (Unit {0})
  at_start = do set_path []; set_index 0

  unfoldable pub new_at_start : ℕ → Option Hash → Exec (Cursor S) (Unit {0})
  unfolding descend
  new_at_start fuel none = at_start
  new_at_start fuel (some root_hash) = do
    at_start
    descend (fail (internal_error "Empty internal node found during cursor init")) (λ cs. 0) fuel
        root_hash usize_max

  -- The index is set where the descent ends, in a leaf.
  unfoldable pub seek_in_leaf : Key → List Step → Exec (Cursor S) (Unit {0})
  unfolding entry_idx
  seek_in_leaf key ((h, leaf level entries, i) ∷ path) = set_index (entry_idx key entries)
  seek_in_leaf key path = pure tt

  unfoldable pub new_at_key : ℕ → Option Hash → Key → Exec (Cursor S) (Unit {0})
  unfolding descend seek_in_leaf
  new_at_key fuel none key = at_start
  new_at_key fuel (some root_hash) key = do
    at_start
    descend (fail (internal_error "Empty internal node found during cursor seek")) (child_idx key)
        fuel root_hash usize_max
    with_path (seek_in_leaf key)

  -- The loop pops the path until a parent has a child after the one that was popped, and descends
  -- to the first leaf below that child. An index of a child and its successor fit a `usize`.
  unfoldable pub advance_next_from : Messages → ℕ → List Step → Exec (Cursor S) Bool
  unfolding descend
  advance_next_from messages fuel [] = do set_path []; pure false
  advance_next_from messages fuel (popped ∷ []) = do set_path []; pure false
  advance_next_from messages fuel (popped ∷ (h, leaf level entries, i) ∷ path) = do
    set_path ((h, leaf level entries, i) ∷ path)
    fail (internal_error messages.parent_not_internal)
  advance_next_from messages fuel ((h', n', popped_idx) ∷ (h, internal level children, i) ∷ path) =
      elim (get_elem? children (popped_idx + 1)) [
        | none ↦ advance_next_from messages fuel ((h, internal level children, i) ∷ path)
        | some child ↦ do
          set_path ((h, internal level children, i) ∷ path)
          descend (fail (internal_error messages.empty_node)) (λ cs. 0) fuel child.child_hash
              (popped_idx + 1)
          pure true
      ]

  -- The same to the left, where the descent goes to the last leaf. The sync version looks for the
  -- index of the root before it looks at the parent.
  unfoldable pub advance_prev_from : Messages → Bool → ℕ → List Step → Exec (Cursor S) Bool
  unfolding descend last_child_idx
  advance_prev_from messages root_first fuel [] = do set_path []; pure false
  advance_prev_from messages root_first fuel (popped ∷ []) = do set_path []; pure false
  advance_prev_from messages root_first fuel
        ((h', n', popped_idx) ∷ (h, leaf level entries, i) ∷ path) =
      do
        set_path ((h, leaf level entries, i) ∷ path)
        if root_first && (popped_idx == usize_max)
            then pure false
            else fail (internal_error messages.parent_not_internal)
  advance_prev_from messages root_first fuel
        ((h', n', popped_idx) ∷ (h, internal level children, i) ∷ path) =
      if popped_idx == usize_max
      then (do set_path ((h, internal level children, i) ∷ path); pure false)
      else elim (checked_pred popped_idx) [
        | none ↦ advance_prev_from messages root_first fuel ((h, internal level children, i) ∷ path)
        | some prev_idx ↦ do
          set_path ((h, internal level children, i) ∷ path)
          child ← or_panic (get_elem? children prev_idx)
          descend (fail (internal_error messages.empty_node)) last_child_idx fuel child.child_hash
              prev_idx
          pure true
      ]

  unfoldable pub advance_cursor_path_to_next_leaf : ℕ → Exec (Cursor S) Bool
  unfolding advance_next_from
  advance_cursor_path_to_next_leaf fuel = with_path (advance_next_from async_messages fuel)

  unfoldable pub advance_cursor_path_to_next_leaf_sync : ℕ → Exec (Cursor S) Bool
  unfolding advance_next_from
  advance_cursor_path_to_next_leaf_sync fuel = with_path (advance_next_from sync_messages fuel)

  unfoldable pub advance_cursor_path_to_prev_leaf : ℕ → Exec (Cursor S) Bool
  unfolding advance_prev_from
  advance_cursor_path_to_prev_leaf fuel = with_path (
      advance_prev_from
        (record {
          empty_node = "Empty internal node during prev_leaf advance";
          parent_not_internal = "Cursor path parent not internal during prev_leaf advance";
        })
        false fuel)

  unfoldable pub advance_cursor_path_to_prev_leaf_sync : ℕ → Exec (Cursor S) Bool
  unfolding advance_prev_from
  advance_cursor_path_to_prev_leaf_sync fuel = with_path (advance_prev_from sync_messages true fuel)

  unfoldable pub advance_to_next_leaf : ℕ → Exec (Cursor S) Bool
  unfolding advance_cursor_path_to_next_leaf
  advance_to_next_leaf fuel = do
    advanced ← advance_cursor_path_to_next_leaf fuel
    if advanced then set_index 0 else pure tt
    pure advanced

  unfoldable pub set_last_index : List Step → Exec (Cursor S) (Unit {0})
  unfolding last_entry_idx
  set_last_index [] = fail (internal_error "Path empty after advancing to previous leaf")
  set_last_index ((h, leaf level entries, i) ∷ path) = set_index (last_entry_idx entries)
  set_last_index ((h, internal level children, i) ∷ path) =
      fail (internal_error "Advanced to previous non-leaf node")

  unfoldable pub advance_to_prev_leaf : ℕ → Exec (Cursor S) Bool
  unfolding advance_cursor_path_to_prev_leaf set_last_index
  advance_to_prev_leaf fuel = do
    advanced ← advance_cursor_path_to_prev_leaf fuel
    if advanced then with_path set_last_index else pure tt
    pure advanced

  -- One round of the loop of `next`: an entry of the leaf is read, or the next leaf is tried.
  unfoldable pub next_in_leaf :
      ℕ
      → Exec (Cursor S) (Option (Key × Value))
      → Option LeafEntry
      → Exec (Cursor S) (Option (Key × Value))
  unfolding advance_to_next_leaf
  next_in_leaf fuel again none = do
    advanced ← advance_to_next_leaf fuel
    if advanced then again else pure none
  next_in_leaf fuel again (some entry) = do
    with_index λ idx. set_index (idx + 1)
    value ← on_store (load_value_repr x a entry.value)
    pure (some (entry.key, value))

  unfoldable pub next_at :
      ℕ
      → Exec (Cursor S) (Option (Key × Value))
      → List Step
      → Exec (Cursor S) (Option (Key × Value))
  unfolding next_in_leaf
  next_at fuel again [] = pure none
  next_at fuel again ((h, internal level children, i) ∷ path) =
      fail (internal_error "Cursor path did not end in a leaf node")
  next_at fuel again ((h, leaf level entries, i) ∷ path) =
      with_index λ idx. next_in_leaf fuel again (get_elem? entries idx)

  -- The rounds of the loop are the first fuel, the levels of a descent the second.
  unfoldable pub next : ℕ → ℕ → Exec (Cursor S) (Option (Key × Value))
  unfolding next_at
  next zero fuel = stop
  next (suc rounds) fuel = with_path (next_at fuel (next rounds fuel))

  -- The methods of `ProllyTree` that make a cursor. It reads the store of the tree.
  unfoldable pub cursor_start : ℕ → Session S → Result (Unit {0}) × Cursor S
  unfolding new_at_start
  cursor_start fuel w = new_at_start fuel w.tree.root_hash (new_cursor w.store)

  unfoldable pub seek : ℕ → Key → Session S → Result (Unit {0}) × Cursor S
  unfolding new_at_key
  seek fuel key w = new_at_key fuel w.tree.root_hash key (new_cursor w.store)
