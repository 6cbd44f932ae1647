-- ===== src/Diff.antt =====
-- src/diff.rs: the differences of two trees. Two leaves are merged entry by entry, two internal
-- nodes child by child; a subtree that has no counterpart is walked in breadth. The walks run on
-- fuel. The futures of one node's children are run in the order in which they are joined.
pub mod Leaves
pub mod Changes
pub mod Subtree
pub mod Sides
use prolly_gunna.Prelude.{
  ℕ, zero, suc, Option, none, some, List, [], ◌∷◌, ◌++◌, map, Bool, true, false, lt, eq, gt, ◌==◌,
  if◌then◌else◌,
}
use prolly_gunna.Prelude.Bytes.{cmp, bytes_eq}
use prolly_gunna.Errors.{Exec, pure, stop, ◌>>=◌}
use prolly_gunna.Node.{Hash, Key, Value, LeafEntry, InternalEntry, Node, leaf, internal}
use prolly_gunna.Externals.{Externals}
use prolly_gunna.Store.Access.{Access}
use prolly_gunna.Io.{load_node, load_value_repr}
use prolly_gunna.Tree.Session.{Session, root_differs, on_store, with_root}

pub record DiffEntry : Type 0 where
  pub key : Key
  pub left_value : Option Value
  pub right_value : Option Value

unfoldable pub addition : Key → Value → DiffEntry
addition key value = record { key = key; left_value = none; right_value = some value }

unfoldable pub deletion : Key → Value → DiffEntry
deletion key value = record { key = key; left_value = some value; right_value = none }

unfoldable pub modification : Key → Value → Value → DiffEntry
modification key left right = record { key = key; left_value = some left; right_value = some right }

unfoldable pub side_entry : Bool → Key → Value → DiffEntry
unfolding addition deletion
side_entry is_addition key value = if is_addition then addition key value else deletion key value

-- The children of two nodes, paired by their boundary keys. A pair of one hash twice is left out.
unfoldable pub child_pairs :
    List InternalEntry → List InternalEntry → List (Option Hash × Option Hash)
child_pairs [] [] = []
child_pairs (c ∷ cs) [] = (some c.child_hash, none) ∷ child_pairs cs []
child_pairs [] (d ∷ ds) = (none, some d.child_hash) ∷ child_pairs [] ds
child_pairs (c ∷ cs) (d ∷ ds) = elim (cmp c.boundary_key d.boundary_key) [
  | lt ↦ (some c.child_hash, none) ∷ child_pairs cs (d ∷ ds)
  | gt ↦ (none, some d.child_hash) ∷ child_pairs (c ∷ cs) ds
  | eq ↦
      if bytes_eq c.child_hash d.child_hash
      then child_pairs cs ds
      else (some c.child_hash, some d.child_hash) ∷ child_pairs cs ds
]

module _ {S : Type 0} (x : Externals) (a : Access S) where
  unfoldable pub leaf_diff : List LeafEntry → List LeafEntry → Exec S (List DiffEntry)
  unfolding addition deletion modification
  leaf_diff [] [] = pure []
  leaf_diff (e ∷ es) [] = do
    val ← load_value_repr x a e.value
    diffs ← leaf_diff es []
    pure (deletion e.key val ∷ diffs)
  leaf_diff [] (f ∷ fs) = do
    val ← load_value_repr x a f.value
    diffs ← leaf_diff [] fs
    pure (addition f.key val ∷ diffs)
  leaf_diff (e ∷ es) (f ∷ fs) = elim (cmp e.key f.key) [
    | lt ↦ do
      val ← load_value_repr x a e.value
      diffs ← leaf_diff es (f ∷ fs)
      pure (deletion e.key val ∷ diffs)
    | gt ↦ do
      val ← load_value_repr x a f.value
      diffs ← leaf_diff (e ∷ es) fs
      pure (addition f.key val ∷ diffs)
    | eq ↦ do
      val1 ← load_value_repr x a e.value
      val2 ← load_value_repr x a f.value
      diffs ← leaf_diff es fs
      pure (if bytes_eq val1 val2 then diffs else modification e.key val1 val2 ∷ diffs)
  ]

  unfoldable pub entry_diffs : Bool → List LeafEntry → Exec S (List DiffEntry)
  unfolding side_entry
  entry_diffs is_addition [] = pure []
  entry_diffs is_addition (e ∷ es) = do
    value ← load_value_repr x a e.value
    diffs ← entry_diffs is_addition es
    pure (side_entry is_addition e.key value ∷ diffs)

  -- What the loop does with the node that it took from the queue.
  unfoldable pub visit :
      Bool → (List Hash → Exec S (List DiffEntry)) → List Hash → Node → Exec S (List DiffEntry)
  unfolding entry_diffs
  visit is_addition again queue (leaf level entries) = do
    diffs ← entry_diffs is_addition entries
    rest ← again queue
    pure (diffs ++ rest)
  visit is_addition again queue (internal level children) =
      again (queue ++ map (λ c. c.child_hash) children)

  -- The loop over the queue.
  unfoldable pub drain_queue : Bool → ℕ → List Hash → Exec S (List DiffEntry)
  unfolding visit
  drain_queue is_addition zero [] = pure []
  drain_queue is_addition zero (hash ∷ queue) = stop
  drain_queue is_addition (suc fuel) [] = pure []
  drain_queue is_addition (suc fuel) (hash ∷ queue) = do
    node ← load_node x a hash
    visit is_addition (drain_queue is_addition fuel) queue node

  unfoldable pub generate_diffs_for_subtree : ℕ → Hash → Bool → Exec S (List DiffEntry)
  unfolding drain_queue
  generate_diffs_for_subtree fuel root_hash is_addition =
      drain_queue is_addition fuel (root_hash ∷ [])

  unfoldable pub both_sides : ℕ → Hash → Hash → Exec S (List DiffEntry)
  unfolding generate_diffs_for_subtree
  both_sides fuel h1 h2 = do
    deletions ← generate_diffs_for_subtree fuel h1 false
    additions ← generate_diffs_for_subtree fuel h2 true
    pure (deletions ++ additions)

  unfoldable pub join_all :
      (Option Hash → Option Hash → Exec S (List DiffEntry))
      → List (Option Hash × Option Hash)
      → Exec S (List DiffEntry)
  join_all diff [] = pure []
  join_all diff ((left, right) ∷ pairs) = do
    diffs ← diff left right
    rest ← join_all diff pairs
    pure (diffs ++ rest)

  unfoldable pub node_diff :
      ℕ
      → (Option Hash → Option Hash → Exec S (List DiffEntry))
      → Hash
      → Hash
      → Node
      → Node
      → Exec S (List DiffEntry)
  unfolding leaf_diff both_sides join_all child_pairs
  node_diff fuel diff h1 h2 (leaf l1 entries1) (leaf l2 entries2) = leaf_diff entries1 entries2
  node_diff fuel diff h1 h2 (internal l1 children1) (internal l2 children2) =
      if l1 == l2 then join_all diff (child_pairs children1 children2) else both_sides fuel h1 h2
  node_diff fuel diff h1 h2 (leaf l1 entries1) (internal l2 children2) = both_sides fuel h1 h2
  node_diff fuel diff h1 h2 (internal l1 children1) (leaf l2 entries2) = both_sides fuel h1 h2

  unfoldable pub diff_differing :
      ℕ
      → (Option Hash → Option Hash → Exec S (List DiffEntry))
      → Option Hash
      → Option Hash
      → Exec S (List DiffEntry)
  unfolding generate_diffs_for_subtree node_diff
  diff_differing fuel diff none none = pure []
  diff_differing fuel diff none (some h2) = generate_diffs_for_subtree fuel h2 true
  diff_differing fuel diff (some h1) none = generate_diffs_for_subtree fuel h1 false
  diff_differing fuel diff (some h1) (some h2) = do
    node1 ← load_node x a h1
    node2 ← load_node x a h2
    node_diff fuel diff h1 h2 node1 node2

  -- The first fuel is for the levels of the recursion, the second for the nodes of a walk.
  unfoldable pub recursive_diff : ℕ → ℕ → Option Hash → Option Hash → Exec S (List DiffEntry)
  unfolding diff_differing root_differs
  recursive_diff zero fuel left_hash right_hash = stop
  recursive_diff (suc levels) fuel left_hash right_hash =
      if root_differs left_hash right_hash
      then diff_differing fuel (recursive_diff levels fuel) left_hash right_hash
      else pure []

  unfoldable pub diff_trees : ℕ → ℕ → Option Hash → Option Hash → Exec S (List DiffEntry)
  unfolding recursive_diff
  diff_trees levels fuel left_root_hash right_root_hash =
      recursive_diff levels fuel left_root_hash right_root_hash

  unfoldable pub diff : ℕ → ℕ → Option Hash → Exec (Session S) (List DiffEntry)
  unfolding diff_trees
  diff levels fuel other_root_hash =
      with_root λ root_hash. on_store (diff_trees levels fuel root_hash other_root_hash)
