-- ===== src/Examples/Deletions.antt =====
-- The theorems on deletion at concrete inputs: the tree of three insertions, and two leaves under
-- one parent.
use prolly_gunna.Prelude.{ℕ, List, [], ◌∷◌, ◌++◌, ◌≡◌, refl, arith, false}
use prolly_gunna.Errors.{ok}
use prolly_gunna.Node.{TreeConfig, LeafEntry, InternalEntry, leaf, inline, boundary_of}
use prolly_gunna.Io.Laws.{NodeStored, store_node_lem, NodeAt-Extends}
use prolly_gunna.Prelude.Bytes.{cmp}
use prolly_gunna.Tree.SortedMap
use prolly_gunna.Tree.SortedMap.{lookup}
use prolly_gunna.Tree.Holds.{Holds, Children}
use prolly_gunna.Tree.Underflow.{handle_underflow_strategy}
use prolly_gunna.Tree.Underflow.Siblings.{Rebalanced}
use prolly_gunna.Tree.Underflow.Strategy.{handle_underflow_strategy_lem}
use prolly_gunna.Tree.Session.{delete}
use prolly_gunna.Tree.Session.Delete.{delete_absent}
use prolly_gunna.Examples.World.{
  world, world-IsLawful, narrow, access, good, fuel, start, start-IsTree, planted, planted_map,
  planted-IsTree,
}

delete_absent_example : delete world access fuel (15 ∷ []) planted ≡ (ok false, planted)
unfolding lookup SortedMap.insert cmp
delete_absent_example =
    let t = planted-IsTree in
    delete_absent good fuel t.depth (15 ∷ []) planted_map planted (omega (arith, t.level)) t.ready
      t.represents refl

abbrev entry : ℕ → LeafEntry
entry k = record { key = k ∷ []; value = inline (k ∷ []) }

abbrev low : List LeafEntry
low = entry 1 ∷ []

abbrev high : List LeafEntry
high = entry 2 ∷ entry 3 ∷ entry 4 ∷ []

low_stored : NodeStored good (leaf 0 low) (1 ∷ []) start.store
unfolding boundary_of
low_stored =
    store_node_lem good world-IsLawful (leaf 0 low) (1 ∷ []) start.store start-IsTree.ready refl

high_stored : NodeStored good (leaf 0 high) (4 ∷ []) low_stored.after
unfolding boundary_of
high_stored =
    store_node_lem good world-IsLawful (leaf 0 high) (4 ∷ []) low_stored.after low_stored.ready refl

abbrev wider : TreeConfig
wider = record narrow { target_fanout = 4; min_fanout = 2 }

abbrev parent : List InternalEntry
parent =
    record { boundary_key = 1 ∷ []; child_hash = low_stored.hash; num_items_subtree = 1 }
    ∷ record { boundary_key = 4 ∷ []; child_hash = high_stored.hash; num_items_subtree = 3 }
    ∷ []

parent-Holds : Children (Holds world (good.view high_stored.after) 0) parent (low ++ high)
parent-Holds = (
  low,
  high,
  refl,
  (NodeAt-Extends high_stored.keeps low_stored.node_at, refl, refl),
  (high, [], refl, (high_stored.node_at, refl, refl), refl),
)

handle_underflow_strategy_example :
    Rebalanced world-IsLawful good 0 high_stored.after
      (low ++ high)
      (handle_underflow_strategy world access wider parent 0 high_stored.after)
handle_underflow_strategy_example =
    handle_underflow_strategy_lem world-IsLawful good 0 parent (low ++ high) high_stored.after wider
      0 (omega arith) (omega arith) (omega arith) high_stored.ready parent-Holds
