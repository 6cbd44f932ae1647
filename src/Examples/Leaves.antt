-- ===== src/Examples/Leaves.antt =====
-- The differences of two leaves in one store.
use prolly_gunna.Prelude.{
  Option, some, [], ◌∷◌, ◌≡◌, List, false, inl, inr, refl, sym, ap, ◌∙◌, Bool-cases,
}
use prolly_gunna.Prelude.Bytes.{bytes_eq, bytes_eq_iff, cmp}
use prolly_gunna.Errors.{ok}
use prolly_gunna.Node.{Key, LeafEntry, Node, leaf, inline, boundary_of}
use prolly_gunna.Store.Memory.{InMemoryStore}
use prolly_gunna.Store.Memory.Laws.{async_access-IsAccess}
use prolly_gunna.Io.Laws.{NodeAt, NodeAt-Extends, NodeStored, store_node_lem}
use prolly_gunna.Tree.SortedMap.{lookup}
use prolly_gunna.Tree.Session.{Session}
use prolly_gunna.Diff.{diff, DiffEntry}
use prolly_gunna.Diff.Changes.{change, find_diff}
use prolly_gunna.Diff.Sides.{diff_leaves}
use prolly_gunna.Examples.World.{
  world, world-IsLawful, access, good, start, start-IsAddressed, narrow,
}

abbrev left_entries : List LeafEntry
left_entries =
    record { key = 1 ∷ []; value = inline (4 ∷ []) }
    ∷ record { key = 2 ∷ []; value = inline (5 ∷ []) }
    ∷ []

abbrev right_entries : List LeafEntry
right_entries =
    record { key = 2 ∷ []; value = inline (6 ∷ []) }
    ∷ record { key = 3 ∷ []; value = inline [] }
    ∷ []

left_stored : NodeStored good (leaf 0 left_entries) (2 ∷ []) start.store
unfolding boundary_of good async_access-IsAccess
left_stored =
    store_node_lem good world-IsLawful (leaf 0 left_entries) (2 ∷ []) start.store start-IsAddressed
      refl

right_stored : NodeStored good (leaf 0 right_entries) (3 ∷ []) left_stored.after
unfolding boundary_of
right_stored =
    store_node_lem good world-IsLawful (leaf 0 right_entries) (3 ∷ []) left_stored.after
      left_stored.ready refl

abbrev two_leaves : Session InMemoryStore
two_leaves = record {
  tree = record { root_hash = some left_stored.hash; config = narrow };
  store = right_stored.after;
}

left_at : NodeAt world (good.view two_leaves.store) left_stored.hash (leaf 0 left_entries)
left_at = NodeAt-Extends right_stored.keeps left_stored.node_at

-- Two different nodes do not share a hash.
hashes_differ : bytes_eq left_stored.hash right_stored.hash ≡ false
hashes_differ = elim (Bool-cases (bytes_eq left_stored.hash right_stored.hash)) [
  | inr differ ↦ differ
  | inl same ↦
      let e = (bytes_eq_iff left_stored.hash right_stored.hash).0 same in
      let b : left_at.bytes ≡ right_stored.node_at.bytes =
        cc (sym left_at.stored ∙ ap (good.view two_leaves.store) e ∙ right_stored.node_at.stored) in
      let n = sym left_at.decodes ∙ ap world.deserialize b ∙ right_stored.node_at.decodes in
      absurd (different n)
]
  where
    different : ◌≡◌ {A = Option Node} (some (leaf 0 left_entries)) (some (leaf 0 right_entries)) → ⊥
    different n = cc

diff_leaves_example :
    (ds : List DiffEntry) × (diff world access 1 0 (some right_stored.hash) two_leaves
      ≡ (ok ds, two_leaves))
    × ((k : Key)
        → find_diff k ds
          ≡ change k
              (lookup k ((1 ∷ [], 4 ∷ []) ∷ (2 ∷ [], 5 ∷ []) ∷ []))
              (lookup k ((2 ∷ [], 6 ∷ []) ∷ (3 ∷ [], []) ∷ [])))
unfolding cmp
diff_leaves_example =
    diff_leaves good 0 0 left_stored.hash right_stored.hash
      ((1 ∷ [], 4 ∷ []) ∷ (2 ∷ [], 5 ∷ []) ∷ []) ((2 ∷ [], 6 ∷ []) ∷ (3 ∷ [], []) ∷ []) two_leaves
      refl hashes_differ right_stored.ready
      (record {
        entries = left_entries;
        holds = left_at;
        sorted = ((refl, tt), (tt, tt));
        last = 2 ∷ [];
        nonempty = refl;
        pairs = (refl, refl, (refl, refl, refl));
      })
      (record {
        entries = right_entries;
        holds = right_stored.node_at;
        sorted = ((refl, tt), (tt, tt));
        last = 3 ∷ [];
        nonempty = refl;
        pairs = (refl, refl, (refl, refl, refl));
      })
