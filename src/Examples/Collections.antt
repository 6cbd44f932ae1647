-- ===== src/Examples/Collections.antt =====
-- The theorems on the store, on stored nodes and values, and on the collector, at concrete inputs.
use prolly_gunna.Prelude.{
  Bool, ℕ, Option, none, some, [], ◌∷◌, ◌≡◌, refl, ap, subst, arith, inl, if◌then◌else◌,
}
use prolly_gunna.Prelude.Bytes.{bytes_eq}
use prolly_gunna.Errors.{Result, ok, ◌>>=◌, ◌>>◌}
use prolly_gunna.Node.{Hash, Node, leaf, inline, boundary_of}
use prolly_gunna.Store.Memory
use prolly_gunna.Store.Memory.{InMemoryStore}
use prolly_gunna.Store.Memory.Map.{find, contains}
use prolly_gunna.Store.Memory.Laws.{view, get-put, get-delete_batch, async_access-IsAccess}
use prolly_gunna.Io.{
  load_node, store_node_and_get_key_hash_pair, prepare_value_repr, load_value_repr,
}
use prolly_gunna.Io.RoundTrip.{load_node-store_node, load_value_repr-prepare_value_repr}
use prolly_gunna.Tree.SortedMap.{lookup}
use prolly_gunna.Tree.Session.{Session, root, get}
use prolly_gunna.Tree.Session.Insert.{insert_lem}
use prolly_gunna.Tree.Session.Represents.{Represents}
use prolly_gunna.Gc.{memory, collect, gc, gc_roots}
use prolly_gunna.Gc.Collect.{Collected, collect_lem, enough_fuel}
use prolly_gunna.Gc.Survive.{get-gc}
use prolly_gunna.Examples.World.{
  world, world-IsLawful, world-IsChunker, narrow, access, good, fuel, start, start-IsAddressed,
  second_insert, second_insert-IsTree, planted, planted_map, planted-IsTree,
}

get-put_example :
    ((do Memory.put world (1 ∷ 2 ∷ []); Memory.get (1 ∷ 2 ∷ [])) start.store).0
    ≡ ok (
        if bytes_eq (1 ∷ 2 ∷ []) (1 ∷ 2 ∷ [])
        then some (1 ∷ 2 ∷ [])
        else find (1 ∷ 2 ∷ []) start.store.chunks)
get-put_example =
    get-put world world-IsLawful (1 ∷ 2 ∷ []) (1 ∷ 2 ∷ []) start.store start-IsAddressed

get-delete_batch_example :
    ((do Memory.delete_batch ((1 ∷ 2 ∷ []) ∷ []); Memory.get (3 ∷ 4 ∷ [])) planted.store).0
    ≡ ok (
        if contains (3 ∷ 4 ∷ []) ((1 ∷ 2 ∷ []) ∷ [])
        then none
        else find (3 ∷ 4 ∷ []) planted.store.chunks)
get-delete_batch_example = get-delete_batch ((1 ∷ 2 ∷ []) ∷ []) (3 ∷ 4 ∷ []) planted.store

abbrev a_leaf : Node
a_leaf = leaf 0 (record { key = 4 ∷ []; value = inline (5 ∷ []) } ∷ [])

load_node-store_node_example :
    ((do p ← store_node_and_get_key_hash_pair world access a_leaf; load_node world access p.1)
      planted.store).0
    ≡ ok a_leaf
unfolding boundary_of
load_node-store_node_example =
    load_node-store_node good world-IsLawful a_leaf (4 ∷ []) planted.store planted-IsTree.ready refl

load_value_repr_example :
    ((do
      r ← prepare_value_repr world access narrow (1 ∷ 2 ∷ 3 ∷ 4 ∷ 5 ∷ [])
      load_value_repr world access r)
      planted.store).0
    ≡ ok (1 ∷ 2 ∷ 3 ∷ 4 ∷ 5 ∷ [])
load_value_repr_example =
    load_value_repr-prepare_value_repr good narrow (1 ∷ 2 ∷ 3 ∷ 4 ∷ 5 ∷ []) planted.store
      (world-IsChunker narrow) planted-IsTree.ready

planted_root : (h : Hash) × (root planted ≡ some h)
planted_root =
    let t = second_insert-IsTree in
    let q =
      insert_lem world-IsLawful good fuel t.depth (30 ∷ []) (5 ∷ 6 ∷ []) _ second_insert t.chunker
        t.wide (omega (arith, t.level)) (omega (arith, t.level)) t.ready t.represents in
    (q.hash, ap (λ (run : Result Bool × Session InMemoryStore). root run.1) q.returns)

abbrev collector_fuel : ℕ
collector_fuel = enough_fuel world planted.store (gc_roots (root planted) [])

collect_example :
    Collected world planted.store
      (gc_roots (root planted) [])
      (collect world memory collector_fuel (gc_roots (root planted) []) planted.store)
collect_example =
    collect_lem world planted.store (gc_roots (root planted) []) collector_fuel (omega arith)

get-gc_example :
    (get world access fuel (10 ∷ []) (record {
      tree = planted.tree;
      store = (gc world memory collector_fuel [] planted).1.store;
    })).0
    ≡ ok (lookup (10 ∷ []) planted_map)
unfolding good async_access-IsAccess
get-gc_example =
    get-gc world world-IsLawful collector_fuel [] planted (omega arith) planted-IsTree.depth fuel
      planted_root.0 (10 ∷ []) planted_map planted.tree (omega (arith, planted-IsTree.level))
      planted-IsTree.ready (inl planted_root.1)
      (subst
        (λ (o : Option Hash).
          Represents world (view planted.store) planted-IsTree.depth o planted_map)
        planted_root.1 planted-IsTree.represents)
      planted_root.1
