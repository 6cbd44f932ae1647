-- ===== src/Examples/Runs.antt =====
-- The theorems at concrete inputs: the tree of three insertions.
use prolly_gunna.Prelude.{
  Bool, false, none, refl, ◌↔◌, some, [], ◌∷◌, ◌≡◌, arith, if◌then◌else◌, length, ◌%◌,
}
use prolly_gunna.Prelude.Bytes.{bytes_eq}
use prolly_gunna.Errors.{ok, ◌>>◌}
use prolly_gunna.Node.{u64_mod}
use prolly_gunna.Tree.SortedMap
use prolly_gunna.Tree.SortedMap.{SortedMap, lookup}
use prolly_gunna.Tree.Session.{root, get, insert, insert_batch, count_all_items, checkout}
use prolly_gunna.Tree.Session.Get.{get_lem, count_all_items_lem}
use prolly_gunna.Tree.Session.History.{
  insert_all, checkout-checkout, at_root, get-insert, checkout-insert, get-insert_batch,
}
use prolly_gunna.Tree.Session.Invariant.{IsTree, insert-IsTree}
use prolly_gunna.Examples.World.{
  world, world-IsLawful, access, good, fuel, planted, planted_map, planted-IsTree,
}

get_example : get world access fuel (10 ∷ []) planted ≡ (ok (lookup (10 ∷ []) planted_map), planted)
get_example =
    let t = planted-IsTree in
    get_lem good fuel t.depth (10 ∷ []) planted_map planted (omega (arith, t.level)) t.ready
      t.represents

count_all_items_example :
    count_all_items world access planted ≡ (ok (length planted_map % u64_mod), planted)
count_all_items_example =
    let t = planted-IsTree in
    count_all_items_lem good t.depth planted_map planted t.ready t.represents

insert-IsTree_example :
    IsTree good 4
      (SortedMap.insert (25 ∷ []) (9 ∷ []) planted_map)
      (insert world access fuel (25 ∷ []) (9 ∷ []) planted).1
insert-IsTree_example =
    insert-IsTree good world-IsLawful fuel 3 (25 ∷ []) (9 ∷ []) planted_map planted (omega arith)
      (omega arith) planted-IsTree

get-insert_example :
    (do insert world access fuel (25 ∷ []) (9 ∷ []); get world access fuel (30 ∷ [])) planted ≡ (
      ok (if bytes_eq (25 ∷ []) (30 ∷ []) then some (9 ∷ []) else lookup (30 ∷ []) planted_map),
      (insert world access fuel (25 ∷ []) (9 ∷ []) planted).1,
    )
get-insert_example =
    let t = planted-IsTree in
    get-insert good world-IsLawful fuel t.depth (25 ∷ []) (30 ∷ []) (9 ∷ []) planted_map planted
      t.chunker t.wide (omega (arith, t.level)) (omega (arith, t.level)) t.ready t.represents

checkout-insert_example :
    ((do
      insert world access fuel (10 ∷ []) (9 ∷ [])
      checkout world access (root planted)
      get world access fuel (10 ∷ []))
      planted).0
    ≡ ok (lookup (10 ∷ []) planted_map)
checkout-insert_example =
    let t = planted-IsTree in
    checkout-insert good world-IsLawful fuel t.depth t.depth (10 ∷ []) (10 ∷ []) (9 ∷ [])
      (root planted) planted_map planted_map planted t.chunker t.wide (omega (arith, t.level))
      (omega (arith, t.level)) (omega (arith, t.level)) t.ready t.represents t.represents

get-insert_batch_example :
    ((do
      insert_batch world access fuel ((5 ∷ [], 1 ∷ 2 ∷ 3 ∷ []) ∷ (30 ∷ [], []) ∷ [])
      get world access fuel (30 ∷ []))
      planted).0
    ≡ ok (lookup (30 ∷ []) (insert_all ((5 ∷ [], 1 ∷ 2 ∷ 3 ∷ []) ∷ (30 ∷ [], []) ∷ []) planted_map))
get-insert_batch_example =
    let t = planted-IsTree in
    get-insert_batch good world-IsLawful fuel t.depth (30 ∷ [])
      ((5 ∷ [], 1 ∷ 2 ∷ 3 ∷ []) ∷ (30 ∷ [], []) ∷ []) planted_map planted t.chunker t.wide
      (omega (arith, t.level)) (omega (arith, t.level)) t.ready t.represents

checkout_example :
    (changed : Bool) × (checkout world access none planted ≡ (ok changed, at_root none planted))
    × ((do checkout world access none; checkout world access (root planted)) planted
        ≡ (ok changed, planted))
    × ((changed ≡ false) ↔ (root planted ≡ none))
checkout_example =
    let t = planted-IsTree in
    checkout-checkout good t.depth 0 none planted_map [] planted t.ready t.represents refl
