-- ===== src/Examples/Traversals.antt =====
-- Traversals, scans and differences at concrete inputs: the tree of three insertions.
use prolly_gunna.Prelude.{
  ℕ, zero, suc, ◌≤◌, ◌<◌, none, some, [], ◌∷◌, ◌≡◌, arith, true, false, inl, refl, length,
}
use prolly_gunna.Prelude.Bytes.{cmp}
use prolly_gunna.Errors.{ok, and_then}
use prolly_gunna.Store.Memory.{InMemoryStore}
use prolly_gunna.Tree.SortedMap
use prolly_gunna.Tree.SortedMap.{SortedMap, lookup}
use prolly_gunna.Tree.Session.{Session, root}
use prolly_gunna.Cursor.{Cursor, usize_max, cursor_start, seek}
use prolly_gunna.Cursor.Traverse.{drain, drain-cursor_start, drain-seek, map_from}
use prolly_gunna.Scan.{ScanArgs}
use prolly_gunna.Scan.Paging.{scan}
use prolly_gunna.Scan.Start.{from_start, map_above}
use prolly_gunna.Scan.Slice.{range, up_to, starts_later, key_at, page, last_page}
use prolly_gunna.Scan.Range.{scan_unlimited}
use prolly_gunna.Diff.{diff}
use prolly_gunna.Diff.Subtree.{only_left, only_right, weight}
use prolly_gunna.Diff.Sides.{diff_to_empty, diff_from_empty}
use prolly_gunna.Examples.World.{
  world, access, good, fuel, planted, planted_map, planted-IsTree, narrow,
}

planted_few : length planted_map < 4
unfolding SortedMap.insert cmp
planted_few = omega arith

few_rounds : length planted_map < 8
unfolding SortedMap.insert cmp
few_rounds = omega arith

few_keys : length planted_map < usize_max
unfolding SortedMap.insert cmp
few_keys = omega arith

nodes : (d : ℕ) → d ≤ 3 → weight d (length planted_map) ≤ 20
unfolding weight SortedMap.insert cmp
nodes zero h = omega arith
nodes (suc zero) h = omega arith
nodes (suc (suc zero)) h = omega arith
nodes (suc (suc (suc zero))) h = omega arith
nodes (suc (suc (suc (suc d)))) h = absurd (omega arith)

seek_few : length (map_from (15 ∷ []) planted_map) < 4
unfolding SortedMap.insert map_from cmp
seek_few = omega arith

drain-cursor_start_example :
    (c : Cursor InMemoryStore) × (and_then
        (cursor_start world access fuel planted)
        (λ _. drain world access 4 2 fuel)
      ≡ (ok planted_map, c))
    × (c.store ≡ planted.store)
drain-cursor_start_example =
    let t = planted-IsTree in
    drain-cursor_start good 4 0 fuel t.depth planted_map planted planted_few
      (omega (arith, t.level)) t.ready t.represents

drain-seek_example :
    (c : Cursor InMemoryStore) × (and_then
        (seek world access fuel (15 ∷ []) planted)
        (λ _. drain world access 4 2 fuel)
      ≡ (ok (map_from (15 ∷ []) planted_map), c))
    × (c.store ≡ planted.store)
drain-seek_example =
    let t = planted-IsTree in
    drain-seek good 4 0 fuel t.depth (15 ∷ []) planted_map planted seek_few (omega (arith, t.level))
      t.ready t.represents

-- The first page of one item, from an exclusive bound on.
abbrev first_page : ScanArgs
first_page = record {
  start_bound = some (10 ∷ []);
  end_bound = some (30 ∷ []);
  start_inclusive = false;
  end_inclusive = true;
  reverse = false;
  offset = 0;
  limit = some 1;
}

abbrev whole : ScanArgs
whole = record {
  start_bound = none;
  end_bound = none;
  start_inclusive = true;
  end_inclusive = false;
  reverse = false;
  offset = 1;
  limit = none;
}

scan_unlimited_example :
    (c : Cursor InMemoryStore) × (scan world access whole 9 fuel planted
      ≡ (ok (last_page whole (range whole planted_map)), c))
    × (c.store ≡ planted.store)
scan_unlimited_example =
    let t = planted-IsTree in
    scan_unlimited good whole refl 7 fuel t.depth planted_map planted (inl refl) refl few_keys
      few_rounds (omega (arith, t.level)) t.ready t.represents

diff_to_empty_example : diff world access 1 20 none planted ≡ (ok (only_left planted_map), planted)
diff_to_empty_example =
    let t = planted-IsTree in
    diff_to_empty good 0 20 t.depth planted_map planted (nodes t.depth t.level) t.ready t.represents

-- The store of the tree, seen from a tree with no root.
abbrev uprooted : Session InMemoryStore
uprooted = record { tree = record { root_hash = none; config = narrow }; store = planted.store }

diff_from_empty_example :
    diff world access 1 20 (root planted) uprooted ≡ (ok (only_right planted_map), uprooted)
diff_from_empty_example =
    let t = planted-IsTree in
    diff_from_empty good 0 20 t.depth (root planted) planted_map uprooted refl
      (nodes t.depth t.level) t.ready t.represents

-- What the first page is.
first_page_run : page first_page 1 (range first_page planted_map) ≡ record {
  items = (20 ∷ [], 1 ∷ []) ∷ [];
  has_next_page = true;
  has_previous_page = true;
  next_page_cursor = some (30 ∷ []);
  previous_page_cursor = some (20 ∷ []);
}
unfolding page range up_to starts_later key_at from_start map_above SortedMap.insert cmp
first_page_run = refl
