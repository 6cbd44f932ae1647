-- ===== src/Examples/Locks.antt =====
-- The theorems on the synchronous methods at concrete inputs.
use prolly_gunna.Prelude.{none, refl, some, [], ◌∷◌, ◌≡◌, arith, if◌then◌else◌}
use prolly_gunna.Prelude.Bytes.{bytes_eq}
use prolly_gunna.Errors.{ok, ◌>>◌}
use prolly_gunna.Store.Access.{IsAccess}
use prolly_gunna.Store.Memory.{write_held, InMemoryStore, sync_access}
use prolly_gunna.Store.Memory.Laws.{sync_access-IsAccess}
use prolly_gunna.Tree.SortedMap
use prolly_gunna.Tree.SortedMap.{SortedMap, lookup}
use prolly_gunna.Tree.Session.{Session}
use prolly_gunna.Tree.Session.Invariant.{IsTree, insert-IsTree}
use prolly_gunna.Tree.Sync
use prolly_gunna.Tree.Sync.Lock.{Refused, get_sync-insert_sync, insert_sync_locked}
use prolly_gunna.Examples.World.{
  world, world-IsLawful, world-IsChunker, narrow, fuel, start, start-IsAddressed,
}

unfoldable good_sync : IsAccess world (sync_access world)
good_sync = sync_access-IsAccess world world-IsLawful

start_sync-IsTree : IsTree good_sync 0 [] start
unfolding good_sync sync_access-IsAccess
start_sync-IsTree = record {
  depth = 0;
  level = omega arith;
  ready = (start-IsAddressed, refl);
  represents = refl;
  chunker = world-IsChunker narrow;
  wide = omega arith;
}

abbrev sown : Session InMemoryStore
sown = (Sync.insert_sync world fuel (20 ∷ []) (1 ∷ []) start).1

sown-IsTree : IsTree good_sync 1 (SortedMap.insert (20 ∷ []) (1 ∷ []) []) sown
sown-IsTree =
    insert-IsTree good_sync world-IsLawful fuel 0 (20 ∷ []) (1 ∷ []) [] start (omega arith)
      (omega arith) start_sync-IsTree

get_sync-insert_sync_example :
    (do Sync.insert_sync world fuel (10 ∷ []) (2 ∷ 3 ∷ 4 ∷ []); Sync.get_sync world fuel (20 ∷ []))
      sown
    ≡ (
      ok (
          if bytes_eq (10 ∷ []) (20 ∷ [])
          then some (2 ∷ 3 ∷ 4 ∷ [])
          else lookup (20 ∷ []) (SortedMap.insert (20 ∷ []) (1 ∷ []) [])),
      (Sync.insert_sync world fuel (10 ∷ []) (2 ∷ 3 ∷ 4 ∷ []) sown).1,
    )
unfolding good_sync sync_access-IsAccess
get_sync-insert_sync_example =
    let t = sown-IsTree in
    get_sync-insert_sync world world-IsLawful fuel t.depth (10 ∷ []) (20 ∷ []) (2 ∷ 3 ∷ 4 ∷ [])
      (SortedMap.insert (20 ∷ []) (1 ∷ []) []) sown t.chunker t.wide (omega (arith, t.level))
      (omega (arith, t.level)) t.ready.0 t.ready.1 t.represents

-- An empty tree over a store whose lock a writer holds.
abbrev locked : Session InMemoryStore
locked = record {
  tree = record { root_hash = none; config = narrow };
  store = record { chunks = []; lock = write_held };
}

insert_sync_locked_example :
    Refused locked (Sync.insert_sync world 3 (10 ∷ []) (2 ∷ 3 ∷ 4 ∷ []) locked)
insert_sync_locked_example = insert_sync_locked world 3 (10 ∷ []) (2 ∷ 3 ∷ 4 ∷ []) locked refl
