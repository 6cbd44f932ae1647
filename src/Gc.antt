-- ===== src/Gc.antt =====
-- src/gc.rs and `ProllyTree::gc`: mark and sweep. A `HashSet` is a list without repetitions, whose
-- order stands for the iteration order. The loop of the mark phase runs on fuel.
pub mod Mark
pub mod Collect
pub mod Survive
use prolly_gunna.Prelude.{
  ℕ, zero, suc, ◌+◌, Bool, true, false, not, ◌&&◌, Option, none, some, List, [], ◌∷◌, ◌++◌,
  is_empty, if◌then◌else◌, length,
}
use prolly_gunna.Prelude.Bytes.{Bytes}
use prolly_gunna.Errors.{
  Result, ok, err, panic, out_of_fuel, Exec, pure, fail, stop, ◌>>=◌, ◌>>◌, ProllyError,
  internal_error, storage_error,
}
use prolly_gunna.Node.{
  Hash, ValueRepr, inline, chunked, chunked_sequence, LeafEntry, InternalEntry, Node, leaf,
  internal,
}
use prolly_gunna.Externals.{Externals}
use prolly_gunna.Store.Memory
use prolly_gunna.Store.Memory.{InMemoryStore}
use prolly_gunna.Store.Memory.Map.{contains}
use prolly_gunna.Tree.Session.{Session, root, on_store}

-- The methods of `ChunkStore` that the collector calls.
pub record Collectable (S : Type 0) : Type 0 where
  pub get : Hash → Exec S (Option Bytes)
  pub all_hashes : Exec S (List Hash)
  pub delete_batch : List Hash → Exec S (Unit {0})

abbrev pub memory : Collectable InMemoryStore
memory = record {
  get = Memory.get;
  all_hashes = Memory.all_hashes;
  delete_batch = Memory.delete_batch;
}

-- `HashSet::insert`, and `collect` into a set.
unfoldable pub set_insert : Hash → List Hash → List Hash
set_insert h hs = if contains h hs then hs else h ∷ hs

unfoldable pub to_set : List Hash → List Hash
unfolding set_insert
to_set [] = []
to_set (h ∷ hs) = set_insert h (to_set hs)

-- The hashes that an entry's value names, and those that a node names.
unfoldable pub value_refs : ValueRepr → List Hash
value_refs (inline value) = []
value_refs (chunked data_hash) = data_hash ∷ []
value_refs (chunked_sequence chunk_hashes total_size) = chunk_hashes

unfoldable pub entry_refs : List LeafEntry → List Hash
unfolding value_refs
entry_refs [] = []
entry_refs (e ∷ es) = value_refs e.value ++ entry_refs es

unfoldable pub child_refs : List InternalEntry → List Hash
child_refs [] = []
child_refs (c ∷ cs) = c.child_hash ∷ child_refs cs

unfoldable pub node_refs : Node → List Hash
unfolding entry_refs child_refs
node_refs (leaf level entries) = entry_refs entries
node_refs (internal level children) = child_refs children

-- The references in a chunk; a chunk that is no node has none.
unfoldable pub chunk_refs : Externals → Bytes → List Hash
unfolding node_refs
chunk_refs x bytes = elim (x.deserialize bytes) [ none ↦ [] | some node ↦ node_refs node ]

-- The references that are pushed: those in the store that are not yet marked.
unfoldable pub unmarked : List Hash → List Hash → List Hash → List Hash
unmarked all live [] = []
unmarked all live (r ∷ rs) =
    let rest = unmarked all live rs in
    if contains r all && not (contains r live) then r ∷ rest else rest

-- The elements of a list that pass, or do not pass, the test of membership.
unfoldable pub only_in : List Hash → List Hash → List Hash
only_in all [] = []
only_in all (h ∷ hs) = let rest = only_in all hs in if contains h all then h ∷ rest else rest

unfoldable pub not_in : List Hash → List Hash → List Hash
not_in live [] = []
not_in live (h ∷ hs) = let rest = not_in live hs in if contains h live then rest else h ∷ rest

-- `ProllyTree::gc`: the current root is live too.
unfoldable pub gc_roots : Option Hash → List Hash → List Hash
unfolding to_set set_insert
gc_roots none live_root_hashes = to_set live_root_hashes
gc_roots (some h) live_root_hashes = set_insert h (to_set live_root_hashes)

module _ {S : Type 0} (x : Externals) (a : Collectable S) where
  -- `get`, where a chunk that is gone and an error of the store are errors of the collector.
  unfoldable pub fetch : Hash → Exec S Bytes
  fetch hash s = elim (a.get hash s).0 [
    | ok found ↦ elim found [
      | none ↦ (
        err (internal_error "GC: Chunk was expected in store but not found during get."),
        (a.get hash s).1,
      )
      | some bytes ↦ (ok bytes, (a.get hash s).1)
    ]
    | err e ↦ (err (storage_error "GC: Error getting chunk from store"), (a.get hash s).1)
    | panic ↦ (panic, (a.get hash s).1)
    | out_of_fuel ↦ (out_of_fuel, (a.get hash s).1)
  ]

  unfoldable pub mark : List Hash → ℕ → List Hash → List Hash → Exec S (List Hash)
  unfolding fetch chunk_refs unmarked
  mark all fuel [] live = pure live
  mark all zero (h ∷ queue) live = stop
  mark all (suc fuel) (h ∷ queue) live = elim (contains h live) [
    | true ↦ mark all fuel queue live
    | false ↦ elim (contains h all) [
      | false ↦ mark all fuel queue live
      | true ↦ do
        bytes ← fetch h
        mark all fuel (queue ++ unmarked all (h ∷ live) (chunk_refs x bytes)) (h ∷ live)
    ]
  ]

  -- The sweep: what is not marked is deleted, and counted.
  unfoldable pub sweep : List Hash → Exec S ℕ
  sweep dead = if is_empty dead then pure 0 else do a.delete_batch dead; pure (length dead)

  unfoldable pub collect : ℕ → List Hash → Exec S ℕ
  unfolding mark sweep only_in not_in to_set
  collect fuel live_root_hashes = do
    all_store_hashes ← a.all_hashes
    if is_empty all_store_hashes
        then pure 0
        else (let all = to_set all_store_hashes in
            do live ← mark all fuel (only_in all live_root_hashes) []; sweep (not_in live all))

  unfoldable pub gc : ℕ → List Hash → Exec (Session S) ℕ
  unfolding collect gc_roots
  gc fuel live_root_hashes w = on_store (collect fuel (gc_roots (root w) live_root_hashes)) w
