-- ===== src/Examples/World.antt =====
-- The parameters of the concrete runs, which keep their contract, and a small tree made by
-- insertion in the in-memory store.
use prolly_gunna.Prelude.{
  ℕ, zero, suc, ◌-◌, ◌/◌, none, some, [], ◌∷◌, ◌≡◌, refl, ap, arith, length, take, drop, append-nil,
}
use prolly_gunna.Prelude.Bytes.{Bytes}
use prolly_gunna.Node.{TreeConfig}
use prolly_gunna.Externals.{Externals, IsLawful, IsChunker, slice, concat}
use prolly_gunna.Store.Access.{Access, IsAccess}
use prolly_gunna.Store.Memory.{InMemoryStore, free, async_access}
use prolly_gunna.Store.Memory.Laws.{IsAddressed, async_access-IsAccess}
use prolly_gunna.Tree.Core.Insert.Stores.{take-append-drop, length-drop}
use prolly_gunna.Store.Memory.Map
use prolly_gunna.Tree.SortedMap
use prolly_gunna.Tree.SortedMap.{SortedMap}
use prolly_gunna.Tree.Session.{Session, insert}
use prolly_gunna.Tree.Session.Invariant.{IsTree, insert-IsTree}
use prolly_gunna.Examples.Codec.{serialize, deserialize, deserialize-serialize}

-- A hash without collisions, and a chunker that cuts a value in two.
abbrev pub world : Externals
world = record {
  hash_bytes = λ b. b;
  serialize = serialize;
  deserialize = deserialize;
  fast_cdc = λ v lo avg hi. some ((0, length v / 2) ∷ (length v / 2, length v - length v / 2) ∷ []);
}

pub world-IsLawful : IsLawful world
world-IsLawful = record { hash_injective = λ a b e. e; decode_encode = deserialize-serialize }

take-all : (v : Bytes) (n : ℕ) → length v ≡ n → take n v ≡ v
take-all [] zero e = refl
take-all [] (suc n) e = refl
take-all (b ∷ v) zero e = absurd (omega (arith, e))
take-all (b ∷ v) (suc n) e = ap (λ (l : Bytes). b ∷ l) (take-all v n (omega (arith, e)))

halves-cover :
    (v : Bytes)
    → concat (slice v (0, length v / 2) ∷ slice v (length v / 2, length v - length v / 2) ∷ []) ≡ v
halves-cover v =
    let k = length v / 2 in
    rw (append-nil, take-all (drop k v) (length v - k) (length-drop k v)) (take-append-drop k v)

pub world-IsChunker : (config : TreeConfig) → IsChunker world config
world-IsChunker config = record {
  cuts = λ v. record {
    chunks = (0, length v / 2) ∷ (length v / 2, length v - length v / 2) ∷ [];
    returns = refl;
    in_range = (omega arith, (omega arith, tt));
    covers = halves-cover v;
  };
}

-- Nodes of at most two entries, and values of at most two bytes in the leaf.
abbrev pub narrow : TreeConfig
narrow = record {
  target_fanout = 2;
  min_fanout = 1;
  cdc_min_size = 64;
  cdc_avg_size = 256;
  cdc_max_size = 1024;
  max_inline_value_size = 2;
}

abbrev pub access : Access InMemoryStore
access = async_access world

unfoldable pub good : IsAccess world access
good = async_access-IsAccess world world-IsLawful

-- A new tree in a new store.
abbrev pub start : Session InMemoryStore
start = record {
  tree = record { root_hash = none; config = narrow };
  store = record { chunks = []; lock = free };
}

pub start-IsAddressed : IsAddressed world start.store
unfolding Map.find
start-IsAddressed h b e = ground (arith, e)

pub start-IsTree : IsTree good 0 [] start
unfolding good async_access-IsAccess
start-IsTree = record {
  depth = 0;
  level = omega arith;
  ready = start-IsAddressed;
  represents = refl;
  chunker = world-IsChunker narrow;
  wide = omega arith;
}

-- Four insertions: the root splits, and one value goes to chunks.
abbrev pub fuel : ℕ
fuel = 9

abbrev pub first_insert : Session InMemoryStore
first_insert = (insert world access fuel (20 ∷ []) (1 ∷ []) start).1

abbrev pub second_insert : Session InMemoryStore
second_insert = (insert world access fuel (10 ∷ []) (1 ∷ 2 ∷ 3 ∷ 4 ∷ []) first_insert).1

abbrev pub planted : Session InMemoryStore
planted = (insert world access fuel (30 ∷ []) (5 ∷ 6 ∷ []) second_insert).1

abbrev pub planted_map : SortedMap
planted_map =
    SortedMap.insert (30 ∷ []) (5 ∷ 6 ∷ [])
      (SortedMap.insert (10 ∷ []) (1 ∷ 2 ∷ 3 ∷ 4 ∷ []) (SortedMap.insert (20 ∷ []) (1 ∷ []) []))

pub second_insert-IsTree :
    IsTree good 2
      (SortedMap.insert (10 ∷ []) (1 ∷ 2 ∷ 3 ∷ 4 ∷ []) (SortedMap.insert (20 ∷ []) (1 ∷ []) []))
      second_insert
second_insert-IsTree =
    insert-IsTree good world-IsLawful fuel 1 (10 ∷ []) (1 ∷ 2 ∷ 3 ∷ 4 ∷ []) _ first_insert
      (omega arith) (omega arith)
      (insert-IsTree good world-IsLawful fuel 0 (20 ∷ []) (1 ∷ []) [] start (omega arith)
        (omega arith) start-IsTree)

pub planted-IsTree : IsTree good 3 planted_map planted
planted-IsTree =
    insert-IsTree good world-IsLawful fuel 2 (30 ∷ []) (5 ∷ 6 ∷ []) _ second_insert (omega arith)
      (omega arith) second_insert-IsTree
