-- ===== src/Tree/Session/History.antt =====
-- Runs of several methods of `ProllyTree`: reads after writes, batches, and older roots.
use prolly_gunna.Prelude.{
  ℕ, suc, ◌+◌, ◌*◌, ◌%◌, ◌^◌, Bool, false, ◌↔◌, ap, ◌≤◌, ◌<◌, Option, none, some, List, [], ◌∷◌,
  ◌≡◌, refl, arith, length, if◌then◌else◌,
}
use prolly_gunna.Prelude.Bytes.{bytes_eq, bytes_eq_iff}
use prolly_gunna.Errors.{Result, ok, ◌>>◌}
use prolly_gunna.Node.{Hash, Key, Value, TreeConfig}
use prolly_gunna.Externals.{Externals, IsLawful, IsChunker}
use prolly_gunna.Store.Access.{Access, IsAccess}
use prolly_gunna.Tree.SortedMap
use prolly_gunna.Tree.SortedMap.{SortedMap, lookup, lookup-insert}
use prolly_gunna.Tree.Session.{
  Session, root, get, insert, insert_items, insert_batch, root_differs, checkout,
}
use prolly_gunna.Tree.Session.Represents.{Represents, Represents-Extends}
use prolly_gunna.Tree.Session.Get.{get_lem, level_lem}
use prolly_gunna.Tree.Session.Insert.{insert_lem}

-- The map after the insertions of a batch, in order.
pub insert_all : List (Key × Value) → SortedMap → SortedMap
insert_all [] m = m
insert_all ((k, v) ∷ items) m = insert_all items (SortedMap.insert k v m)

-- A session with another root.
abbrev pub at_root : {S : Type 0} → Option Hash → Session S → Session S
at_root o w = record w { tree = record { root_hash = o; config = w.tree.config } }

root_differs_iff : (o p : Option Hash) → (root_differs o p ≡ false) ↔ (o ≡ p)
unfolding root_differs
root_differs_iff none none = ((λ e. refl), (λ e. refl))
root_differs_iff none (some j) = ((λ e. cc), (λ e. absurd (let no : ⊥ = cc in no)))
root_differs_iff (some h) none = ((λ e. cc), (λ e. absurd (let no : ⊥ = cc in no)))
root_differs_iff (some h) (some j) = (
  (λ e. ap some ((bytes_eq_iff h j).0 (ground (arith, e)))),
  (λ e. let same : h ≡ j = cc in ground (arith, (bytes_eq_iff h j).1 same)),
)

root_differs_sym : (o p : Option Hash) → root_differs o p ≡ root_differs p o
unfolding root_differs
root_differs_sym none none = refl
root_differs_sym none (some j) = refl
root_differs_sym (some h) none = refl
root_differs_sym (some h) (some j) = ground (arith, bytes_eq_iff h j, bytes_eq_iff j h)

-- The fanouts that a tree asks for; doubling one may wrap.
pub HasFanouts : TreeConfig → Type 0
HasFanouts config =
    (1 ≤ config.min_fanout)
    × (1 ≤ config.target_fanout)
    × (config.min_fanout * 2 % 2 ^ 32 ≤ config.target_fanout)

module _ {S : Type 0} {x : Externals} {a : Access S} (good : IsAccess x a) where
  open good use {view, Ready}

  -- What `checkout` does with a root that stands for a map.
  checkout_lem :
      (d : ℕ) (o : Option Hash) (m : SortedMap) (w : Session S)
      → Ready w.store
      → Represents x (view w.store) d o m
      → checkout x a o w ≡ (ok (root_differs (root w) o), at_root o w)
  unfolding checkout
  checkout_lem d none m w r at = refl
  checkout_lem d (some h) m w r at =
      let (n, loads, level) = level_lem good d h at.entries w.store r at.holds in rw loads

  -- In a ready store, between the root of a session that stands for a map and another root that
  -- stands for one, or no root: `checkout` there and back restores the session, both runs return
  -- the same flag, and the flag is false exactly where the two roots are the same.
  pub checkout-checkout :
      (d e : ℕ) (o : Option Hash) (m n : SortedMap) (w : Session S)
      → Ready w.store
      → Represents x (view w.store) d (root w) m
      → Represents x (view w.store) e o n
      → (changed : Bool) × (checkout x a o w ≡ (ok changed, at_root o w))
        × ((do checkout x a o; checkout x a (root w)) w ≡ (ok changed, w))
        × ((changed ≡ false) ↔ (root w ≡ o))
  checkout-checkout d e o m n w r at at' = (
    root_differs (root w) o,
    checkout_lem e o n w r at',
    rw (
      checkout_lem e o n w r at',
      checkout_lem d (root w) m (at_root o w) r at,
      root_differs_sym o (root w),
    ),
    root_differs_iff (root w) o,
  )

  module _ (lawful : IsLawful x) where
    -- Over a store that keeps its contract, with lawful externals, a chunker that covers every
    -- value and a target fanout of at least one: after an insertion into a tree of depth `d` that
    -- stands for a map, `get` returns the new value at the key and at any other key what the map
    -- had, and leaves the state as the insertion did. Fuel beyond `d + 1` is enough, where `d + 1`
    -- is below 256.
    pub get-insert :
        (fuel d : ℕ) (k j : Key) (value : Value) (m : SortedMap) (w : Session S)
        → IsChunker x w.tree.config
        → 1 ≤ w.tree.config.target_fanout
        → suc d < fuel
        → suc d < 256
        → Ready w.store
        → Represents x (view w.store) d (root w) m
        → (do insert x a fuel k value; get x a fuel j) w
          ≡ (ok (if bytes_eq k j then some value else lookup j m), (insert x a fuel k value w).1)
    get-insert fuel d k j value m w chunker wide enough shallow r at =
        let q = insert_lem lawful good fuel d k value m w chunker wide (omega arith) shallow r at in
        let w' : Session S = record {
          tree = record { root_hash = some q.hash; config = w.tree.config };
          store = q.after;
        } in
        let g =
          get_lem good fuel q.depth j (SortedMap.insert k value m) w' (omega (arith, q.level))
            q.ready q.represents in
        rw (q.returns, g, lookup-insert k j value m)

    -- Over a store that keeps its contract, with lawful externals, a covering chunker and a target
    -- fanout of at least one, an insertion leaves every version readable: a root that stood for a
    -- map `old` in the store before the insertion can be checked out after it, and `get` then
    -- returns what `old` has. Fuel beyond both depths is enough, where the depth before the
    -- insertion is below 255.
    pub checkout-insert :
        (fuel d e : ℕ) (k j : Key) (value : Value) (o : Option Hash) (m old : SortedMap)
        (w : Session S)
        → IsChunker x w.tree.config
        → 1 ≤ w.tree.config.target_fanout
        → d < fuel
        → e < fuel
        → suc d < 256
        → Ready w.store
        → Represents x (view w.store) d (root w) m
        → Represents x (view w.store) e o old
        → ((do insert x a fuel k value; checkout x a o; get x a fuel j) w).0 ≡ ok (lookup j old)
    checkout-insert fuel d e k j value o m old w chunker wide lt lt' shallow r at at' =
        let q = insert_lem lawful good fuel d k value m w chunker wide lt shallow r at in
        let later = Represents-Extends x q.keeps e o old at' in
        let w' : Session S = record {
          tree = record { root_hash = some q.hash; config = w.tree.config };
          store = q.after;
        } in
        let w'' : Session S = record {
          tree = record { root_hash = o; config = w.tree.config };
          store = q.after;
        } in
        rw (
          q.returns,
          checkout_lem e o old w' q.ready later,
          get_lem good fuel e j old w'' lt' q.ready later,
        )

    -- What a run of insertions leaves behind.
    record Batched (bound : ℕ) (w : Session S) (m : SortedMap) (run : Result (Unit {0}) × Session S)
        : Type 0 where
      after : Session S
      depth : ℕ
      returns : run ≡ (ok tt, after)
      config : after.tree.config ≡ w.tree.config
      ready : Ready after.store
      represents : Represents x (view after.store) depth (root after) m
      level : depth ≤ bound

    insert_items_lem :
        (fuel d : ℕ) (items : List (Key × Value)) (m : SortedMap) (w : Session S)
        → IsChunker x w.tree.config
        → 1 ≤ w.tree.config.target_fanout
        → d + length items ≤ fuel
        → d + length items < 256
        → Ready w.store
        → Represents x (view w.store) d (root w) m
        → Batched (d + length items) w (insert_all items m) (insert_items x a fuel items w)
    unfolding insert_items insert_all
    insert_items_lem fuel d [] m w chunker wide enough shallow r at = record {
      after = w;
      depth = d;
      returns = refl;
      config = refl;
      ready = r;
      represents = at;
      level = omega arith;
    }
    insert_items_lem fuel d ((k, v) ∷ items) m w chunker wide enough shallow r at =
        let q =
          insert_lem lawful good fuel d k v m w chunker wide (omega arith) (omega arith) r at in
        let w' : Session S = record {
          tree = record { root_hash = some q.hash; config = w.tree.config };
          store = q.after;
        } in
        let b =
          insert_items_lem fuel q.depth items (SortedMap.insert k v m) w' chunker wide
            (omega (arith, q.level)) (omega (arith, q.level)) q.ready q.represents in
        record {
          after = b.after;
          depth = b.depth;
          returns = rw (q.returns, b.returns);
          config = b.config;
          ready = b.ready;
          represents = b.represents;
          level = omega (arith, b.level, q.level);
        }

    -- Over a store that keeps its contract, with lawful externals, a covering chunker and a target
    -- fanout of at least one: after a batch of insertions `get` returns what inserting the items
    -- one after the other into the map leaves there. Fuel beyond the depth and the number of items
    -- is enough, where their sum is below 256.
    pub get-insert_batch :
        (fuel d : ℕ) (j : Key) (items : List (Key × Value)) (m : SortedMap) (w : Session S)
        → IsChunker x w.tree.config
        → 1 ≤ w.tree.config.target_fanout
        → d + length items < fuel
        → d + length items < 256
        → Ready w.store
        → Represents x (view w.store) d (root w) m
        → ((do insert_batch x a fuel items; get x a fuel j) w).0
          ≡ ok (lookup j (insert_all items m))
    unfolding insert_batch
    get-insert_batch fuel d j items m w chunker wide enough shallow r at =
        let b = insert_items_lem fuel d items m w chunker wide (omega arith) shallow r at in
        rw (
          b.returns,
          get_lem good fuel b.depth j (insert_all items m) b.after (omega (arith, b.level)) b.ready
              b.represents,
        )
