-- ===== src/Tree/Session/Get.antt =====
-- The reading methods of `ProllyTree`.
use prolly_gunna.Prelude.{ℕ, zero, suc, ◌%◌, ◌<◌, Option, none, some, List, ◌≡◌, refl, length}
use prolly_gunna.Errors.{ok}
use prolly_gunna.Node.{Hash, Key, LeafEntry, Node, leaf, internal, level_of, u64_mod}
use prolly_gunna.Externals.{Externals}
use prolly_gunna.Store.Access.{Access, IsAccess}
use prolly_gunna.Io.{load_node}
use prolly_gunna.Io.Laws.{load_node_lem}
use prolly_gunna.Tree.Holds.{Holds}
use prolly_gunna.Tree.Holds.Children.{sum_items_lem}
use prolly_gunna.Tree.Core.Get.{get_recursive_impl_lem}
use prolly_gunna.Tree.SortedMap.{SortedMap, lookup}
use prolly_gunna.Tree.Session.{Session, root, get, get_from, count_from, count_all_items}
use prolly_gunna.Tree.Session.Represents.{Represents, read_entry_lem, length-Pairs}

module _ {S : Type 0} {x : Externals} {a : Access S} (good : IsAccess x a) where
  open good use {view, Ready}

  get_from_lem :
      (fuel d : ℕ) (k : Key) (o : Option Hash) (m : SortedMap) (w : Session S)
      → d < fuel
      → Ready w.store
      → Represents x (view w.store) d o m
      → get_from x a fuel k o w ≡ (ok (lookup k m), w)
  unfolding get_from
  get_from_lem fuel d k none m w lt r at = rw at (unfold lookup in refl)
  get_from_lem fuel d k (some h) m w lt r at = rw (
    get_recursive_impl_lem good fuel d h k at.entries w.store lt r at.holds at.sorted,
    read_entry_lem good k at.entries m w.store r at.pairs,
  )

  -- In a ready store, on a tree of depth `d` that stands for a map, `get` with fuel beyond `d`
  -- returns what the map has for the key, and changes nothing.
  pub get_lem :
      (fuel d : ℕ) (k : Key) (m : SortedMap) (w : Session S)
      → d < fuel
      → Ready w.store
      → Represents x (view w.store) d (root w) m
      → get x a fuel k w ≡ (ok (lookup k m), w)
  unfolding get
  get_lem fuel d k m w lt r at = get_from_lem fuel d k (root w) m w lt r at

  count_from_lem :
      (d : ℕ) (o : Option Hash) (m : SortedMap) (w : Session S)
      → Ready w.store
      → Represents x (view w.store) d o m
      → count_from x a o w ≡ (ok (length m % u64_mod), w)
  unfolding count_from
  count_from_lem d none m w r at = rw at
  count_from_lem zero (some h) m w r at = rw (
    load_node_lem good h (leaf 0 at.entries) w.store r at.holds,
    length-Pairs (view w.store) at.entries m at.pairs,
  )
  count_from_lem (suc d) (some h) m w r at =
      let (cs, node, children) = at.holds in
      rw (
        load_node_lem good h (internal (suc d) cs) w.store r node,
        sum_items_lem (Holds x (view w.store) d) cs at.entries children,
        length-Pairs (view w.store) at.entries m at.pairs,
      )

  -- In a ready store, on a tree that stands for a map, `count_all_items` returns the number of its
  -- keys modulo 2 ^ 64, and changes nothing.
  pub count_all_items_lem :
      (d : ℕ) (m : SortedMap) (w : Session S)
      → Ready w.store
      → Represents x (view w.store) d (root w) m
      → count_all_items x a w ≡ (ok (length m % u64_mod), w)
  unfolding count_all_items
  count_all_items_lem d m w r at = count_from_lem d (root w) m w r at

  -- The node at a root loads, and its level is the depth of the tree.
  pub level_lem :
      (d : ℕ) (h : Hash) (es : List LeafEntry) (s : S)
      → Ready s
      → Holds x (view s) d h es
      → (n : Node) × (load_node x a h s ≡ (ok n, s)) × (level_of n ≡ d)
  unfolding level_of
  level_lem zero h es s r at = (leaf 0 es, load_node_lem good h (leaf 0 es) s r at, refl)
  level_lem (suc d) h es s r (cs, at, children) =
      (internal (suc d) cs, load_node_lem good h (internal (suc d) cs) s r at, refl)
