-- ===== src/Tree/Session/Delete.antt =====
-- `delete` of `ProllyTree`.
use prolly_gunna.Prelude.{ℕ, ◌<◌, false, Option, none, some, List, [], ◌∷◌, ◌≡◌, refl, arith}
use prolly_gunna.Errors.{ok}
use prolly_gunna.Node.{Hash, Key, TreeConfig, Node, LeafEntry, level_of}
use prolly_gunna.Node.Order.{find_entry}
use prolly_gunna.Externals.{Externals}
use prolly_gunna.Store.Access.{Access, View, IsAccess}
use prolly_gunna.Io.{load_node}
use prolly_gunna.Tree.Types.{not_found}
use prolly_gunna.Tree.SortedMap.{SortedMap, lookup}
use prolly_gunna.Tree.Delete.{delete_recursive_impl}
use prolly_gunna.Tree.Delete.Absent.{delete_recursive_impl_absent}
use prolly_gunna.Tree.Session.{Session, root, delete, delete_from, apply_delete}
use prolly_gunna.Tree.Session.Get.{level_lem}
use prolly_gunna.Tree.Session.Represents.{Represents, Pairs}

find_entry_absent :
    (v : View) (k : Key) (es : List LeafEntry) (m : SortedMap)
    → Pairs v es m
    → lookup k m ≡ none
    → find_entry k es ≡ none
unfolding find_entry lookup
find_entry_absent v k [] m p gone = refl
find_entry_absent v k (e ∷ es) [] p gone = absurd p
find_entry_absent v k (e ∷ es) ((j, w) ∷ m) p gone =
    ground (arith, p.0, gone, find_entry_absent v k es m p.2)

module _ {S : Type 0} {x : Externals} {a : Access S} (good : IsAccess x a) where
  open good use {view, Ready}

  not_found_steps :
      (config : TreeConfig) (fuel d : ℕ) (h : Hash) (k b : Key) (n : Node) (w : Session S)
      → load_node x a h w.store ≡ (ok n, w.store)
      → level_of n ≡ d
      → delete_recursive_impl x a config fuel h k d w.store ≡ (ok (not_found h b, false), w.store)
      → delete_from x a config fuel k (some h) w ≡ (ok false, w)
  unfolding delete_from apply_delete
  not_found_steps config fuel d h k b n w loads level deletes = rw (loads, level, deletes)

  delete_from_absent :
      (config : TreeConfig) (fuel d : ℕ) (k : Key) (o : Option Hash) (m : SortedMap) (w : Session S)
      → d < fuel
      → Ready w.store
      → Represents x (view w.store) d o m
      → lookup k m ≡ none
      → delete_from x a config fuel k o w ≡ (ok false, w)
  unfolding delete_from
  delete_from_absent config fuel d k none m w enough r at gone = refl
  delete_from_absent config fuel d k (some h) m w enough r at gone =
      let (n, loads, level) = level_lem good d h at.entries w.store r at.holds in
      not_found_steps config fuel d h k at.last n w loads level (
        delete_recursive_impl_absent good config fuel d h k at.last at.entries w.store enough r
          at.holds at.sorted at.nonempty
          (find_entry_absent (view w.store) k at.entries m at.pairs gone))

  -- In a ready store, on a tree of depth `d` that stands for a map without the key, `delete` with
  -- fuel beyond `d` returns false, and changes neither the root nor the store.
  pub delete_absent :
      (fuel d : ℕ) (k : Key) (m : SortedMap) (w : Session S)
      → d < fuel
      → Ready w.store
      → Represents x (view w.store) d (root w) m
      → lookup k m ≡ none
      → delete x a fuel k w ≡ (ok false, w)
  unfolding delete
  delete_absent fuel d k m w enough r at gone =
      delete_from_absent w.tree.config fuel d k (root w) m w enough r at gone
