-- ===== src/Tree/Core/Get.antt =====
-- Lookup in a tree that holds sorted entries.
use prolly_gunna.Prelude.{
  ℕ, zero, suc, ◌<◌, Option, none, some, List, [], ◌∷◌, ◌≡◌, refl, ap, subst, ◌∙◌, arith, get_elem?,
  length,
}
use prolly_gunna.Errors.{Exec, pure, ◌>>=◌}
use prolly_gunna.Node.{Hash, Key, Value, LeafEntry, InternalEntry, ValueRepr, leaf, internal}
use prolly_gunna.Node.Order.{IsSorted, find_entry}
use prolly_gunna.Node.Order.Search.{Searched, hit, miss, search_lem}
use prolly_gunna.Externals.{Externals}
use prolly_gunna.Store.Access.{Access, IsAccess}
use prolly_gunna.Io.{load_value_repr}
use prolly_gunna.Io.Laws.{load_node_lem}
use prolly_gunna.Tree.Holds.{Holds, Children}
use prolly_gunna.Tree.Core.{get_in_leaf, get_recursive_impl}
use prolly_gunna.Tree.Core.Descend.{chosen, focus, get_elem?_middle}

module _ {S : Type 0} (x : Externals) (a : Access S) where
  -- The value of an entry that was found.
  unfoldable pub read_entry : Option ValueRepr → Exec S (Option Value)
  read_entry none = pure none
  read_entry (some r) = do value ← load_value_repr x a r; pure (some value)

  get_in_leaf_lem :
      (k : Key) (es : List LeafEntry) (s : S)
      → get_in_leaf x a k es s ≡ read_entry (find_entry k es) s
  unfolding get_in_leaf read_entry
  get_in_leaf_lem k es s = go (search_lem k es)
    where
      go : Searched k es → get_in_leaf x a k es s ≡ read_entry (find_entry k es) s
      go (hit i e f g w r) = ground arith
      go (miss i f w r) = ground arith

module _ {S : Type 0} {x : Externals} {a : Access S} (good : IsAccess x a) where
  open good use {view, Ready}

  -- With more fuel than levels, lookup reads the entry that the sorted entries have for the key.
  pub get_recursive_impl_lem :
      (fuel d : ℕ) (h : Hash) (k : Key) (es : List LeafEntry) (s : S)
      → d < fuel
      → Ready s
      → Holds x (view s) d h es
      → IsSorted es
      → get_recursive_impl x a fuel h k s ≡ read_entry x a (find_entry k es) s
  unfolding get_recursive_impl
  get_recursive_impl_lem zero d h k es s lt r at sorted = elim lt [ ]
  get_recursive_impl_lem (suc fuel) zero h k es s lt r at sorted =
      rw (load_node_lem good h (leaf 0 es) s r at) (get_in_leaf_lem x a k es s)
  get_recursive_impl_lem (suc fuel) (suc d) h k es s lt r ([], at, e) sorted =
      rw (load_node_lem good h (internal (suc d) []) s r at, e)
        (unfold read_entry find_entry in refl)
  get_recursive_impl_lem (suc fuel) (suc d) h k es s lt r (c ∷ cs, at, children) sorted =
      let p = chosen k c cs in
      let q =
        focus (Holds x (view s) d) k p.before p.child p.after es
          (subst (λ l. Children (Holds x (view s) d) l es) p.splits children) sorted p.below
          p.fits in
      rw
        (
          load_node_lem good h (internal (suc d) (c ∷ cs)) s r at,
          p.index,
          ap (λ (l : List InternalEntry). get_elem? l (length p.before)) p.splits
              ∙ get_elem?_middle p.before p.child p.after,
          q.find,
        )
        (get_recursive_impl_lem fuel d p.child.child_hash k q.middle s (omega arith) r q.child.0
          q.sorted)
