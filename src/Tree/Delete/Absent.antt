-- ===== src/Tree/Delete/Absent.antt =====
-- Deletion of a key that the tree does not have.
use prolly_gunna.Prelude.{
  ℕ, zero, suc, ◌-◌, ◌==◌, ◌<◌, false, none, some, List, [], ◌∷◌, ◌≡◌, ap, subst, sym, ◌∙◌, arith,
  get_elem?, length,
}
use prolly_gunna.Errors.{ok}
use prolly_gunna.Node.{Hash, Key, TreeConfig, LeafEntry, InternalEntry, leaf, internal, last_key}
use prolly_gunna.Node.Order.{IsSorted, find_entry}
use prolly_gunna.Node.Order.Search.{Searched, hit, miss, search_lem}
use prolly_gunna.Externals.{Externals}
use prolly_gunna.Store.Access.{Access, IsAccess}
use prolly_gunna.Io.Laws.{load_node_lem}
use prolly_gunna.Tree.Types.{not_found}
use prolly_gunna.Tree.Holds.{Holds, Children}
use prolly_gunna.Tree.Holds.Children.{last_boundary_lem}
use prolly_gunna.Tree.Core.Descend.{chosen, focus, get_elem?_middle}
use prolly_gunna.Tree.Delete.{delete_in_leaf, after_child, delete_recursive_impl}

module _ {S : Type 0} {x : Externals} {a : Access S} (good : IsAccess x a)
    (config : TreeConfig) where
  open good use {view, Ready}

  delete_in_leaf_absent :
      (h : Hash) (k b : Key) (es : List LeafEntry) (s : S)
      → find_entry k es ≡ none
      → last_key es ≡ some b
      → delete_in_leaf x a config h k 0 es s ≡ (ok (not_found h b, false), s)
  unfolding delete_in_leaf
  delete_in_leaf_absent h k b es s gone lk = go (search_lem k es)
    where
      go : Searched k es → delete_in_leaf x a config h k 0 es s ≡ (ok (not_found h b, false), s)
      go (hit i e f g w r) = absurd (ground (arith, gone, w))
      go (miss i f w r) = ground (arith, lk)

  -- With more fuel than levels, the deletion of an absent key ends, and writes nothing.
  pub delete_recursive_impl_absent :
      (fuel d : ℕ) (h : Hash) (k b : Key) (es : List LeafEntry) (s : S)
      → d < fuel
      → Ready s
      → Holds x (view s) d h es
      → IsSorted es
      → last_key es ≡ some b
      → find_entry k es ≡ none
      → delete_recursive_impl x a config fuel h k d s ≡ (ok (not_found h b, false), s)
  unfolding delete_recursive_impl after_child
  delete_recursive_impl_absent zero d h k b es s lt r at sorted lk gone = elim lt [ ]
  delete_recursive_impl_absent (suc fuel) zero h k b es s lt r at sorted lk gone =
      rw (load_node_lem good h (leaf 0 es) s r at) (delete_in_leaf_absent h k b es s gone lk)
  delete_recursive_impl_absent (suc fuel) (suc d) h k b es s lt r ([], at, e) sorted lk gone =
      absurd (ground (arith, lk, e))
  delete_recursive_impl_absent (suc fuel) (suc d) h k b es s lt r (c ∷ cs, at, children) sorted lk
        gone =
      let p = chosen k c cs in
      let q =
        focus (Holds x (view s) d) k p.before p.child p.after es
          (subst (λ l. Children (Holds x (view s) d) l es) p.splits children) sorted p.below
          p.fits in
      let (b', lb, lk') = last_boundary_lem (Holds x (view s) d) c cs es children in
      let same : some b' ≡ some b = sym lk' ∙ lk in
      let high : (suc d == 0) ≡ false = ground arith in
      let down : suc d - 1 ≡ d = omega arith in
      rw (
        load_node_lem good h (internal (suc d) (c ∷ cs)) s r at,
        p.index,
        ap (λ (l : List InternalEntry). get_elem? l (length p.before)) p.splits
            ∙ get_elem?_middle p.before p.child p.after,
        high,
        down,
        delete_recursive_impl_absent fuel d p.child.child_hash k p.child.boundary_key q.middle s
            (omega arith) r q.child.0 q.sorted q.child.2 (sym q.find ∙ gone),
        lb ∙ same,
      )
