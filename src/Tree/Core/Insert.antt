-- ===== src/Tree/Core/Insert.antt =====
-- Insertion into a tree that holds sorted entries.
pub mod Stores
pub mod Sibling
use prolly_gunna.Prelude.{
  ℕ, zero, suc, ◌+◌, ◌-◌, ◌%◌, ◌≤◌, ◌<◌, Option, none, some, List, [], ◌∷◌, ◌++◌, ◌≡◌, refl, sym,
  ap, subst, ◌∙◌, inl, inr, arith, get_elem?, set, length, ltb, Bool-cases, Option-cases,
  append_assoc, append-nil,
}
use prolly_gunna.Errors.{Exec, ok, and_then, Result}
use prolly_gunna.Node.{
  Hash, Key, LeafEntry, InternalEntry, ValueRepr, TreeConfig, leaf, internal, last_key,
}
use prolly_gunna.Node.Order.{IsSorted, insert_entry, insert_entry-IsSorted}
use prolly_gunna.Externals.{Externals, IsLawful}
use prolly_gunna.Store.Access.{Access, IsAccess, Extends, Extends-trans}
use prolly_gunna.Io.Laws.{load_node_lem}
use prolly_gunna.Tree.Types.{ProcessedNodeUpdate, entry_of, sibling_of}
use prolly_gunna.Tree.Holds.{Holds, Holds-Extends, Children, Children-imp}
use prolly_gunna.Tree.Holds.Children.{Children-append, length-append}
use prolly_gunna.Tree.Core.{
  insert_in_leaf, insert_in_node, update_child, insert_recursive_impl, child_idx, put_sibling,
}
use prolly_gunna.Tree.Core.Descend.{chosen, focus, Focus, get_elem?_middle, set_middle}
use prolly_gunna.Tree.Core.Insert.Stores.{
  Updates, Updates-weaken, entries_of, siblings, put_entry-insert_entry, last_key_total,
  store_leaf_lem, split_leaf_lem, store_whole_lem, split_internal_lem,
}
use prolly_gunna.Tree.Core.Insert.Sibling.{put_sibling_after}

pub insert_entry_nonempty :
    (k : Key) (v : ValueRepr) (es : List LeafEntry) → 0 < length (insert_entry k v es)
unfolding insert_entry
insert_entry_nonempty k v [] = omega arith
insert_entry_nonempty k v (e ∷ es) = ground arith

module _ {S : Type 0} {x : Externals} {a : Access S} (lawful : IsLawful x) (good : IsAccess x a)
    (config : TreeConfig) (wide : 1 ≤ config.target_fanout) where
  open good use {view, Ready}

  insert_in_leaf_lem :
      (k : Key) (v : ValueRepr) (es : List LeafEntry) (s : S)
      → Ready s
      → Updates lawful good config zero s
          (insert_entry k v es)
          (insert_in_leaf x a config k v zero es s)
  unfolding insert_in_leaf
  insert_in_leaf_lem k v es s r =
      let es' = insert_entry k v es in
      rw put_entry-insert_entry (elim (Bool-cases (ltb config.target_fanout (length es'))) [
        | inl long ↦ rw long (split_leaf_lem lawful good config es' s r (ground arith))
        | inr short ↦
            let (b, e) = last_key_total es' (insert_entry_nonempty k v es) in
            rw short (store_leaf_lem lawful good config es' b s r e)
      ])

  -- The children with the updated child in its place, and its sibling after it.
  module _ (d : ℕ) (before after : List InternalEntry) (c : InternalEntry)
      (left middle right es : List LeafEntry) (t : S) (u : ProcessedNodeUpdate) (r : Ready t)
      (befores : Children (Holds x (view t) d) before left)
      (afters : Children (Holds x (view t) d) after right)
      (e : es ≡ left ++ (middle ++ right)) where
    whole_child_lem :
        u.split_info ≡ none
        → Children (Holds x (view t) d) (entry_of u ∷ []) middle
        → Updates lawful good config
            (suc d)
            t
            es
            (update_child x a config (suc d) (suc d) (length before) (before ++ c ∷ after) u t)
    unfolding update_child
    whole_child_lem none_split children =
        rw (none_split, set_middle before c (entry_of u) after)
          (store_whole_lem lawful good config d (before ++ entry_of u ∷ after) es t r
            (omega (arith, length-append {0} before (entry_of u ∷ after)))
            (subst (λ l. Children (Holds x (view t) d) (before ++ entry_of u ∷ after) l) (sym e)
              (Children-append (Holds x (view t) d) before (entry_of u ∷ after) left
                (middle ++ right) befores
                (Children-append (Holds x (view t) d) (entry_of u ∷ []) after middle right children
                  afters))))

    split_child_lem :
        (p : Key × Hash × ℕ)
        → u.split_info ≡ some p
        → Children (Holds x (view t) d) (entry_of u ∷ sibling_of p ∷ []) middle
        → IsSorted es
        → Updates lawful good config
            (suc d)
            t
            es
            (update_child x a config (suc d) (suc d) (length before) (before ++ c ∷ after) u t)
    unfolding update_child
    split_child_lem p split children sorted =
        rw (split, set_middle before c (entry_of u) after, placed)
          (elim (Bool-cases (ltb config.target_fanout (length cs))) [
            | inl long ↦
                rw long (split_internal_lem lawful good config d cs es t r (ground arith) all)
            | inr short ↦ rw short (
                store_whole_lem lawful good config d cs es t r
                  (omega (arith, length-append {0} before (entry_of u ∷ sibling_of p ∷ after))) all)
          ])
      where
        cs : List InternalEntry
        cs = before ++ entry_of u ∷ sibling_of p ∷ after

        all : Children (Holds x (view t) d) cs es
        all =
            subst (λ l. Children (Holds x (view t) d) cs l) (sym e)
              (Children-append (Holds x (view t) d) before (entry_of u ∷ sibling_of p ∷ after) left
                (middle ++ right) befores
                (Children-append (Holds x (view t) d) (entry_of u ∷ sibling_of p ∷ []) after middle
                  right children afters))

        placed : put_sibling (sibling_of p) (before ++ entry_of u ∷ after) ≡ cs
        placed =
            put_sibling_after (Holds x (view t) d) (entry_of u) (sibling_of p) before after left
              middle right es befores children afters e sorted

  -- The child at the focus was updated by the insertion.
  update_child_lem :
      (d : ℕ) (k : Key) (v : ValueRepr) (before : List InternalEntry) (c : InternalEntry)
      (after : List InternalEntry) (es : List LeafEntry) (s t : S)
      (q : Focus (Holds x (view s) d) k before c after es) (u : ProcessedNodeUpdate)
      → Extends (view s) (view t)
      → Ready t
      → Children (Holds x (view t) d) (entries_of u) (insert_entry k v q.middle)
      → IsSorted es
      → Updates lawful good config
          (suc d)
          t
          (insert_entry k v es)
          (update_child x a config (suc d) (suc d) (length before) (before ++ c ∷ after) u t)
  update_child_lem d k v before c after es s t q u keeps r children sorted =
      go u.split_info refl children
    where
      befores : Children (Holds x (view t) d) before q.left
      befores = Children-imp (Holds-Extends x keeps d) before q.left q.befores

      afters : Children (Holds x (view t) d) after q.right
      afters = Children-imp (Holds-Extends x keeps d) after q.right q.afters

      go :
          (o : Option (Key × Hash × ℕ))
          → u.split_info ≡ o
          → Children (Holds x (view t) d) (entry_of u ∷ siblings o) (insert_entry k v q.middle)
          → Updates lawful good config
              (suc d)
              t
              (insert_entry k v es)
              (update_child x a config (suc d) (suc d) (length before) (before ++ c ∷ after) u t)
      go none eq children =
          whole_child_lem d before after c q.left (insert_entry k v q.middle) q.right
            (insert_entry k v es) t u r befores afters (q.insert v) eq children
      go (some p) eq children =
          split_child_lem d before after c q.left (insert_entry k v q.middle) q.right
            (insert_entry k v es) t u r befores afters (q.insert v) p eq children
            (insert_entry-IsSorted k v es sorted)

  Updates-returns :
      (d : ℕ) (s : S) (es : List LeafEntry) (run run' : Result ProcessedNodeUpdate × S)
      → run ≡ run'
      → Updates lawful good config d s es run'
      → Updates lawful good config d s es run
  Updates-returns d s es run run' e u = subst (Updates lawful good config d s es) (sym e) u

  child_level : (d : ℕ) → suc d < 256 → (suc d + 256 - 1) % 256 ≡ d
  child_level d h = omega arith

  -- With more fuel than levels, an insertion returns, and leaves the tree with the entry inserted.
  pub insert_recursive_impl_lem :
      (fuel d : ℕ) (h : Hash) (k b : Key) (v : ValueRepr) (es : List LeafEntry) (s : S)
      → d < fuel
      → d < 256
      → Ready s
      → Holds x (view s) d h es
      → IsSorted es
      → last_key es ≡ some b
      → Updates lawful good config d s
          (insert_entry k v es)
          (insert_recursive_impl x a config fuel h k v d s)
  unfolding insert_recursive_impl
  insert_recursive_impl_lem zero d h k b v es s lt shallow r at sorted nonempty = elim lt [ ]
  insert_recursive_impl_lem (suc fuel) zero h k b v es s lt shallow r at sorted nonempty =
      rw (load_node_lem good h (leaf 0 es) s r at) (insert_in_leaf_lem k v es s r)
  insert_recursive_impl_lem (suc fuel) (suc d) h k b v es s lt shallow r ([], at, e) sorted
        nonempty =
      let e' : last_key [] ≡ some b = subst (λ l. last_key l ≡ some b) e nonempty in cc
  insert_recursive_impl_lem (suc fuel) (suc d) h k b v es s lt shallow r (c ∷ cs, at, children)
        sorted nonempty =
      let p = chosen k c cs in
      let q =
        focus (Holds x (view s) d) k p.before p.child p.after es
          (subst (λ l. Children (Holds x (view s) d) l es) p.splits children) sorted p.below
          p.fits in
      let u =
        insert_recursive_impl_lem fuel d p.child.child_hash k p.child.boundary_key v q.middle s
          (omega arith) (omega arith) r q.child.0 q.sorted q.child.2 in
      Updates-returns (suc d) s (insert_entry k v es) _ _
        (rw (
          load_node_lem good h (internal (suc d) (c ∷ cs)) s r at,
          p.index,
          ap (λ (l : List InternalEntry). get_elem? l (length p.before)) p.splits
              ∙ get_elem?_middle p.before p.child p.after,
          child_level d shallow,
          u.returns,
          p.splits,
        ))
        (Updates-weaken lawful good config (suc d) s u.after (insert_entry k v es) _ u.keeps (
          update_child_lem d k v p.before p.child p.after es s u.after q u.update u.keeps u.ready
            u.holds sorted))
