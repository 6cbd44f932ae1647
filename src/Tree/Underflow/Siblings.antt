-- ===== src/Tree/Underflow/Siblings.antt =====
-- Rebalancing two neighbours under their parent keeps the entries of the parent.
use prolly_gunna.Prelude.{
  ℕ, suc, ◌+◌, ◌%◌, ◌≤◌, ◌<◌, ◌==◌, true, false, some, List, [], ◌∷◌, ◌++◌, ◌≡◌, refl, sym, ap,
  subst, ◌∙◌, arith, length, get_elem?, set, remove_at, leb, append_assoc,
}
use prolly_gunna.Errors.{Result, ok}
use prolly_gunna.Node.{LeafEntry, InternalEntry, Node, item_count, num_entries, u64_mod}
use prolly_gunna.Externals.{Externals, IsLawful}
use prolly_gunna.Store.Access.{Access, IsAccess, Extends, Extends-trans}
use prolly_gunna.Io.{load_node}
use prolly_gunna.Io.Laws.{store_node_lem, NodeAt-Extends}
use prolly_gunna.Tree.Holds.{Holds, Holds-Extends, Children, Children-imp}
use prolly_gunna.Tree.Holds.Children.{Children-append, length-append}
use prolly_gunna.Tree.Core.Descend.{get_elem?_middle, set_middle}
use prolly_gunna.Tree.Underflow.{
  load_child, store_pair, borrow_last, borrow_first, rebalance_borrow_from_left,
  rebalance_borrow_from_right, merge_entries, merge_into_left_sibling_internal,
}
use prolly_gunna.Tree.Underflow.Nodes.{
  Inside, Inside-Extends, Inside-Holds, Inside-boundary, Neighbours, borrow_last_lem,
  borrow_first_lem, merge_nodes_lem,
}

module _ {A : Type 0} where
  pub get_elem?_second :
      (xs : List A) (y z : A) (ys : List A)
      → get_elem? (xs ++ y ∷ z ∷ ys) (suc (length xs)) ≡ some z
  get_elem?_second [] y z ys = refl
  get_elem?_second (x ∷ xs) y z ys = get_elem?_second xs y z ys

  set_second :
      (xs : List A) (y z w : A) (ys : List A)
      → set (xs ++ y ∷ z ∷ ys) (suc (length xs)) w ≡ xs ++ y ∷ w ∷ ys
  set_second [] y z w ys = refl
  set_second (x ∷ xs) y z w ys = ap (λ (l : List A). x ∷ l) (set_second xs y z w ys)

  remove_second :
      (xs : List A) (y z : A) (ys : List A)
      → remove_at (xs ++ y ∷ z ∷ ys) (suc (length xs)) ≡ xs ++ y ∷ ys
  remove_second [] y z ys = refl
  remove_second (x ∷ xs) y z ys = ap (λ (l : List A). x ∷ l) (remove_second xs y z ys)

module _ {S : Type 0} {x : Externals} {a : Access S} (lawful : IsLawful x)
    (good : IsAccess x a) where
  open good use {view, Ready}

  -- A run that returns a list of children with the same entries below it.
  pub record Rebalanced (d : ℕ) (s : S) (es : List LeafEntry)
      (run : Result (List InternalEntry) × S) : Type 0 where
    pub children : List InternalEntry
    pub after : S
    pub returns : run ≡ (ok children, after)
    pub ready : Ready after
    pub keeps : Extends (view s) (view after)
    pub holds : Children (Holds x (view after) d) children es
    pub some_children : 0 < length children

  module _ (d : ℕ) (before : List InternalEntry) (l r : InternalEntry) (after : List InternalEntry)
      (e0 mid e1 : List LeafEntry) (s : S) (ready : Ready s)
      (befores : Children (Holds x (view s) d) before e0)
      (afters : Children (Holds x (view s) d) after e1) where
    store_pair_lem :
        (run : Result (Node × Node)) (n : Neighbours x (view s) d mid run)
        → Rebalanced d s (e0 ++ (mid ++ e1)) (
            store_pair x a
              (before ++ l ∷ r ∷ after)
              (length before)
              (suc (length before))
              (n.left, n.right)
              s)
    unfolding store_pair
    store_pair_lem run n =
        let (b, lb, lk, count) =
          Inside-boundary x (view s) d n.left n.lefts n.some_left n.in_left in
        let (b', lb', lk', count') =
          Inside-boundary x (view s) d n.right n.rights n.some_right n.in_right in
        let p = store_node_lem good lawful n.left b s ready lb in
        let q = store_node_lem good lawful n.right b' p.after p.ready lb' in
        let keeps : Extends (view s) (view q.after) = Extends-trans p.keeps q.keeps in
        let l' : InternalEntry = record {
          boundary_key = b;
          child_hash = p.hash;
          num_items_subtree = item_count n.left;
        } in
        let r' : InternalEntry = record {
          boundary_key = b';
          child_hash = q.hash;
          num_items_subtree = item_count n.right;
        } in
        let keep = Children-imp (Holds-Extends x keeps d) in
        record {
          children = before ++ l' ∷ r' ∷ after;
          after = q.after;
          returns = rw (
            p.returns,
            q.returns,
            set_middle before l l' (r ∷ after),
            set_second before l' r r' after,
          );
          ready = q.ready;
          keeps = keeps;
          holds =
              Children-append (Holds x (view q.after) d) before (l' ∷ r' ∷ after) e0 (mid ++ e1)
                (keep before e0 befores)
                (
                  n.lefts,
                  n.rights ++ e1,
                  ap (λ (es : List LeafEntry). es ++ e1) n.splits
                      ∙ append_assoc n.lefts n.rights e1,
                  (
                    Inside-Holds x (view q.after) d p.hash n.left n.lefts
                        (NodeAt-Extends q.keeps p.node_at)
                        (Inside-Extends x keeps d n.left n.lefts n.in_left),
                    count,
                    lk,
                  ),
                  (
                    n.rights,
                    e1,
                    refl,
                    (
                      Inside-Holds x (view q.after) d q.hash n.right n.rights q.node_at
                          (Inside-Extends x keeps d n.right n.rights n.in_right),
                      count',
                      lk',
                    ),
                    keep after e1 afters,
                  ),
                );
          some_children = omega (arith, length-append {0} before (l' ∷ r' ∷ after));
        }

    -- The two neighbours, loaded.
    module _ (left right : Node) (xs ys : List LeafEntry) (split : mid ≡ xs ++ ys)
        (loads_left : load_node x a l.child_hash s ≡ (ok left, s))
        (loads_right : load_node x a r.child_hash s ≡ (ok right, s))
        (in_left : Inside x (view s) d left xs) (in_right : Inside x (view s) d right ys) where
      pub borrow_left_lem :
          2 ≤ num_entries left
          → Rebalanced d s (e0 ++ (mid ++ e1)) (
              rebalance_borrow_from_left x a
                (before ++ l ∷ r ∷ after)
                (length before)
                (suc (length before))
                s)
      unfolding rebalance_borrow_from_left load_child
      borrow_left_lem two =
          let n =
            subst (λ es. Neighbours x (view s) d es (borrow_last left right)) (sym split)
              (borrow_last_lem x (view s) d left right xs ys two in_left in_right) in
          rw
            (
              get_elem?_middle before l (r ∷ after),
              loads_left,
              get_elem?_second before l r after,
              loads_right,
              n.returns,
            )
            (store_pair_lem (borrow_last left right) n)

      pub borrow_right_lem :
          2 ≤ num_entries right
          → Rebalanced d s (e0 ++ (mid ++ e1)) (
              rebalance_borrow_from_right x a
                (before ++ l ∷ r ∷ after)
                (length before)
                (suc (length before))
                s)
      unfolding rebalance_borrow_from_right load_child
      borrow_right_lem two =
          let n =
            subst (λ es. Neighbours x (view s) d es (borrow_first left right)) (sym split)
              (borrow_first_lem x (view s) d left right xs ys two in_left in_right) in
          rw
            (
              get_elem?_middle before l (r ∷ after),
              loads_left,
              get_elem?_second before l r after,
              loads_right,
              n.returns,
            )
            (store_pair_lem (borrow_first left right) n)

      pub merge_lem :
          0 < num_entries left
          → l.num_items_subtree ≡ length xs % u64_mod
          → r.num_items_subtree ≡ length ys % u64_mod
          → Rebalanced d s (e0 ++ (mid ++ e1)) (
              merge_into_left_sibling_internal x a
                (before ++ l ∷ r ∷ after)
                (length before)
                (suc (length before))
                s)
      unfolding merge_into_left_sibling_internal merge_entries
      merge_lem some_left count count' =
          let (m, merges, inside, some_m) =
            merge_nodes_lem x (view s) d left right xs ys some_left in_left in_right in
          let (b, lb, lk, _) = Inside-boundary x (view s) d m (xs ++ ys) some_m inside in
          let p = store_node_lem good lawful m b s ready lb in
          let c : InternalEntry = record {
            boundary_key = b;
            child_hash = p.hash;
            num_items_subtree = (l.num_items_subtree + r.num_items_subtree) % u64_mod;
          } in
          let keep = Children-imp (Holds-Extends x p.keeps d) in
          let adjacent : (length before + 1 == suc (length before)) ≡ true = ground arith in
          let in_range : leb (length (before ++ l ∷ r ∷ after)) (suc (length before)) ≡ false =
            ground (arith, length-append {0} before (l ∷ r ∷ after)) in
          record {
            children = before ++ c ∷ after;
            after = p.after;
            returns = rw (
              adjacent,
              in_range,
              get_elem?_middle before l (r ∷ after),
              get_elem?_second before l r after,
              loads_left,
              loads_right,
              merges,
              p.returns,
              set_middle before l c (r ∷ after),
              remove_second before c r after,
            );
            ready = p.ready;
            keeps = p.keeps;
            holds =
                Children-append (Holds x (view p.after) d) before (c ∷ after) e0 (mid ++ e1)
                  (keep before e0 befores)
                  (
                    xs ++ ys,
                    e1,
                    ap (λ (es : List LeafEntry). es ++ e1) split,
                    (
                      Inside-Holds x (view p.after) d p.hash m (xs ++ ys) p.node_at
                          (Inside-Extends x p.keeps d m (xs ++ ys) inside),
                      omega (arith, count, count', length-append {0} xs ys),
                      lk,
                    ),
                    keep after e1 afters,
                  );
            some_children = omega (arith, length-append {0} before (c ∷ after));
          }
