-- ===== src/Tree/Underflow/Nodes.antt =====
-- Neighbouring nodes lend, borrow and merge: the entries below them stay the same.
use prolly_gunna.Prelude.{
  ℕ, zero, suc, ◌%◌, ◌≤◌, ◌<◌, some, List, [], ◌∷◌, ◌++◌, ◌≡◌, refl, sym, ap, subst, ◌∙◌, arith,
  length, last, init, append_assoc, append-nil,
}
use prolly_gunna.Errors.{Result, ok}
use prolly_gunna.Node.{
  Hash, Key, LeafEntry, InternalEntry, Node, leaf, internal, last_key, boundary_of, item_count,
  num_entries, u64_mod,
}
use prolly_gunna.Externals.{Externals}
use prolly_gunna.Store.Access.{View, Extends}
use prolly_gunna.Io.Laws.{NodeAt}
use prolly_gunna.Tree.Holds.{Holds, Holds-Extends, Children, Children-imp}
use prolly_gunna.Tree.Holds.Children.{Children-append, Children-parts, sum_items_lem, length-append}
use prolly_gunna.Tree.Core.Insert.Stores.{last_key_total, last_boundary_total}
use prolly_gunna.Tree.Underflow.{borrow_last, borrow_first, merge_nodes}

module _ {A : Type 0} where
  -- A list that is not empty is its front and its last element.
  init-last :
      (y : A) (ys : List A)
      → (z : A) × (last (y ∷ ys) ≡ some z) × (y ∷ ys ≡ init (y ∷ ys) ++ z ∷ [])
  init-last y [] = (y, refl, refl)
  init-last y (y' ∷ ys) = let (z, e, e') = init-last y' ys in (z, e, ap (λ (l : List A). y ∷ l) e')

-- A node of depth `d` in memory with the entries below it.
abbrev pub Inside : Externals → View → ℕ → Node → List LeafEntry → Type 0
Inside x v zero n es = n ≡ leaf 0 es
Inside x v (suc d) n es =
    (cs : List InternalEntry) × (n ≡ internal (suc d) cs) × Children (Holds x v d) cs es

pub Inside-Extends :
    (x : Externals) {v w : View}
    → Extends v w
    → (d : ℕ) (n : Node) (es : List LeafEntry) → Inside x v d n es
    → Inside x w d n es
Inside-Extends x ext zero n es e = e
Inside-Extends x ext (suc d) n es (cs, e, children) =
    (cs, e, Children-imp (Holds-Extends x ext d) cs es children)

pub Holds-Inside :
    (x : Externals) (v : View) (d : ℕ) (h : Hash) (es : List LeafEntry)
    → Holds x v d h es
    → (n : Node) × NodeAt x v h n × Inside x v d n es
Holds-Inside x v zero h es at = (leaf 0 es, at, refl)
Holds-Inside x v (suc d) h es (cs, at, children) = (internal (suc d) cs, at, (cs, refl, children))

pub Inside-Holds :
    (x : Externals) (v : View) (d : ℕ) (h : Hash) (n : Node) (es : List LeafEntry)
    → NodeAt x v h n
    → Inside x v d n es
    → Holds x v d h es
Inside-Holds x v zero h n es at e = subst (NodeAt x v h) e at
Inside-Holds x v (suc d) h n es at (cs, e, children) = (cs, subst (NodeAt x v h) e at, children)

-- The boundary and the count of a node that is not empty.
pub Inside-boundary :
    (x : Externals) (v : View) (d : ℕ) (n : Node) (es : List LeafEntry)
    → 0 < num_entries n
    → Inside x v d n es
    → (b : Key) × (boundary_of n ≡ some b)
      × (last_key es ≡ some b)
      × (item_count n ≡ length es % u64_mod)
unfolding num_entries boundary_of item_count
Inside-boundary x v zero n es some_entries e =
    let (b, lk) = last_key_total es (subst (λ n. 0 < num_entries n) e some_entries) in
    rw e (b, lk, lk, refl)
Inside-boundary x v (suc d) n es some_entries (cs, e, children) =
    let (b, lb, lk) =
      last_boundary_total (Holds x v d) cs es (subst (λ n. 0 < num_entries n) e some_entries)
        children in
    rw e (b, lb, lk, sum_items_lem (Holds x v d) cs es children)

-- Two neighbours with the entries of `es` between them, neither of them empty.
pub record Neighbours (x : Externals) (v : View) (d : ℕ) (es : List LeafEntry)
    (run : Result (Node × Node)) : Type 0 where
  pub left : Node
  pub right : Node
  pub returns : run ≡ ok (left, right)
  pub lefts : List LeafEntry
  pub rights : List LeafEntry
  pub splits : es ≡ lefts ++ rights
  pub in_left : Inside x v d left lefts
  pub in_right : Inside x v d right rights
  pub some_left : 0 < num_entries left
  pub some_right : 0 < num_entries right

module _ (x : Externals) (v : View) where
  borrow_last_leaf :
      (y y' : LeafEntry) (ys bs : List LeafEntry)
      → Neighbours x v zero ((y ∷ y' ∷ ys) ++ bs) (borrow_last (leaf 0 (y ∷ y' ∷ ys)) (leaf 0 bs))
  unfolding borrow_last num_entries
  borrow_last_leaf y y' ys bs =
      let (z, e, e') = init-last y (y' ∷ ys) in
      record {
        left = leaf 0 (init (y ∷ y' ∷ ys));
        right = leaf 0 (z ∷ bs);
        returns = rw (borrow_last, e);
        lefts = init (y ∷ y' ∷ ys);
        rights = z ∷ bs;
        splits =
            ap (λ (l : List LeafEntry). l ++ bs) e' ∙ append_assoc (init (y ∷ y' ∷ ys)) (z ∷ []) bs;
        in_left = refl;
        in_right = refl;
        some_left = omega arith;
        some_right = omega arith;
      }

  borrow_last_internal :
      (d : ℕ) (c c' : InternalEntry) (cs ds : List InternalEntry) (xs ys : List LeafEntry)
      → Children (Holds x v d) (c ∷ c' ∷ cs) xs
      → Children (Holds x v d) ds ys
      → Neighbours x v
          (suc d)
          (xs ++ ys)
          (borrow_last (internal (suc d) (c ∷ c' ∷ cs)) (internal (suc d) ds))
  unfolding borrow_last num_entries
  borrow_last_internal d c c' cs ds xs ys children children' =
      let (z, e, e') = init-last c (c' ∷ cs) in
      let front = init (c ∷ c' ∷ cs) in
      let (as', bs', split, in_front, in_last) =
        Children-parts (Holds x v d) front (z ∷ []) xs
          (subst (λ l. Children (Holds x v d) l xs) e' children) in
      record {
        left = internal (suc d) front;
        right = internal (suc d) (z ∷ ds);
        returns = rw (borrow_last, e);
        lefts = as';
        rights = bs' ++ ys;
        splits = ap (λ (l : List LeafEntry). l ++ ys) split ∙ append_assoc as' bs' ys;
        in_left = (front, refl, in_front);
        in_right =
            (z ∷ ds, refl, Children-append (Holds x v d) (z ∷ []) ds bs' ys in_last children');
        some_left = omega arith;
        some_right = omega arith;
      }

  -- A neighbour with two or more entries lends its last one to the node on its right.
  pub borrow_last_lem :
      (d : ℕ) (left right : Node) (as' bs' : List LeafEntry)
      → 2 ≤ num_entries left
      → Inside x v d left as'
      → Inside x v d right bs'
      → Neighbours x v d (as' ++ bs') (borrow_last left right)
  unfolding num_entries
  borrow_last_lem zero left right [] bs two e e' = absurd (ground (arith, two, e))
  borrow_last_lem zero left right (y ∷ []) bs two e e' = absurd (ground (arith, two, e))
  borrow_last_lem zero left right (y ∷ y' ∷ ys) bs two e e' =
      rw (e, e') (borrow_last_leaf y y' ys bs)
  borrow_last_lem (suc d) left right xs ys two ([], e, children) at =
      absurd (ground (arith, two, e))
  borrow_last_lem (suc d) left right xs ys two (c ∷ [], e, children) at =
      absurd (ground (arith, two, e))
  borrow_last_lem (suc d) left right xs ys two (c ∷ c' ∷ cs, e, children) (ds, e', children') =
      rw (e, e') (borrow_last_internal d c c' cs ds xs ys children children')

  -- A neighbour with two or more entries lends its first one to the node on its left.
  pub borrow_first_lem :
      (d : ℕ) (left right : Node) (xs ys : List LeafEntry)
      → 2 ≤ num_entries right
      → Inside x v d left xs
      → Inside x v d right ys
      → Neighbours x v d (xs ++ ys) (borrow_first left right)
  unfolding num_entries borrow_first
  borrow_first_lem zero left right xs [] two e e' = absurd (ground (arith, two, e'))
  borrow_first_lem zero left right xs (y ∷ []) two e e' = absurd (ground (arith, two, e'))
  borrow_first_lem zero left right xs (y ∷ y' ∷ ys) two e e' =
      rw (e, e')
        (record {
          left = leaf 0 (xs ++ y ∷ []);
          right = leaf 0 (y' ∷ ys);
          returns = refl;
          lefts = xs ++ y ∷ [];
          rights = y' ∷ ys;
          splits = sym (append_assoc xs (y ∷ []) (y' ∷ ys));
          in_left = refl;
          in_right = refl;
          some_left = omega (arith, length-append {0} xs (y ∷ []));
          some_right = omega arith;
        })
  borrow_first_lem (suc d) left right xs ys two at ([], e, children) =
      absurd (ground (arith, two, e))
  borrow_first_lem (suc d) left right xs ys two at (c ∷ [], e, children) =
      absurd (ground (arith, two, e))
  borrow_first_lem (suc d) left right xs ys two (cs, e, children)
        (c ∷ c' ∷ ds, e', (zs, ys', split, child, rest)) =
      rw (e, e')
        (record {
          left = internal (suc d) (cs ++ c ∷ []);
          right = internal (suc d) (c' ∷ ds);
          returns = refl;
          lefts = xs ++ zs;
          rights = ys';
          splits = ap (λ (l : List LeafEntry). xs ++ l) split ∙ sym (append_assoc xs zs ys');
          in_left = (
            cs ++ c ∷ [],
            refl,
            Children-append (Holds x v d) cs (c ∷ []) xs zs children
                (zs, [], sym (append-nil zs), child, refl),
          );
          in_right = (c' ∷ ds, refl, rest);
          some_left = omega (arith, length-append {0} cs (c ∷ []));
          some_right = omega arith;
        })

  -- Two neighbours of one depth merge into one node with the entries of both.
  pub merge_nodes_lem :
      (d : ℕ) (left right : Node) (xs ys : List LeafEntry)
      → 0 < num_entries left
      → Inside x v d left xs
      → Inside x v d right ys
      → (m : Node) × (merge_nodes left right ≡ ok m)
        × Inside x v d m (xs ++ ys)
        × (0 < num_entries m)
  unfolding num_entries merge_nodes
  merge_nodes_lem zero left right xs ys some_left e e' =
      let some_xs : 0 < length xs = ground (arith, some_left, e) in
      (leaf 0 (xs ++ ys), rw (e, e'), refl, omega (arith, some_xs, length-append {0} xs ys))
  merge_nodes_lem (suc d) left right xs ys some_left (cs, e, children) (ds, e', children') =
      let some_cs : 0 < length cs = ground (arith, some_left, e) in
      (
        internal (suc d) (cs ++ ds),
        rw (e, e'),
        (cs ++ ds, refl, Children-append (Holds x v d) cs ds xs ys children children'),
        omega (arith, some_cs, length-append {0} cs ds),
      )
