-- ===== src/Tree/Underflow/Strategy.antt =====
-- The whole strategy for a child that is too small: borrow from a neighbour, or merge with one.
use prolly_gunna.Prelude.{
  ℕ, zero, suc, ◌+◌, ◌-◌, ◌≤◌, ◌<◌, true, false, some, List, [], ◌∷◌, ◌++◌, ◌≡◌, refl, sym, ap,
  subst, ◌∙◌, arith, length, ltb, leb, Bool-cases, inl, inr, append_assoc,
}
use prolly_gunna.Errors.{Result, ok}
use prolly_gunna.Node.{Key, TreeConfig, LeafEntry, InternalEntry, Node, num_entries, last_key}
use prolly_gunna.Externals.{Externals, IsLawful}
use prolly_gunna.Store.Access.{Access, View, IsAccess}
use prolly_gunna.Io.Laws.{load_node_lem}
use prolly_gunna.Tree.Holds.{Holds, Children}
use prolly_gunna.Tree.Holds.Children.{Children-parts}
use prolly_gunna.Tree.Core.Descend.{get_elem?_middle}
use prolly_gunna.Tree.Underflow.{
  load_child, rebalance_borrow_from_left, rebalance_borrow_from_right,
  merge_into_left_sibling_internal, can_lend, can_lend_left, can_lend_right, merge_underflow,
  handle_underflow_strategy,
}
use prolly_gunna.Tree.Underflow.Nodes.{Inside, Holds-Inside}
use prolly_gunna.Tree.Underflow.Siblings.{
  get_elem?_second, Rebalanced, borrow_left_lem, borrow_right_lem, merge_lem,
}

Inside-some :
    (x : Externals) (v : View) (d : ℕ) (n : Node) (es : List LeafEntry) (b : Key)
    → last_key es ≡ some b
    → Inside x v d n es
    → 0 < num_entries n
unfolding num_entries
Inside-some x v zero n [] b lk e = absurd (ground (arith, lk))
Inside-some x v zero n (y ∷ ys) b lk e = rw e (omega arith)
Inside-some x v (suc d) n es b lk ([], e, children) = absurd (ground (arith, lk, children))
Inside-some x v (suc d) n es b lk (c ∷ cs, e, children) = rw e (omega arith)

-- Two neighbours in a list.
record Pair (cs : List InternalEntry) (i : ℕ) : Type 0 where
  before : List InternalEntry
  l : InternalEntry
  r : InternalEntry
  after : List InternalEntry
  splits : cs ≡ before ++ l ∷ r ∷ after
  index : i ≡ length before

Pair-at : (cs : List InternalEntry) (i : ℕ) → suc i < length cs → Pair cs i
Pair-at [] i lt = absurd (omega arith)
Pair-at (c ∷ []) i lt = absurd (omega arith)
Pair-at (c ∷ c' ∷ cs) zero lt = record {
  before = [];
  l = c;
  r = c';
  after = cs;
  splits = refl;
  index = refl;
}
Pair-at (c ∷ c' ∷ cs) (suc i) lt =
    let p = Pair-at (c' ∷ cs) i (omega arith) in
    record {
      before = c ∷ p.before;
      l = p.l;
      r = p.r;
      after = p.after;
      splits = ap (λ (l : List InternalEntry). c ∷ l) p.splits;
      index = ap suc p.index;
    }

module _ {S : Type 0} {x : Externals} {a : Access S} (lawful : IsLawful x) (good : IsAccess x a)
    (d : ℕ) (cs : List InternalEntry) (es : List LeafEntry) (s : S) where
  open good use {view, Ready}

  -- The neighbours at `i` and `i + 1`, loaded, and what can be done with them.
  record Facing (i : ℕ) : Type 0 where
    left : Node
    right : Node
    load_left : load_child x a cs i s ≡ (ok left, s)
    load_right : load_child x a cs (suc i) s ≡ (ok right, s)
    borrow_left :
        2 ≤ num_entries left
        → Rebalanced lawful good d s es (rebalance_borrow_from_left x a cs i (suc i) s)
    borrow_right :
        2 ≤ num_entries right
        → Rebalanced lawful good d s es (rebalance_borrow_from_right x a cs i (suc i) s)
    merge : Rebalanced lawful good d s es (merge_into_left_sibling_internal x a cs i (suc i) s)

  Facing-split :
      (before : List InternalEntry) (l r : InternalEntry) (after : List InternalEntry)
      → cs ≡ before ++ l ∷ r ∷ after
      → Ready s
      → Children (Holds x (view s) d) (before ++ l ∷ r ∷ after) es
      → Facing (length before)
  unfolding load_child
  Facing-split before l r after e ready children =
      let (
        e0,
        rest,
        split,
        befores,
        (xs, rest', split', child, (ys, e1, split'', child', afters)),
      ) =
        Children-parts (Holds x (view s) d) before (l ∷ r ∷ after) es children in
      let (left, at, inside) = Holds-Inside x (view s) d l.child_hash xs child.0 in
      let (right, at', inside') = Holds-Inside x (view s) d r.child_hash ys child'.0 in
      let loads = load_node_lem good l.child_hash left s ready at in
      let loads' = load_node_lem good r.child_hash right s ready at' in
      let whole : es ≡ e0 ++ ((xs ++ ys) ++ e1) =
        split
        ∙ ap (λ (l : List LeafEntry). e0 ++ l)
            (split' ∙ ap (λ (l : List LeafEntry). xs ++ l) split'' ∙ sym (append_assoc xs ys e1)) in
      let fits =
        λ (run : Result (List InternalEntry) × S)
            (q : Rebalanced lawful good d s (e0 ++ ((xs ++ ys) ++ e1)) run).
          subst (λ l. Rebalanced lawful good d s l run) (sym whole) q in
      record {
        left = left;
        right = right;
        load_left = rw (e, get_elem?_middle before l (r ∷ after)) loads;
        load_right = rw (e, get_elem?_second before l r after) loads';
        borrow_left = λ two. rw e (
            fits _ (
              borrow_left_lem lawful good d before l r after e0 (xs ++ ys) e1 s ready befores afters
                left right xs ys refl loads loads' inside inside' two));
        borrow_right = λ two. rw e (
            fits _ (
              borrow_right_lem lawful good d before l r after e0 (xs ++ ys) e1 s ready befores
                afters left right xs ys refl loads loads' inside inside' two));
        merge = rw e (
            fits _ (
              merge_lem lawful good d before l r after e0 (xs ++ ys) e1 s ready befores afters left
                right xs ys refl loads loads' inside inside'
                (Inside-some x (view s) d left xs l.boundary_key child.2 inside) child.1 child'.1));
      }

  facing : (i : ℕ) → suc i < length cs → Ready s → Children (Holds x (view s) d) cs es → Facing i
  facing i lt ready children =
      let p = Pair-at cs i lt in
      subst Facing (sym p.index) (
        Facing-split p.before p.l p.r p.after p.splits ready
          (subst (λ l. Children (Holds x (view s) d) l es) p.splits children))

  module _ (config : TreeConfig) where
    lend_left_lem :
        (i : ℕ) (f : Facing i)
        → can_lend_left x a config cs (suc i) s
          ≡ (ok (ltb config.min_fanout (num_entries f.left)), s)
    unfolding can_lend_left can_lend
    lend_left_lem i f =
        let positive : ltb 0 (suc i) ≡ true = ground arith in
        let back : suc i - 1 ≡ i = omega arith in rw (positive, back, f.load_left)

    lend_right_lem :
        (i : ℕ) (f : Facing i)
        → suc i < length cs
        → can_lend_right x a config cs i s ≡ (ok (ltb config.min_fanout (num_entries f.right)), s)
    unfolding can_lend_right can_lend
    lend_right_lem i f lt =
        let inside : ltb (i + 1) (length cs) ≡ true = ground (arith, lt) in
        let next : i + 1 ≡ suc i = omega arith in rw (inside, next, f.load_right)

    lend_right_none : (i : ℕ) → length cs ≤ suc i → can_lend_right x a config cs i s ≡ (ok false, s)
    unfolding can_lend_right
    lend_right_none i le =
        let outside : ltb (i + 1) (length cs) ≡ false = ground (arith, le) in rw outside

    -- The three ways of the strategy.
    left_way :
        (i : ℕ)
        → can_lend_left x a config cs (suc i) s ≡ (ok true, s)
        → handle_underflow_strategy x a config cs (suc i) s
          ≡ rebalance_borrow_from_left x a cs i (suc i) s
    unfolding handle_underflow_strategy
    left_way i e = let back : suc i - 1 ≡ i = omega arith in rw (e, back)

    right_way :
        (i : ℕ)
        → can_lend_left x a config cs i s ≡ (ok false, s)
        → can_lend_right x a config cs i s ≡ (ok true, s)
        → handle_underflow_strategy x a config cs i s
          ≡ rebalance_borrow_from_right x a cs i (suc i) s
    unfolding handle_underflow_strategy
    right_way i e e' = let next : i + 1 ≡ suc i = omega arith in rw (e, e', next)

    merge_way :
        (i : ℕ)
        → can_lend_left x a config cs i s ≡ (ok false, s)
        → can_lend_right x a config cs i s ≡ (ok false, s)
        → handle_underflow_strategy x a config cs i s ≡ merge_underflow x a config cs i s
    unfolding handle_underflow_strategy
    merge_way i e e' = rw (e, e')

    merge_left :
        (i : ℕ)
        → merge_underflow x a config cs (suc i) s
          ≡ merge_into_left_sibling_internal x a cs i (suc i) s
    unfolding merge_underflow
    merge_left i =
        let positive : ltb 0 (suc i) ≡ true = ground arith in
        let back : suc i - 1 ≡ i = omega arith in rw (positive, back)

    merge_first :
        1 < length cs
        → merge_underflow x a config cs 0 s ≡ merge_into_left_sibling_internal x a cs 0 1 s
    unfolding merge_underflow
    merge_first lt = let more : leb (length cs) 1 ≡ false = ground (arith, lt) in rw more

    no_left : can_lend_left x a config cs 0 s ≡ (ok false, s)
    unfolding can_lend_left
    no_left = refl

    run_to :
        (run run' : Result (List InternalEntry) × S)
        → run ≡ run'
        → Rebalanced lawful good d s es run'
        → Rebalanced lawful good d s es run
    run_to run run' e q = subst (Rebalanced lawful good d s es) (sym e) q

    -- When the neighbour at `i` has nothing to lend to the one at `i + 1`.
    without_left :
        (i : ℕ)
        → 1 ≤ config.min_fanout
        → suc i < length cs
        → Ready s
        → Children (Holds x (view s) d) cs es
        → (f : Facing i) → can_lend_left x a config cs (suc i) s ≡ (ok false, s)
        → Rebalanced lawful good d s es (handle_underflow_strategy x a config cs (suc i) s)
    without_left i one lt ready children f unable =
        elim (Bool-cases (ltb (suc (suc i)) (length cs))) [
          | inl more ↦
              let g = facing (suc i) (ground (arith, more)) ready children in
              let lends = lend_right_lem (suc i) g (ground (arith, more)) in
              elim (Bool-cases (ltb config.min_fanout (num_entries g.right))) [
                | inl able ↦
                    run_to _ _ (right_way (suc i) unable (lends ∙ ap (λ b. (ok b, s)) able))
                      (g.borrow_right (ground (arith, able, one)))
                | inr short ↦
                    run_to _ _
                      (merge_way (suc i) unable (lends ∙ ap (λ b. (ok b, s)) short) ∙ merge_left i)
                      f.merge
              ]
          | inr end ↦
              run_to _ _
                (merge_way (suc i) unable (lend_right_none (suc i) (ground (arith, end)))
                  ∙ merge_left i)
                f.merge
        ]

    -- In a ready store, with lawful externals and a `min_fanout` of at least one: for a child in a
    -- list of two or more children that hold entries, the strategy borrows or merges without an
    -- error, loses nothing of the store, and returns children that hold the same entries, with
    -- right boundaries and counts, at least one of them.
    pub handle_underflow_strategy_lem :
        (i : ℕ)
        → 1 ≤ config.min_fanout
        → i < length cs
        → 2 ≤ length cs
        → Ready s
        → Children (Holds x (view s) d) cs es
        → Rebalanced lawful good d s es (handle_underflow_strategy x a config cs i s)
    handle_underflow_strategy_lem zero one lt two ready children =
        let f = facing 0 (omega arith) ready children in
        let lends = lend_right_lem 0 f (omega arith) in
        elim (Bool-cases (ltb config.min_fanout (num_entries f.right))) [
          | inl able ↦
              run_to _ _ (right_way 0 no_left (lends ∙ ap (λ b. (ok b, s)) able))
                (f.borrow_right (ground (arith, able, one)))
          | inr short ↦
              run_to _ _
                (merge_way 0 no_left (lends ∙ ap (λ b. (ok b, s)) short)
                  ∙ merge_first (omega arith))
                f.merge
        ]
    handle_underflow_strategy_lem (suc i) one lt two ready children =
        let f = facing i lt ready children in
        let lends = lend_left_lem i f in
        elim (Bool-cases (ltb config.min_fanout (num_entries f.left))) [
          | inl able ↦
              run_to _ _ (left_way i (lends ∙ ap (λ b. (ok b, s)) able))
                (f.borrow_left (ground (arith, able, one)))
          | inr short ↦ without_left i one lt ready children f (lends ∙ ap (λ b. (ok b, s)) short)
        ]
