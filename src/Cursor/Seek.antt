-- ===== src/Cursor/Seek.antt =====
-- A cursor that is made for a key stands before the first entry at or above the key.
use prolly_gunna.Prelude.{
  ℕ, zero, suc, ◌+◌, ◌<◌, some, lt, eq, gt, List, [], ◌∷◌, ◌++◌, ◌≡◌, ◌⊎◌, inl, inr, refl, sym, ap,
  ◌∙◌, arith, true, subst, length, get_elem?, drop, append_assoc, append-nil,
}
use prolly_gunna.Prelude.Bytes.{cmp, le_key, ◌≺◌, gt_of_lt}
use prolly_gunna.Errors.{Result, Exec}
use prolly_gunna.Node.{Hash, Key, LeafEntry, InternalEntry, leaf, internal, last_key}
use prolly_gunna.Node.Order.{AllKeys, IsSorted}
use prolly_gunna.Node.Order.Append.{last_key-append}
use prolly_gunna.Externals.{Externals}
use prolly_gunna.Store.Access.{Access, View, IsAccess}
use prolly_gunna.Io.Laws.{load_node_lem}
use prolly_gunna.Tree.Holds.{Holds, Child, Children}
use prolly_gunna.Tree.Core.{child_idx}
use prolly_gunna.Tree.Core.Descend.{chosen, focus, get_elem?_middle}
use prolly_gunna.Cursor.{Cursor, descend, entry_idx}
use prolly_gunna.Cursor.Ahead.{After, Landed, no_last_key}

-- The entries at or above the key, of a sorted list.
unfoldable pub entries_from : Key → List LeafEntry → List LeafEntry
entries_from k [] = []
entries_from k (e ∷ es) = elim (cmp e.key k) [ lt ↦ entries_from k es | eq ↦ e ∷ es | gt ↦ e ∷ es ]

entries_from_right :
    (k : Key) (xs ys : List LeafEntry)
    → AllKeys (λ j. j ≺ k) xs
    → entries_from k (xs ++ ys) ≡ entries_from k ys
unfolding entries_from
entries_from_right k [] ys h = refl
entries_from_right k (x ∷ xs) ys h = ground (arith, entries_from_right k xs ys h.1)

entries_from_left :
    (k : Key) (xs ys : List LeafEntry) (b : Key)
    → last_key xs ≡ some b
    → le_key k b ≡ true
    → entries_from k (xs ++ ys) ≡ entries_from k xs ++ ys
unfolding entries_from
entries_from_left k [] ys b e le = cc
entries_from_left k (x ∷ []) ys b e le = ground (arith, gt_of_lt x.key k)
entries_from_left k (x ∷ x' ∷ xs) ys b e le =
    ground (arith, entries_from_left k (x' ∷ xs) ys b e le)

-- The search in a leaf finds where those entries begin.
pub drop-entry_idx : (k : Key) (es : List LeafEntry) → drop (entry_idx k es) es ≡ entries_from k es
unfolding entry_idx entries_from
drop-entry_idx k [] = refl
drop-entry_idx k (e ∷ es) = ground (arith, drop-entry_idx k es)

module _ {ℓ} {A : Type ℓ} where
  drop_middle : (xs : List A) (y : A) (ys : List A) → drop (suc (length xs)) (xs ++ y ∷ ys) ≡ ys
  drop_middle [] y ys = refl
  drop_middle (x ∷ xs) y ys = drop_middle xs y ys

  regroup : (ws xs ys zs : List A) → (ws ++ (xs ++ ys)) ++ zs ≡ ws ++ (xs ++ (ys ++ zs))
  regroup ws xs ys zs = simp append_assoc

-- The key's place is among the entries, which end at the boundary, or nothing comes after them.
abbrev pub Fits : Key → Key → List LeafEntry → Type 0
Fits k b later = (le_key k b ≡ true) ⊎ (later ≡ [])

Fits-Child :
    (P : Hash → List LeafEntry → Type 0) (k b : Key) (c : InternalEntry)
    (after : List InternalEntry) (left middle right later : List LeafEntry)
    → Child P c middle
    → Children P after right
    → last_key (left ++ (middle ++ right)) ≡ some b
    → (le_key k c.boundary_key ≡ true) ⊎ (after ≡ [])
    → Fits k b later
    → Fits k c.boundary_key (right ++ later)
Fits-Child P k b c after left middle right later child afters e (inl le) f = inl le
Fits-Child P k b c [] left middle right later child afters e (inr _) (inr nil) =
    inr (rw (afters, nil))
Fits-Child P k b c [] left middle right later child afters e (inr _) (inl le) =
    let e' : last_key (left ++ middle) ≡ some b =
      subst (λ l. last_key (left ++ l) ≡ some b)
        (ap (λ (r : List LeafEntry). middle ++ r) afters ∙ append-nil middle) e in
    let same : c.boundary_key ≡ b = cc (last_key-append left middle c.boundary_key child.2) in
    inl (rw same le)
Fits-Child P k b c (d ∷ ds) left middle right later child afters e (inr nil) f = cc

Fits-splits :
    (k b : Key) (es later : List LeafEntry)
    → last_key es ≡ some b
    → Fits k b later
    → entries_from k (es ++ later) ≡ entries_from k es ++ later
Fits-splits k b es later e (inl le) = entries_from_left k es later b e le
Fits-splits k b es later e (inr nil) = rw (nil, append-nil, append-nil)

module _ {S : Type 0} (x : Externals) (v : View) where
  -- The descent ends in a leaf, and what is at or above the key is there and in the later leaves.
  pub record Sought (k : Key) (c : Cursor S) (r : Result (Unit {0}) × Cursor S) (n : ℕ)
      (es later : List LeafEntry) : Type 0 where
    pub within : List LeafEntry
    pub landed : Landed x v c r n within
    pub fits : Fits k landed.last landed.rest
    pub starts : entries_from k (es ++ later) ≡ entries_from k landed.entries ++ landed.rest

module _ {S : Type 0} {x : Externals} {a : Access S} (good : IsAccess x a)
    (pick : List InternalEntry → ℕ) (k : Key)
    (picks : (c : InternalEntry) (cs : List InternalEntry)
      → pick (c ∷ cs) ≡ child_idx k (c ∷ cs)) where
  open good use {view, Ready}

  -- The descent that takes the key's child at each level.
  pub descend_seek :
      (on_empty : Exec (Cursor S) (Unit {0})) (fuel d : ℕ) (h : Hash) (i : ℕ)
      (es later : List LeafEntry) (b : Key) (c : Cursor S)
      → d < fuel
      → Ready c.store
      → Holds x (view c.store) d h es
      → IsSorted es
      → last_key es ≡ some b
      → After x (view c.store) d i c.path later
      → Fits k b later
      → Sought x
          (view c.store)
          k
          c
          (descend x a on_empty pick fuel h i c)
          (d + length c.path)
          es
          later
  unfolding descend
  descend_seek on_empty zero d h i es later b c enough r at sorted e after split = elim enough [ ]
  descend_seek on_empty (suc fuel) zero h i es later b c enough r at sorted e after split = record {
    within = es ++ later;
    landed = record {
      hash = h;
      entries = es;
      index = i;
      parents = c.path;
      rest = later;
      returns = rw (load_node_lem good h (leaf 0 es) c.store r at);
      after = after;
      splits = refl;
      depth = omega arith;
      last = b;
      nonempty = e;
    };
    fits = split;
    starts = Fits-splits k b es later e split;
  }
  descend_seek on_empty (suc fuel) (suc d) h i es later b c enough r ([], at, nil) sorted e after
        split =
      absurd (no_last_key es b nil e)
  descend_seek on_empty (suc fuel) (suc d) h i es later b c enough r (child ∷ cs, at, children)
        sorted e after split =
      let node = internal (suc d) (child ∷ cs) in
      let p = chosen k child cs in
      let q =
        focus (Holds x (view c.store) d) k p.before p.child p.after es
          (subst (λ l. Children (Holds x (view c.store) d) l es) p.splits children) sorted p.below
          p.fits in
      let after' : After x (view c.store) d (length p.before) ((h, node, i) ∷ c.path)
          (q.right ++ later) =
        (
          q.right,
          later,
          refl,
          subst (λ l. Children (Holds x (view c.store) d) (drop (suc (length p.before)) l) q.right)
              (sym p.splits) (rw (drop_middle p.before p.child p.after) q.afters),
          after,
        ) in
      let l =
        descend_seek on_empty fuel d p.child.child_hash (length p.before) q.middle
          (q.right ++ later) p.child.boundary_key (record c { path = (h, node, i) ∷ c.path })
          (omega arith) r q.child.0 q.sorted q.child.2 after'
          (Fits-Child (Holds x (view c.store) d) k b p.child p.after q.left q.middle q.right later
            q.child q.afters (subst (λ l. last_key l ≡ some b) q.splits e) p.fits split) in
      record {
        within = l.within;
        landed = record {
          hash = l.landed.hash;
          entries = l.landed.entries;
          index = l.landed.index;
          parents = l.landed.parents;
          rest = l.landed.rest;
          returns =
              rw
                (
                  load_node_lem good h node c.store r at,
                  picks child cs,
                  p.index,
                  ap (λ (l : List InternalEntry). get_elem? l (length p.before)) p.splits
                      ∙ get_elem?_middle p.before p.child p.after,
                )
                l.landed.returns;
          after = l.landed.after;
          splits = l.landed.splits;
          depth = omega (arith, l.landed.depth);
          last = l.landed.last;
          nonempty = l.landed.nonempty;
        };
        fits = l.fits;
        starts =
            ap (λ (l : List LeafEntry). entries_from k (l ++ later)) q.splits
            ∙ ap (entries_from k) (regroup q.left q.middle q.right later)
            ∙ entries_from_right k q.left (q.middle ++ (q.right ++ later)) q.lows
            ∙ l.starts;
      }
