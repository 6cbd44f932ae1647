-- ===== src/Diff/Subtree.antt =====
-- The walk in breadth over a subtree reads its entries in key order: all leaves stand at one depth.
use prolly_gunna.Prelude.{
  ℕ, zero, suc, ◌+◌, ◌≤◌, ◌<◌, some, List, [], ◌∷◌, ◌++◌, ◌≡◌, refl, sym, ap, ◌∙◌, arith, map, Bool,
  true, false, none, length, append_assoc, append-nil, subst,
}
use prolly_gunna.Errors.{ok}
use prolly_gunna.Node.{Hash, Key, LeafEntry, InternalEntry, leaf, internal, last_key}
use prolly_gunna.Externals.{Externals}
use prolly_gunna.Store.Access.{Access, View, IsAccess}
use prolly_gunna.Io.Values.{load_value_repr_lem}
use prolly_gunna.Io.Laws.{load_node_lem}
use prolly_gunna.Tree.Holds.{Holds, Children}
use prolly_gunna.Tree.Holds.Children.{length-append}
use prolly_gunna.Tree.SortedMap.{SortedMap}
use prolly_gunna.Tree.Session.Represents.{Pairs}
use prolly_gunna.Diff.{DiffEntry, addition, deletion, side_entry, entry_diffs, visit, drain_queue}

-- Every key of a map only on the left, and only on the right.
pub only_left : SortedMap → List DiffEntry
only_left [] = []
only_left ((k, v) ∷ m) = record { key = k; left_value = some v; right_value = none } ∷ only_left m

pub only_right : SortedMap → List DiffEntry
only_right [] = []
only_right ((k, v) ∷ m) = record { key = k; left_value = none; right_value = some v } ∷ only_right m

-- A whole map as the walk reports it.
unfoldable pub side_diff : Bool → SortedMap → List DiffEntry
unfolding side_entry
side_diff is_addition [] = []
side_diff is_addition ((k, v) ∷ m) = side_entry is_addition k v ∷ side_diff is_addition m

pub side_diff-only_left : (m : SortedMap) → side_diff false m ≡ only_left m
unfolding side_diff side_entry deletion only_left
side_diff-only_left [] = refl
side_diff-only_left ((k, v) ∷ m) =
    ap (λ (l : List DiffEntry). deletion k v ∷ l) (side_diff-only_left m)

pub side_diff-only_right : (m : SortedMap) → side_diff true m ≡ only_right m
unfolding side_diff side_entry addition only_right
side_diff-only_right [] = refl
side_diff-only_right ((k, v) ∷ m) =
    ap (λ (l : List DiffEntry). addition k v ∷ l) (side_diff-only_right m)

-- The trees of one depth under the hashes, side by side, hold the entries, and none is empty.
abbrev Level : Externals → View → ℕ → List Hash → List LeafEntry → Type 0
Level x v d [] es = es ≡ []
Level x v d (h ∷ hs) es =
    (xs : List LeafEntry) × (ys : List LeafEntry) × (b : Key) × (es ≡ xs ++ ys)
    × Holds x v d h xs
    × (last_key xs ≡ some b)
    × Level x v d hs ys

-- A bound for the nodes of trees of depth `d` with so many entries.
unfoldable pub weight : ℕ → ℕ → ℕ
weight zero n = n
weight (suc d) n = n + weight d n

weight-add : (d a b : ℕ) → weight d (a + b) ≡ weight d a + weight d b
unfolding weight
weight-add zero a b = refl
weight-add (suc d) a b = omega (arith, weight-add d a b)

nonempty : (es : List LeafEntry) (b : Key) → last_key es ≡ some b → 0 < length es
nonempty [] b e = absurd (let no : ⊥ = cc in no)
nonempty (e' ∷ es) b e = omega arith

Level-append :
    (x : Externals) (v : View) (d : ℕ) (hs js : List Hash) (xs ys : List LeafEntry)
    → Level x v d hs xs
    → Level x v d js ys
    → Level x v d (hs ++ js) (xs ++ ys)
Level-append x v d [] js xs ys h k = rw h k
Level-append x v d (h ∷ hs) js es ys (xs, xs', b, e, at, last, rest) k = (
  xs,
  xs' ++ ys,
  b,
  rw e (append_assoc xs xs' ys),
  at,
  last,
  Level-append x v d hs js xs' ys rest k,
)

Children-Level :
    (x : Externals) (v : View) (d : ℕ) (cs : List InternalEntry) (es : List LeafEntry)
    → Children (Holds x v d) cs es
    → Level x v d (map (λ c. c.child_hash) cs) es
Children-Level x v d [] es h = h
Children-Level x v d (c ∷ cs) es (xs, ys, e, child, rest) =
    (xs, ys, c.boundary_key, e, child.0, child.2, Children-Level x v d cs ys rest)

Pairs-parts :
    (v : View) (xs ys : List LeafEntry) (m : SortedMap)
    → Pairs v (xs ++ ys) m
    → (m1 : SortedMap) × (m2 : SortedMap) × (m ≡ m1 ++ m2) × Pairs v xs m1 × Pairs v ys m2
Pairs-parts v [] ys m p = ([], m, refl, refl, p)
Pairs-parts v (e ∷ xs) ys [] p = absurd p
Pairs-parts v (e ∷ xs) ys ((k, w) ∷ m) p =
    let (m1, m2, split, left, right) = Pairs-parts v xs ys m p.2 in
    ((k, w) ∷ m1, m2, ap (λ (n : SortedMap). (k, w) ∷ n) split, (p.0, p.1, left), right)

side_diff-append :
    (is_addition : Bool) (m n : SortedMap)
    → side_diff is_addition (m ++ n) ≡ side_diff is_addition m ++ side_diff is_addition n
unfolding side_diff
side_diff-append is_addition [] n = refl
side_diff-append is_addition ((k, v) ∷ m) n =
    ap (λ (l : List DiffEntry). side_entry is_addition k v ∷ l) (side_diff-append is_addition m n)

module _ {S : Type 0} {x : Externals} {a : Access S} (good : IsAccess x a)
    (is_addition : Bool) where
  open good use {view, Ready}

  entry_diffs_lem :
      (es : List LeafEntry) (m : SortedMap) (s : S)
      → Ready s
      → Pairs (view s) es m
      → entry_diffs x a is_addition es s ≡ (ok (side_diff is_addition m), s)
  unfolding entry_diffs side_diff
  entry_diffs_lem [] m s r p = rw p refl
  entry_diffs_lem (e ∷ es) [] s r p = absurd p
  entry_diffs_lem (e ∷ es) ((k, v) ∷ m) s r p =
      rw (load_value_repr_lem good e.value v s r p.1, entry_diffs_lem es m s r p.2, p.0)

  walk_leaves :
      (fuel : ℕ) (hs : List Hash) (es : List LeafEntry) (m : SortedMap) (s : S)
      → length es ≤ fuel
      → Ready s
      → Level x (view s) 0 hs es
      → Pairs (view s) es m
      → drain_queue x a is_addition fuel hs s ≡ (ok (side_diff is_addition m), s)
  unfolding drain_queue visit
  walk_leaves zero [] es m s enough r at p =
      let p' : m ≡ [] = subst (λ l. Pairs (view s) l m) at p in rw p' (unfold side_diff in refl)
  walk_leaves (suc fuel) [] es m s enough r at p =
      let p' : m ≡ [] = subst (λ l. Pairs (view s) l m) at p in rw p' (unfold side_diff in refl)
  walk_leaves zero (h ∷ hs) es m s enough r (xs, ys, b, e, at, last, rest) p =
      absurd (omega (arith, nonempty xs b last, ap length e, length-append {0} xs ys))
  walk_leaves (suc fuel) (h ∷ hs) es m s enough r (xs, ys, b, e, at, last, rest) p =
      let (m1, m2, split, left, right) =
        Pairs-parts (view s) xs ys m (subst (λ l. Pairs (view s) l m) e p) in
      rw (
        load_node_lem good h (leaf 0 xs) s r at,
        entry_diffs_lem xs m1 s r left,
        walk_leaves fuel hs ys m2 s
            (omega (arith, nonempty xs b last, ap length e, length-append {0} xs ys)) r rest right,
        split,
        side_diff-append is_addition m1 m2,
      )

  -- The queue holds trees of depth `d + 1` and, after them, those of depth `d`.
  walk :
      (fuel d : ℕ) (hs js : List Hash) (xs ys : List LeafEntry) (m : SortedMap) (s : S)
      → weight (suc d) (length xs) + weight d (length ys) ≤ fuel
      → Ready s
      → Level x (view s) (suc d) hs xs
      → Level x (view s) d js ys
      → Pairs (view s) (ys ++ xs) m
      → drain_queue x a is_addition fuel (hs ++ js) s ≡ (ok (side_diff is_addition m), s)
  unfolding drain_queue visit weight
  walk fuel zero [] js xs ys m s enough r at below p =
      walk_leaves fuel js ys m s (omega arith) r below (
        subst (λ l. Pairs (view s) l m) (ap (λ (l : List LeafEntry). ys ++ l) at ∙ append-nil ys) p)
  walk fuel (suc d) [] js xs ys m s enough r at below p =
      let q =
        subst (λ l. Pairs (view s) l m) (ap (λ (l : List LeafEntry). ys ++ l) at ∙ append-nil ys)
          p in
      let w = walk fuel d js [] ys [] m s (omega (arith, weight-add d 0 0)) r below refl q in
      subst (λ l. drain_queue x a is_addition fuel l s ≡ (ok (side_diff is_addition m), s))
        (append-nil js) w
  walk zero d (h ∷ hs) js xs ys m s enough r (zs, xs', b, e, at, last, rest) below p =
      absurd (omega (arith, nonempty zs b last, ap length e, length-append {0} zs xs'))
  walk (suc fuel) d (h ∷ hs) js xs ys m s enough r (zs, xs', b, e, (cs, node, children), last, rest)
        below p =
      let w1 : weight d (length xs) ≡ weight d (length zs) + weight d (length xs') =
        ap (weight d) (ap length e ∙ length-append {0} zs xs')
        ∙ weight-add d (length zs) (length xs') in
      let w2 : weight d (length (ys ++ zs)) ≡ weight d (length ys) + weight d (length zs) =
        ap (weight d) (length-append {0} ys zs) ∙ weight-add d (length ys) (length zs) in
      rw
        (
          load_node_lem good h (internal (suc d) cs) s r node,
          append_assoc hs js (map (λ c. c.child_hash) cs),
        )
        (walk fuel d hs (js ++ map (λ c. c.child_hash) cs) xs' (ys ++ zs) m s
          (omega (arith, w1, w2, nonempty zs b last, ap length e, length-append {0} zs xs')) r rest
          (Level-append x (view s) d js _ ys zs below (Children-Level x (view s) d cs zs children))
          (subst (λ l. Pairs (view s) l m)
            (ap (λ (l : List LeafEntry). ys ++ l) e ∙ sym (append_assoc ys zs xs')) p))

  -- The walk over one tree: in a ready store, on a tree of depth `d` with fuel for its nodes.
  pub walk_tree :
      (fuel d : ℕ) (h : Hash) (es : List LeafEntry) (b : Key) (m : SortedMap) (s : S)
      → weight d (length es) ≤ fuel
      → Ready s
      → Holds x (view s) d h es
      → last_key es ≡ some b
      → Pairs (view s) es m
      → drain_queue x a is_addition fuel (h ∷ []) s ≡ (ok (side_diff is_addition m), s)
  unfolding weight
  walk_tree fuel zero h es b m s enough r at last p =
      walk_leaves fuel (h ∷ []) es m s enough r (es, [], b, sym (append-nil es), at, last, refl) p
  walk_tree fuel (suc d) h es b m s enough r at last p =
      walk fuel d (h ∷ []) [] es [] m s (omega (arith, weight-add d 0 0)) r
        (es, [], b, sym (append-nil es), at, last, refl) refl p
