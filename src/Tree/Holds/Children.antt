-- ===== src/Tree/Holds/Children.antt =====
-- Lists of children: splitting and joining them, their boundaries and their counts.
use prolly_gunna.Prelude.{
  ◌+◌, ◌%◌, some, List, [], ◌∷◌, ◌++◌, ◌≡◌, refl, sym, ap, arith, length, ◌∙◌, append_assoc,
  append-nil,
}
use prolly_gunna.Prelude.Bytes.{◌≺◌}
use prolly_gunna.Node.{
  Hash, Key, LeafEntry, InternalEntry, last_key, last_boundary, sum_items, u64_mod,
}
use prolly_gunna.Node.Order.{AllKeys, IsSorted}
use prolly_gunna.Node.Order.Append.{
  AllKeys-left, AllKeys-right, AllKeys-last_key, AllKeys-append, AllKeys-below, IsSorted-parts,
  last_key-append,
}
use prolly_gunna.Tree.Holds.{Children}

abbrev pub AllBoundaries : (Key → Type 0) → List InternalEntry → Type 0
AllBoundaries P [] = Unit
AllBoundaries P (c ∷ cs) = P c.boundary_key × AllBoundaries P cs

pub length-append {ℓ} : {A : Type ℓ} (xs ys : List A) → length (xs ++ ys) ≡ length xs + length ys
length-append [] ys = omega arith
length-append (x ∷ xs) ys = omega (arith, length-append xs ys)

module _ (P : Hash → List LeafEntry → Type 0) where
  pub Children-append :
      (cs ds : List InternalEntry) (xs ys : List LeafEntry)
      → Children P cs xs
      → Children P ds ys
      → Children P (cs ++ ds) (xs ++ ys)
  Children-append [] ds xs ys h k = rw h k
  Children-append (c ∷ cs) ds es ys (xs, xs', e, child, rest) k =
      (xs, xs' ++ ys, rw e (append_assoc xs xs' ys), child, Children-append cs ds xs' ys rest k)

  pub Children-parts :
      (cs ds : List InternalEntry) (es : List LeafEntry)
      → Children P (cs ++ ds) es
      → (xs : List LeafEntry) × (ys : List LeafEntry) × (es ≡ xs ++ ys)
        × Children P cs xs
        × Children P ds ys
  Children-parts [] ds es h = ([], es, refl, refl, h)
  Children-parts (c ∷ cs) ds es (xs, ys, e, child, rest) =
      let (xs', ys', e', left, right) = Children-parts cs ds ys rest in
      (
        xs ++ xs',
        ys',
        e ∙ ap (λ (l : List LeafEntry). xs ++ l) e' ∙ sym (append_assoc xs xs' ys'),
        (xs, xs', refl, child, left),
        right,
      )

  -- The counts of the children add up to the number of entries.
  pub sum_items_lem :
      (cs : List InternalEntry) (es : List LeafEntry)
      → Children P cs es
      → sum_items cs ≡ length es % u64_mod
  unfolding sum_items
  sum_items_lem [] es h = rw h
  sum_items_lem (c ∷ cs) es (xs, ys, e, child, rest) =
      rw e (omega (arith, child.1, sum_items_lem cs ys rest, length-append {0} xs ys))

  -- The last boundary is the last key.
  pub last_boundary_lem :
      (c : InternalEntry) (cs : List InternalEntry) (es : List LeafEntry)
      → Children P (c ∷ cs) es
      → (b : Key) × (last_boundary (c ∷ cs) ≡ some b) × (last_key es ≡ some b)
  last_boundary_lem c [] es (xs, ys, e, child, rest) =
      (c.boundary_key, refl, rw (e, rest, append-nil) child.2)
  last_boundary_lem c (c' ∷ cs) es (xs, ys, e, child, rest) =
      let (b, lb, lk) = last_boundary_lem c' cs ys rest in
      (b, lb, rw e (last_key-append xs ys b lk))

  -- What holds of all keys holds of all boundaries.
  pub AllKeys-AllBoundaries :
      (Q : Key → Type 0) (cs : List InternalEntry) (es : List LeafEntry)
      → Children P cs es
      → AllKeys Q es
      → AllBoundaries Q cs
  AllKeys-AllBoundaries Q [] es h k = tt
  AllKeys-AllBoundaries Q (c ∷ cs) es (xs, ys, e, child, rest) k =
      let k' : AllKeys Q (xs ++ ys) = rw (sym e) k in
      (
        AllKeys-last_key Q xs c.boundary_key (AllKeys-left Q xs ys k') child.2,
        AllKeys-AllBoundaries Q cs ys rest (AllKeys-right Q xs ys k'),
      )

  -- A key above all boundaries is above all keys.
  pub AllBoundaries-below :
      (k : Key) (cs : List InternalEntry) (es : List LeafEntry)
      → Children P cs es
      → IsSorted es
      → AllBoundaries (λ b. b ≺ k) cs
      → AllKeys (λ j. j ≺ k) es
  AllBoundaries-below k [] es h s below = rw h tt
  AllBoundaries-below k (c ∷ cs) es (xs, ys, e, child, rest) s below =
      let s' : IsSorted (xs ++ ys) = rw (sym e) s in
      let (sx, sy, _) = IsSorted-parts xs ys s' in
      rw e (
        AllKeys-append (λ j. j ≺ k) xs ys (AllKeys-below xs c.boundary_key k sx child.2 below.0)
          (AllBoundaries-below k cs ys rest sy below.1))
