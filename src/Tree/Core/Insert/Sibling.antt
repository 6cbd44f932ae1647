-- ===== src/Tree/Core/Insert/Sibling.antt =====
-- Where the sibling of a split child goes among the children.
use prolly_gunna.Prelude.{
  List, [], ◌∷◌, ◌++◌, ◌≡◌, refl, sym, subst, ◌∙◌, append-nil, append_assoc, arith,
}
use prolly_gunna.Prelude.Bytes.{◌≺◌, gt_of_lt}
use prolly_gunna.Node.{Hash, LeafEntry, InternalEntry}
use prolly_gunna.Node.Order.{AllKeys, AllKeys-imp, IsSorted}
use prolly_gunna.Node.Order.Append.{AllKeys-left, AllKeys-last_key, IsSorted-parts}
use prolly_gunna.Tree.Holds.{Child, Children}
use prolly_gunna.Tree.Holds.Children.{AllBoundaries, AllKeys-AllBoundaries, Children-append}
use prolly_gunna.Tree.Core.{put_sibling}

put_sibling_lem :
    (e : InternalEntry) (xs ys : List InternalEntry)
    → AllBoundaries (λ b. b ≺ e.boundary_key) xs
    → AllBoundaries (λ b. e.boundary_key ≺ b) ys
    → put_sibling e (xs ++ ys) ≡ xs ++ e ∷ ys
unfolding put_sibling
put_sibling_lem e [] [] h k = refl
put_sibling_lem e [] (y ∷ ys) h k = ground (arith, gt_of_lt e.boundary_key y.boundary_key k.0)
put_sibling_lem e (x ∷ xs) ys h k = ground (arith, put_sibling_lem e xs ys h.1 k, h.0)

module _ (P : Hash → List LeafEntry → Type 0) where
  -- Between its left half, with all before it, and the children after it.
  pub put_sibling_sorted :
      (e : InternalEntry) (before after : List InternalEntry) (left middle right : List LeafEntry)
      → Children P before left
      → Child P e middle
      → Children P after right
      → IsSorted (left ++ (middle ++ right))
      → put_sibling e (before ++ after) ≡ before ++ e ∷ after
  put_sibling_sorted e before after left middle right befores child afters sorted =
      let (_, sorted', below) = IsSorted-parts left (middle ++ right) sorted in
      let (_, _, below') = IsSorted-parts middle right sorted' in
      let b = e.boundary_key in
      put_sibling_lem e before after
        (AllKeys-AllBoundaries P (λ j. j ≺ b) before left befores
          (AllKeys-imp
            (λ j h. AllKeys-last_key (λ i. j ≺ i) middle b (AllKeys-left _ middle right h) child.2)
            left below))
        (AllKeys-AllBoundaries P (λ j. b ≺ j) after right afters
          (AllKeys-last_key (λ j. AllKeys (λ i. j ≺ i) right) middle b below' child.2))

  -- The sibling of a split child comes right after the child.
  pub put_sibling_after :
      (c e : InternalEntry) (before after : List InternalEntry)
      (left middle right es : List LeafEntry)
      → Children P before left
      → Children P (c ∷ e ∷ []) middle
      → Children P after right
      → es ≡ left ++ (middle ++ right)
      → IsSorted es
      → put_sibling e (before ++ c ∷ after) ≡ before ++ c ∷ e ∷ after
  put_sibling_after c e before after left middle right es befores
        (xs, ys, e₀, child, (zs, rest, e₁, child', e₂)) afters split sorted =
      rw (sym (append_assoc before (c ∷ []) after), sym (append_assoc before (c ∷ []) (e ∷ after)))
        (put_sibling_sorted e (before ++ c ∷ []) after (left ++ xs) zs right
          (Children-append P before (c ∷ []) left xs befores
            (xs, [], sym (append-nil xs), child, refl))
          child' afters
          (subst IsSorted (split ∙ simp (e₀, e₁, e₂, append-nil, append_assoc)) sorted))
