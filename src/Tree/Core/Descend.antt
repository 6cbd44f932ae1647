-- ===== src/Tree/Core/Descend.antt =====
-- The child that a key's descent takes, and what the child's entries are to the whole.
use prolly_gunna.Prelude.{
  true, some, List, [], ◌∷◌, ◌++◌, ◌≡◌, ◌⊎◌, inl, inr, refl, sym, ap, ◌∙◌, arith, length, get_elem?,
  set, Bool-cases, append-nil,
}
use prolly_gunna.Prelude.Bytes.{le_key, ◌≺◌, lt_of_gt}
use prolly_gunna.Node.{Hash, Key, LeafEntry, InternalEntry, ValueRepr}
use prolly_gunna.Node.Order.{AllKeys, IsSorted, find_entry, insert_entry, remove_entry}
use prolly_gunna.Node.Order.Append.{
  IsSorted-parts, find_entry_right, find_entry_left, insert_entry_right, insert_entry_left,
  remove_entry_right, remove_entry_left,
}
use prolly_gunna.Tree.Holds.{Child, Children}
use prolly_gunna.Tree.Holds.Children.{AllBoundaries, AllBoundaries-below, Children-parts}
use prolly_gunna.Tree.Core.{child_idx}

-- The children before the chosen one have boundaries below the key; the chosen one has a boundary
-- at or above it, unless it is the last.
pub record Chosen (k : Key) (cs : List InternalEntry) : Type 0 where
  pub before : List InternalEntry
  pub child : InternalEntry
  pub after : List InternalEntry
  pub splits : cs ≡ before ++ child ∷ after
  pub index : child_idx k cs ≡ length before
  pub below : AllBoundaries (λ b. b ≺ k) before
  pub fits : (le_key k child.boundary_key ≡ true) ⊎ (after ≡ [])

pub chosen : (k : Key) (c : InternalEntry) (cs : List InternalEntry) → Chosen k (c ∷ cs)
unfolding child_idx
chosen k c [] = record {
  before = [];
  child = c;
  after = [];
  splits = refl;
  index = ground arith;
  below = tt;
  fits = inr refl;
}
chosen k c (c' ∷ cs) = elim (Bool-cases (le_key k c.boundary_key)) [
  | inl h ↦ record {
    before = [];
    child = c;
    after = c' ∷ cs;
    splits = refl;
    index = ground arith;
    below = tt;
    fits = inl h;
  }
  | inr h ↦
      let r = chosen k c' cs in
      record {
        before = c ∷ r.before;
        child = r.child;
        after = r.after;
        splits = ap (λ (l : List InternalEntry). c ∷ l) r.splits;
        index = ground (arith, r.index);
        below = (lt_of_gt k c.boundary_key (ground arith), r.below);
        fits = r.fits;
      }
]

module _ {ℓ} {A : Type ℓ} where
  pub get_elem?_middle :
      (xs : List A) (y : A) (ys : List A) → get_elem? (xs ++ y ∷ ys) (length xs) ≡ some y
  get_elem?_middle [] y ys = refl
  get_elem?_middle (x ∷ xs) y ys = get_elem?_middle xs y ys

  pub set_middle :
      (xs : List A) (y z : A) (ys : List A) → set (xs ++ y ∷ ys) (length xs) z ≡ xs ++ z ∷ ys
  set_middle [] y z ys = refl
  set_middle (x ∷ xs) y z ys = ap (λ (l : List A). x ∷ l) (set_middle xs y z ys)

-- The entries of the chosen child among all entries: an operation at the key is one on them.
pub record Focus (P : Hash → List LeafEntry → Type 0) (k : Key) (before : List InternalEntry)
    (c : InternalEntry) (after : List InternalEntry) (es : List LeafEntry) : Type 0 where
  pub left : List LeafEntry
  pub middle : List LeafEntry
  pub right : List LeafEntry
  pub splits : es ≡ left ++ (middle ++ right)
  pub befores : Children P before left
  pub child : Child P c middle
  pub afters : Children P after right
  pub sorted : IsSorted middle
  pub lows : AllKeys (λ j. j ≺ k) left
  pub find : find_entry k es ≡ find_entry k middle
  pub insert : (v : ValueRepr) → insert_entry k v es ≡ left ++ (insert_entry k v middle ++ right)
  pub remove : remove_entry k es ≡ left ++ (remove_entry k middle ++ right)

module _ (P : Hash → List LeafEntry → Type 0) where
  -- The entries after the chosen child do not matter.
  fits_right :
      (k : Key) (c : InternalEntry) (after : List InternalEntry) (middle right : List LeafEntry)
      → Child P c middle
      → Children P after right
      → (le_key k c.boundary_key ≡ true) ⊎ (after ≡ [])
      → (find_entry k (middle ++ right) ≡ find_entry k middle)
        × ((v : ValueRepr) → insert_entry k v (middle ++ right) ≡ insert_entry k v middle ++ right)
        × (remove_entry k (middle ++ right) ≡ remove_entry k middle ++ right)
  fits_right k c after middle right child afters (inl le) = (
    find_entry_left k middle right c.boundary_key child.2 le,
    (λ v. insert_entry_left k v middle right c.boundary_key child.2 le),
    remove_entry_left k middle right c.boundary_key child.2 le,
  )
  fits_right k c [] middle right child afters (inr e) =
      rw (afters, append-nil) (refl, (λ v. sym (append-nil _)), sym (append-nil _))
  fits_right k c (d ∷ ds) middle right child afters (inr e) = cc

  pub focus :
      (k : Key) (before : List InternalEntry) (c : InternalEntry) (after : List InternalEntry)
      (es : List LeafEntry)
      → Children P (before ++ c ∷ after) es
      → IsSorted es
      → AllBoundaries (λ b. b ≺ k) before
      → (le_key k c.boundary_key ≡ true) ⊎ (after ≡ [])
      → Focus P k before c after es
  focus k before c after es children sorted below fits =
      let (left, rest, e, befores, (middle, right, e', child, afters)) =
        Children-parts P before (c ∷ after) es children in
      let split : es ≡ left ++ (middle ++ right) = e ∙ ap (λ (l : List LeafEntry). left ++ l) e' in
      let sorted' : IsSorted (left ++ (middle ++ right)) = rw (sym split) sorted in
      let (sl, sr, _) = IsSorted-parts left (middle ++ right) sorted' in
      let lows : AllKeys (λ j. j ≺ k) left = AllBoundaries-below P k before left befores sl below in
      let (f, i, r) = fits_right k c after middle right child afters fits in
      record {
        left = left;
        middle = middle;
        right = right;
        splits = split;
        befores = befores;
        child = child;
        afters = afters;
        sorted = (IsSorted-parts middle right sr).0;
        lows = lows;
        find = rw split (find_entry_right k left _ lows ∙ f);
        insert = λ v.
            rw split
              (insert_entry_right k v left _ lows ∙ ap (λ (l : List LeafEntry). left ++ l) (i v));
        remove =
            rw split (remove_entry_right k left _ lows ∙ ap (λ (l : List LeafEntry). left ++ l) r);
      }
