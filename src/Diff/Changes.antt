-- ===== src/Diff/Changes.antt =====
-- What the differences of two sorted maps say of each key.
use prolly_gunna.Prelude.{
  Bool, true, false, Option, none, some, List, [], ◌∷◌, ◌≡◌, refl, arith, eq, gt, if◌then◌else◌,
  subst, Ordering-cases, is_lt, is_eq, is_gt,
}
use prolly_gunna.Prelude.Bytes.{
  cmp, bytes_eq, ◌≺◌, cmp_refl, eq_of_cmp, gt_of_lt, lt_of_gt, lt_trans,
}
use prolly_gunna.Node.{Key, Value, LeafEntry}
use prolly_gunna.Node.Order.{AllKeys, IsSorted}
use prolly_gunna.Store.Access.{View}
use prolly_gunna.Tree.SortedMap.{SortedMap, lookup}
use prolly_gunna.Tree.Session.Represents.{Pairs}
use prolly_gunna.Diff.{DiffEntry, addition, deletion, modification}
use prolly_gunna.Diff.Leaves.{map_diff}

abbrev pub MapAbove : Key → SortedMap → Type 0
MapAbove k [] = Unit
MapAbove k ((j, v) ∷ m) = (k ≺ j) × MapAbove k m

abbrev pub IsSortedMap : SortedMap → Type 0
IsSortedMap [] = Unit
IsSortedMap ((k, v) ∷ m) = MapAbove k m × IsSortedMap m

Pairs-MapAbove :
    (v : View) (k : Key) (es : List LeafEntry) (m : SortedMap)
    → Pairs v es m
    → AllKeys (λ j. k ≺ j) es
    → MapAbove k m
Pairs-MapAbove v k [] m p h = rw p tt
Pairs-MapAbove v k (e ∷ es) [] p h = absurd p
Pairs-MapAbove v k (e ∷ es) ((j, w) ∷ m) p h = (rw p.0 at h.0, Pairs-MapAbove v k es m p.2 h.1)

pub Pairs-IsSortedMap :
    (v : View) (es : List LeafEntry) (m : SortedMap) → Pairs v es m → IsSorted es → IsSortedMap m
Pairs-IsSortedMap v [] m p h = rw p tt
Pairs-IsSortedMap v (e ∷ es) [] p h = absurd p
Pairs-IsSortedMap v (e ∷ es) ((j, w) ∷ m) p h =
    (Pairs-MapAbove v j es m p.2 (rw p.0 at h.0), Pairs-IsSortedMap v es m p.2 h.1)

MapAbove-trans : (k j : Key) (m : SortedMap) → k ≺ j → MapAbove j m → MapAbove k m
MapAbove-trans k j [] h above = tt
MapAbove-trans k j ((i, v) ∷ m) h above = (lt_trans k j i h above.0, MapAbove-trans k j m h above.1)

lookup_above : (k : Key) (m : SortedMap) → MapAbove k m → lookup k m ≡ none
unfolding lookup
lookup_above k [] h = refl
lookup_above k ((j, v) ∷ m) h = ground (arith, gt_of_lt k j h.0)

below_none : (k i : Key) (m : SortedMap) → cmp i k ≡ gt → MapAbove i m → lookup k m ≡ none
below_none k i m h above = lookup_above k m (MapAbove-trans k i m (lt_of_gt i k h) above)

head_none : (k i : Key) (m : SortedMap) → cmp i k ≡ eq → MapAbove i m → lookup k m ≡ none
head_none k i m h above = lookup_above k m (subst (λ j. MapAbove j m) (eq_of_cmp i k h) above)

below : (k i j : Key) → cmp i k ≡ gt → i ≺ j → cmp j k ≡ gt
below k i j h lower = gt_of_lt k j (lt_trans k i j (lt_of_gt i k h) lower)

-- The first difference at a key.
unfoldable pub find_diff : Key → List DiffEntry → Option DiffEntry
find_diff k [] = none
find_diff k (d ∷ ds) = if bytes_eq d.key k then some d else find_diff k ds

-- What is to be said of a key with these values on the two sides: nothing where they are the same.
abbrev pub agree : Option Value → Option Value → Bool
agree none none = true
agree (some v) (some w) = bytes_eq v w
agree none (some w) = false
agree (some v) none = false

unfoldable pub change : Key → Option Value → Option Value → Option DiffEntry
change k left right =
    if agree left right
    then none
    else some (record { key = k; left_value = left; right_value = right })

-- For sorted maps the difference at a key is that of its two values, and there is none where they
-- agree.
pub find_diff-map_diff :
    (k : Key) (m n : SortedMap)
    → IsSortedMap m
    → IsSortedMap n
    → find_diff k (map_diff m n) ≡ change k (lookup k m) (lookup k n)
unfolding find_diff map_diff change lookup addition deletion modification
find_diff-map_diff k [] [] sm sn = refl
find_diff-map_diff k ((i, v) ∷ m) [] sm sn =
    ground (arith, find_diff-map_diff k m [] sm.1 tt, eq_of_cmp i k, cmp_refl k, below_none k i m)
find_diff-map_diff k [] ((j, w) ∷ n) sm sn =
    ground (arith, find_diff-map_diff k [] n tt sn.1, eq_of_cmp j k, cmp_refl k, below_none k j n)
find_diff-map_diff k ((i, v) ∷ m) ((j, w) ∷ n) sm sn = elim (Ordering-cases (cmp i j)) [
  | is_lt h ↦ ground (
    arith,
    find_diff-map_diff k m ((j, w) ∷ n) sm.1 sn,
    eq_of_cmp i k,
    cmp_refl k,
    below_none k i m,
    below k i j,
    gt_of_lt i j,
  )
  | is_eq h ↦ ground (
    arith,
    find_diff-map_diff k m n sm.1 sn.1,
    eq_of_cmp i j,
    eq_of_cmp i k,
    cmp_refl k,
    below_none k i m,
    below_none k j n,
    head_none k i m,
    head_none k j n,
  )
  | is_gt h ↦ ground (
    arith,
    find_diff-map_diff k ((i, v) ∷ m) n sm sn.1,
    eq_of_cmp j k,
    cmp_refl k,
    below_none k j n,
    below k j i,
    lt_of_gt i j,
  )
]
