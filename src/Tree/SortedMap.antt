-- ===== src/Tree/SortedMap.antt =====
-- The abstract view of a tree: keys with their values, in key order, as a map.
use prolly_gunna.Prelude.{Option, none, some, List, [], ◌∷◌, lt, eq, gt, ◌≡◌, arith, if◌then◌else◌}
use prolly_gunna.Prelude.Bytes.{cmp, bytes_eq, cmp_refl, eq_of_cmp, lt_of_gt, gt_of_lt, lt_trans}
use prolly_gunna.Node.{Key, Value}

abbrev pub SortedMap : Type 0
SortedMap = List (Key × Value)

unfoldable pub lookup : Key → SortedMap → Option Value
lookup k [] = none
lookup k ((j, v) ∷ m) = elim (cmp j k) [ lt ↦ lookup k m | eq ↦ some v | gt ↦ none ]

unfoldable pub insert : Key → Value → SortedMap → SortedMap
insert k v [] = (k, v) ∷ []
insert k v ((j, w) ∷ m) = elim (cmp j k) [
  | lt ↦ (j, w) ∷ insert k v m
  | eq ↦ (j, v) ∷ m
  | gt ↦ (k, v) ∷ (j, w) ∷ m
]

unfoldable pub remove : Key → SortedMap → SortedMap
remove k [] = []
remove k ((j, w) ∷ m) = elim (cmp j k) [ lt ↦ (j, w) ∷ remove k m | eq ↦ m | gt ↦ (j, w) ∷ m ]

pub lookup-insert :
    (k j : Key) (v : Value) (m : SortedMap)
    → lookup j (insert k v m) ≡ (if bytes_eq k j then some v else lookup j m)
unfolding lookup insert
lookup-insert k j v [] = ground arith
lookup-insert k j v ((i, w) ∷ m) = ground (
  arith,
  lookup-insert k j v m,
  eq_of_cmp i k,
  eq_of_cmp k j,
  gt_of_lt i k,
  gt_of_lt j i,
  lt_of_gt i j,
  lt_of_gt k j,
  lt_of_gt i k,
  lt_trans j k i,
  lt_trans j i k,
  gt_of_lt j k,
  cmp_refl k,
)
