-- ===== src/Node/Order.antt =====
-- The entries below a node, in key order, and what the leaf operations do to them as a sorted map.
pub mod Append
pub mod Search
use prolly_gunna.Prelude.{
  Option, none, some, List, [], ◌∷◌, lt, eq, gt, ◌≡◌, refl, arith, if◌then◌else◌,
}
use prolly_gunna.Prelude.Bytes.{
  cmp, bytes_eq, ◌≺◌, cmp_refl, eq_of_cmp, lt_of_gt, gt_of_lt, lt_trans,
}
use prolly_gunna.Node.{Key, ValueRepr, LeafEntry}

abbrev pub AllKeys : (Key → Type 0) → List LeafEntry → Type 0
AllKeys P [] = Unit
AllKeys P (e ∷ es) = P e.key × AllKeys P es

-- Keys strictly ascend.
abbrev pub IsSorted : List LeafEntry → Type 0
IsSorted [] = Unit
IsSorted (e ∷ es) = AllKeys (λ k. e.key ≺ k) es × IsSorted es

unfoldable pub find_entry : Key → List LeafEntry → Option ValueRepr
find_entry k [] = none
find_entry k (e ∷ es) = elim (cmp e.key k) [ lt ↦ find_entry k es | eq ↦ some e.value | gt ↦ none ]

unfoldable pub insert_entry : Key → ValueRepr → List LeafEntry → List LeafEntry
insert_entry k v [] = record { key = k; value = v } ∷ []
insert_entry k v (e ∷ es) = elim (cmp e.key k) [
  | lt ↦ e ∷ insert_entry k v es
  | eq ↦ record e { value = v } ∷ es
  | gt ↦ record { key = k; value = v } ∷ e ∷ es
]

unfoldable pub remove_entry : Key → List LeafEntry → List LeafEntry
remove_entry k [] = []
remove_entry k (e ∷ es) = elim (cmp e.key k) [ lt ↦ e ∷ remove_entry k es | eq ↦ es | gt ↦ e ∷ es ]

pub AllKeys-imp :
    {P Q : Key → Type 0}
    → ((k : Key) → P k → Q k)
    → (es : List LeafEntry) → AllKeys P es
    → AllKeys Q es
AllKeys-imp f [] h = tt
AllKeys-imp f (e ∷ es) h = (f e.key h.0, AllKeys-imp f es h.1)

pub AllKeys-insert_entry :
    (P : Key → Type 0) (k : Key) (v : ValueRepr) (es : List LeafEntry)
    → P k
    → AllKeys P es
    → AllKeys P (insert_entry k v es)
unfolding insert_entry
AllKeys-insert_entry P k v [] p h = (p, tt)
AllKeys-insert_entry P k v (e ∷ es) p h = ground (arith, AllKeys-insert_entry P k v es)

pub AllKeys-remove_entry :
    (P : Key → Type 0) (k : Key) (es : List LeafEntry)
    → AllKeys P es
    → AllKeys P (remove_entry k es)
unfolding remove_entry
AllKeys-remove_entry P k [] h = tt
AllKeys-remove_entry P k (e ∷ es) h = ground (arith, AllKeys-remove_entry P k es)

pub AllKeys-above :
    (k m : Key) (es : List LeafEntry) → k ≺ m → AllKeys (λ j. m ≺ j) es → AllKeys (λ j. k ≺ j) es
AllKeys-above k m es h = AllKeys-imp (λ j q. lt_trans k m j h q) es

-- Inserting keeps the order.
pub insert_entry-IsSorted :
    (k : Key) (v : ValueRepr) (es : List LeafEntry) → IsSorted es → IsSorted (insert_entry k v es)
unfolding insert_entry
insert_entry-IsSorted k v [] h = (tt, tt)
insert_entry-IsSorted k v (e ∷ es) h = ground (
  arith,
  insert_entry-IsSorted k v es,
  AllKeys-insert_entry (λ j. e.key ≺ j) k v es,
  lt_of_gt e.key k,
  AllKeys-above k e.key es,
)

-- Removing keeps the order.
pub remove_entry-IsSorted :
    (k : Key) (es : List LeafEntry) → IsSorted es → IsSorted (remove_entry k es)
unfolding remove_entry
remove_entry-IsSorted k [] h = tt
remove_entry-IsSorted k (e ∷ es) h =
    ground (arith, remove_entry-IsSorted k es, AllKeys-remove_entry (λ j. e.key ≺ j) k es)

pub find_entry-insert_entry :
    (k j : Key) (v : ValueRepr) (es : List LeafEntry)
    → find_entry j (insert_entry k v es) ≡ (if bytes_eq k j then some v else find_entry j es)
unfolding find_entry insert_entry
find_entry-insert_entry k j v [] = ground arith
find_entry-insert_entry k j v (e ∷ es) = ground (
  arith,
  find_entry-insert_entry k j v es,
  eq_of_cmp e.key k,
  eq_of_cmp k j,
  gt_of_lt e.key k,
  gt_of_lt j e.key,
  lt_of_gt e.key j,
  lt_of_gt k j,
  lt_of_gt e.key k,
  lt_trans j k e.key,
  lt_trans j e.key k,
  gt_of_lt j k,
  cmp_refl k,
)

-- A key below all others is not found.
pub find_entry_below :
    (k : Key) (es : List LeafEntry) → AllKeys (λ j. k ≺ j) es → find_entry k es ≡ none
unfolding find_entry
find_entry_below k [] h = refl
find_entry_below k (e ∷ es) h = ground (arith, gt_of_lt k e.key h.0)

pub find_entry-remove_entry :
    (k j : Key) (es : List LeafEntry)
    → IsSorted es
    → find_entry j (remove_entry k es) ≡ (if bytes_eq k j then none else find_entry j es)
unfolding find_entry remove_entry
find_entry-remove_entry k j [] h = ground arith
find_entry-remove_entry k j (e ∷ es) h = ground (
  arith,
  find_entry-remove_entry k j es h.1,
  eq_of_cmp e.key k,
  eq_of_cmp k j,
  gt_of_lt e.key k,
  gt_of_lt j e.key,
  lt_of_gt e.key j,
  lt_of_gt k j,
  lt_of_gt e.key k,
  gt_of_lt k e.key,
  cmp_refl k,
  find_entry_below k es,
  find_entry_below j es,
  AllKeys-above j e.key es,
)
