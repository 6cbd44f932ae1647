-- ===== src/Node/Order/Append.antt =====
-- Sorted runs of entries side by side: an operation on the whole is one on the run that holds the
-- key's place.
use prolly_gunna.Prelude.{true, some, List, [], ◌∷◌, ◌++◌, ◌≡◌, refl, arith}
use prolly_gunna.Prelude.Bytes.{le_key, ◌≺◌, gt_of_lt, lt_trans}
use prolly_gunna.Node.{Key, ValueRepr, LeafEntry, last_key}
use prolly_gunna.Node.Order.{AllKeys, IsSorted, find_entry, insert_entry, remove_entry}

-- Every key of the first run is below every key of the second.
abbrev pub IsBelow : List LeafEntry → List LeafEntry → Type 0
IsBelow xs ys = AllKeys (λ a. AllKeys (λ b. a ≺ b) ys) xs

pub AllKeys-append :
    (P : Key → Type 0) (xs ys : List LeafEntry) → AllKeys P xs → AllKeys P ys → AllKeys P (xs ++ ys)
AllKeys-append P [] ys h k = k
AllKeys-append P (x ∷ xs) ys h k = (h.0, AllKeys-append P xs ys h.1 k)

pub AllKeys-left : (P : Key → Type 0) (xs ys : List LeafEntry) → AllKeys P (xs ++ ys) → AllKeys P xs
AllKeys-left P [] ys h = tt
AllKeys-left P (x ∷ xs) ys h = (h.0, AllKeys-left P xs ys h.1)

pub AllKeys-right :
    (P : Key → Type 0) (xs ys : List LeafEntry) → AllKeys P (xs ++ ys) → AllKeys P ys
AllKeys-right P [] ys h = h
AllKeys-right P (x ∷ xs) ys h = AllKeys-right P xs ys h.1

pub IsSorted-parts :
    (xs ys : List LeafEntry) → IsSorted (xs ++ ys) → IsSorted xs × IsSorted ys × IsBelow xs ys
IsSorted-parts [] ys h = (tt, h, tt)
IsSorted-parts (x ∷ xs) ys h =
    let (sx, sy, below) = IsSorted-parts xs ys h.1 in
    ((AllKeys-left _ xs ys h.0, sx), sy, (AllKeys-right _ xs ys h.0, below))

-- What holds of all keys holds of the last one.
pub AllKeys-last_key :
    (P : Key → Type 0) (xs : List LeafEntry) (b : Key) → AllKeys P xs → last_key xs ≡ some b → P b
AllKeys-last_key P [] b h e = cc
AllKeys-last_key P (x ∷ []) b h e = let e' : x.key ≡ b = cc in rw e' at h.0
AllKeys-last_key P (x ∷ y ∷ xs) b h e = AllKeys-last_key P (y ∷ xs) b h.1 e

-- A key above the last one is above all.
pub AllKeys-below :
    (xs : List LeafEntry) (b k : Key)
    → IsSorted xs
    → last_key xs ≡ some b
    → b ≺ k
    → AllKeys (λ j. j ≺ k) xs
AllKeys-below [] b k h e lt_k = tt
AllKeys-below (x ∷ []) b k h e lt_k = ground arith
AllKeys-below (x ∷ y ∷ xs) b k h e lt_k = (
  lt_trans x.key b k (AllKeys-last_key (λ j. x.key ≺ j) (y ∷ xs) b h.0 e) lt_k,
  AllKeys-below (y ∷ xs) b k h.1 e lt_k,
)

pub last_key-append :
    (xs ys : List LeafEntry) (b : Key) → last_key ys ≡ some b → last_key (xs ++ ys) ≡ some b
last_key-append [] ys b e = e
last_key-append (x ∷ []) [] b e = cc
last_key-append (x ∷ []) (y ∷ ys) b e = e
last_key-append (x ∷ x' ∷ xs) ys b e = last_key-append (x' ∷ xs) ys b e

module _ (k : Key) where
  pub find_entry_right :
      (xs ys : List LeafEntry) → AllKeys (λ j. j ≺ k) xs → find_entry k (xs ++ ys) ≡ find_entry k ys
  unfolding find_entry
  find_entry_right [] ys h = refl
  find_entry_right (x ∷ xs) ys h = ground (arith, find_entry_right xs ys)

  pub find_entry_left :
      (xs ys : List LeafEntry) (b : Key)
      → last_key xs ≡ some b
      → le_key k b ≡ true
      → find_entry k (xs ++ ys) ≡ find_entry k xs
  unfolding find_entry
  find_entry_left [] ys b e h = cc
  find_entry_left (x ∷ []) ys b e h = ground (arith, gt_of_lt x.key k)
  find_entry_left (x ∷ y ∷ xs) ys b e h = ground (arith, find_entry_left (y ∷ xs) ys b)

  pub remove_entry_right :
      (xs ys : List LeafEntry)
      → AllKeys (λ j. j ≺ k) xs
      → remove_entry k (xs ++ ys) ≡ xs ++ remove_entry k ys
  unfolding remove_entry
  remove_entry_right [] ys h = refl
  remove_entry_right (x ∷ xs) ys h = ground (arith, remove_entry_right xs ys)

  pub remove_entry_left :
      (xs ys : List LeafEntry) (b : Key)
      → last_key xs ≡ some b
      → le_key k b ≡ true
      → remove_entry k (xs ++ ys) ≡ remove_entry k xs ++ ys
  unfolding remove_entry
  remove_entry_left [] ys b e h = cc
  remove_entry_left (x ∷ []) ys b e h = ground (arith, gt_of_lt x.key k)
  remove_entry_left (x ∷ y ∷ xs) ys b e h = ground (arith, remove_entry_left (y ∷ xs) ys b)

  module _ (v : ValueRepr) where
    pub insert_entry_right :
        (xs ys : List LeafEntry)
        → AllKeys (λ j. j ≺ k) xs
        → insert_entry k v (xs ++ ys) ≡ xs ++ insert_entry k v ys
    unfolding insert_entry
    insert_entry_right [] ys h = refl
    insert_entry_right (x ∷ xs) ys h = ground (arith, insert_entry_right xs ys)

    pub insert_entry_left :
        (xs ys : List LeafEntry) (b : Key)
        → last_key xs ≡ some b
        → le_key k b ≡ true
        → insert_entry k v (xs ++ ys) ≡ insert_entry k v xs ++ ys
    unfolding insert_entry
    insert_entry_left [] ys b e h = cc
    insert_entry_left (x ∷ []) ys b e h = ground (arith, gt_of_lt x.key k)
    insert_entry_left (x ∷ y ∷ xs) ys b e h = ground (arith, insert_entry_left (y ∷ xs) ys b)
