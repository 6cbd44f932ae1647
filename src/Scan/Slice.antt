-- ===== src/Scan/Slice.antt =====
-- What a forward scan is to return, by the bounds of its arguments.
use prolly_gunna.Prelude.{
  ℕ, zero, suc, Bool, true, false, Option, Option-cases, none, some, [], ◌∷◌, ◌≡◌, inl, inr, refl,
  ap, arith, ltb, ◌==◌, ◌||◌, ◌&&◌, if◌then◌else◌, length, get_elem?, take, drop,
}
use prolly_gunna.Prelude.Bytes.{le_key, cmp_refl, eq_of_cmp, gt_of_lt, lt_of_gt}
use prolly_gunna.Node.{Key}
use prolly_gunna.Tree.SortedMap.{SortedMap}
use prolly_gunna.Scan.{ScanArgs, ScanPage, ends_at, past_upper}
use prolly_gunna.Scan.Paging.{is_some, key_of, page_of}
use prolly_gunna.Scan.Start.{from_start}
use prolly_gunna.Scan.Calls.{until}
use prolly_gunna.Scan.Pages.{first_key, fetched_page}

-- The pairs of a sorted map up to its end bound, which is among them where it is inclusive.
unfoldable pub up_to : Option Key → Bool → SortedMap → SortedMap
up_to none inclusive m = m
up_to (some bound) inclusive [] = []
up_to (some bound) true ((k, v) ∷ m) =
    if le_key k bound then (k, v) ∷ up_to (some bound) true m else []
up_to (some bound) false ((k, v) ∷ m) =
    if le_key bound k then [] else (k, v) ∷ up_to (some bound) false m

-- The items of a forward scan, in key order: the keys between the bounds, less the offset.
unfoldable pub range : ScanArgs → SortedMap → SortedMap
range args m = up_to args.end_bound args.end_inclusive (drop args.offset (from_start args m))

-- The key at a position of a map.
unfoldable pub key_at : ℕ → SortedMap → Option Key
key_at n [] = none
key_at zero ((k, v) ∷ m) = some k
key_at (suc n) ((k, v) ∷ m) = key_at n m

-- A scan that has an offset or a start bound begins after the first key.
unfoldable pub starts_later : ScanArgs → Bool
starts_later args = elim args.start_bound [ none ↦ ltb 0 args.offset | some bound ↦ true ]

-- The page of at most so many items: a next page begins at the key after them.
unfoldable pub page : ScanArgs → ℕ → SortedMap → ScanPage
page args limit m = record {
  items = take limit m;
  has_next_page = ltb limit (length m);
  has_previous_page = starts_later args;
  next_page_cursor = key_at limit m;
  previous_page_cursor = key_at 0 m;
}

-- The page that nothing follows.
pub last_page : ScanArgs → SortedMap → ScanPage
last_page args m = record {
  items = m;
  has_next_page = false;
  has_previous_page = starts_later args;
  next_page_cursor = none;
  previous_page_cursor = key_at 0 m;
}

until-past_upper :
    (bound : Option Key) (inclusive : Bool) (m : SortedMap)
    → until (past_upper bound inclusive) m ≡ up_to bound inclusive m
unfolding until past_upper up_to
until-past_upper none inclusive [] = refl
until-past_upper none inclusive ((k, v) ∷ m) =
    ap (λ (n : SortedMap). (k, v) ∷ n) (until-past_upper none inclusive m)
until-past_upper (some bound) true [] = refl
until-past_upper (some bound) false [] = refl
until-past_upper (some bound) true ((k, v) ∷ m) =
    ground (arith, until-past_upper (some bound) true m)
until-past_upper (some bound) false ((k, v) ∷ m) = ground (
  arith,
  until-past_upper (some bound) false m,
  gt_of_lt k bound,
  lt_of_gt k bound,
  gt_of_lt bound k,
  lt_of_gt bound k,
  eq_of_cmp k bound,
  eq_of_cmp bound k,
  cmp_refl k,
)

pub until-ends_at :
    (args : ScanArgs) (m : SortedMap)
    → args.reverse ≡ false
    → until (ends_at args) m ≡ up_to args.end_bound args.end_inclusive m
unfolding ends_at
until-ends_at args m onward = rw onward (until-past_upper args.end_bound args.end_inclusive m)

first_key_at : (m : SortedMap) → first_key none m ≡ key_at 0 m
unfolding key_at
first_key_at [] = refl
first_key_at ((k, v) ∷ m) = refl

next_key_at : (n : ℕ) (m : SortedMap) → key_of (get_elem? m n) ≡ key_at n m
unfolding key_at
next_key_at n [] = refl
next_key_at zero ((k, v) ∷ m) = refl
next_key_at (suc n) ((k, v) ∷ m) = next_key_at n m

next_there : (n : ℕ) (m : SortedMap) → is_some (get_elem? m n) ≡ ltb n (length m)
next_there n [] = ground arith
next_there zero ((k, v) ∷ m) = ground arith
next_there (suc n) ((k, v) ∷ m) = ground (arith, next_there n m)

previous_there :
    (args : ScanArgs)
    → (ltb 0 args.offset || (is_some args.start_bound && (args.offset == 0))) ≡ starts_later args
unfolding starts_later
previous_there args = elim (Option-cases args.start_bound) [
  | inl e ↦ rw e (ground arith)
  | inr (bound, e) ↦ rw e (ground arith)
]

pub page_of-page :
    (args : ScanArgs) (limit : ℕ) (m : SortedMap)
    → page_of args (fetched_page none [] m limit) ≡ page args limit m
unfolding page_of page
page_of-page args limit m =
    rw (first_key_at m, next_key_at limit m, next_there limit m, previous_there args)

pub page_of-last_page :
    (args : ScanArgs) (m : SortedMap)
    → page_of args
        (record { first_item_key = first_key none m; collected_items = m; next_item = none })
      ≡ last_page args m
unfolding page_of last_page
page_of-last_page args m = rw (first_key_at m, previous_there args)
