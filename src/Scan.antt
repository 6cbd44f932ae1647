-- ===== src/Scan.antt =====
-- src/tree/cursor.rs, src/tree/prolly_tree.rs and src/tree/types.rs: range scans, which a cursor
-- answers page by page. A reverse scan starts at its start bound and goes down.
pub mod Paging
pub mod Forward
pub mod Start
pub mod Exclusive
pub mod Calls
pub mod Pages
pub mod Slice
pub mod Range
use prolly_gunna.Prelude.{
  ℕ, zero, suc, ◌+◌, ◌-◌, ◌%◌, min, Option, none, some, List, [], ◌∷◌, ◌++◌, Bool, true, false, not,
  ◌&&◌, ◌||◌, ◌==◌, ltb, leb, if◌then◌else◌, lt, eq, gt, length, get_elem?, binary_search_by, found,
  absent, Search,
}
use prolly_gunna.Prelude.Bytes.{cmp, bytes_eq}
use prolly_gunna.Errors.{Result, ok, Exec, pure, fail, stop, and_then, ◌>>=◌, ◌>>◌, internal_error}
use prolly_gunna.Node.{Hash, Key, Value, LeafEntry, InternalEntry, Node, leaf, internal, u64_mod}
use prolly_gunna.Externals.{Externals}
use prolly_gunna.Store.Access.{Access}
use prolly_gunna.Io.{load_value_repr}
use prolly_gunna.Tree.Session.{Session}
use prolly_gunna.Cursor.{
  Step, Cursor, usize_max, search_index, entry_idx, last_entry_idx, last_child_idx, on_store,
  with_path, with_index, set_path, set_index, new_cursor, descend, advance_cursor_path_to_next_leaf,
  advance_cursor_path_to_prev_leaf, advance_cursor_path_to_next_leaf_sync,
  advance_cursor_path_to_prev_leaf_sync,
}

pub record ScanArgs : Type 0 where
  pub start_bound : Option Key
  pub end_bound : Option Key
  pub start_inclusive : Bool
  pub end_inclusive : Bool
  pub reverse : Bool
  pub offset : ℕ
  pub limit : Option ℕ

unfoldable pub default_args : ScanArgs
default_args = record {
  start_bound = none;
  end_bound = none;
  start_inclusive = true;
  end_inclusive = false;
  reverse = false;
  offset = 0;
  limit = none;
}

pub record ScanPage : Type 0 where
  pub items : List (Key × Value)
  pub has_next_page : Bool
  pub has_previous_page : Bool
  pub next_page_cursor : Option Key
  pub previous_page_cursor : Option Key

-- The child that the descent to a bound takes.
unfoldable pub scan_child_idx : Key → List InternalEntry → ℕ
scan_child_idx key children =
    min (search_index (binary_search_by (λ c. cmp c.boundary_key key) children))
      (length children - 1)

-- The entry that a reverse scan from a bound starts at.
abbrev pub at_or_before : Search → ℕ
at_or_before (found idx) = idx
at_or_before (absent idx) = idx - 1

unfoldable pub reverse_entry_idx : Key → List LeafEntry → ℕ
reverse_entry_idx key [] = usize_max
reverse_entry_idx key (e ∷ es) =
    let idx = at_or_before (binary_search_by (λ e'. cmp e'.key key) (e ∷ es)) in
    if leb (length (e ∷ es)) idx then length es else idx

-- Whether a key is beyond the bounds that end a scan.
unfoldable pub past_upper : Option Key → Bool → Key → Bool
past_upper none inclusive key = false
past_upper (some bound) inclusive key = elim (cmp key bound) [
  | lt ↦ false
  | eq ↦ not inclusive
  | gt ↦ true
]

unfoldable pub past_lower : Option Key → Bool → Key → Bool
past_lower none inclusive key = false
past_lower (some bound) inclusive key = elim (cmp key bound) [
  | lt ↦ true
  | eq ↦ not inclusive
  | gt ↦ false
]

unfoldable pub ends_at : ScanArgs → Key → Bool
unfolding past_upper past_lower
ends_at args key =
    if args.reverse
    then past_upper args.start_bound args.start_inclusive key
      || past_lower args.end_bound args.end_inclusive key
    else past_upper args.end_bound args.end_inclusive key

-- The last adjustment of a new cursor: an entry at an exclusive start bound is passed over.
unfoldable pub passes_start : ScanArgs → LeafEntry → Bool
passes_start args entry = elim args.start_bound [
  | none ↦ false
  | some bound ↦ not args.start_inclusive && bytes_eq entry.key bound
]

-- One place down, and from the first entry to the place before it.
abbrev pub index_before : ℕ → ℕ
index_before zero = usize_max
index_before (suc i) = i

module _ {S : Type 0} (x : Externals) (a : Access S) where
  unfoldable pub descend_pick : ScanArgs → List InternalEntry → ℕ
  unfolding scan_child_idx last_child_idx
  descend_pick args children = elim args.start_bound [
    | none ↦ if args.reverse then last_child_idx children else 0
    | some key ↦ scan_child_idx key children
  ]

  unfoldable pub first_index : ScanArgs → List LeafEntry → ℕ
  unfolding entry_idx reverse_entry_idx last_entry_idx
  first_index args entries = elim args.start_bound [
    | none ↦ if args.reverse then last_entry_idx entries else 0
    | some key ↦ if args.reverse then reverse_entry_idx key entries else entry_idx key entries
  ]

  unfoldable pub place_at : ScanArgs → List Step → Exec (Cursor S) (Unit {0})
  unfolding first_index
  place_at args ((h, leaf level entries, i) ∷ path) = set_index (first_index args entries)
  place_at args path = pure tt

  -- The loop that applies the offset returns what is left of it.
  unfoldable pub skip_forward :
      ℕ → (ℕ → Exec (Cursor S) ℕ) → ℕ → List LeafEntry → ℕ → Exec (Cursor S) ℕ
  skip_forward fuel again remaining entries idx =
      if leb (length entries) idx
      then (do
        advanced ← advance_cursor_path_to_next_leaf x a fuel
        if advanced
            then (do set_index 0; again remaining)
            else (do set_index (length entries); pure 0))
      else if ltb remaining (length entries - idx)
      then (do set_index (idx + remaining); pure 0)
      else (do
        set_index (length entries)
        advanced ← advance_cursor_path_to_next_leaf x a fuel
        if advanced then (do set_index 0; again (remaining - (length entries - idx))) else pure 0)

  -- A new leaf is entered from its end; on anything else the loop breaks.
  unfoldable pub enter_last : (ℕ → Exec (Cursor S) ℕ) → ℕ → List Step → Exec (Cursor S) ℕ
  unfolding last_entry_idx
  enter_last again remaining ((h, leaf level entries, i) ∷ path) = do
    set_index (last_entry_idx entries)
    again remaining
  enter_last again remaining path = pure remaining

  unfoldable pub skip_backward : ℕ → (ℕ → Exec (Cursor S) ℕ) → ℕ → ℕ → Exec (Cursor S) ℕ
  unfolding enter_last
  skip_backward fuel again remaining idx =
      if idx == usize_max
      then (do
        advanced ← advance_cursor_path_to_prev_leaf x a fuel
        if advanced then with_path (enter_last again remaining) else pure 0)
      else if ltb remaining (idx + 1)
      then (do set_index (idx - remaining); pure 0)
      else (do
        set_index usize_max
        advanced ← advance_cursor_path_to_prev_leaf x a fuel
        if advanced then with_path (enter_last again (remaining - (idx + 1))) else pure 0)

  unfoldable pub skip_at :
      ScanArgs → ℕ → (ℕ → Exec (Cursor S) ℕ) → ℕ → List Step → Exec (Cursor S) ℕ
  unfolding skip_forward skip_backward
  skip_at args fuel again remaining ((h, leaf level entries, i) ∷ path) = with_index λ idx.
      if args.reverse
      then skip_backward fuel again remaining idx
      else skip_forward fuel again remaining entries idx
  skip_at args fuel again remaining path = pure remaining

  unfoldable pub skip : ScanArgs → ℕ → ℕ → ℕ → Exec (Cursor S) ℕ
  unfolding skip_at
  skip args zero fuel remaining = stop
  skip args (suc rounds) fuel remaining =
      if remaining == 0
      then pure 0
      else with_path (skip_at args fuel (skip args rounds fuel) remaining)

  -- An offset that goes beyond the entries leaves the cursor at the end of its leaf.
  unfoldable pub place_beyond : ScanArgs → ℕ → List Step → Exec (Cursor S) (Unit {0})
  place_beyond args zero path = pure tt
  place_beyond args (suc remaining) [] = pure tt
  place_beyond args (suc remaining) ((h, leaf level entries, i) ∷ path) =
      set_index (if args.reverse then usize_max else length entries)
  place_beyond args (suc remaining) ((h, internal level children, i) ∷ path) =
      if args.reverse then set_index usize_max else pure tt

  unfoldable pub pass_start : ScanArgs → Option LeafEntry → ℕ → Exec (Cursor S) (Unit {0})
  unfolding passes_start
  pass_start args none idx = pure tt
  pass_start args (some entry) idx =
      if passes_start args entry
      then set_index (if args.reverse then index_before idx else idx + 1)
      else pure tt

  unfoldable pub adjust_start : ScanArgs → List Step → Exec (Cursor S) (Unit {0})
  unfolding pass_start
  adjust_start args ((h, leaf level entries, i) ∷ path) =
      with_index λ idx. pass_start args (get_elem? entries idx) idx
  adjust_start args path = pure tt

  unfoldable pub new_for_scan : ScanArgs → ℕ → ℕ → Option Hash → Exec (Cursor S) (Unit {0})
  unfolding descend descend_pick place_at skip place_beyond adjust_start
  new_for_scan args rounds fuel none = do
    set_path []
    set_index (if args.reverse then usize_max else 0)
  new_for_scan args rounds fuel (some root_hash) = do
    set_path []
    set_index (if args.reverse then usize_max else 0)
    descend x a (pure tt) (descend_pick args) fuel root_hash usize_max
    with_path (place_at args)
    remaining ← skip args rounds fuel args.offset
    with_path (place_beyond args remaining)
    with_path (adjust_start args)
