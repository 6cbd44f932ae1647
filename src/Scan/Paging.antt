-- ===== src/Scan/Paging.antt =====
-- src/tree/cursor.rs and src/tree/prolly_tree.rs: the calls that a scan makes of its cursor, and the
-- page that it returns. The async and the sync call differ in how they move to another leaf.
use prolly_gunna.Prelude.{
  ℕ, zero, suc, ◌+◌, ◌%◌, Option, none, some, List, [], ◌∷◌, ◌++◌, Bool, true, false, ◌&&◌, ◌||◌,
  ◌==◌, ltb, if◌then◌else◌, length, get_elem?,
}
use prolly_gunna.Errors.{Result, Exec, pure, fail, stop, ◌>>=◌, ◌>>◌, internal_error}
use prolly_gunna.Node.{Hash, Key, Value, LeafEntry, leaf, internal, usize_mod}
use prolly_gunna.Externals.{Externals}
use prolly_gunna.Store.Access.{Access}
use prolly_gunna.Io.{load_value_repr}
use prolly_gunna.Tree.Session.{Session}
use prolly_gunna.Cursor.{
  Step, Cursor, usize_max, last_entry_idx, on_store, with_path, with_index, set_index, new_cursor,
  advance_cursor_path_to_next_leaf, advance_cursor_path_to_prev_leaf,
  advance_cursor_path_to_next_leaf_sync, advance_cursor_path_to_prev_leaf_sync,
}
use prolly_gunna.Scan.{ScanArgs, ScanPage, ends_at, index_before, new_for_scan}

abbrev pub Item : Type 0
Item = Key × Value

-- `is_none`, `is_some`
abbrev pub is_some {ℓ} : {A : Type ℓ} → Option A → Bool
is_some none = false
is_some (some a) = true

abbrev pub first_of : Option Key → Key → Option Key
first_of none key = some key
first_of (some first) key = some first

abbrev pub key_of : Option Item → Option Key
key_of none = none
key_of (some item) = some item.0

-- What the loop of a scan has: the first key, the items, and the one after them.
pub record Fetched : Type 0 where
  pub first_item_key : Option Key
  pub collected_items : List Item
  pub next_item : Option Item

-- How often the loop of `scan` may run.
unfoldable pub items_to_fetch : Option ℕ → ℕ
items_to_fetch none = usize_max
items_to_fetch (some zero) = 0
items_to_fetch (some (suc limit)) = (suc limit + 1) % usize_mod

module _ {S : Type 0} where
  unfoldable pub fetch :
      Exec (Cursor S) (Option Item)
      → Option ℕ
      → ℕ
      → Option Key
      → List Item
      → Exec (Cursor S) Fetched
  fetch next limit zero first items =
      pure (record { first_item_key = first; collected_items = items; next_item = none })
  fetch next limit (suc n) first items = do
    found ← next
    elim found [
      | none ↦ pure (record { first_item_key = first; collected_items = items; next_item = none })
      | some (key, value) ↦ elim limit [
        | none ↦ fetch next none n (first_of first key) (items ++ (key, value) ∷ [])
        | some l ↦
            let more = fetch next (some l) n (first_of first key) (items ++ (key, value) ∷ []) in
            let on = fetch next (some l) n (first_of first key) items in
            if ltb (length items) l
            then more
            else if length items == l
            then pure (record {
              first_item_key = first_of first key;
              collected_items = items;
              next_item = some (key, value);
            })
            else on
      ]
    ]

unfoldable pub page_of : ScanArgs → Fetched → ScanPage
page_of args f = record {
  items = f.collected_items;
  has_next_page = is_some f.next_item;
  has_previous_page = ltb 0 args.offset || (is_some args.start_bound && (args.offset == 0));
  next_page_cursor = key_of f.next_item;
  previous_page_cursor = f.first_item_key;
}

module _ {S : Type 0} (x : Externals) (a : Access S) where
  -- The two ways to the neighbours of a leaf.
  pub record Moves : Type 0 where
    pub forward : Exec (Cursor S) Bool
    pub back : Exec (Cursor S) Bool

  unfoldable pub enter_leaf :
      ScanArgs → Exec (Cursor S) (Option Item) → List Step → Exec (Cursor S) (Option Item)
  unfolding last_entry_idx
  enter_leaf args again [] = pure none
  enter_leaf args again ((h, leaf level entries, i) ∷ path) = do
    set_index (if args.reverse then last_entry_idx entries else 0)
    again
  enter_leaf args again ((h, internal level children, i) ∷ path) =
      fail (internal_error "Advanced cursor path did not end in a leaf")

  unfoldable pub scan_entry :
      Moves
      → ScanArgs
      → Exec (Cursor S) (Option Item)
      → Option LeafEntry
      → Exec (Cursor S) (Option Item)
  unfolding enter_leaf
  scan_entry moves args again none = do
    advanced ← (if args.reverse then moves.back else moves.forward)
    if advanced then with_path (enter_leaf args again) else pure none
  scan_entry moves args again (some entry) = if ends_at args entry.key then pure none else do
    value ← on_store (load_value_repr x a entry.value)
    with_index λ idx. set_index (if args.reverse then index_before idx else idx + 1)
    pure (some (entry.key, value))

  unfoldable pub scan_at :
      Moves → ScanArgs → Exec (Cursor S) (Option Item) → List Step → Exec (Cursor S) (Option Item)
  unfolding scan_entry
  scan_at moves args again [] = pure none
  scan_at moves args again ((h, internal level children, i) ∷ path) =
      fail (internal_error "Cursor path top was not a LeafNode during next_in_scan")
  scan_at moves args again ((h, leaf level entries, i) ∷ path) = with_index λ idx.
      scan_entry moves args again
        (if args.reverse && (idx == usize_max) then none else get_elem? entries idx)

  unfoldable pub next_with : Moves → ScanArgs → ℕ → Exec (Cursor S) (Option Item)
  unfolding scan_at
  next_with moves args zero = stop
  next_with moves args (suc rounds) = with_path (scan_at moves args (next_with moves args rounds))

  unfoldable pub next_in_scan : ScanArgs → ℕ → ℕ → Exec (Cursor S) (Option Item)
  next_in_scan args rounds fuel =
      next_with
        (record {
          forward = advance_cursor_path_to_next_leaf x a fuel;
          back = advance_cursor_path_to_prev_leaf x a fuel;
        })
        args rounds

  unfoldable pub next_in_scan_sync : ScanArgs → ℕ → ℕ → Exec (Cursor S) (Option Item)
  next_in_scan_sync args rounds fuel =
      next_with
        (record {
          forward = advance_cursor_path_to_next_leaf_sync x a fuel;
          back = advance_cursor_path_to_prev_leaf_sync x a fuel;
        })
        args rounds

  -- `scan`: the rounds of the loops over leaves come first, then the levels of a descent.
  unfoldable pub scan_cursor : ScanArgs → ℕ → ℕ → Option Hash → Exec (Cursor S) ScanPage
  scan_cursor args rounds fuel root_hash = do
    new_for_scan x a args rounds fuel root_hash
    f ← fetch (next_in_scan args rounds fuel) args.limit (items_to_fetch args.limit) none []
    pure (page_of args f)

  unfoldable pub scan : ScanArgs → ℕ → ℕ → Session S → Result ScanPage × Cursor S
  scan args rounds fuel w = scan_cursor args rounds fuel w.tree.root_hash (new_cursor w.store)
