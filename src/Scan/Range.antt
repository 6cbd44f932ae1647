-- ===== src/Scan/Range.antt =====
-- What a forward scan returns, as a part of the map.
use prolly_gunna.Prelude.{
  ℕ, suc, ◌≤◌, ◌<◌, none, [], ◌∷◌, ◌≡◌, ◌⊎◌, inl, inr, refl, sym, ap, ◌∙◌, arith, Bool, true, false,
  Option, Option-cases, subst, length, drop,
}
use prolly_gunna.Errors.{ok}
use prolly_gunna.Node.{Key}
use prolly_gunna.Externals.{Externals}
use prolly_gunna.Store.Access.{Access, IsAccess}
use prolly_gunna.Tree.SortedMap.{SortedMap}
use prolly_gunna.Tree.Session.{Session, root}
use prolly_gunna.Tree.Session.Represents.{Pairs, Represents}
use prolly_gunna.Cursor.{
  Cursor, async_messages, usize_max, advance_cursor_path_to_next_leaf,
  advance_cursor_path_to_prev_leaf, new_cursor,
}
use prolly_gunna.Cursor.Next.{Remaining}
use prolly_gunna.Scan.{ScanArgs, ScanPage, ends_at, new_for_scan}
use prolly_gunna.Scan.Paging.{
  Item, Moves, Fetched, next_in_scan, items_to_fetch, fetch, page_of, scan_cursor, scan,
}
use prolly_gunna.Scan.Slice.{last_page, range, until-ends_at, page_of-last_page}
use prolly_gunna.Scan.Start.{from_start, map_above}
use prolly_gunna.Tree.Core.Insert.Stores.{length-drop}
use prolly_gunna.Scan.Exclusive.{new_for_scan_lem, length-map_from}
use prolly_gunna.Scan.Calls.{until}
use prolly_gunna.Scan.Pages.{first_key, unlimited}

-- What the calls of the cursor yield.
unfoldable fetched_range : ScanArgs → SortedMap → SortedMap
fetched_range args m = until (ends_at args) (drop args.offset (from_start args m))

length-until : (p : Key → Bool) (m : SortedMap) → length (until p m) ≤ length m
unfolding until
length-until p [] = omega arith
length-until p ((k, v) ∷ m) = ground (arith, length-until p m)

length-map_above : (k : Key) (m : SortedMap) → length (map_above k m) ≤ length m
unfolding map_above
length-map_above k [] = omega arith
length-map_above k ((j, v) ∷ m) = ground (arith, length-map_above k m)

length-from_start : (args : ScanArgs) (m : SortedMap) → length (from_start args m) ≤ length m
unfolding from_start
length-from_start args m = elim (Option-cases args.start_bound) [
  | inl e ↦ rw e (omega arith)
  | inr (k, e) ↦ rw e (ground (arith, length-map_from k m, length-map_above k m))
]

length-range :
    (args : ScanArgs) (m : SortedMap)
    → length m < usize_max
    → length (until (ends_at args) (drop args.offset (from_start args m))) < usize_max
length-range args m h = omega (
  arith,
  length-until (ends_at args) (drop args.offset (from_start args m)),
  length-drop {A = Item} args.offset (from_start args m),
  length-from_start args m,
)

module _ {S : Type 0} {x : Externals} {a : Access S} (good : IsAccess x a) (args : ScanArgs)
    (onward : args.reverse ≡ false) where
  open good use {view, Ready}

  async_moves : ℕ → Moves x a
  async_moves fuel = record {
    forward = advance_cursor_path_to_next_leaf x a fuel;
    back = advance_cursor_path_to_prev_leaf x a fuel;
  }

  -- The page of a scan, by what its phases return.
  scanned :
      (rounds fuel : ℕ) (w : Session S) (c c' : Cursor S) (f : Fetched)
      → new_for_scan x a args rounds fuel (root w) (new_cursor w.store) ≡ (ok tt, c)
      → fetch (next_in_scan x a args rounds fuel) args.limit (items_to_fetch args.limit) none [] c
        ≡ (ok f, c')
      → scan x a args rounds fuel w ≡ (ok (page_of args f), c')
  unfolding scan scan_cursor
  scanned rounds fuel w c c' f opens fetches = rw (opens, fetches)

  unlimited_run :
      (rounds fuel d : ℕ) (m : SortedMap) (w : Session S)
      → (args.start_inclusive ≡ true) ⊎ (args.offset ≡ 0)
      → args.limit ≡ none
      → length m < usize_max
      → length m < suc rounds
      → d < fuel
      → Ready w.store
      → Represents x (view w.store) d (root w) m
      → (c : Cursor S) × (scan x a args (suc (suc rounds)) fuel w ≡ (
        ok (
            page_of args (record {
              first_item_key = first_key none (fetched_range args m);
              collected_items = fetched_range args m;
              next_item = none;
            })),
        c,
      ))
        × (c.store ≡ w.store)
  unfolding fetched_range next_in_scan advance_cursor_path_to_next_leaf async_moves
  unlimited_run rounds fuel d m w plain limit small enough deep r at =
      let o =
        new_for_scan_lem good args onward (suc rounds) fuel d (root w) m (new_cursor w.store) plain
          enough deep r at in
      let (c, fetches, same) =
        unlimited good async_messages fuel (suc d) deep args onward (async_moves fuel) (λ c. refl)
          rounds usize_max none [] o.after o.entries (drop args.offset (from_start args m))
          (omega (arith, length-range args m small)) (subst Ready (sym o.store) r)
          (subst (λ s. Pairs (view s) o.entries (drop args.offset (from_start args m)))
            (sym o.store) o.pairs)
          (subst (λ s. Remaining x (view s) (suc d) o.after o.entries) (sym o.store) o.remaining) in
      (
        c,
        scanned (suc (suc rounds)) fuel w o.after c _ o.returns (
            ap
              (λ (k : Option ℕ).
                fetch (next_in_scan x a args (suc (suc rounds)) fuel) k (items_to_fetch k) none []
                  o.after)
              limit
            ∙ unfold items_to_fetch in fetches),
        same ∙ o.store,
      )

  -- In a ready store, on a tree of depth `d` that stands for a map of fewer than 2 ^ 32 - 1 keys,
  -- with fuel beyond `d` and more rounds than the map has keys, by two: a forward scan with no
  -- limit, whose start bound is inclusive or whose offset is zero, returns all pairs of the map
  -- between the bounds, less the offset, in a page that nothing follows. It leaves the store as it
  -- was.
  pub scan_unlimited :
      (rounds fuel d : ℕ) (m : SortedMap) (w : Session S)
      → (args.start_inclusive ≡ true) ⊎ (args.offset ≡ 0)
      → args.limit ≡ none
      → length m < usize_max
      → length m < suc rounds
      → d < fuel
      → Ready w.store
      → Represents x (view w.store) d (root w) m
      → (c : Cursor S) × (scan x a args (suc (suc rounds)) fuel w
          ≡ (ok (last_page args (range args m)), c))
        × (c.store ≡ w.store)
  unfolding range fetched_range
  scan_unlimited rounds fuel d m w plain limit small enough deep r at =
      let (c, returns, same) = unlimited_run rounds fuel d m w plain limit small enough deep r at in
      let whole = drop args.offset (from_start args m) in
      (
        c,
        returns
            ∙ ap (λ (p : ScanPage). (ok p, c))
                (page_of-last_page args (until (ends_at args) whole)
                  ∙ ap (last_page args) (until-ends_at args whole onward)),
        same,
      )
