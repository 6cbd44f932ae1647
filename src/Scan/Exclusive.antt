-- ===== src/Scan/Exclusive.antt =====
-- A new cursor for a forward scan with an exclusive start bound passes over the bound. With this,
-- every forward scan starts at its range.
use prolly_gunna.Prelude.{
  ℕ, suc, ◌+◌, ◌≤◌, ◌<◌, none, some, List, [], ◌∷◌, ◌++◌, ◌≡◌, ◌⊎◌, inl, inr, refl, sym, ap, ◌∙◌,
  arith, Bool-cases, true, false, Option, Option-cases, length, subst, drop, get_elem?, append-nil,
}
use prolly_gunna.Prelude.Bytes.{bytes_eq}
use prolly_gunna.Errors.{ok, pure}
use prolly_gunna.Node.{Hash, Key, Value, LeafEntry, leaf, last_key}
use prolly_gunna.Externals.{Externals}
use prolly_gunna.Store.Access.{Access, IsAccess}
use prolly_gunna.Tree.SortedMap.{SortedMap}
use prolly_gunna.Tree.Session.Represents.{Represents, RootHolds}
use prolly_gunna.Cursor.{Step, Cursor, usize_max, entry_idx}
use prolly_gunna.Cursor.Ahead.{After, drop_next, drop_end, add-one}
use prolly_gunna.Cursor.Next.{Remaining, done, within}
use prolly_gunna.Cursor.Seek.{entries_from, drop-entry_idx, descend_seek, Fits}
use prolly_gunna.Cursor.Traverse.{map_from, Opened}
use prolly_gunna.Scan.{
  ScanArgs, descend_pick, first_index, skip, place_beyond, passes_start, pass_start, adjust_start,
  new_for_scan,
}
use prolly_gunna.Scan.Forward.{drop_past}
use prolly_gunna.Scan.Start.{
  map_above, entries_above, Pairs-entries_above, pass, pass-entries_from, entries_from-ne-nil,
  from_start, picks_key, index_key, phases, unbounded_start, inclusive_start,
}

pub length-map_from : (k : Key) (m : SortedMap) → length (map_from k m) ≤ length m
unfolding map_from
length-map_from k [] = omega arith
length-map_from k ((j, v) ∷ m) = ground (arith, length-map_from k m)

module _ {S : Type 0} {x : Externals} {a : Access S} (good : IsAccess x a) (args : ScanArgs)
    (onward : args.reverse ≡ false) where
  open good use {view, Ready}

  -- The adjustment in a leaf: the entry at the index is passed over, or the index stays.
  adjust_leaf :
      (c : Cursor S) (h : Hash) (es : List LeafEntry) (i : ℕ) (path : List Step)
      → (get_elem? es c.current_leaf_entry_idx ≡ none
          → adjust_start x a args ((h, leaf 0 es, i) ∷ path) c ≡ (ok tt, c))
        × ((e : LeafEntry)
            → get_elem? es c.current_leaf_entry_idx ≡ some e
            → (passes_start args e ≡ false
                → adjust_start x a args ((h, leaf 0 es, i) ∷ path) c ≡ (ok tt, c))
              × (passes_start args e ≡ true
                  → adjust_start x a args ((h, leaf 0 es, i) ∷ path) c
                    ≡ (ok tt, record c { current_leaf_entry_idx = c.current_leaf_entry_idx + 1 })))
  unfolding adjust_start pass_start
  adjust_leaf c h es i path = (
    (λ end. rw end),
    (λ e here. (
      (λ keep. rw here (ground (arith, keep))),
      (λ pass. rw here (ground (arith, pass, onward))),
    )),
  )

  exclusive_passes :
      (k : Key)
      → args.start_bound ≡ some k
      → args.start_inclusive ≡ false
      → (e : LeafEntry) → passes_start args e ≡ bytes_eq e.key k
  unfolding passes_start
  exclusive_passes k bound exclusive e = rw (bound, exclusive) refl

  -- After the adjustment the entries above the key are ahead.
  record Adjusted (depth : ℕ) (k : Key) (c : Cursor S) (path : List Step) (es : List LeafEntry)
      : Type 0 where
    index : ℕ
    returns : adjust_start x a args path c ≡ (ok tt, record c { current_leaf_entry_idx = index })
    remaining :
        Remaining x (view c.store) depth (record c { current_leaf_entry_idx = index }) (pass k es)

  adjusted :
      (depth : ℕ) (k b : Key) (c : Cursor S) (h : Hash) (es rest : List LeafEntry) (i : ℕ)
      (parents : List Step)
      → args.start_bound ≡ some k
      → args.start_inclusive ≡ false
      → c.path ≡ (h, leaf 0 es, i) ∷ parents
      → c.current_leaf_entry_idx ≡ entry_idx k es
      → After x (view c.store) 0 i parents rest
      → length parents < depth
      → last_key es ≡ some b
      → Fits k b rest
      → Adjusted depth k c ((h, leaf 0 es, i) ∷ parents) (entries_from k es ++ rest)
  unfolding pass
  adjusted depth k b c h es rest i parents bound exclusive path idx after short last fits =
      let start : drop c.current_leaf_entry_idx es ≡ entries_from k es =
        ap (λ n. drop n es) idx ∙ drop-entry_idx k es in
      elim (Option-cases (get_elem? es c.current_leaf_entry_idx)) [
        | inl end ↦
            let nothing : entries_from k es ≡ [] =
              sym start ∙ drop_end c.current_leaf_entry_idx es end in
            record {
              index = c.current_leaf_entry_idx;
              returns = (adjust_leaf c h es i parents).0 end;
              remaining = elim fits [
                | inl le ↦ absurd (entries_from-ne-nil k b es last le nothing)
                | inr nil ↦ within h es rest i parents path after short (rw (start, nothing, nil))
              ];
            }
        | inr (e, here) ↦
            let from : entries_from k es ≡ e ∷ drop (suc c.current_leaf_entry_idx) es =
              sym start ∙ drop_next c.current_leaf_entry_idx es e here in
            elim (Bool-cases (bytes_eq e.key k)) [
              | inl same ↦ record {
                index = c.current_leaf_entry_idx + 1;
                returns =
                    ((adjust_leaf c h es i parents).1 e here).1
                      (exclusive_passes k bound exclusive e ∙ same);
                remaining =
                    within h es rest i parents path after short
                      (rw (from, same, add-one c.current_leaf_entry_idx));
              }
              | inr other ↦ record {
                index = c.current_leaf_entry_idx;
                returns =
                    ((adjust_leaf c h es i parents).1 e here).0
                      (exclusive_passes k bound exclusive e ∙ other);
                remaining = within h es rest i parents path after short (rw (start, from, other));
              }
            ]
      ]

  skip_zero : (rounds fuel : ℕ) (c : Cursor S) → skip x a args (suc rounds) fuel 0 c ≡ (ok 0, c)
  unfolding skip
  skip_zero rounds fuel c = refl

  exclusive_start :
      (rounds fuel d : ℕ) (k : Key) (h : Hash) (m : SortedMap) (c : Cursor S)
      → args.start_bound ≡ some k
      → args.start_inclusive ≡ false
      → args.offset ≡ 0
      → d < fuel
      → Ready c.store
      → RootHolds x (view c.store) d h m
      → Opened good c (new_for_scan x a args (suc rounds) fuel (some h) c) (suc d) (map_above k m)
  unfolding place_beyond
  exclusive_start rounds fuel d k h m c bound exclusive offset deep r at =
      let s =
        descend_seek good (descend_pick x a args) k (picks_key good args onward k bound) (pure tt)
          fuel d h usize_max at.entries [] at.last
          (record c { path = []; current_leaf_entry_idx = 0 }) deep r at.holds at.sorted at.nonempty
          refl (inr refl) in
      let l = s.landed in
      let c1 : Cursor S = record c {
        path = (l.hash, leaf 0 l.entries, l.index) ∷ l.parents;
        current_leaf_entry_idx = first_index x a args l.entries;
      } in
      let short : length l.parents < suc d = omega (arith, l.depth) in
      let j =
        adjusted (suc d) k l.last c1 l.hash l.entries l.rest l.index l.parents bound exclusive refl
          (index_key good args onward k bound l.entries) l.after short l.nonempty s.fits in
      record {
        after = record c1 { current_leaf_entry_idx = j.index };
        entries = entries_above k at.entries;
        returns =
            phases good args onward (suc rounds) fuel 0 h l.hash l.entries l.index l.parents c c1 _
              l.returns
              (ap (λ o. skip x a args (suc rounds) fuel o c1) offset ∙ skip_zero rounds fuel c1)
              refl j.returns;
        store = refl;
        remaining =
            subst
              (λ es.
                Remaining x (view c.store) (suc d) (record c1 { current_leaf_entry_idx = j.index })
                  es)
              (ap (pass k) (sym s.starts ∙ ap (entries_from k) (append-nil at.entries))
                ∙ pass-entries_from k at.entries)
              j.remaining;
        pairs = Pairs-entries_above (view c.store) k at.entries m at.pairs;
      }

  start_unbounded : (m : SortedMap) → args.start_bound ≡ none → from_start args m ≡ m
  unfolding from_start
  start_unbounded m e = rw e refl

  start_inclusive :
      (k : Key) (m : SortedMap)
      → args.start_bound ≡ some k
      → args.start_inclusive ≡ true
      → from_start args m ≡ map_from k m
  unfolding from_start
  start_inclusive k m e i = rw (e, i) refl

  start_exclusive :
      (k : Key) (m : SortedMap)
      → args.start_bound ≡ some k
      → args.start_inclusive ≡ false
      → from_start args m ≡ map_above k m
  unfolding from_start
  start_exclusive k m e i = rw (e, i) refl

  start-nil : (n : ℕ) → drop n (from_start args []) ≡ []
  unfolding from_start map_from map_above
  start-nil n = ground (arith, drop_past {A = Key × Value} n [])

  root_start :
      (rounds fuel d : ℕ) (h : Hash) (m : SortedMap) (c : Cursor S)
      → (args.start_inclusive ≡ true) ⊎ (args.offset ≡ 0)
      → length m < rounds
      → d < fuel
      → Ready c.store
      → RootHolds x (view c.store) d h m
      → Opened good c
          (new_for_scan x a args (suc rounds) fuel (some h) c)
          (suc d)
          (drop args.offset (from_start args m))
  root_start rounds fuel d h m c plain enough deep r at = elim (Option-cases args.start_bound) [
    | inl none_given ↦ rw (start_unbounded m none_given) (
        unbounded_start good args onward (suc rounds) fuel d h m c none_given (omega arith) deep r
          at)
    | inr (k, bound) ↦ elim (Bool-cases args.start_inclusive) [
      | inl inclusive ↦ rw (start_inclusive k m bound inclusive) (
          inclusive_start good args onward (suc rounds) fuel d k h m c bound inclusive
            (omega (arith, length-map_from k m)) deep r at)
      | inr exclusive ↦ elim plain [
        | inl inclusive ↦ absurd (let no : ⊥ = cc in no)
        | inr offset ↦ rw (start_exclusive k m bound exclusive) (
            subst
              (λ n.
                Opened good c (new_for_scan x a args (suc rounds) fuel (some h) c) (suc d)
                  (drop n (map_above k m)))
              (sym offset) (exclusive_start rounds fuel d k h m c bound exclusive offset deep r at))
      ]
    ]
  ]

  -- A new cursor has the range from its start on ahead, less the offset.
  pub new_for_scan_lem :
      (rounds fuel d : ℕ) (o : Option Hash) (m : SortedMap) (c : Cursor S)
      → (args.start_inclusive ≡ true) ⊎ (args.offset ≡ 0)
      → length m < rounds
      → d < fuel
      → Ready c.store
      → Represents x (view c.store) d o m
      → Opened good c
          (new_for_scan x a args (suc rounds) fuel o c)
          (suc d)
          (drop args.offset (from_start args m))
  unfolding new_for_scan
  new_for_scan_lem rounds fuel d none m c plain enough deep r at = record {
    after = record c { path = []; current_leaf_entry_idx = 0 };
    entries = [];
    returns = simp onward;
    store = refl;
    remaining = done refl refl;
    pairs = rw at (start-nil args.offset);
  }
  new_for_scan_lem rounds fuel d (some h) m c plain enough deep r at =
      root_start rounds fuel d h m c plain enough deep r at
