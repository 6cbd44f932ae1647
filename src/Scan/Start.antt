-- ===== src/Scan/Start.antt =====
-- A new cursor for a forward scan has the entries of the range ahead of it, after the offset.
use prolly_gunna.Prelude.{
  ℕ, zero, suc, ◌+◌, ◌<◌, none, some, lt, eq, gt, List, [], ◌∷◌, ◌++◌, ◌≡◌, inl, inr, refl, sym, ap,
  ◌∙◌, arith, true, false, Option-cases, length, drop, get_elem?, append-nil, if◌then◌else◌,
}
use prolly_gunna.Prelude.Bytes.{cmp, bytes_eq, le_key, cmp_refl, eq_of_cmp, gt_of_lt, lt_of_gt}
use prolly_gunna.Errors.{ok, pure}
use prolly_gunna.Node.{Hash, Key, LeafEntry, InternalEntry, leaf, internal, last_key}
use prolly_gunna.Externals.{Externals}
use prolly_gunna.Store.Access.{Access, View, IsAccess}
use prolly_gunna.Tree.Core.{child_idx}
use prolly_gunna.Tree.SortedMap.{SortedMap}
use prolly_gunna.Tree.Session.Represents.{Pairs, RootHolds, length-Pairs}
use prolly_gunna.Cursor.{Step, Cursor, usize_max, descend, entry_idx}
use prolly_gunna.Cursor.Ahead.{Landed, descend_first}
use prolly_gunna.Cursor.Next.{within}
use prolly_gunna.Cursor.Seek.{entries_from, drop-entry_idx, descend_seek}
use prolly_gunna.Cursor.Traverse.{map_from, Pairs-entries_from, Opened}
use prolly_gunna.Scan.{
  ScanArgs, scan_child_idx, descend_pick, first_index, place_at, skip, place_beyond, passes_start,
  pass_start, adjust_start, new_for_scan,
}
use prolly_gunna.Scan.Forward.{skip_lem}

-- The descent of a scan takes the child that a lookup takes.
scan_child_idx_lem :
    (k : Key) (c : InternalEntry) (cs : List InternalEntry)
    → scan_child_idx k (c ∷ cs) ≡ child_idx k (c ∷ cs)
unfolding scan_child_idx child_idx
scan_child_idx_lem k c [] = ground (arith, gt_of_lt c.boundary_key k, lt_of_gt k c.boundary_key)
scan_child_idx_lem k c (c' ∷ cs) = ground (
  arith,
  scan_child_idx_lem k c' cs,
  gt_of_lt c.boundary_key k,
  lt_of_gt k c.boundary_key,
  eq_of_cmp c.boundary_key k,
  cmp_refl k,
)

-- The entries above the key, of a sorted list, and the part of a map above it.
unfoldable pub entries_above : Key → List LeafEntry → List LeafEntry
entries_above k [] = []
entries_above k (e ∷ es) = elim (cmp e.key k) [ lt ↦ entries_above k es | eq ↦ es | gt ↦ e ∷ es ]

unfoldable pub map_above : Key → SortedMap → SortedMap
map_above k [] = []
map_above k ((j, v) ∷ m) = elim (cmp j k) [ lt ↦ map_above k m | eq ↦ m | gt ↦ (j, v) ∷ m ]

pub Pairs-entries_above :
    (v : View) (k : Key) (es : List LeafEntry) (m : SortedMap)
    → Pairs v es m
    → Pairs v (entries_above k es) (map_above k m)
unfolding entries_above map_above
Pairs-entries_above v k [] m p = rw p refl
Pairs-entries_above v k (e ∷ es) [] p = absurd p
Pairs-entries_above v k (e ∷ es) ((j, w) ∷ m) p =
    ground (arith, p.0, Pairs-entries_above v k es m p.2)

pub Pairs-drop :
    (v : View) (n : ℕ) (es : List LeafEntry) (m : SortedMap)
    → Pairs v es m
    → Pairs v (drop n es) (drop n m)
Pairs-drop v zero es m p = p
Pairs-drop v (suc n) [] m p = rw p refl
Pairs-drop v (suc n) (e ∷ es) [] p = absurd p
Pairs-drop v (suc n) (e ∷ es) ((j, w) ∷ m) p = Pairs-drop v n es m p.2

-- Passing over the key at the head of the entries from it on leaves those above it.
unfoldable pub pass : Key → List LeafEntry → List LeafEntry
pass k [] = []
pass k (e ∷ es) = if bytes_eq e.key k then es else e ∷ es

pub pass-entries_from :
    (k : Key) (es : List LeafEntry) → pass k (entries_from k es) ≡ entries_above k es
unfolding entries_above entries_from pass
pass-entries_from k [] = refl
pass-entries_from k (e ∷ es) = ground (arith, pass-entries_from k es)

-- A key that is not above the last of some entries is not above them all.
pub entries_from-ne-nil :
    (k b : Key) (es : List LeafEntry)
    → last_key es ≡ some b
    → le_key k b ≡ true
    → entries_from k es ≡ []
    → ⊥
unfolding entries_from
entries_from-ne-nil k b [] e le h = cc
entries_from-ne-nil k b (e' ∷ []) e le h = ground (arith, gt_of_lt e'.key k)
entries_from-ne-nil k b (e' ∷ e'' ∷ es) e le h =
    ground (arith, entries_from-ne-nil k b (e'' ∷ es) e le)

-- Keys at or above the start bound, or only above it where it is exclusive.
unfoldable pub from_start : ScanArgs → SortedMap → SortedMap
from_start args m = elim args.start_bound [
  | none ↦ m
  | some k ↦ if args.start_inclusive then map_from k m else map_above k m
]

module _ {S : Type 0} {x : Externals} {a : Access S} (good : IsAccess x a) (args : ScanArgs)
    (onward : args.reverse ≡ false) where
  open good use {view, Ready}

  picks_first :
      args.start_bound ≡ none
      → (c : InternalEntry) (cs : List InternalEntry) → descend_pick x a args (c ∷ cs) ≡ 0
  unfolding descend_pick
  picks_first none_given c cs = rw (none_given, onward) refl

  pub picks_key :
      (k : Key)
      → args.start_bound ≡ some k
      → (c : InternalEntry) (cs : List InternalEntry)
      → descend_pick x a args (c ∷ cs) ≡ child_idx k (c ∷ cs)
  unfolding descend_pick
  picks_key k given c cs = rw given (scan_child_idx_lem k c cs)

  index_first : args.start_bound ≡ none → (es : List LeafEntry) → first_index x a args es ≡ 0
  unfolding first_index
  index_first none_given es = rw (none_given, onward) refl

  pub index_key :
      (k : Key)
      → args.start_bound ≡ some k
      → (es : List LeafEntry) → first_index x a args es ≡ entry_idx k es
  unfolding first_index
  index_key k given es = rw (given, onward) refl

  -- The phases of the construction, one after the other.
  pub phases :
      (rounds fuel left : ℕ) (h h' : Hash) (es : List LeafEntry) (i : ℕ) (parents : List Step)
      (c c2 c3 : Cursor S)
      → descend x a
          (pure tt)
          (descend_pick x a args)
          fuel
          h
          usize_max
          (record c { path = []; current_leaf_entry_idx = 0 })
        ≡ (ok tt, record c { path = (h', leaf 0 es, i) ∷ parents; current_leaf_entry_idx = 0 })
      → skip x a args rounds fuel args.offset (record c {
        path = (h', leaf 0 es, i) ∷ parents;
        current_leaf_entry_idx = first_index x a args es;
      })
        ≡ (ok left, c2)
      → place_beyond x a args left c2.path c2 ≡ (ok tt, c2)
      → adjust_start x a args c2.path c2 ≡ (ok tt, c3)
      → new_for_scan x a args rounds fuel (some h) c ≡ (ok tt, c3)
  unfolding new_for_scan place_at
  phases rounds fuel left h h' es i parents c c2 c3 down skipped beyond adjusted =
      simp (onward, down, skipped, beyond, adjusted)

  pass_nothing :
      (c : Cursor S) (path : List Step)
      → ((e : LeafEntry) → passes_start args e ≡ false)
      → adjust_start x a args path c ≡ (ok tt, c)
  unfolding adjust_start pass_start
  pass_nothing c [] never = refl
  pass_nothing c ((h, internal level cs, i) ∷ path) never = refl
  pass_nothing c ((h, leaf level es, i) ∷ path) never =
      elim (Option-cases (get_elem? es c.current_leaf_entry_idx)) [
        | inl e ↦ rw e
        | inr (entry, e) ↦ rw e (ground (arith, never entry))
      ]

  never_inclusive : args.start_inclusive ≡ true → (e : LeafEntry) → passes_start args e ≡ false
  unfolding passes_start
  never_inclusive inclusive e = ground arith

  never_unbounded : args.start_bound ≡ none → (e : LeafEntry) → passes_start args e ≡ false
  unfolding passes_start
  never_unbounded unbounded e = rw unbounded refl

  -- The entries of the range from its start on are ahead, less the offset.
  skipped_start :
      (rounds fuel d : ℕ) (h : Hash) (es : List LeafEntry) (m : SortedMap) (c : Cursor S)
      (l : Landed x
        (view c.store)
        (record c { path = []; current_leaf_entry_idx = 0 })
        (descend x a
          (pure tt)
          (descend_pick x a args)
          fuel
          h
          usize_max
          (record c { path = []; current_leaf_entry_idx = 0 }))
        (d + 0)
        es)
      (ahead : List LeafEntry)
      → suc (length m) < rounds
      → d < fuel
      → Ready c.store
      → drop (first_index x a args l.entries) l.entries ++ l.rest ≡ ahead
      → Pairs (view c.store) ahead m
      → ((e : LeafEntry) → passes_start args e ≡ false)
      → Opened good c (new_for_scan x a args rounds fuel (some h) c) (suc d) (drop args.offset m)
  skipped_start rounds fuel d h es m c l ahead enough deep r starts pairs never =
      let c1 : Cursor S = record c {
        path = (l.hash, leaf 0 l.entries, l.index) ∷ l.parents;
        current_leaf_entry_idx = first_index x a args l.entries;
      } in
      let k =
        skip_lem good fuel (suc d) deep args onward rounds args.offset c1 ahead
          (omega (arith, length-Pairs (view c.store) ahead m pairs)) r
          (within l.hash l.entries l.rest l.index l.parents refl l.after (omega (arith, l.depth))
            starts) in
      record {
        after = k.after;
        entries = drop args.offset ahead;
        returns =
            phases rounds fuel k.left h l.hash l.entries l.index l.parents c k.after k.after
              l.returns k.returns k.settled (pass_nothing k.after k.after.path never);
        store = k.store;
        remaining = k.remaining;
        pairs = Pairs-drop (view c.store) args.offset ahead m pairs;
      }

  pub unbounded_start :
      (rounds fuel d : ℕ) (h : Hash) (m : SortedMap) (c : Cursor S)
      → args.start_bound ≡ none
      → suc (length m) < rounds
      → d < fuel
      → Ready c.store
      → RootHolds x (view c.store) d h m
      → Opened good c (new_for_scan x a args rounds fuel (some h) c) (suc d) (drop args.offset m)
  unbounded_start rounds fuel d h m c unbounded enough deep r at =
      let l =
        descend_first good (pure tt) (descend_pick x a args) fuel d h usize_max at.entries []
          at.last (record c { path = []; current_leaf_entry_idx = 0 }) (picks_first unbounded) deep
          r at.holds at.nonempty refl in
      skipped_start rounds fuel d h (at.entries ++ []) m c l at.entries enough deep r
        (rw (index_first unbounded l.entries) (sym l.splits ∙ append-nil at.entries)) at.pairs
        (never_unbounded unbounded)

  pub inclusive_start :
      (rounds fuel d : ℕ) (k : Key) (h : Hash) (m : SortedMap) (c : Cursor S)
      → args.start_bound ≡ some k
      → args.start_inclusive ≡ true
      → suc (length (map_from k m)) < rounds
      → d < fuel
      → Ready c.store
      → RootHolds x (view c.store) d h m
      → Opened good c
          (new_for_scan x a args rounds fuel (some h) c)
          (suc d)
          (drop args.offset (map_from k m))
  inclusive_start rounds fuel d k h m c bound inclusive enough deep r at =
      let s =
        descend_seek good (descend_pick x a args) k (picks_key k bound) (pure tt) fuel d h usize_max
          at.entries [] at.last (record c { path = []; current_leaf_entry_idx = 0 }) deep r at.holds
          at.sorted at.nonempty refl (inr refl) in
      skipped_start rounds fuel d h s.within (map_from k m) c s.landed (entries_from k at.entries)
        enough deep r
        (rw (index_key k bound s.landed.entries, drop-entry_idx k s.landed.entries)
          (sym s.starts ∙ ap (entries_from k) (append-nil at.entries)))
        (Pairs-entries_from (view c.store) k at.entries m at.pairs) (never_inclusive inclusive)
