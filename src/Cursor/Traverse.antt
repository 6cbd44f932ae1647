-- ===== src/Cursor/Traverse.antt =====
-- A traversal from the start, or from a key, reads the map of the tree in order.
use prolly_gunna.Prelude.{
  ℕ, zero, suc, ◌≤◌, ◌<◌, none, some, lt, eq, gt, List, [], ◌∷◌, ◌++◌, ◌≡◌, refl, sym, ap, ◌∙◌, inr,
  arith, Option, length, subst, append-nil,
}
use prolly_gunna.Prelude.Bytes.{cmp}
use prolly_gunna.Errors.{Result, ok, Exec, pure, fail, stop, and_then, ◌>>=◌, internal_error}
use prolly_gunna.Node.{Hash, Key, LeafEntry, leaf}
use prolly_gunna.Externals.{Externals}
use prolly_gunna.Store.Access.{Access, View, IsAccess}
use prolly_gunna.Tree.SortedMap.{SortedMap}
use prolly_gunna.Tree.Session.Represents.{Pairs, Represents}
use prolly_gunna.Tree.Core.{child_idx}
use prolly_gunna.Tree.Session.{Session, root}
use prolly_gunna.Cursor.{
  Cursor, next, new_at_start, new_at_key, seek_in_leaf, entry_idx, usize_max, new_cursor,
  cursor_start, seek,
}
use prolly_gunna.Cursor.Ahead.{descend_first}
use prolly_gunna.Cursor.Next.{Remaining, done, within, next_yields, next_ends}
use prolly_gunna.Cursor.Seek.{entries_from, drop-entry_idx, descend_seek}

-- The part of the map at or above the key.
unfoldable pub map_from : Key → SortedMap → SortedMap
map_from k [] = []
map_from k ((j, v) ∷ m) = elim (cmp j k) [ lt ↦ map_from k m | eq ↦ (j, v) ∷ m | gt ↦ (j, v) ∷ m ]

pub Pairs-entries_from :
    (v : View) (k : Key) (es : List LeafEntry) (m : SortedMap)
    → Pairs v es m
    → Pairs v (entries_from k es) (map_from k m)
unfolding entries_from map_from
Pairs-entries_from v k [] m p = rw p refl
Pairs-entries_from v k (e ∷ es) [] p = absurd p
Pairs-entries_from v k (e ∷ es) ((j, w) ∷ m) p =
    ground (arith, p.0, Pairs-entries_from v k es m p.2)

module _ {S : Type 0} (x : Externals) (a : Access S) where
  -- Calls of `next` until it returns none, at most as many as the first number.
  unfoldable pub drain : ℕ → ℕ → ℕ → Exec (Cursor S) SortedMap
  drain zero rounds fuel = stop
  drain (suc calls) rounds fuel = do
    item ← next x a rounds fuel
    elim item [ none ↦ pure [] | some pair ↦ do rest ← drain calls rounds fuel; pure (pair ∷ rest) ]

module _ {S : Type 0} {x : Externals} {a : Access S} (good : IsAccess x a) where
  open good use {view, Ready}

  -- A new cursor has the entries of a map ahead.
  pub record Opened (c : Cursor S) (r : Result (Unit {0}) × Cursor S) (depth : ℕ) (m : SortedMap)
      : Type 0 where
    pub after : Cursor S
    pub entries : List LeafEntry
    pub returns : r ≡ (ok tt, after)
    pub store : after.store ≡ c.store
    pub remaining : Remaining x (view c.store) depth after entries
    pub pairs : Pairs (view c.store) entries m

  -- A cursor that is placed at the start.
  pub new_at_start_lem :
      (fuel d : ℕ) (o : Option Hash) (m : SortedMap) (c : Cursor S)
      → d < fuel
      → Ready c.store
      → Represents x (view c.store) d o m
      → Opened c (new_at_start x a fuel o c) (suc d) m
  unfolding new_at_start
  new_at_start_lem fuel d none m c enough r at = record {
    after = record { path = []; current_leaf_entry_idx = 0; store = c.store };
    entries = [];
    returns = refl;
    store = refl;
    remaining = done refl refl;
    pairs = at;
  }
  new_at_start_lem fuel d (some h) m c enough r at =
      let c' : Cursor S = record { path = []; current_leaf_entry_idx = 0; store = c.store } in
      let l =
        descend_first good _ (λ cs. 0) fuel d h usize_max at.entries [] at.last c' (λ e es. refl)
          enough r at.holds at.nonempty refl in
      record {
        after = record c' { path = (l.hash, leaf 0 l.entries, l.index) ∷ l.parents };
        entries = at.entries;
        returns = l.returns;
        store = refl;
        remaining =
            within l.hash l.entries l.rest l.index l.parents refl l.after (omega (arith, l.depth))
              (sym l.splits ∙ append-nil at.entries);
        pairs = at.pairs;
      }

  -- A cursor that is placed at a key.
  pub new_at_key_lem :
      (fuel d : ℕ) (k : Key) (o : Option Hash) (m : SortedMap) (c : Cursor S)
      → d < fuel
      → Ready c.store
      → Represents x (view c.store) d o m
      → Opened c (new_at_key x a fuel o k c) (suc d) (map_from k m)
  unfolding new_at_key seek_in_leaf
  new_at_key_lem fuel d k none m c enough r at = record {
    after = record { path = []; current_leaf_entry_idx = 0; store = c.store };
    entries = [];
    returns = refl;
    store = refl;
    remaining = done refl refl;
    pairs = rw at (unfold map_from in refl);
  }
  new_at_key_lem fuel d k (some h) m c enough r at =
      let c' : Cursor S = record { path = []; current_leaf_entry_idx = 0; store = c.store } in
      let s =
        descend_seek good (child_idx k) k (λ c cs. refl)
          (fail (internal_error "Empty internal node found during cursor seek")) fuel d h usize_max
          at.entries [] at.last c' enough r at.holds at.sorted at.nonempty refl (inr refl) in
      let l = s.landed in
      record {
        after = record {
          path = (l.hash, leaf 0 l.entries, l.index) ∷ l.parents;
          current_leaf_entry_idx = entry_idx k l.entries;
          store = c.store;
        };
        entries = entries_from k at.entries;
        returns = rw l.returns refl;
        store = refl;
        remaining =
            within l.hash l.entries l.rest l.index l.parents refl l.after (omega (arith, l.depth)) (
              ap (λ (es : List LeafEntry). es ++ l.rest) (drop-entry_idx k l.entries)
              ∙ sym s.starts
              ∙ ap (entries_from k) (append-nil at.entries));
        pairs = Pairs-entries_from (view c.store) k at.entries m at.pairs;
      }

  -- A cursor with the entries of a map ahead yields the map, and leaves the store as it is.
  pub drain_lem :
      (calls rounds fuel depth : ℕ) (c : Cursor S) (es : List LeafEntry) (m : SortedMap)
      → length m < calls
      → depth ≤ fuel
      → Ready c.store
      → Pairs (view c.store) es m
      → Remaining x (view c.store) depth c es
      → (c' : Cursor S) × (drain x a calls (suc (suc rounds)) fuel c ≡ (ok m, c'))
        × (c'.store ≡ c.store)
  unfolding drain
  drain_lem zero rounds fuel depth c es m few le r p ahead = absurd (omega arith)
  drain_lem (suc calls) rounds fuel depth c [] m few le r p ahead = (
    record c { path = [] },
    rw (next_ends good (suc rounds) fuel depth c le r ahead, p) refl,
    refl,
  )
  drain_lem (suc calls) rounds fuel depth c (e ∷ es) [] few le r p ahead = absurd p
  drain_lem (suc calls) rounds fuel depth c (e ∷ es) ((k, v) ∷ m) few le r p ahead =
      let y = next_yields good rounds fuel depth c e v es le r p.1 ahead in
      let (c', returns, same) =
        drain_lem calls rounds fuel depth y.after es m (omega arith) le
          (subst Ready (sym y.store) r) (subst (λ s. Pairs (view s) es m) (sym y.store) p.2)
          (subst (λ s. Remaining x (view s) depth y.after es) (sym y.store) y.remaining) in
      (c', rw (y.returns, returns, p.0) refl, same ∙ y.store)

  drain_all :
      (calls rounds fuel depth : ℕ) (c : Cursor S) (r : Result (Unit {0}) × Cursor S)
      (m : SortedMap)
      → length m < calls
      → depth ≤ fuel
      → Ready c.store
      → Opened c r depth m
      → (c' : Cursor S) × (and_then r (λ _. drain x a calls (suc (suc rounds)) fuel) ≡ (ok m, c'))
        × (c'.store ≡ c.store)
  drain_all calls rounds fuel depth c r m few le ready o =
      let (c', returns, same) =
        drain_lem calls rounds fuel depth o.after o.entries m few le
          (subst Ready (sym o.store) ready)
          (subst (λ s. Pairs (view s) o.entries m) (sym o.store) o.pairs)
          (subst (λ s. Remaining x (view s) depth o.after o.entries) (sym o.store) o.remaining) in
      (c', rw o.returns returns, same ∙ o.store)

  -- In a ready store, on a tree of depth `d` that stands for a map, with fuel beyond `d`, at least
  -- two rounds for each call of `next`, and more calls than the map has keys: the calls after
  -- `cursor_start` return the keys and values of the map in key order, each once, and then none;
  -- the store is left as it was.
  pub drain-cursor_start :
      (calls rounds fuel d : ℕ) (m : SortedMap) (w : Session S)
      → length m < calls
      → d < fuel
      → Ready w.store
      → Represents x (view w.store) d (root w) m
      → (c : Cursor S) × (and_then
            (cursor_start x a fuel w)
            (λ _. drain x a calls (suc (suc rounds)) fuel)
          ≡ (ok m, c))
        × (c.store ≡ w.store)
  unfolding cursor_start
  drain-cursor_start calls rounds fuel d m w few enough r at =
      drain_all calls rounds fuel (suc d) (new_cursor w.store) _ m few enough r
        (new_at_start_lem fuel d (root w) m (new_cursor w.store) enough r at)

  -- In a ready store, on a tree of depth `d` that stands for a map, with fuel beyond `d`, at least
  -- two rounds for each call of `next`, and enough calls: the calls after `seek` return the keys at
  -- or above the given one with their values, in key order, each once, and then none; the store is
  -- left as it was.
  pub drain-seek :
      (calls rounds fuel d : ℕ) (k : Key) (m : SortedMap) (w : Session S)
      → length (map_from k m) < calls
      → d < fuel
      → Ready w.store
      → Represents x (view w.store) d (root w) m
      → (c : Cursor S) × (and_then
            (seek x a fuel k w)
            (λ _. drain x a calls (suc (suc rounds)) fuel)
          ≡ (ok (map_from k m), c))
        × (c.store ≡ w.store)
  unfolding seek
  drain-seek calls rounds fuel d k m w few enough r at =
      drain_all calls rounds fuel (suc d) (new_cursor w.store) _ (map_from k m) few enough r
        (new_at_key_lem fuel d k (root w) m (new_cursor w.store) enough r at)
