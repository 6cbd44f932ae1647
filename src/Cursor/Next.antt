-- ===== src/Cursor/Next.antt =====
-- A cursor yields the entries that are ahead of it, in order.
use prolly_gunna.Prelude.{
  ℕ, suc, ◌+◌, ◌≤◌, ◌<◌, Bool, none, some, List, [], ◌∷◌, ◌++◌, ◌≡◌, refl, sym, ap, ◌∙◌, arith,
  true, false, Option, Option-cases, inl, inr, length, get_elem?, drop,
}
use prolly_gunna.Errors.{Result, ok, Exec}
use prolly_gunna.Node.{Hash, Key, Value, LeafEntry, leaf, last_key}
use prolly_gunna.Externals.{Externals}
use prolly_gunna.Store.Access.{Access, View, IsAccess}
use prolly_gunna.Io.Values.{ValueAt, load_value_repr_lem}
use prolly_gunna.Cursor.{
  Step, Cursor, Messages, next, next_at, next_in_leaf, advance_next_from, advance_to_next_leaf,
  advance_cursor_path_to_next_leaf, async_messages,
}
use prolly_gunna.Cursor.Ahead.{
  After, Advanced, exhausted, moved, advance_next_lem, drop_next, drop_end, add-one,
}

-- The path is no longer than the bound, and the entries from the index on, with those of the later
-- leaves, are the given ones.
pub data Remaining {S : Type 0} (x : Externals) (v : View) (depth : ℕ) (c : Cursor S)
    (es : List LeafEntry) : Type 0 where
  done : c.path ≡ [] → es ≡ [] → Remaining x v depth c es
  within :
      (h : Hash) (entries rest : List LeafEntry) (i : ℕ) (parents : List Step)
      → c.path ≡ (h, leaf 0 entries, i) ∷ parents
      → After x v 0 i parents rest
      → length parents < depth
      → drop c.current_leaf_entry_idx entries ++ rest ≡ es
      → Remaining x v depth c es

module _ {S : Type 0} (x : Externals) (v : View) (depth : ℕ) where
  -- The cursor is at the first of the entries.
  pub record AtEntry (c : Cursor S) (es : List LeafEntry) : Type 0 where
    pub hash : Hash
    pub entries : List LeafEntry
    pub index : ℕ
    pub parents : List Step
    pub entry : LeafEntry
    pub others : List LeafEntry
    pub path : c.path ≡ (hash, leaf 0 entries, index) ∷ parents
    pub here : get_elem? entries c.current_leaf_entry_idx ≡ some entry
    pub splits : es ≡ entry ∷ others
    pub rest : List LeafEntry
    pub after : After x v 0 index parents rest
    pub short : length parents < depth
    pub ahead : drop c.current_leaf_entry_idx entries ++ rest ≡ es
    pub moved :
        Remaining x v depth
          (record c { current_leaf_entry_idx = c.current_leaf_entry_idx + 1 })
          others

  pub data Turned (c : Cursor S) (r : Result Bool × Cursor S) (es : List LeafEntry) : Type 0 where
    finished : es ≡ [] → r ≡ (ok false, record c { path = [] }) → Turned c r es
    turned :
        (path : List Step)
        → AtEntry (record c { path = path; current_leaf_entry_idx = 0 }) es
        → r ≡ (ok true, record c { path = path })
        → Turned c r es

  -- Where the cursor stands: at no leaf, at an entry, or at the end of a leaf.
  pub data Facing (advance : List Step → Exec (Cursor S) Bool) (c : Cursor S) (es : List LeafEntry)
      : Type 0 where
    gone : c.path ≡ [] → es ≡ [] → Facing advance c es
    at_entry : AtEntry c es → Facing advance c es
    at_end :
        (hash : Hash) (entries : List LeafEntry) (index : ℕ) (parents : List Step)
        → c.path ≡ (hash, leaf 0 entries, index) ∷ parents
        → get_elem? entries c.current_leaf_entry_idx ≡ none
        → Turned c (advance ((hash, leaf 0 entries, index) ∷ parents) c) es
        → Facing advance c es

  pub entry_here :
      (c : Cursor S) (h : Hash) (entries rest : List LeafEntry) (i : ℕ) (parents : List Step)
      (e : LeafEntry)
      → c.path ≡ (h, leaf 0 entries, i) ∷ parents
      → After x v 0 i parents rest
      → length parents < depth
      → get_elem? entries c.current_leaf_entry_idx ≡ some e
      → AtEntry c (drop c.current_leaf_entry_idx entries ++ rest)
  entry_here c h entries rest i parents e path after short here = record {
    hash = h;
    entries = entries;
    index = i;
    parents = parents;
    entry = e;
    others = drop (suc c.current_leaf_entry_idx) entries ++ rest;
    path = path;
    here = here;
    splits = rw (drop_next c.current_leaf_entry_idx entries e here);
    rest = rest;
    after = after;
    short = short;
    ahead = refl;
    moved =
        within h entries rest i parents path after short (rw (add-one c.current_leaf_entry_idx));
  }

first_entry :
    (es : List LeafEntry) (b : Key)
    → last_key es ≡ some b
    → (e : LeafEntry) × (get_elem? es 0 ≡ some e)
first_entry [] b e = cc
first_entry (e' ∷ es) b e = (e', refl)

pub ∷_parts :
    {e e' : LeafEntry} {es es' : List LeafEntry} → e ∷ es ≡ e' ∷ es' → (e ≡ e') × (es ≡ es')
∷_parts h = (cc h, cc h)

module _ {S : Type 0} {x : Externals} {a : Access S} (good : IsAccess x a) where
  open good use {view, Ready}

  pub turn :
      (depth : ℕ) (c : Cursor S) (r : Result Bool × Cursor S) (n : ℕ) (es : List LeafEntry)
      → n < depth
      → Advanced x (view c.store) c r n es
      → Turned x (view c.store) depth c r es
  turn depth c r n es short (exhausted nil e) = finished nil e
  turn depth c r n es short (moved c' l e) =
      let (entry, here) = first_entry l.entries l.last l.nonempty in
      let path = (l.hash, leaf 0 l.entries, l.index) ∷ l.parents in
      turned path
        (rw l.splits (
          entry_here x (view c.store) depth (record c { path = path; current_leaf_entry_idx = 0 })
            l.hash l.entries l.rest l.index l.parents entry refl l.after (omega (arith, l.depth))
            here))
        (e
          ∙ ap (λ (s : Cursor S). (ok true, s))
              (ap (λ (p : Result (Unit {0}) × Cursor S). p.1) l.returns))

  -- Moving on from the end of a leaf.
  pub turn_leaf :
      (messages : Messages) (fuel depth : ℕ) (c : Cursor S) (h : Hash)
      (entries rest : List LeafEntry) (i : ℕ) (parents : List Step)
      → depth ≤ fuel
      → Ready c.store
      → length parents < depth
      → After x (view c.store) 0 i parents rest
      → Turned x
          (view c.store)
          depth
          c
          (advance_next_from x a messages fuel ((h, leaf 0 entries, i) ∷ parents) c)
          rest
  turn_leaf messages fuel depth c h entries rest i parents le r short after =
      turn depth c _ (0 + length parents) rest (omega arith) (
        advance_next_lem good messages fuel 0 h (leaf 0 entries) i parents rest c (omega arith) r
          after)

  pub facing :
      (messages : Messages) (fuel depth : ℕ) (c : Cursor S) (es : List LeafEntry)
      → depth ≤ fuel
      → Ready c.store
      → Remaining x (view c.store) depth c es
      → Facing x (view c.store) depth (advance_next_from x a messages fuel) c es
  facing messages fuel depth c es le r (done path nil) = gone path nil
  facing messages fuel depth c es le r (within h entries rest i parents path after short ahead) =
      elim (Option-cases (get_elem? entries c.current_leaf_entry_idx)) [
        | inl e ↦ at_end h entries i parents path e (
            rw (sym ahead, drop_end c.current_leaf_entry_idx entries e)
              (turn_leaf messages fuel depth c h entries rest i parents le r short after))
        | inr (e, here) ↦ at_entry (
            rw (sym ahead) (
              entry_here x (view c.store) depth c h entries rest i parents e path after short here))
      ]

  -- A call of `next` that returns an entry.
  pub record Yielded (depth : ℕ) (c : Cursor S) (r : Result (Option (Key × Value)) × Cursor S)
      (item : Key × Value) (es : List LeafEntry) : Type 0 where
    pub after : Cursor S
    pub returns : r ≡ (ok (some item), after)
    pub store : after.store ≡ c.store
    pub remaining : Remaining x (view c.store) depth after es

  read_here :
      (rounds fuel depth : ℕ) (c : Cursor S) (e : LeafEntry) (value : Value) (es : List LeafEntry)
      (p : AtEntry x (view c.store) depth c (e ∷ es))
      → Ready c.store
      → ValueAt (view c.store) e.value value
      → Yielded depth c (next x a (suc rounds) fuel c) (e.key, value) es
  unfolding next next_at next_in_leaf
  read_here rounds fuel depth c e value es p r at =
      let (same, others) = ∷_parts p.splits in
      record {
        after = record c { current_leaf_entry_idx = c.current_leaf_entry_idx + 1 };
        returns =
            ap (λ l. next_at x a fuel (next x a rounds fuel) l c) p.path
            ∙ rw (p.here, sym same, load_value_repr_lem good e.value value c.store r at) refl;
        store = refl;
        remaining = rw others p.moved;
      }

  module _ (c : Cursor S) (h : Hash) (entries : List LeafEntry) (i : ℕ) (parents : List Step)
      (path : c.path ≡ (h, leaf 0 entries, i) ∷ parents)
      (at_end : get_elem? entries c.current_leaf_entry_idx ≡ none) where
    pass_end :
        (rounds fuel : ℕ) (later : List Step)
        → advance_next_from x a async_messages fuel ((h, leaf 0 entries, i) ∷ parents) c
          ≡ (ok true, record c { path = later })
        → next x a (suc rounds) fuel c
          ≡ next x a rounds fuel (record c { path = later; current_leaf_entry_idx = 0 })
    unfolding next next_at next_in_leaf advance_to_next_leaf advance_cursor_path_to_next_leaf
    pass_end rounds fuel later e =
        ap (λ l. next_at x a fuel (next x a rounds fuel) l c) path ∙ rw at_end (simp (path, e))

    stop_end :
        (rounds fuel : ℕ)
        → advance_next_from x a async_messages fuel ((h, leaf 0 entries, i) ∷ parents) c
          ≡ (ok false, record c { path = [] })
        → next x a (suc rounds) fuel c ≡ (ok none, record c { path = [] })
    unfolding next next_at next_in_leaf advance_to_next_leaf advance_cursor_path_to_next_leaf
    stop_end rounds fuel e =
        ap (λ l. next_at x a fuel (next x a rounds fuel) l c) path ∙ rw at_end (simp (path, e))

  -- A call of `next` with an entry ahead returns its key and its value, and leaves the cursor
  -- before the entries after it.
  pub next_yields :
      (rounds fuel depth : ℕ) (c : Cursor S) (e : LeafEntry) (value : Value) (es : List LeafEntry)
      → depth ≤ fuel
      → Ready c.store
      → ValueAt (view c.store) e.value value
      → Remaining x (view c.store) depth c (e ∷ es)
      → Yielded depth c (next x a (suc (suc rounds)) fuel c) (e.key, value) es
  next_yields rounds fuel depth c e value es le r at ahead =
      elim (facing async_messages fuel depth c (e ∷ es) le r ahead) [
        | gone path nil ↦ absurd (let no : ⊥ = cc in no)
        | at_entry p ↦ read_here (suc rounds) fuel depth c e value es p r at
        | at_end h entries i parents path end (finished nil _) ↦ absurd (let no : ⊥ = cc in no)
        | at_end h entries i parents path end (turned later p step) ↦
            rw (pass_end c h entries i parents path end (suc rounds) fuel later step) (
              let y =
                read_here rounds fuel depth (record c { path = later; current_leaf_entry_idx = 0 })
                  e value es p r at in
              record {
                after = y.after;
                returns = y.returns;
                store = y.store;
                remaining = y.remaining;
              })
      ]

  -- With no entry ahead `next` returns none, again and again.
  pub next_ends :
      (rounds fuel depth : ℕ) (c : Cursor S)
      → depth ≤ fuel
      → Ready c.store
      → Remaining x (view c.store) depth c []
      → next x a (suc rounds) fuel c ≡ (ok none, record c { path = [] })
  unfolding next next_at
  next_ends rounds fuel depth c le r ahead =
      elim (facing async_messages fuel depth c [] le r ahead) [
        | gone path nil ↦
            ap (λ l. next_at x a fuel (next x a rounds fuel) l c) path
            ∙ ap (λ (l : List Step). (ok none, record c { path = l })) path
        | at_entry p ↦ absurd (let q = p.splits in let no : ⊥ = cc in no)
        | at_end h entries i parents path end (finished nil step) ↦
            stop_end c h entries i parents path end rounds fuel step
        | at_end h entries i parents path end (turned later p step) ↦
            absurd (let q = p.splits in let no : ⊥ = cc in no)
      ]
