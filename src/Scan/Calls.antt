-- ===== src/Scan/Calls.antt =====
-- The calls that a forward scan makes of its cursor yield the entries ahead, up to the end bound.
-- Both versions of the call are covered: they differ in how they move to the next leaf.
use prolly_gunna.Prelude.{
  ℕ, suc, ◌+◌, ◌≤◌, none, some, List, [], ◌∷◌, ◌≡◌, inl, inr, refl, sym, ap, ◌∙◌, Bool, Bool-cases,
  true, false, Option, subst, get_elem?, if◌then◌else◌,
}
use prolly_gunna.Errors.{Result, ok, Exec}
use prolly_gunna.Node.{Hash, Key, Value, LeafEntry, leaf}
use prolly_gunna.Externals.{Externals}
use prolly_gunna.Store.Access.{Access, IsAccess}
use prolly_gunna.Io.Values.{ValueAt, load_value_repr_lem}
use prolly_gunna.Tree.SortedMap.{SortedMap}
use prolly_gunna.Tree.Session.Represents.{Pairs}
use prolly_gunna.Cursor.{Step, Cursor, Messages, advance_next_from}
use prolly_gunna.Cursor.Next.{
  Remaining, AtEntry, Facing, gone, at_entry, at_end, finished, turned, facing, ∷_parts,
}
use prolly_gunna.Scan.{ScanArgs, ends_at}
use prolly_gunna.Scan.Paging.{Item, Moves, next_with, scan_at, scan_entry, enter_leaf}

-- The map up to the first key at which a scan ends.
unfoldable pub until : (Key → Bool) → SortedMap → SortedMap
until p [] = []
until p ((k, v) ∷ m) = if p k then [] else (k, v) ∷ until p m

module _ {S : Type 0} {x : Externals} {a : Access S} (good : IsAccess x a) (messages : Messages)
    (fuel depth : ℕ) (deep : depth ≤ fuel) (args : ScanArgs) (onward : args.reverse ≡ false)
    (moves : Moves {S = S} x a)
    (forward : (c : Cursor S)
      → moves.forward c ≡ advance_next_from x a messages fuel c.path c) where
  open good use {view, Ready}

  -- A call ends the scan, or yields the first item of what is left of the range.
  pub data Called (c : Cursor S) (r : Result (Option Item) × Cursor S) (m : SortedMap)
      : Type 0 where
    ended :
        (c' : Cursor S)
        → until (ends_at args) m ≡ []
        → r ≡ (ok none, c')
        → c'.store ≡ c.store
        → Called c r m
    item :
        (c' : Cursor S) (i : Item) (es : List LeafEntry) (m' : SortedMap)
        → until (ends_at args) m ≡ i ∷ until (ends_at args) m'
        → r ≡ (ok (some i), c')
        → c'.store ≡ c.store
        → Remaining x (view c.store) depth c' es
        → Pairs (view c.store) es m'
        → Called c r m

  at_leaf :
      (again : Exec (Cursor S) (Option Item)) (c : Cursor S) (h : Hash) (es : List LeafEntry)
      (i : ℕ) (parents : List Step)
      → scan_at x a moves args again ((h, leaf 0 es, i) ∷ parents) c
        ≡ scan_entry x a moves args again (get_elem? es c.current_leaf_entry_idx) c
  unfolding scan_at
  at_leaf again c h es i parents = simp onward

  step_leaf :
      (rounds : ℕ) (c : Cursor S) (h : Hash) (es : List LeafEntry) (i : ℕ) (parents : List Step)
      → c.path ≡ (h, leaf 0 es, i) ∷ parents
      → next_with x a moves args (suc rounds) c
        ≡ scan_entry x a moves args
            (next_with x a moves args rounds)
            (get_elem? es c.current_leaf_entry_idx)
            c
  unfolding next_with
  step_leaf rounds c h es i parents path =
      ap (λ l. scan_at x a moves args (next_with x a moves args rounds) l c) path
      ∙ at_leaf (next_with x a moves args rounds) c h es i parents

  reads :
      (again : Exec (Cursor S) (Option Item)) (c : Cursor S) (e : LeafEntry) (v : Value)
      → Ready c.store
      → ends_at args e.key ≡ false
      → ValueAt (view c.store) e.value v
      → scan_entry x a moves args again (some e) c
        ≡ (ok (some (e.key, v)), record c { current_leaf_entry_idx = c.current_leaf_entry_idx + 1 })
  unfolding scan_entry
  reads again c e v r on at = simp (on, onward, load_value_repr_lem good e.value v c.store r at)

  call_entry :
      (rounds : ℕ) (c : Cursor S) (e : LeafEntry) (es : List LeafEntry) (m : SortedMap)
      → Ready c.store
      → Pairs (view c.store) (e ∷ es) m
      → AtEntry x (view c.store) depth c (e ∷ es)
      → Called c (next_with x a moves args (suc rounds) c) m
  unfolding scan_entry until
  call_entry rounds c e es [] r pairs p = absurd pairs
  call_entry rounds c e es ((k, v) ∷ m) r pairs p =
      let (same, others) = ∷_parts p.splits in
      let step = step_leaf rounds c p.hash p.entries p.index p.parents p.path in
      let here : get_elem? p.entries c.current_leaf_entry_idx ≡ some e =
        p.here ∙ ap some (sym same) in
      elim (Bool-cases (ends_at args e.key)) [
        | inl ends ↦ ended c (rw (sym pairs.0, ends)) (step ∙ rw here (simp ends)) refl
        | inr on ↦
            item (record c { current_leaf_entry_idx = c.current_leaf_entry_idx + 1 }) (k, v) es m
              (rw (sym pairs.0, on))
              (step
                ∙ rw here (
                    reads (next_with x a moves args rounds) c e v r on pairs.1
                    ∙ ap
                        (λ (key : Key). (
                          ok (some (key, v)),
                          record c { current_leaf_entry_idx = c.current_leaf_entry_idx + 1 },
                        ))
                        pairs.0))
              refl (rw others p.moved) pairs.2
      ]

  module _ (rounds : ℕ) (c : Cursor S) (h : Hash) (entries : List LeafEntry) (i : ℕ)
      (parents : List Step) (path : c.path ≡ (h, leaf 0 entries, i) ∷ parents)
      (end : get_elem? entries c.current_leaf_entry_idx ≡ none) where
    stops :
        advance_next_from x a messages fuel ((h, leaf 0 entries, i) ∷ parents) c
          ≡ (ok false, record c { path = [] })
        → next_with x a moves args (suc rounds) c ≡ (ok none, record c { path = [] })
    unfolding scan_entry
    stops step =
        let step' = forward c ∙ ap (λ l. advance_next_from x a messages fuel l c) path ∙ step in
        step_leaf rounds c h entries i parents path ∙ rw end (simp (onward, step'))

    turns :
        (h' : Hash) (es : List LeafEntry) (j : ℕ) (path' : List Step)
        → advance_next_from x a messages fuel ((h, leaf 0 entries, i) ∷ parents) c
          ≡ (ok true, record c { path = (h', leaf 0 es, j) ∷ path' })
        → next_with x a moves args (suc rounds) c
          ≡ next_with x a moves args rounds
              (record c { path = (h', leaf 0 es, j) ∷ path'; current_leaf_entry_idx = 0 })
    unfolding scan_entry enter_leaf
    turns h' es j path' step =
        let step' = forward c ∙ ap (λ l. advance_next_from x a messages fuel l c) path ∙ step in
        step_leaf rounds c h entries i parents path ∙ rw end (simp (onward, step'))

  -- A call that goes on at another cursor of the same store.
  moved_call :
      (rounds : ℕ) (c c' : Cursor S) (m : SortedMap)
      → next_with x a moves args (suc rounds) c ≡ next_with x a moves args rounds c'
      → c'.store ≡ c.store
      → Called c' (next_with x a moves args rounds c') m
      → Called c (next_with x a moves args (suc rounds) c) m
  moved_call rounds c c' m e same (ended c'' none_left r s) = ended c'' none_left (e ∙ r) (s ∙ same)
  moved_call rounds c c' m e same (item c'' i es m' next r s ahead pairs) =
      item c'' i es m' next (e ∙ r) (s ∙ same)
        (subst (λ t. Remaining x (view t) depth c'' es) same ahead)
        (subst (λ t. Pairs (view t) es m') same pairs)

  no_items :
      (c : Cursor S) (m : SortedMap) → Pairs (view c.store) [] m → until (ends_at args) m ≡ []
  unfolding until
  no_items c m p = rw p refl

  -- With two rounds a call reaches an entry, or the end.
  pub call_lem :
      (rounds : ℕ) (c : Cursor S) (es : List LeafEntry) (m : SortedMap)
      → Ready c.store
      → Pairs (view c.store) es m
      → Remaining x (view c.store) depth c es
      → Called c (next_with x a moves args (suc (suc rounds)) c) m
  unfolding next_with scan_at
  call_lem rounds c es m r pairs ahead =
      go es (facing good messages fuel depth c es deep r ahead) pairs
    where
      go :
          (es : List LeafEntry)
          → Facing x (view c.store) depth (advance_next_from x a messages fuel) c es
          → Pairs (view c.store) es m
          → Called c (next_with x a moves args (suc (suc rounds)) c) m
      go [] (gone path nil) pairs =
          ended c (no_items c m pairs)
            (ap (λ l. scan_at x a moves args (next_with x a moves args (suc rounds)) l c) path) refl
      go (e ∷ es) (gone path nil) pairs = absurd (let no : ⊥ = cc in no)
      go [] (at_entry p) pairs = absurd (let q = p.splits in let no : ⊥ = cc in no)
      go (e ∷ es) (at_entry p) pairs = call_entry (suc rounds) c e es m r pairs p
      go [] (at_end h entries i parents path end (finished nil step)) pairs =
          ended (record c { path = [] }) (no_items c m pairs)
            (stops (suc rounds) c h entries i parents path end step) refl
      go (e ∷ es) (at_end h entries i parents path end (finished nil step)) pairs =
          absurd (let no : ⊥ = cc in no)
      go [] (at_end h entries i parents path end (turned later p step)) pairs =
          absurd (let q = p.splits in let no : ⊥ = cc in no)
      go (e ∷ es) (at_end h entries i parents path end (turned later p step)) pairs =
          moved_call (suc rounds) c _ m
            (turns (suc rounds) c h entries i parents path end p.hash p.entries p.index p.parents (
                subst
                  (λ l.
                    advance_next_from x a messages fuel ((h, leaf 0 entries, i) ∷ parents) c
                    ≡ (ok true, record c { path = l }))
                  p.path step)
              ∙ ap
                  (λ l.
                    next_with x a moves args (suc rounds)
                      (record c { path = l; current_leaf_entry_idx = 0 }))
                  (sym p.path))
            refl
            (call_entry rounds (record c { path = later; current_leaf_entry_idx = 0 }) e es m r
              pairs p)
