-- ===== src/Scan/Forward.antt =====
-- The offset of a forward scan is skipped entry by entry, over as many leaves as it takes.
use native.Mathlib.Nat.{zero-add, suc-add}
use prolly_gunna.Prelude.{
  ℕ, zero, suc, ◌+◌, ◌-◌, ◌≤◌, ◌<◌, List, [], ◌∷◌, ◌++◌, ◌≡◌, inl, inr, refl, sym, ap, ◌∙◌, arith,
  Bool-cases, true, false, ltb, leb, ◌==◌, length, subst, drop,
}
use prolly_gunna.Errors.{Result, ok, Exec}
use prolly_gunna.Node.{Hash, LeafEntry, leaf}
use prolly_gunna.Externals.{Externals}
use prolly_gunna.Store.Access.{Access, IsAccess}
use prolly_gunna.Tree.Core.Insert.Stores.{length-drop}
use prolly_gunna.Tree.Holds.Children.{length-append}
use prolly_gunna.Cursor.{
  Step, Cursor, advance_cursor_path_to_next_leaf, advance_next_from, async_messages,
}
use prolly_gunna.Cursor.Ahead.{After, drop_next}
use prolly_gunna.Cursor.Next.{Remaining, done, within, AtEntry, finished, turned, turn_leaf}
use prolly_gunna.Scan.{ScanArgs, skip_forward, skip_at, skip, place_beyond}

module _ {ℓ} {A : Type ℓ} where
  drop-add : (i n : ℕ) (xs : List A) → drop (i + n) xs ≡ drop n (drop i xs)
  drop-add zero n xs = rw zero-add
  drop-add (suc i) zero [] = rw suc-add
  drop-add (suc i) (suc n) [] = rw suc-add
  drop-add (suc i) n (x ∷ xs) = rw suc-add (drop-add i n xs)

  drop-append_le : (n : ℕ) (xs ys : List A) → n ≤ length xs → drop n (xs ++ ys) ≡ drop n xs ++ ys
  drop-append_le zero xs ys h = refl
  drop-append_le (suc n) [] ys h = absurd (omega arith)
  drop-append_le (suc n) (x ∷ xs) ys h = drop-append_le n xs ys (omega arith)

  drop-append_ge :
      (n : ℕ) (xs ys : List A) → length xs ≤ n → drop n (xs ++ ys) ≡ drop (n - length xs) ys
  drop-append_ge n [] ys h = let e : n - length {A = A} [] ≡ n = omega arith in rw e
  drop-append_ge zero (x ∷ xs) ys h = absurd (omega arith)
  drop-append_ge (suc n) (x ∷ xs) ys h =
      let e : suc n - length (x ∷ xs) ≡ n - length xs = omega arith in
      rw e (drop-append_ge n xs ys (omega arith))

  pub drop_past : (n : ℕ) (xs : List A) → length xs ≤ n → drop n xs ≡ []
  drop_past zero [] h = refl
  drop_past (suc n) [] h = refl
  drop_past zero (x ∷ xs) h = absurd (omega arith)
  drop_past (suc n) (x ∷ xs) h = drop_past n xs (omega arith)

-- Skipping in a forward scan, over the bounds that it does not read.
module _ {S : Type 0} {x : Externals} {a : Access S} (good : IsAccess x a) (fuel depth : ℕ)
    (deep : depth ≤ fuel) (args : ScanArgs) (onward : args.reverse ≡ false) where
  open good use {view, Ready}

  advance_lem :
      (c : Cursor S) (p : List Step)
      → c.path ≡ p
      → advance_cursor_path_to_next_leaf x a fuel c ≡ advance_next_from x a async_messages fuel p c
  unfolding advance_cursor_path_to_next_leaf
  advance_lem c p e = ap (λ l. advance_next_from x a async_messages fuel l c) e

  -- The offset is applied: what is left of it does not matter any more.
  pub record Skipped (s : S) (r : Result ℕ × Cursor S) (es : List LeafEntry) : Type 0 where
    pub left : ℕ
    pub after : Cursor S
    pub returns : r ≡ (ok left, after)
    pub store : after.store ≡ s
    pub settled : place_beyond x a args left after.path after ≡ (ok tt, after)
    pub remaining : Remaining x (view s) depth after es

  -- Within the leaf.
  skip_here :
      (again : ℕ → Exec (Cursor S) ℕ) (n : ℕ) (c : Cursor S) (es : List LeafEntry) (h : Hash)
      (entries rest : List LeafEntry) (i : ℕ) (parents : List Step)
      → c.path ≡ (h, leaf 0 entries, i) ∷ parents
      → After x (view c.store) 0 i parents rest
      → length parents < depth
      → drop c.current_leaf_entry_idx entries ++ rest ≡ es
      → ltb n (length entries - c.current_leaf_entry_idx) ≡ true
      → Skipped c.store
          (skip_forward x a fuel again n entries c.current_leaf_entry_idx c)
          (drop n es)
  unfolding skip_forward place_beyond
  skip_here again n c es h entries rest i parents path after short ahead few =
      let before : leb (length entries) c.current_leaf_entry_idx ≡ false = ground arith in
      record {
        left = 0;
        after = record c { current_leaf_entry_idx = c.current_leaf_entry_idx + n };
        returns = rw (before, few);
        store = refl;
        settled = refl;
        remaining = within h entries rest i parents path after short (
            ap (λ (l : List LeafEntry). l ++ rest) (drop-add c.current_leaf_entry_idx n entries)
            ∙ sym (
                drop-append_le n (drop c.current_leaf_entry_idx entries) rest
                  (ground (arith, length-drop c.current_leaf_entry_idx entries)))
            ∙ ap (drop n) ahead);
      }

  -- From the end of a leaf the loop goes on in the next one, or ends where there is none.
  skip_turn :
      (again : ℕ → Exec (Cursor S) ℕ) (n : ℕ) (c : Cursor S) (h : Hash)
      (entries rest : List LeafEntry) (i : ℕ) (parents : List Step)
      → Ready c.store
      → c.path ≡ (h, leaf 0 entries, i) ∷ parents
      → After x (view c.store) 0 i parents rest
      → length parents < depth
      → ((c' : Cursor S)
          → c'.store ≡ c.store
          → AtEntry x (view c.store) depth c' rest
          → Skipped c.store
              (again (n - (length entries - c.current_leaf_entry_idx)) c')
              (drop (n - (length entries - c.current_leaf_entry_idx)) rest))
      → ltb n (length entries - c.current_leaf_entry_idx) ≡ false
      → Skipped c.store
          (skip_forward x a fuel again n entries c.current_leaf_entry_idx c)
          (drop (n - (length entries - c.current_leaf_entry_idx)) rest)
  unfolding skip_forward place_beyond
  skip_turn again n c h entries rest i parents r path after short go many =
      elim (Bool-cases (leb (length entries) c.current_leaf_entry_idx)) [
        | inl late ↦
            let past = n - (length entries - c.current_leaf_entry_idx) in
            let same : n - (length entries - c.current_leaf_entry_idx) ≡ n = ground arith in
            elim (turn_leaf good async_messages fuel depth c h entries rest i parents deep r short
              after) [
                | finished nil step ↦ record {
                  left = 0;
                  after = record c { path = []; current_leaf_entry_idx = length entries };
                  returns = rw (late, advance_lem c _ path ∙ step);
                  store = refl;
                  settled = refl;
                  remaining = done refl (rw nil (drop_past _ [] (omega arith)));
                }
                | turned later p step ↦
                    let c' : Cursor S = record c { path = later; current_leaf_entry_idx = 0 } in
                    rw (late, advance_lem c _ path ∙ step)
                      (subst (λ j. Skipped c.store (again j c') (drop past rest)) same
                        (go c' refl p))
              ]
        | inr early ↦
            let c' = record c { current_leaf_entry_idx = length entries } in
            elim (turn_leaf good async_messages fuel depth c' h entries rest i parents deep r short
              after) [
                | finished nil step ↦ record {
                  left = 0;
                  after = record c { path = []; current_leaf_entry_idx = length entries };
                  returns = rw (early, many, advance_lem c' _ path ∙ step);
                  store = refl;
                  settled = refl;
                  remaining = done refl (rw nil (drop_past _ [] (omega arith)));
                }
                | turned later p step ↦
                    rw (early, many, advance_lem c' _ path ∙ step)
                      (go (record c { path = later; current_leaf_entry_idx = 0 }) refl p)
              ]
      ]

  leaf_step :
      (again : ℕ → Exec (Cursor S) ℕ) (n : ℕ) (c : Cursor S) (h : Hash) (entries : List LeafEntry)
      (i : ℕ) (parents : List Step)
      → skip_at x a args fuel again (suc n) ((h, leaf 0 entries, i) ∷ parents) c
        ≡ skip_forward x a fuel again (suc n) entries c.current_leaf_entry_idx c
  unfolding skip_at
  leaf_step again n c h entries i parents = rw onward refl

  pub skip_none :
      (rounds : ℕ) (c : Cursor S) (es : List LeafEntry)
      → Remaining x (view c.store) depth c es
      → Skipped c.store (skip x a args (suc rounds) fuel 0 c) es
  unfolding skip place_beyond
  skip_none rounds c es p = record {
    left = 0;
    after = c;
    returns = refl;
    store = refl;
    settled = refl;
    remaining = p;
  }

  skip_step :
      (rounds n : ℕ) (c : Cursor S) (h : Hash) (entries : List LeafEntry) (i : ℕ)
      (parents : List Step)
      → c.path ≡ (h, leaf 0 entries, i) ∷ parents
      → skip x a args (suc rounds) fuel (suc n) c
        ≡ skip_forward x a fuel
            (skip x a args rounds fuel)
            (suc n)
            entries
            c.current_leaf_entry_idx
            c
  unfolding skip skip_at
  skip_step rounds n c h entries i parents path =
      let no : (suc n == 0) ≡ false = ground arith in
      rw no (
        ap (λ l. skip_at x a args fuel (skip x a args rounds fuel) (suc n) l c) path
        ∙ leaf_step (skip x a args rounds fuel) n c h entries i parents)

  skip_leaf :
      (rounds n : ℕ) (c : Cursor S) (es : List LeafEntry) (h : Hash) (entries rest : List LeafEntry)
      (i : ℕ) (parents : List Step)
      → Ready c.store
      → c.path ≡ (h, leaf 0 entries, i) ∷ parents
      → After x (view c.store) 0 i parents rest
      → length parents < depth
      → drop c.current_leaf_entry_idx entries ++ rest ≡ es
      → ((n : ℕ) (c' : Cursor S)
          → c'.store ≡ c.store
          → AtEntry x (view c.store) depth c' rest
          → Skipped c.store (skip x a args rounds fuel n c') (drop n rest))
      → Skipped c.store (skip x a args (suc rounds) fuel (suc n) c) (drop (suc n) es)
  skip_leaf rounds n c es h entries rest i parents r path after short ahead go =
      rw (skip_step rounds n c h entries i parents path)
        (elim (Bool-cases (ltb (suc n) (length entries - c.current_leaf_entry_idx))) [
          | inl few ↦
              skip_here (skip x a args rounds fuel) (suc n) c es h entries rest i parents path after
                short ahead few
          | inr many ↦
              rw
                (
                  sym ahead,
                  drop-append_ge (suc n) (drop c.current_leaf_entry_idx entries) rest
                      (ground (arith, length-drop c.current_leaf_entry_idx entries)),
                  length-drop c.current_leaf_entry_idx entries,
                )
                (skip_turn (skip x a args rounds fuel) (suc n) c h entries rest i parents r path
                  after short (go (suc n - (length entries - c.current_leaf_entry_idx))) many)
        ])

  skip_entry :
      (rounds n : ℕ) (c : Cursor S) (es : List LeafEntry)
      → length es < rounds
      → Ready c.store
      → AtEntry x (view c.store) depth c es
      → Skipped c.store (skip x a args rounds fuel n c) (drop n es)
  skip_entry zero n c es enough r p = absurd (omega arith)
  skip_entry (suc rounds) zero c es enough r p =
      skip_none rounds c es
        (within p.hash p.entries p.rest p.index p.parents p.path p.after p.short p.ahead)
  skip_entry (suc rounds) (suc n) c es enough r p =
      let next = drop_next c.current_leaf_entry_idx p.entries p.entry p.here in
      let shorter : length p.rest < rounds = omega (
        arith,
        ap length next,
        ap length p.ahead,
        length-append {0} (drop c.current_leaf_entry_idx p.entries) p.rest,
      ) in
      skip_leaf rounds n c es p.hash p.entries p.rest p.index p.parents r p.path p.after p.short
        p.ahead
        (λ m c' same q.
          subst (λ s. Skipped s (skip x a args rounds fuel m c') (drop m p.rest)) same
            (skip_entry rounds m c' p.rest shorter (subst Ready (sym same) r)
              (subst (λ s. AtEntry x (view s) depth c' p.rest) (sym same) q)))

  -- Skipping an offset takes that many entries off those that are ahead, or all of them.
  pub skip_lem :
      (rounds n : ℕ) (c : Cursor S) (es : List LeafEntry)
      → suc (length es) < rounds
      → Ready c.store
      → Remaining x (view c.store) depth c es
      → Skipped c.store (skip x a args rounds fuel n c) (drop n es)
  unfolding skip skip_at place_beyond
  skip_lem zero n c es enough r p = absurd (omega arith)
  skip_lem (suc rounds) zero c es enough r p = skip_none rounds c es p
  skip_lem (suc rounds) (suc n) c es enough r (done path nil) = record {
    left = suc n;
    after = c;
    returns =
        let no : (suc n == 0) ≡ false = ground arith in
        rw no (ap (λ l. skip_at x a args fuel (skip x a args rounds fuel) (suc n) l c) path);
    store = refl;
    settled = ap (λ l. place_beyond x a args (suc n) l c) path;
    remaining = done path (rw nil);
  }
  skip_lem (suc rounds) (suc n) c es enough r
        (within h entries rest i parents path after short ahead) =
      let shorter : length rest < rounds =
        omega (
          arith,
          ap length ahead,
          length-append {0} (drop c.current_leaf_entry_idx entries) rest,
        ) in
      skip_leaf rounds n c es h entries rest i parents r path after short ahead (λ m c' same q.
        subst (λ s. Skipped s (skip x a args rounds fuel m c') (drop m rest)) same
          (skip_entry rounds m c' rest shorter (subst Ready (sym same) r)
            (subst (λ s. AtEntry x (view s) depth c' rest) (sym same) q)))
