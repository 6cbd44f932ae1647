-- ===== src/Scan/Pages.antt =====
-- The page that a forward scan returns.
use prolly_gunna.Prelude.{
  ℕ, zero, suc, ◌+◌, ◌≤◌, ◌<◌, none, some, List, [], ◌∷◌, ◌++◌, ◌≡◌, refl, sym, ap, ◌∙◌, arith,
  true, false, ◌==◌, ltb, Option, subst, length, get_elem?, take, append_assoc, append-nil,
}
use prolly_gunna.Errors.{ok, Exec}
use prolly_gunna.Node.{Key, Value, LeafEntry}
use prolly_gunna.Externals.{Externals}
use prolly_gunna.Store.Access.{Access, IsAccess}
use prolly_gunna.Tree.SortedMap.{SortedMap}
use prolly_gunna.Tree.Holds.Children.{length-append}
use prolly_gunna.Tree.Session.Represents.{Pairs}
use prolly_gunna.Cursor.{Cursor, Messages, advance_next_from}
use prolly_gunna.Cursor.Next.{Remaining}
use prolly_gunna.Scan.{ScanArgs, ends_at}
use prolly_gunna.Scan.Paging.{Item, Moves, Fetched, first_of, next_with, fetch}
use prolly_gunna.Scan.Calls.{until, ended, item, call_lem}

-- The key of the first item, unless there is one already.
abbrev pub first_key : Option Key → SortedMap → Option Key
first_key first [] = first
first_key first ((k, v) ∷ m) = first_of first k

first_key_some :
    (first : Option Key) (k : Key) (m : SortedMap)
    → first_key (first_of first k) m ≡ first_of first k
first_key_some none k [] = refl
first_key_some none k ((j, v) ∷ m) = refl
first_key_some (some f) k [] = refl
first_key_some (some f) k ((j, v) ∷ m) = refl

abbrev pub fetched_page : Option Key → SortedMap → SortedMap → ℕ → Fetched
fetched_page first acc w k = record {
  first_item_key = first_key first w;
  collected_items = acc ++ take k w;
  next_item = get_elem? w k;
}

page_step :
    (first : Option Key) (key : Key) (v : Value) (acc w : SortedMap) (k : ℕ)
    → fetched_page (first_of first key) (acc ++ (key, v) ∷ []) w k
      ≡ fetched_page first acc ((key, v) ∷ w) (suc k)
page_step first key v acc w k =
    rw (append_assoc acc ((key, v) ∷ []) (take k w), first_key_some first key w)

-- The rounds of the loop, each by what the call of the cursor returned.
module _ {S : Type 0} (next : Exec (Cursor S) (Option Item)) where
  fetch_ended :
      (limit : Option ℕ) (n : ℕ) (first : Option Key) (acc : SortedMap) (c c' : Cursor S)
      → next c ≡ (ok none, c')
      → fetch next limit (suc n) first acc c
        ≡ (ok (record { first_item_key = first; collected_items = acc; next_item = none }), c')
  unfolding fetch
  fetch_ended limit n first acc c c' e = rw e

  fetch_last :
      (l n : ℕ) (first : Option Key) (acc : SortedMap) (c c' : Cursor S) (key : Key) (v : Value)
      → next c ≡ (ok (some (key, v)), c')
      → length acc ≡ l
      → fetch next (some l) (suc n) first acc c ≡ (
        ok (record {
          first_item_key = first_of first key;
          collected_items = acc;
          next_item = some (key, v);
        }),
        c',
      )
  unfolding fetch
  fetch_last l n first acc c c' key v e size =
      let less : ltb (length acc) l ≡ false = ground arith in
      let same : (length acc == l) ≡ true = ground arith in rw (e, less, same)

  fetch_more :
      (l n : ℕ) (first : Option Key) (acc : SortedMap) (c c' : Cursor S) (key : Key) (v : Value)
      → next c ≡ (ok (some (key, v)), c')
      → length acc < l
      → fetch next (some l) (suc n) first acc c
        ≡ fetch next (some l) n (first_of first key) (acc ++ (key, v) ∷ []) c'
  unfolding fetch
  fetch_more l n first acc c c' key v e size =
      let less : ltb (length acc) l ≡ true = ground arith in rw (e, less)

  fetch_all :
      (n : ℕ) (first : Option Key) (acc : SortedMap) (c c' : Cursor S) (key : Key) (v : Value)
      → next c ≡ (ok (some (key, v)), c')
      → fetch next none (suc n) first acc c
        ≡ fetch next none n (first_of first key) (acc ++ (key, v) ∷ []) c'
  unfolding fetch
  fetch_all n first acc c c' key v e = rw e

module _ {S : Type 0} {x : Externals} {a : Access S} (good : IsAccess x a) (messages : Messages)
    (fuel depth : ℕ) (deep : depth ≤ fuel) (args : ScanArgs) (onward : args.reverse ≡ false)
    (moves : Moves {S = S} x a)
    (forward : (c : Cursor S) → moves.forward c ≡ advance_next_from x a messages fuel c.path c)
    (rounds : ℕ) where
  open good use {view, Ready}

  -- The items of a page and the one after it, of what is left of the range.
  pub limited :
      (k l : ℕ) (first : Option Key) (acc : SortedMap) (c : Cursor S) (es : List LeafEntry)
      (m : SortedMap)
      → length acc + k ≡ l
      → Ready c.store
      → Pairs (view c.store) es m
      → Remaining x (view c.store) depth c es
      → (c' : Cursor S) × (fetch
            (next_with x a moves args (suc (suc rounds)))
            (some l)
            (suc k)
            first
            acc
            c
          ≡ (ok (fetched_page first acc (until (ends_at args) m) k), c'))
        × (c'.store ≡ c.store)
  limited zero l first acc c es m size r pairs ahead =
      elim (call_lem good messages fuel depth deep args onward moves forward rounds c es m r pairs
        ahead) [
          | ended c' nil returns same ↦ (
            c',
            rw nil (fetch_ended _ (some l) 0 first acc c c' returns ∙ rw (append-nil acc)),
            same,
          )
          | item c' (key, v) es' m' more returns same ahead' pairs' ↦ (
            c',
            rw more
                (fetch_last _ l 0 first acc c c' key v returns (omega arith) ∙ rw (append-nil acc)),
            same,
          )
        ]
  limited (suc k) l first acc c es m size r pairs ahead =
      elim (call_lem good messages fuel depth deep args onward moves forward rounds c es m r pairs
        ahead) [
          | ended c' nil returns same ↦ (
            c',
            rw nil (fetch_ended _ (some l) (suc k) first acc c c' returns ∙ rw (append-nil acc)),
            same,
          )
          | item c' (key, v) es' m' more returns same ahead' pairs' ↦
              let (c'', rest, same') =
                limited k l (first_of first key) (acc ++ (key, v) ∷ []) c' es' m'
                  (omega (arith, length-append {0} acc ((key, v) ∷ []))) (subst Ready (sym same) r)
                  (subst (λ s. Pairs (view s) es' m') (sym same) pairs')
                  (subst (λ s. Remaining x (view s) depth c' es') (sym same) ahead') in
              (
                c'',
                fetch_more _ l (suc k) first acc c c' key v returns (omega arith)
                    ∙ rest
                    ∙ ap (λ (f : Fetched). (ok f, c''))
                        (page_step first key v acc (until (ends_at args) m') k)
                    ∙ ap (λ (w : SortedMap). (ok (fetched_page first acc w (suc k)), c''))
                        (sym more),
                same' ∙ same,
              )
        ]

  -- Without a limit the loop goes on to the end of the range.
  pub unlimited :
      (n : ℕ) (first : Option Key) (acc : SortedMap) (c : Cursor S) (es : List LeafEntry)
      (m : SortedMap)
      → length (until (ends_at args) m) < n
      → Ready c.store
      → Pairs (view c.store) es m
      → Remaining x (view c.store) depth c es
      → (c' : Cursor S) × (fetch (next_with x a moves args (suc (suc rounds))) none n first acc c
          ≡ (
            ok (record {
              first_item_key = first_key first (until (ends_at args) m);
              collected_items = acc ++ until (ends_at args) m;
              next_item = none;
            }),
            c',
          ))
        × (c'.store ≡ c.store)
  unlimited zero first acc c es m few r pairs ahead = absurd (omega arith)
  unlimited (suc n) first acc c es m few r pairs ahead =
      elim (call_lem good messages fuel depth deep args onward moves forward rounds c es m r pairs
        ahead) [
          | ended c' nil returns same ↦
              (c', rw nil (fetch_ended _ none n first acc c c' returns ∙ rw (append-nil acc)), same)
          | item c' (key, v) es' m' more returns same ahead' pairs' ↦
              let (c'', rest, same') =
                unlimited n (first_of first key) (acc ++ (key, v) ∷ []) c' es' m'
                  (omega (arith, ap length more)) (subst Ready (sym same) r)
                  (subst (λ s. Pairs (view s) es' m') (sym same) pairs')
                  (subst (λ s. Remaining x (view s) depth c' es') (sym same) ahead') in
              (
                c'',
                fetch_all _ n first acc c c' key v returns
                    ∙ rest
                    ∙ rw (
                      more,
                      append_assoc acc ((key, v) ∷ []) (until (ends_at args) m'),
                      first_key_some first key (until (ends_at args) m'),
                    ),
                same' ∙ same,
              )
        ]
