-- ===== src/Gc/Mark.antt =====
-- The mark phase of the collector over the in-memory store: it ends, and marks what can be reached.
use prolly_gunna.Prelude.{
  ℕ, zero, suc, ◌+◌, ◌≤◌, true, false, not, ◌&&◌, ◌||◌, none, some, List, [], ◌∷◌, ◌++◌, ◌≡◌, refl,
  subst, arith, length, if◌then◌else◌, Bool-cases, inl, inr,
}
use prolly_gunna.Prelude.Bytes.{Bytes, bytes_eq, bytes_eq_iff}
use prolly_gunna.Errors.{Result, ok}
use prolly_gunna.Node.{Hash}
use prolly_gunna.Externals.{Externals}
use prolly_gunna.Store.Memory
use prolly_gunna.Store.Memory.{InMemoryStore}
use prolly_gunna.Store.Memory.Map.{find, contains}
use prolly_gunna.Tree.Holds.Children.{length-append}
use prolly_gunna.Gc.{memory, chunk_refs, unmarked, fetch, mark}

pub contains-append :
    (h : Hash) (hs bs : List Hash) → contains h (hs ++ bs) ≡ (contains h hs || contains h bs)
unfolding contains
contains-append h [] bs = refl
contains-append h (a ∷ hs) bs = ground (arith, contains-append h hs bs)

contains-unmarked :
    (h : Hash) (all live rs : List Hash)
    → contains h (unmarked all live rs)
      ≡ (contains h rs && (contains h all && not (contains h live)))
unfolding contains unmarked
contains-unmarked h all live [] = refl
contains-unmarked h all live (r ∷ rs) =
    ground (arith, contains-unmarked h all live rs, bytes_eq_iff r h)

length-unmarked : (all live rs : List Hash) → length (unmarked all live rs) ≤ length rs
unfolding unmarked
length-unmarked all live [] = omega arith
length-unmarked all live (r ∷ rs) = ground (arith, length-unmarked all live rs)

-- The references of what the store has under a hash.
unfoldable pub refs_at : Externals → InMemoryStore → Hash → List Hash
refs_at x s h = elim (find h s.chunks) [ none ↦ [] | some b ↦ chunk_refs x b ]

refs_at_lem :
    (x : Externals) (s : InMemoryStore) (h : Hash) (b : Bytes)
    → find h s.chunks ≡ some b
    → refs_at x s h ≡ chunk_refs x b
unfolding refs_at
refs_at_lem x s h b e = rw (refs_at, e)

fetch_lem :
    (x : Externals) (s : InMemoryStore) (h : Hash) (b : Bytes)
    → find h s.chunks ≡ some b
    → fetch x memory h s ≡ (ok b, s)
unfolding fetch Memory.get
fetch_lem x s h b e = rw (fetch, e)

-- The references that may still be pushed: those of the hashes that are not yet marked.
unfoldable pub weight : Externals → InMemoryStore → List Hash → List Hash → ℕ
unfolding refs_at
weight x s live [] = 0
weight x s live (h ∷ hs) =
    let rest = weight x s live hs in if contains h live then rest else length (refs_at x s h) + rest

weight_less :
    (x : Externals) (s : InMemoryStore) (h : Hash) (live hs : List Hash)
    → weight x s (h ∷ live) hs ≤ weight x s live hs
unfolding weight contains
weight_less x s h live [] = omega arith
weight_less x s h live (k ∷ ks) = ground (arith, weight_less x s h live ks)

weight_marked :
    (x : Externals) (s : InMemoryStore) (h : Hash) (live hs : List Hash)
    → contains h live ≡ false
    → contains h hs ≡ true
    → weight x s (h ∷ live) hs + length (refs_at x s h) ≤ weight x s live hs
unfolding weight contains
weight_marked x s h live [] fresh at = ground (arith, at)
weight_marked x s h live (k ∷ ks) fresh at = ground (
  arith,
  weight_marked x s h live ks fresh,
  weight_less x s h live ks,
  bytes_eq_iff k h,
  bytes_eq_iff h k,
)

-- What can be reached from the hashes for which `P` holds.
pub data Reaches (x : Externals) (s : InMemoryStore) (roots : List Hash) : Hash → Type 0 where
  at_root : (h : Hash) → contains h roots ≡ true → Reaches x s roots h
  at_ref :
      (h r : Hash) → Reaches x s roots h → contains r (refs_at x s h) ≡ true → Reaches x s roots r

module _ (x : Externals) (s : InMemoryStore) (roots all : List Hash)
    (stored : (h : Hash) → contains h all ≡ true → (b : Bytes) × (find h s.chunks ≡ some b)) where
  -- A run of the mark phase: it marks the queue and all that it refers to, and only what can be
  -- reached.
  pub record Marked (queue live : List Hash) (run : Result (List Hash) × InMemoryStore)
      : Type 0 where
    pub marked : List Hash
    pub returns : run ≡ (ok marked, s)
    pub grows : (h : Hash) → contains h live ≡ true → contains h marked ≡ true
    pub takes :
        (h : Hash) → contains h queue ≡ true → contains h all ≡ true → contains h marked ≡ true
    pub closed :
        (h r : Hash)
        → contains h marked ≡ true
        → contains h live ≡ false
        → contains r (refs_at x s h) ≡ true
        → contains r all ≡ true
        → contains r marked ≡ true
    pub sound :
        (h : Hash) → contains h marked ≡ true → contains h live ≡ false → Reaches x s roots h

  skip_lem :
      (h : Hash) (queue live : List Hash) (run : Result (List Hash) × InMemoryStore)
      → (contains h live || not (contains h all)) ≡ true
      → Marked queue live run
      → Marked (h ∷ queue) live run
  unfolding contains
  skip_lem h queue live run skipped m = record {
    marked = m.marked;
    returns = m.returns;
    grows = m.grows;
    takes = λ j q at. ground (arith, skipped, q, at, m.grows h, m.takes j, bytes_eq_iff h j);
    closed = m.closed;
    sound = m.sound;
  }

  visit_lem :
      (h : Hash) (queue live : List Hash) (run : Result (List Hash) × InMemoryStore)
      → contains h live ≡ false
      → Reaches x s roots h
      → Marked (queue ++ unmarked all (h ∷ live) (refs_at x s h)) (h ∷ live) run
      → Marked (h ∷ queue) live run
  unfolding contains
  visit_lem h queue live run fresh reached m =
      let rs = refs_at x s h in
      record {
        marked = m.marked;
        returns = m.returns;
        grows = λ j at. ground (arith, at, m.grows j);
        takes = λ j q at. ground (
          arith,
          q,
          at,
          m.grows j,
          m.takes j,
          bytes_eq_iff h j,
          contains-append j queue (unmarked all (h ∷ live) rs),
        );
        closed = λ j r at unseen ref in_all. elim (Bool-cases (bytes_eq h j)) [
          | inl same ↦ ground (
            arith,
            same,
            ref,
            in_all,
            bytes_eq_iff h j,
            m.grows r,
            m.takes r,
            contains-append r queue (unmarked all (h ∷ live) rs),
            contains-unmarked r all (h ∷ live) rs,
          )
          | inr other ↦ m.closed j r at (ground (arith, other, unseen)) ref in_all
        ];
        sound = λ j at unseen. elim (Bool-cases (bytes_eq h j)) [
          | inl same ↦ subst (Reaches x s roots) ((bytes_eq_iff h j).0 same) reached
          | inr other ↦ m.sound j at (ground (arith, other, unseen))
        ];
      }

  pushed_reached :
      (h : Hash) (queue live : List Hash)
      → Reaches x s roots h
      → ((j : Hash) → contains j queue ≡ true → Reaches x s roots j)
      → (j : Hash) → contains j (queue ++ unmarked all live (refs_at x s h)) ≡ true
      → Reaches x s roots j
  pushed_reached h queue live reached queued j at = elim (Bool-cases (contains j queue)) [
    | inl old ↦ queued j old
    | inr new ↦ at_ref h j reached (
        ground (
          arith,
          at,
          new,
          contains-append j queue (unmarked all live (refs_at x s h)),
          contains-unmarked j all live (refs_at x s h),
        ))
  ]

  mark_skips :
      (fuel : ℕ) (h : Hash) (queue live : List Hash)
      → (contains h live || not (contains h all)) ≡ true
      → mark x memory all (suc fuel) (h ∷ queue) live s ≡ mark x memory all fuel queue live s
  unfolding mark
  mark_skips fuel h queue live skipped = ground (arith, skipped)

  mark_visits :
      (fuel : ℕ) (h : Hash) (queue live : List Hash) (b : Bytes)
      → contains h live ≡ false
      → contains h all ≡ true
      → find h s.chunks ≡ some b
      → mark x memory all (suc fuel) (h ∷ queue) live s
        ≡ mark x memory all fuel (queue ++ unmarked all (h ∷ live) (refs_at x s h)) (h ∷ live) s
  unfolding mark
  mark_visits fuel h queue live b fresh here at =
      rw (mark, fresh, here, fetch_lem x s h b at, refs_at_lem x s h b at)

  -- With fuel for the queue and for every reference that may still be pushed, the mark phase ends.
  pub mark_lem :
      (fuel : ℕ) (queue live : List Hash)
      → ((j : Hash) → contains j queue ≡ true → Reaches x s roots j)
      → length queue + weight x s live all ≤ fuel
      → Marked queue live (mark x memory all fuel queue live s)
  unfolding mark contains
  mark_lem fuel [] live reached enough = record {
    marked = live;
    returns = refl;
    grows = λ h at. at;
    takes = λ h at. absurd (ground (arith, at));
    closed = λ h r at unseen. absurd (ground (arith, at, unseen));
    sound = λ h at unseen. absurd (ground (arith, at, unseen));
  }
  mark_lem zero (h ∷ queue) live reached enough = absurd (omega arith)
  mark_lem (suc fuel) (h ∷ queue) live reached enough =
      elim (Bool-cases (contains h live || not (contains h all))) [
        | inl skipped ↦ rw (mark_skips fuel h queue live skipped) (
            skip_lem h queue live (mark x memory all fuel queue live s) skipped
              (mark_lem fuel queue live queued (omega arith)))
        | inr visited ↦
            let fresh : contains h live ≡ false = ground (arith, visited) in
            let here : contains h all ≡ true = ground (arith, visited) in
            let (b, at) = stored h here in
            let at_once : Reaches x s roots h = reached h (ground (arith, bytes_eq_iff h h)) in
            let pushed = unmarked all (h ∷ live) (refs_at x s h) in
            rw (mark_visits fuel h queue live b fresh here at) (
              visit_lem h queue live (mark x memory all fuel (queue ++ pushed) (h ∷ live) s) fresh
                at_once
                (mark_lem fuel (queue ++ pushed) (h ∷ live)
                  (pushed_reached h queue (h ∷ live) at_once queued)
                  (omega (
                    arith,
                    length-append {0} queue pushed,
                    length-unmarked all (h ∷ live) (refs_at x s h),
                    weight_marked x s h live all fresh here,
                  ))))
      ]
    where
      queued : (j : Hash) → contains j queue ≡ true → Reaches x s roots j
      queued j at = reached j (ground (arith, at))
