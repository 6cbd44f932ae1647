-- ===== src/Gc/Collect.antt =====
-- The whole collector over the in-memory store: what it keeps and what it deletes.
use prolly_gunna.Prelude.{
  ℕ, ◌+◌, ◌≤◌, true, not, ◌&&◌, some, List, [], ◌∷◌, ◌≡◌, refl, arith, length, is_empty, Bool-cases,
  Option-cases, inl, inr,
}
use prolly_gunna.Prelude.Bytes.{Bytes, bytes_eq_iff}
use prolly_gunna.Errors.{Result, ok}
use prolly_gunna.Node.{Hash}
use prolly_gunna.Externals.{Externals}
use prolly_gunna.Store.Memory
use prolly_gunna.Store.Memory.{InMemoryStore}
use prolly_gunna.Store.Memory.Map.{find, keys, contains, contains-keys, remove_all, find-remove_all}
use prolly_gunna.Gc.{memory, to_set, set_insert, only_in, not_in, sweep, collect}
use prolly_gunna.Gc.Mark.{Reaches, at_root, at_ref, refs_at, weight, mark_lem, Marked}

pub contains-to_set : (h : Hash) (hs : List Hash) → contains h (to_set hs) ≡ contains h hs
unfolding contains to_set set_insert
contains-to_set h [] = refl
contains-to_set h (k ∷ ks) =
    ground (arith, contains-to_set h ks, contains-to_set k ks, bytes_eq_iff k h)

contains-only_in :
    (h : Hash) (all hs : List Hash)
    → contains h (only_in all hs) ≡ (contains h hs && contains h all)
unfolding contains only_in
contains-only_in h all [] = refl
contains-only_in h all (k ∷ ks) = ground (arith, contains-only_in h all ks, bytes_eq_iff k h)

contains-not_in :
    (h : Hash) (live hs : List Hash)
    → contains h (not_in live hs) ≡ (contains h hs && not (contains h live))
unfolding contains not_in
contains-not_in h live [] = refl
contains-not_in h live (k ∷ ks) = ground (arith, contains-not_in h live ks, bytes_eq_iff k h)

-- The hashes in the store, as the collector takes them.
abbrev pub stored_hashes : InMemoryStore → List Hash
stored_hashes s = to_set (keys s.chunks)

stored_lem :
    (s : InMemoryStore) (h : Hash)
    → contains h (stored_hashes s) ≡ true
    → (b : Bytes) × (find h s.chunks ≡ some b)
stored_lem s h at = elim (Option-cases (find h s.chunks)) [
  | inl gone ↦
      absurd (ground (arith, at, gone, contains-to_set h (keys s.chunks), contains-keys h s.chunks))
  | inr found ↦ found
]

listed_lem :
    (s : InMemoryStore) (h : Hash) (b : Bytes)
    → find h s.chunks ≡ some b
    → contains h (stored_hashes s) ≡ true
listed_lem s h b e = ground (arith, e, contains-to_set h (keys s.chunks), contains-keys h s.chunks)

-- Enough fuel for the mark phase: the roots, and every reference that a chunk of the store holds.
pub enough_fuel : Externals → InMemoryStore → List Hash → ℕ
enough_fuel x s roots = length roots + weight x s [] (stored_hashes s)

-- A collection that keeps what can be reached from the roots, and nothing else.
pub record Collected (x : Externals) (s : InMemoryStore) (roots : List Hash)
    (run : Result ℕ × InMemoryStore) : Type 0 where
  pub count : ℕ
  pub after : InMemoryStore
  pub returns : run ≡ (ok count, after)
  pub lock : after.lock ≡ s.lock
  pub keeps :
      (h : Hash) (b : Bytes)
      → Reaches x s roots h
      → find h s.chunks ≡ some b
      → find h after.chunks ≡ some b
  pub only :
      (h : Hash) (b : Bytes)
      → find h after.chunks ≡ some b
      → Reaches x s roots h × (find h s.chunks ≡ some b)

length-only_in : (all hs : List Hash) → length (only_in all hs) ≤ length hs
unfolding only_in
length-only_in all [] = omega arith
length-only_in all (k ∷ ks) = ground (arith, length-only_in all ks)

-- Only what is in the store has references.
refs_at_stored :
    (x : Externals) (s : InMemoryStore) (h r : Hash)
    → contains r (refs_at x s h) ≡ true
    → contains h (stored_hashes s) ≡ true
unfolding refs_at contains
refs_at_stored x s h r ref = elim (Option-cases (find h s.chunks)) [
  | inl gone ↦ absurd (ground (arith, ref, gone))
  | inr (b, e) ↦ listed_lem s h b e
]

module _ (x : Externals) (s : InMemoryStore) (roots : List Hash) where
  abbrev all : List Hash
  all = stored_hashes s

  -- Everything that can be reached is marked, if it is in the store.
  reached_marked :
      (run : Result (List Hash) × InMemoryStore)
      (m : Marked x s roots all (stored_lem s) (only_in all roots) [] run) (h : Hash)
      → Reaches x s roots h
      → contains h all ≡ true
      → contains h m.marked ≡ true
  unfolding contains
  reached_marked run m j (at_root h at) here =
      m.takes h (ground (arith, at, here, contains-only_in h all roots)) here
  reached_marked run m j (at_ref h r reached ref) here =
      m.closed h r (reached_marked run m h reached (refs_at_stored x s h r ref)) refl ref here

  abbrev swept : List Hash → InMemoryStore
  swept live = record s { chunks = remove_all (not_in live all) s.chunks }

  sweep_lem :
      (live : List Hash) → (n : ℕ) × (sweep x memory (not_in live all) s ≡ (ok n, swept live))
  unfolding sweep Memory.delete_batch remove_all
  sweep_lem live = go (not_in live all)
    where
      go :
          (dead : List Hash)
          → (n : ℕ) × (sweep x memory dead s
              ≡ (ok n, record s { chunks = remove_all dead s.chunks }))
      go [] = (0, refl)
      go (h ∷ dead) = (length (h ∷ dead), refl)

  -- Over the in-memory store, with fuel for the roots and for every reference in the store, the
  -- collector ends without an error, keeps every stored chunk that the roots can reach through
  -- nodes and values, deletes every other chunk, and leaves the lock alone.
  pub collect_lem :
      (fuel : ℕ)
      → enough_fuel x s roots ≤ fuel
      → Collected x s roots (collect x memory fuel roots s)
  unfolding collect enough_fuel Memory.all_hashes contains
  collect_lem fuel enough = elim (Bool-cases (is_empty (keys s.chunks))) [
    | inl empty ↦ record {
      count = 0;
      after = s;
      returns = rw (collect, empty);
      lock = refl;
      keeps = λ h b reached at. at;
      only = λ h b at. absurd (ground (arith, at, empty, listed_lem s h b at));
    }
    | inr some_hashes ↦
        let m =
          mark_lem x s roots all (stored_lem s) fuel (only_in all roots) []
            (λ j at. at_root j (ground (arith, at, contains-only_in j all roots)))
            (omega (arith, length-only_in all roots)) in
        let (n, sweeps) = sweep_lem m.marked in
        record {
          count = n;
          after = swept m.marked;
          returns = rw (collect, some_hashes, m.returns, sweeps);
          lock = refl;
          keeps = λ h b reached at. ground (
            arith,
            at,
            reached_marked _ m h reached (listed_lem s h b at),
            find-remove_all (not_in m.marked all) h s.chunks,
            contains-not_in h m.marked all,
          );
          only = λ h b at.
              let here : find h s.chunks ≡ some b =
                ground (arith, at, find-remove_all (not_in m.marked all) h s.chunks) in
              let marked : contains h m.marked ≡ true = ground (
                arith,
                at,
                listed_lem s h b here,
                find-remove_all (not_in m.marked all) h s.chunks,
                contains-not_in h m.marked all,
              ) in
              (m.sound h marked refl, here);
        }
  ]
