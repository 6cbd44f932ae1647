-- ===== src/Node/Order/Search.antt =====
-- The binary search of a leaf finds the entry of the key, or its place.
use prolly_gunna.Prelude.{
  ℕ, suc, none, some, List, [], ◌∷◌, lt, ◌≡◌, refl, arith, get_elem?, remove_at, found, absent,
  Ordering-cases, is_lt, is_eq, is_gt, binary_search_by,
}
use prolly_gunna.Prelude.Bytes.{cmp}
use prolly_gunna.Node.{Key, LeafEntry}
use prolly_gunna.Node.Order.{find_entry, remove_entry}

-- The outcome of the search against the sorted map.
pub data Searched (k : Key) (es : List LeafEntry) : Type 0 where
  hit :
      (i : ℕ) (e : LeafEntry)
      → binary_search_by (λ x. cmp x.key k) es ≡ found i
      → get_elem? es i ≡ some e
      → find_entry k es ≡ some e.value
      → remove_at es i ≡ remove_entry k es
      → Searched k es
  miss :
      (i : ℕ)
      → binary_search_by (λ x. cmp x.key k) es ≡ absent i
      → find_entry k es ≡ none
      → remove_entry k es ≡ es
      → Searched k es

Searched-later :
    (k : Key) (e : LeafEntry) (es : List LeafEntry)
    → cmp e.key k ≡ lt
    → Searched k es
    → Searched k (e ∷ es)
unfolding find_entry remove_entry
Searched-later k e es h (hit i f s g w r) =
    hit (suc i) f (ground arith) g (ground arith) (ground arith)
Searched-later k e es h (miss i s w r) = miss (suc i) (ground arith) (ground arith) (ground arith)

pub search_lem : (k : Key) (es : List LeafEntry) → Searched k es
unfolding find_entry remove_entry
search_lem k [] = miss 0 refl refl refl
search_lem k (e ∷ es) = elim (Ordering-cases (cmp e.key k)) [
  | is_lt h ↦ Searched-later k e es h (search_lem k es)
  | is_eq h ↦ hit 0 e (ground arith) refl (ground arith) (ground arith)
  | is_gt h ↦ miss 0 (ground arith) (ground arith) (ground arith)
]
