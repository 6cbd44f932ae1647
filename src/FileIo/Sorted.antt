-- ===== src/FileIo/Sorted.antt =====
-- Sorting the index keeps its entries.
use prolly_gunna.Prelude.{
  List, [], ◌∷◌, ◌≡◌, ◌⊎◌, inl, inr, refl, sym, ap, arith, subst, Ordering-cases, is_lt, is_eq,
  is_gt, length, All,
}
use prolly_gunna.Prelude.Bytes.{cmp}
use prolly_gunna.Node.{Hash}
use prolly_gunna.Format.{ChunkIndexEntryV2}
use prolly_gunna.FileIo.{insert_sorted, sort_entries}

-- Some entry has the hash.
abbrev pub Listed : Hash → List ChunkIndexEntryV2 → Type 0
Listed h [] = ⊥
Listed h (e ∷ es) = (e.hash ≡ h) ⊎ Listed h es

-- An entry goes before the first one with no smaller hash.
data Inserted (e f : ChunkIndexEntryV2) (fs : List ChunkIndexEntryV2) : Type 0 where
  before : insert_sorted e (f ∷ fs) ≡ e ∷ f ∷ fs → Inserted e f fs
  behind : insert_sorted e (f ∷ fs) ≡ f ∷ insert_sorted e fs → Inserted e f fs

insert_sorted_lem : (e f : ChunkIndexEntryV2) (fs : List ChunkIndexEntryV2) → Inserted e f fs
unfolding insert_sorted
insert_sorted_lem e f fs = elim (Ordering-cases (cmp e.hash f.hash)) [
  | is_lt h ↦ before (ground (arith, h))
  | is_eq h ↦ before (ground (arith, h))
  | is_gt h ↦ behind (ground (arith, h))
]

module _ {κ} (P : ChunkIndexEntryV2 → Type κ) where
  All-insert_sorted :
      (e : ChunkIndexEntryV2) (es : List ChunkIndexEntryV2)
      → P e
      → All P es
      → All P (insert_sorted e es)
  unfolding insert_sorted
  All-insert_sorted e [] p ps = (p, tt)
  All-insert_sorted e (f ∷ fs) p ps = elim (insert_sorted_lem e f fs) [
    | before h ↦ subst (All P) (sym h) (p, ps)
    | behind h ↦ subst (All P) (sym h) (ps.0, All-insert_sorted e fs p ps.1)
  ]

  pub All-sort_entries : (es : List ChunkIndexEntryV2) → All P es → All P (sort_entries es)
  unfolding sort_entries
  All-sort_entries [] ps = tt
  All-sort_entries (e ∷ es) ps =
      All-insert_sorted e (sort_entries es) ps.0 (All-sort_entries es ps.1)

Listed-insert_sorted :
    (h : Hash) (e : ChunkIndexEntryV2) (es : List ChunkIndexEntryV2)
    → (e.hash ≡ h) ⊎ Listed h es
    → Listed h (insert_sorted e es)
unfolding insert_sorted
Listed-insert_sorted h e [] l = l
Listed-insert_sorted h e (f ∷ fs) l = elim (insert_sorted_lem e f fs) [
  | before c ↦ subst (Listed h) (sym c) l
  | behind c ↦ subst (Listed h) (sym c) (elim l [
    | inl here ↦ inr (Listed-insert_sorted h e fs (inl here))
    | inr there ↦ elim there [
      | inl first ↦ inl first
      | inr later ↦ inr (Listed-insert_sorted h e fs (inr later))
    ]
  ])
]

pub Listed-sort_entries :
    (h : Hash) (es : List ChunkIndexEntryV2) → Listed h es → Listed h (sort_entries es)
unfolding sort_entries
Listed-sort_entries h [] l = l
Listed-sort_entries h (e ∷ es) l =
    Listed-insert_sorted h e (sort_entries es)
      (elim l [ inl here ↦ inl here | inr there ↦ inr (Listed-sort_entries h es there) ])

length-insert_sorted :
    (e : ChunkIndexEntryV2) (es : List ChunkIndexEntryV2)
    → length (insert_sorted e es) ≡ length (e ∷ es)
unfolding insert_sorted
length-insert_sorted e [] = refl
length-insert_sorted e (f ∷ fs) = elim (insert_sorted_lem e f fs) [
  | before h ↦ ap length h
  | behind h ↦ omega (arith, ap length h, length-insert_sorted e fs)
]

pub length-sort_entries : (es : List ChunkIndexEntryV2) → length (sort_entries es) ≡ length es
unfolding sort_entries
length-sort_entries [] = refl
length-sort_entries (e ∷ es) =
    omega (arith, length-insert_sorted e (sort_entries es), length-sort_entries es)
