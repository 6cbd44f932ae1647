-- ===== src/FileIo/ChunkMap.antt =====
-- The chunks that a reader collects over the sorted index are those that were written.
use prolly_gunna.Prelude.{
  ℕ, ◌+◌, ◌%◌, ◌≤◌, ◌<◌, ◌^◌, Option, none, some, List, [], ◌∷◌, ◌++◌, append_assoc, ◌≡◌, ◌⊎◌, inl,
  inr, refl, sym, ◌∙◌, ap, arith, subst, Bool-cases, true, false, ltb, leb, ◌&&◌, if◌then◌else◌,
  length, take, drop, All,
}
use prolly_gunna.Prelude.Bytes.{Bytes, bytes_eq, bytes_eq_iff}
use prolly_gunna.Errors.{ok}
use prolly_gunna.Tree.Holds.Children.{length-append}
use prolly_gunna.Node.{Hash, u64_mod}
use prolly_gunna.Format.{ChunkIndexEntryV2}
use prolly_gunna.FileIo.{
  Chunks, index_entries, chunk_data, sort_entries, insert_chunk, out_of_bounds, read_chunks,
}
use prolly_gunna.FileIo.Sorted.{Listed, All-sort_entries, Listed-sort_entries}
use prolly_gunna.FileIo.Written.{take_at, drop_at}

-- What a map of chunks has under a hash.
unfoldable pub find_chunk : Hash → Chunks → Option Bytes
find_chunk h [] = none
find_chunk h ((k, b) ∷ chunks) = if bytes_eq h k then some b else find_chunk h chunks

-- No hash twice, as in a map.
abbrev pub Distinct : Chunks → Type 0
Distinct [] = Unit
Distinct ((h, b) ∷ chunks) = (find_chunk h chunks ≡ none) × Distinct chunks

find_chunk-insert_chunk :
    (h k : Hash) (b : Bytes) (chunks : Chunks)
    → find_chunk h (insert_chunk k b chunks)
      ≡ (if bytes_eq h k then some b else find_chunk h chunks)
unfolding find_chunk insert_chunk
find_chunk-insert_chunk h k b [] = refl
find_chunk-insert_chunk h k b ((j, c) ∷ chunks) = elim (Bool-cases (bytes_eq k j)) [
  | inl same ↦ let e : k ≡ j = (bytes_eq_iff k j).0 same in rw same (rw⁻¹ e (ground arith))
  | inr differ ↦ ground (
    arith,
    differ,
    find_chunk-insert_chunk h k b chunks,
    (bytes_eq_iff h k).0,
    (bytes_eq_iff h j).0,
    bytes_eq_iff k j,
  )
]

-- Every chunk of the second map is found in the first one.
Found : Chunks → Chunks → Type 0
Found chunks cs = All (λ p. find_chunk p.0 chunks ≡ some p.1) cs

clash : (c : Bytes) → ◌≡◌ {A = Option Bytes} none (some c) → ⊥
clash c e = cc

Found-cons :
    (h : Hash) (b : Bytes) (chunks cs : Chunks)
    → find_chunk h chunks ≡ none
    → Found chunks cs
    → Found ((h, b) ∷ chunks) cs
unfolding Found find_chunk
Found-cons h b chunks [] new found = tt
Found-cons h b chunks ((k, c) ∷ cs) new found = (
  (elim (Bool-cases (bytes_eq k h)) [
    | inl same ↦
        let e : k ≡ h = (bytes_eq_iff k h).0 same in
        absurd (clash c (sym new ∙ ap (λ i. find_chunk i chunks) (sym e) ∙ found.0))
    | inr differ ↦ rw differ found.0
  ]),
  Found-cons h b chunks cs new found.1,
)

Found-Distinct : (chunks : Chunks) → Distinct chunks → Found chunks chunks
unfolding Found find_chunk
Found-Distinct [] distinct = tt
Found-Distinct ((h, b) ∷ chunks) distinct = (
  (let same : bytes_eq h h ≡ true = (bytes_eq_iff h h).1 refl in rw same),
  Found-cons h b chunks chunks distinct.0 (Found-Distinct chunks distinct.1),
)

-- What an entry of the index is to be: its bytes lie in the file, and are the chunk under its hash.
Slice : Bytes → Chunks → ChunkIndexEntryV2 → Type 0
Slice file chunks e =
    (e.offset + e.len ≤ length file)
    × (find_chunk e.hash chunks ≡ some (take e.len (drop e.offset file)))

-- Inserting the chunk of the first entry settles its hash.
settle :
    (chunks acc : Chunks) (e : ChunkIndexEntryV2) (es : List ChunkIndexEntryV2) (bytes : Bytes)
    (h : Hash)
    → find_chunk e.hash chunks ≡ some bytes
    → (find_chunk h acc ≡ find_chunk h chunks) ⊎ Listed h (e ∷ es)
    → (find_chunk h (insert_chunk e.hash bytes acc) ≡ find_chunk h chunks) ⊎ Listed h es
settle chunks acc e es bytes h stored known = elim (Bool-cases (bytes_eq h e.hash)) [
  | inl same ↦
      let i : h ≡ e.hash = (bytes_eq_iff h e.hash).0 same in
      inl (
        find_chunk-insert_chunk h e.hash bytes acc
        ∙ rw same (sym stored)
        ∙ ap (λ j. find_chunk j chunks) (sym i))
  | inr differ ↦ elim known [
    | inl kept ↦ inl (find_chunk-insert_chunk h e.hash bytes acc ∙ rw differ kept)
    | inr listed ↦ elim listed [
      | inl here ↦ absurd (ground (arith, differ, (bytes_eq_iff h e.hash).1 (sym here)))
      | inr later ↦ inr later
    ]
  ]
]

known_all :
    (chunks acc : Chunks) (h : Hash)
    → (find_chunk h acc ≡ find_chunk h chunks) ⊎ Listed h []
    → find_chunk h acc ≡ find_chunk h chunks
known_all chunks acc h (inl e) = e
known_all chunks acc h (inr l) = absurd l

read_chunks_lem :
    (file : Bytes) (chunks : Chunks) (es : List ChunkIndexEntryV2) (acc : Chunks)
    → length file < 2 ^ 64
    → All (Slice file chunks) es
    → ((h : Hash) → (find_chunk h acc ≡ find_chunk h chunks) ⊎ Listed h es)
    → (result : Chunks) × (read_chunks file es acc ≡ ok result)
      × ((h : Hash) → find_chunk h result ≡ find_chunk h chunks)
unfolding read_chunks out_of_bounds Slice
read_chunks_lem file chunks [] acc small slices known =
    (acc, refl, (λ h. known_all chunks acc h (known h)))
read_chunks_lem file chunks (e ∷ es) acc small ((fits, stored), slices) known =
    let bytes = take e.len (drop e.offset file) in
    let (result, reads, finds) =
      read_chunks_lem file chunks es (insert_chunk e.hash bytes acc) small slices
        (λ h. settle chunks acc e es bytes h stored (known h)) in
    let within : ltb (length file) ((e.offset + e.len) % u64_mod) ≡ false = ground arith in
    let begins : (leb (length file) e.offset && ltb 0 e.len) ≡ false = ground arith in
    (result, rw (within, begins, reads), finds)

index_entries_slices :
    (chunks cs : Chunks) (offset : ℕ) (pre post : Bytes)
    → length pre ≡ offset
    → length (pre ++ (chunk_data cs ++ post)) < 2 ^ 32
    → Found chunks cs
    → All (Slice (pre ++ (chunk_data cs ++ post)) chunks) (index_entries offset cs)
unfolding index_entries chunk_data Found Slice
index_entries_slices chunks [] offset pre post at small found = tt
index_entries_slices chunks ((h, b) ∷ cs) offset pre post at small found =
    let file = pre ++ ((b ++ chunk_data cs) ++ post) in
    let cut : file ≡ pre ++ (b ++ (chunk_data cs ++ post)) = simp append_assoc in
    let cut' : file ≡ (pre ++ b) ++ (chunk_data cs ++ post) = simp append_assoc in
    let l1 = length-append {0} pre (b ++ (chunk_data cs ++ post)) in
    let l2 = length-append {0} b (chunk_data cs ++ post) in
    let l3 = ap length cut in
    let whole : length b % 2 ^ 32 ≡ length b = omega arith in
    let there : take (length b) (drop offset file) ≡ b =
      ap (λ l. take (length b) (drop offset l)) cut
      ∙ ap (take (length b)) (drop_at offset pre (b ++ (chunk_data cs ++ post)) at)
      ∙ take_at (length b) b (chunk_data cs ++ post) refl in
    (
      (
        omega (arith, l1, l2, l3, whole, at),
        found.0 ∙ ap some (sym (ap (λ n. take n (drop offset file)) whole ∙ there)),
      ),
      subst (λ l. All (Slice l chunks) (index_entries (offset + length b) cs)) (sym cut')
          (index_entries_slices chunks cs (offset + length b) (pre ++ b) post
            (length-append {0} pre b ∙ ap (λ n. n + length b) at)
            (subst (λ l. length l < 2 ^ 32) cut' small) found.1),
    )

known_index :
    (h : Hash) (chunks : Chunks) (offset : ℕ)
    → (find_chunk h [] ≡ find_chunk h chunks) ⊎ Listed h (index_entries offset chunks)
unfolding find_chunk index_entries
known_index h [] offset = inl refl
known_index h ((k, b) ∷ chunks) offset = elim (Bool-cases (bytes_eq h k)) [
  | inl same ↦ inr (inl (sym ((bytes_eq_iff h k).0 same)))
  | inr differ ↦ elim (known_index h chunks (offset + length b)) [
    | inl missing ↦ inl (rw differ missing)
    | inr listed ↦ inr (inr listed)
  ]
]

-- Of a file in which the chunks of a map stand one after the other, below 4 GiB, the reader makes
-- that map again from the sorted index.
pub read_chunks-sort_entries :
    (chunks : Chunks) (pre post : Bytes)
    → length (pre ++ (chunk_data chunks ++ post)) < 2 ^ 32
    → Distinct chunks
    → (result : Chunks) × (read_chunks
          (pre ++ (chunk_data chunks ++ post))
          (sort_entries (index_entries (length pre) chunks))
          []
        ≡ ok result)
      × ((h : Hash) → find_chunk h result ≡ find_chunk h chunks)
read_chunks-sort_entries chunks pre post small distinct =
    let file = pre ++ (chunk_data chunks ++ post) in
    let es = index_entries (length pre) chunks in
    read_chunks_lem file chunks (sort_entries es) [] (omega (arith, small))
      (All-sort_entries (Slice file chunks) es (
        index_entries_slices chunks chunks (length pre) pre post refl small
          (Found-Distinct chunks distinct)))
      (λ h. elim (known_index h chunks (length pre)) [
        | inl missing ↦ inl missing
        | inr listed ↦ inr (Listed-sort_entries h es listed)
      ])
