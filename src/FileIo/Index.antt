-- ===== src/FileIo/Index.antt =====
-- The chunk index of a file.
use prolly_gunna.Prelude.{
  ℕ, ◌<◌, ◌%◌, ◌^◌, List, [], ◌∷◌, ◌++◌, append_assoc, append-nil, ◌≡◌, refl, sym, ◌∙◌, arith, ap,
  length, All,
}
use prolly_gunna.Prelude.Bytes.{Bytes}
use prolly_gunna.Errors.{Result, ok, and_then}
use prolly_gunna.Format.{IsByteOrder, ChunkIndexEntryV2, write_index_entry, write_all, write_u8}
use prolly_gunna.Format.RoundTrip.{IsIndexEntry, read_index_entry-write_index_entry}
use prolly_gunna.FileIo.{FileExternals, write_entries, index_content, read_entries, read_index}

module _ (f : FileExternals) (lawful : IsByteOrder f.order) where
  entries_bytes : List ChunkIndexEntryV2 → Bytes
  entries_bytes [] = []
  entries_bytes (e ∷ es) = (write_index_entry f.order e []).1 ++ entries_bytes es

  write_entries_lem :
      (es : List ChunkIndexEntryV2) (out : Bytes)
      → (write_entries f es out).1 ≡ out ++ entries_bytes es
  unfolding write_entries write_index_entry write_all write_u8 entries_bytes
  write_entries_lem [] out = sym (append-nil out)
  write_entries_lem (e ∷ es) out = write_entries_lem es _ ∙ simp append_assoc

  read_entries_lem :
      (es : List ChunkIndexEntryV2) (rest : Bytes)
      → All IsIndexEntry es
      → read_entries f (length es) (entries_bytes es ++ rest) ≡ (ok es, rest)
  unfolding read_entries entries_bytes
  read_entries_lem [] rest bounds = refl
  read_entries_lem (e ∷ es) rest (bound, bounds) = rw (
    append_assoc (write_index_entry f.order e []).1 (entries_bytes es) rest,
    read_index_entry-write_index_entry f.order lawful e (entries_bytes es ++ rest) bound,
    read_entries_lem es rest bounds,
  )

  -- The index of fewer than 2 ^ 32 entries, each with a hash of 32 bytes and fields in range, is
  -- read as it was written, its number of entries included.
  pub read_index-index_content :
      (es : List ChunkIndexEntryV2)
      → length es < 2 ^ 32
      → All IsIndexEntry es
      → read_index f (index_content f es) ≡ ok es
  unfolding read_index index_content write_all
  read_index-index_content es small bounds =
      let whole : length es % 2 ^ 32 ≡ length es = omega arith in
      let content : index_content f es ≡ f.order.bytes_u32 (length es) ++ entries_bytes es =
        write_entries_lem es _ ∙ ap (λ (n : ℕ). f.order.bytes_u32 n ++ entries_bytes es) whole in
      ap (read_index f) content
      ∙ ap (λ (r : Result ℕ × Bytes). (and_then r (read_entries f)).0)
          (lawful.read_write_u32 (length es) (entries_bytes es) small)
      ∙ ap (λ (b : Bytes). (read_entries f (length es) b).0) (sym (append-nil (entries_bytes es)))
      ∙ ap (λ (r : Result (List ChunkIndexEntryV2) × Bytes). r.0) (read_entries_lem es [] bounds)
