-- ===== src/FileIo/RoundTrip.antt =====
-- A file is read as it was written.
use prolly_gunna.Prelude.{
  ℕ, ◌+◌, ◌%◌, ◌<◌, ◌^◌, true, false, Option, none, some, String, List, [], ◌∷◌, ◌++◌, append_assoc,
  ◌≡◌, refl, sym, ◌∙◌, ap, arith, subst, ltb, length, take, All, ◌≤◌, Option-cases, inl, inr,
}
use prolly_gunna.Prelude.Bytes.{Bytes, bytes_eq, bytes_eq_iff, cmp}
use prolly_gunna.Errors.{ok}
use prolly_gunna.Tree.Holds.Children.{length-append}
use prolly_gunna.Node.{Hash, TreeConfig}
use prolly_gunna.Format.{
  ChunkIndexEntryV2, header_size, write_header, write_eof, write_envelope, write_all, new_header,
  read_eof, tag_chunk_index_block, tag_metadata_block,
}
use prolly_gunna.Format.RoundTrip.{IsIndexEntry}
use prolly_gunna.FileIo.{
  FileExternals, MetadataContentV2, Chunks, index_entries, chunk_data, sort_entries, read_chunks,
  index_content, assemble, block, offset_eof_block_begins, final_header, eof_block,
  content_to_checksum, with_metadata, write_prly_tree_v2, verify_eof, check_eof, read_index,
  read_prly_tree_v2,
}
use prolly_gunna.FileIo.Index.{read_index-index_content}
use prolly_gunna.FileIo.Sorted.{All-sort_entries, length-sort_entries}
use prolly_gunna.FileIo.Written.{
  IsFileExternals, take_at, drop_at, length-header, length-content, header_read, eof_read,
}
use prolly_gunna.FileIo.Blocks.{read_block-block, index_at, metadata_at}
use prolly_gunna.FileIo.ChunkMap.{Distinct, find_chunk, read_chunks-sort_entries}

length-index_entries :
    (offset : ℕ) (chunks : Chunks) → length (index_entries offset chunks) ≡ length chunks
unfolding index_entries
length-index_entries offset [] = refl
length-index_entries offset ((h, b) ∷ chunks) =
    omega (arith, length-index_entries (offset + length b) chunks)

-- Hashes have 32 bytes.
abbrev pub HasHashes : Chunks → Type 0
HasHashes chunks = All (λ p. length p.0 ≡ 32) chunks

index_entries-IsIndexEntry :
    (offset : ℕ) (chunks : Chunks)
    → offset + length (chunk_data chunks) < 2 ^ 64
    → HasHashes chunks
    → All IsIndexEntry (index_entries offset chunks)
unfolding index_entries chunk_data
index_entries-IsIndexEntry offset [] small sizes = tt
index_entries-IsIndexEntry offset ((h, b) ∷ chunks) small sizes =
    let l = length-append {0} b (chunk_data chunks) in
    (
      record { hash = sizes.0; offset = omega (arith, l); len = omega arith },
      index_entries-IsIndexEntry (offset + length b) chunks (omega (arith, l)) sizes.1,
    )

module _ (f : FileExternals) (lawful : IsFileExternals f) (c i m : Bytes) where
  check_eof_lem :
      (s : Bytes)
      → offset_eof_block_begins f c i m < 2 ^ 64
      → check_eof f (assemble f c i m) (offset_eof_block_begins f c i m) s ≡ (ok tt, [])
  unfolding check_eof verify_eof cmp
  check_eof_lem s bound =
      let content = content_to_checksum f c i m in
      let last = (write_eof f.order (eof_block f c i m) []).1 in
      let n = offset_eof_block_begins f c i m in
      let reads =
        ap (read_eof f.order true) (drop_at n content last (length-content f lawful c i m))
        ∙ eof_read f lawful c i m bound in
      let same : bytes_eq (f.calculate_blake3_hash (take n (assemble f c i m)))
            (f.calculate_blake3_hash content)
          ≡ true =
        (bytes_eq_iff _ _).1
          (ap f.calculate_blake3_hash (take_at n content last (length-content f lawful c i m))) in
      rw (reads, same)

  length-assemble :
      length (assemble f c i m)
      ≡ offset_eof_block_begins f c i m + length (write_eof f.order (eof_block f c i m) []).1
  length-assemble =
      length-append {0} (content_to_checksum f c i m) (write_eof f.order (eof_block f c i m) []).1
      ∙ ap (λ n. n + length (write_eof f.order (eof_block f c i m) []).1)
          (length-content f lawful c i m)

  length-block : (tag : ℕ) (content : Bytes) → length content ≤ length (block f tag content []).1
  unfolding block write_envelope write_all
  length-block tag content = omega (
    arith,
    length-append {0}
        (write_envelope f.order
          (record {
            tag = tag;
            content_length = length content % 2 ^ 32;
            content_checksum = f.calculate_crc32 content;
          })
          []).1
        content,
  )

  -- The reader goes through all its phases on an assembled file.
  read_assembled :
      (es : List ChunkIndexEntryV2) (metadata : MetadataContentV2) (result : Chunks) (s : Bytes)
      → length (assemble f c i m) < 2 ^ 32
      → read_index f i ≡ ok es
      → f.from_json m ≡ some metadata
      → read_chunks (assemble f c i m) es [] ≡ ok result
      → read_prly_tree_v2 f (assemble f c i m) s
        ≡ (ok (metadata.root_hash, metadata.tree_config, result, metadata.description), [])
  unfolding read_prly_tree_v2 new_header cmp
  read_assembled es metadata result s small index decodes collects =
      let last = (write_eof f.order (eof_block f c i m) []).1 in
      let bound : offset_eof_block_begins f c i m < 2 ^ 64 = omega (arith, length-assemble) in
      let header = header_read f lawful c i m last bound in
      let within : ltb (length (assemble f c i m)) (offset_eof_block_begins f c i m) ≡ false =
        ground (arith, length-assemble) in
      let first =
        read_block-block f lawful (assemble f c i m) _ tag_chunk_index_block
          "Chunk Index Block tag mismatch" "Chunk Index Block" i
          ((block f tag_metadata_block m []).1 ++ last)
          (c
            ++ ((block f tag_chunk_index_block i []).1 ++ (block f tag_metadata_block m []).1)
            ++ last)
          (index_at f lawful c i m)
          (omega (arith, length-assemble, length-block tag_chunk_index_block i)) in
      let second =
        read_block-block f lawful (assemble f c i m) _ tag_metadata_block
          "Metadata Block tag mismatch" "Metadata Block" m last
          ((block f tag_metadata_block m []).1 ++ last) (metadata_at f lawful c i m)
          (omega (arith, length-assemble, length-block tag_metadata_block m)) in
      rw (header, within, first, index, second, decodes, collects, check_eof_lem last bound)

module _ (f : FileExternals) (lawful : IsFileExternals f) (chunks : Chunks) (j : Bytes) where
  written_index : List ChunkIndexEntryV2
  written_index = sort_entries (index_entries header_size chunks)

  written_file : Bytes
  written_file = assemble f (chunk_data chunks) (index_content f written_index) j

  -- The chunks of a written file.
  collect_chunks :
      length written_file < 2 ^ 32
      → Distinct chunks
      → (result : Chunks) × (read_chunks written_file written_index [] ≡ ok result)
        × ((h : Hash) → find_chunk h result ≡ find_chunk h chunks)
  unfolding written_index written_file
  collect_chunks small distinct =
      let c = chunk_data chunks in
      let i = index_content f (sort_entries (index_entries header_size chunks)) in
      let header = (write_header f.order (final_header f c i j) []).1 in
      let blocks = (block f tag_chunk_index_block i []).1 ++ (block f tag_metadata_block j []).1 in
      let last = (write_eof f.order (eof_block f c i j) []).1 in
      let cut : assemble f c i j ≡ header ++ (c ++ (blocks ++ last)) = simp append_assoc in
      let (result, reads, finds) =
        read_chunks-sort_entries chunks header (blocks ++ last)
          (subst (λ l. length l < 2 ^ 32) cut small) distinct in
      (
        result,
        ap (λ l. read_chunks l (sort_entries (index_entries header_size chunks)) []) cut
            ∙ ap
                (λ n.
                  read_chunks (header ++ (c ++ (blocks ++ last)))
                    (sort_entries (index_entries n chunks)) [])
                (sym (length-header f lawful c i j))
            ∙ reads,
        finds,
      )

  written_index_read :
      length written_file < 2 ^ 32
      → HasHashes chunks
      → length chunks < 2 ^ 32
      → read_index f (index_content f written_index) ≡ ok written_index
  unfolding written_index written_file
  written_index_read small sizes few =
      let c = chunk_data chunks in
      let es = index_entries header_size chunks in
      let i = index_content f (sort_entries es) in
      let bytes : header_size + length c < 2 ^ 64 = omega (arith, length-assemble f lawful c i j) in
      read_index-index_content f lawful.order (sort_entries es)
        (omega (arith, length-sort_entries es, length-index_entries header_size chunks))
        (All-sort_entries IsIndexEntry es
          (index_entries-IsIndexEntry header_size chunks bytes sizes))

  read_written :
      (metadata : MetadataContentV2) (file s : Bytes)
      → with_metadata f chunks (some j) ≡ ok file
      → f.from_json j ≡ some metadata
      → Distinct chunks
      → HasHashes chunks
      → length chunks < 2 ^ 32
      → length file < 2 ^ 32
      → (result : Chunks) × (read_prly_tree_v2 f file s
          ≡ (ok (metadata.root_hash, metadata.tree_config, result, metadata.description), []))
        × ((h : Hash) → find_chunk h result ≡ find_chunk h chunks)
  unfolding with_metadata written_index written_file
  read_written metadata file s e decodes distinct sizes few small =
      let same : written_file ≡ file = cc in
      let small' = subst (λ l. length l < 2 ^ 32) (sym same) small in
      let (result, collects, finds) = collect_chunks small' distinct in
      (
        result,
        ap (λ l. read_prly_tree_v2 f l s) (sym same)
            ∙ read_assembled f lawful (chunk_data chunks) (index_content f written_index) j
                written_index metadata result s small' (written_index_read small' sizes few) decodes
                collects,
        finds,
      )

no_file :
    (f : FileExternals) (chunks : Chunks) (file : Bytes) → with_metadata f chunks none ≡ ok file → ⊥
unfolding with_metadata
no_file f chunks file e = cc

-- With lawful externals: a file below 4 GiB that the writer makes of a map of fewer than 2 ^ 32
-- chunks, no hash twice and each of 32 bytes, is read without an error, and the reader returns the
-- root, the configuration and the description that were written, and a map that has under every
-- hash what the written one has.
pub read_prly_tree_v2-write_prly_tree_v2 :
    (f : FileExternals) (root_hash : Option Hash) (tree_config : TreeConfig) (chunks : Chunks)
    (description : Option String) (file s : Bytes)
    → IsFileExternals f
    → Distinct chunks
    → HasHashes chunks
    → length chunks < 2 ^ 32
    → write_prly_tree_v2 f root_hash tree_config chunks description ≡ ok file
    → length file < 2 ^ 32
    → (result : Chunks) × (read_prly_tree_v2 f file s
        ≡ (ok (root_hash, tree_config, result, description), []))
      × ((h : Hash) → find_chunk h result ≡ find_chunk h chunks)
unfolding write_prly_tree_v2
read_prly_tree_v2-write_prly_tree_v2 f root_hash tree_config chunks description file s lawful
      distinct sizes few writes small =
    let metadata : MetadataContentV2 = record {
      root_hash = root_hash;
      tree_config = tree_config;
      created_at = f.now;
      description = description;
      total_chunk_data_bytes = length (chunk_data chunks);
    } in
    elim (Option-cases (f.to_json metadata)) [
      | inl none_made ↦
          absurd (no_file f chunks file (sym (ap (with_metadata f chunks) none_made) ∙ writes))
      | inr (j, made) ↦
          read_written f lawful chunks j metadata file s
            (sym (ap (with_metadata f chunks) made) ∙ writes) (lawful.json metadata j made) distinct
            sizes few small
    ]
