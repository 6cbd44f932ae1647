-- ===== src/FileIo.antt =====
-- src/store/file_io_v2.rs: whole files in format 2. A writer's buffer begins with room for the
-- header, which is filled in at the end: here the header is put before the rest. A reader seeks in
-- the file: here it goes on at what stands behind the offset. The checksums, the JSON encoding of the
-- metadata and the time are parameters. The offsets of a file
-- are compared as the 64-bit numbers that they are, before the code makes a `usize` of them.
pub mod Integrity
pub mod Index
pub mod Written
pub mod Blocks
pub mod Sorted
pub mod ChunkMap
pub mod RoundTrip
use prolly_gunna.Prelude.{
  ℕ, zero, suc, ◌+◌, ◌%◌, ◌^◌, String, Bool, true, false, not, ◌&&◌, Option, none, some, List, [],
  ◌∷◌, ◌++◌, lt, eq, gt, ltb, leb, ◌==◌, if◌then◌else◌, length, take, drop,
}
use prolly_gunna.Prelude.Bytes.{Bytes, cmp, bytes_eq}
use prolly_gunna.Errors.{
  ProllyError, Result, ok, err, panic, out_of_fuel, Exec, pure, fail, lift, ◌>>=◌, ◌>>◌,
  invalid_file_format, checksum_mismatch, serialization, deserialization,
}
use prolly_gunna.Node.{Hash, TreeConfig, u64_mod}
use prolly_gunna.Format.{
  ByteOrder, FileHeaderV2, ChunkIndexEntryV2, EofBlockV2, ContentBlockEnvelope, file_signature_v2,
  format_version_v2, tag_chunk_index_block, tag_metadata_block, tag_eof_block, new_header,
  header_size, write_header, read_header, write_index_entry, read_index_entry, write_eof, read_eof,
  write_envelope, read_envelope, write_all, write_u32, read_exact,
}

pub record MetadataContentV2 : Type 0 where
  pub root_hash : Option Hash
  pub tree_config : TreeConfig
  pub created_at : String
  pub description : Option String
  pub total_chunk_data_bytes : ℕ

-- `crc32fast`, `blake3`, `serde_json` and `chrono`.
pub record FileExternals : Type 0 where
  pub order : ByteOrder
  pub calculate_crc32 : Bytes → ℕ
  pub calculate_blake3_hash : Bytes → Bytes
  pub to_json : MetadataContentV2 → Option Bytes
  pub from_json : Bytes → Option MetadataContentV2
  pub now : String

abbrev pub Chunks : Type 0
Chunks = List (Hash × Bytes)

-- "PRLYTRV2", reversed
abbrev pub reversed_signature : Bytes
reversed_signature = 50 ∷ 86 ∷ 82 ∷ 84 ∷ 89 ∷ 76 ∷ 82 ∷ 80 ∷ []

-- The entries of the index, for chunks that are written one after the other from the offset on.
unfoldable pub index_entries : ℕ → Chunks → List ChunkIndexEntryV2
index_entries offset [] = []
index_entries offset ((hash, bytes) ∷ chunks) =
    record { hash = hash; offset = offset; len = length bytes % 2 ^ 32; chunk_type_flags = 0 }
    ∷ index_entries (offset + length bytes) chunks

unfoldable pub chunk_data : Chunks → Bytes
chunk_data [] = []
chunk_data ((hash, bytes) ∷ chunks) = bytes ++ chunk_data chunks

-- `sort_by_key(|entry| entry.hash)`
unfoldable pub insert_sorted : ChunkIndexEntryV2 → List ChunkIndexEntryV2 → List ChunkIndexEntryV2
insert_sorted e [] = e ∷ []
insert_sorted e (f ∷ fs) = elim (cmp e.hash f.hash) [
  | gt ↦ f ∷ insert_sorted e fs
  | eq ↦ e ∷ f ∷ fs
  | lt ↦ e ∷ f ∷ fs
]

unfoldable pub sort_entries : List ChunkIndexEntryV2 → List ChunkIndexEntryV2
unfolding insert_sorted
sort_entries [] = []
sort_entries (e ∷ es) = insert_sorted e (sort_entries es)

-- `HashMap::insert`
unfoldable pub insert_chunk : Hash → Bytes → Chunks → Chunks
insert_chunk hash bytes [] = (hash, bytes) ∷ []
insert_chunk hash bytes ((h, b) ∷ chunks) =
    if bytes_eq hash h then (hash, bytes) ∷ chunks else (h, b) ∷ insert_chunk hash bytes chunks

-- An early return with an error.
abbrev pub reject : {S : Type 0} → Bool → ProllyError → Exec S (Unit {0})
reject true e = fail e
reject false e = pure tt

abbrev pub map_err : {A S : Type 0} → ProllyError → Result A × S → Result A × S
map_err e (ok a, s) = (ok a, s)
map_err e (err _, s) = (err e, s)
map_err e (panic, s) = (panic, s)
map_err e (out_of_fuel, s) = (out_of_fuel, s)

abbrev pub option_or : {A : Type 0} → ProllyError → Option A → Result A
option_or e none = err e
option_or e (some a) = ok a

-- A chunk lies within the file.
unfoldable pub out_of_bounds : Bytes → ChunkIndexEntryV2 → Bool
out_of_bounds file entry = ltb (length file) ((entry.offset + entry.len) % u64_mod)

unfoldable pub read_chunks : Bytes → List ChunkIndexEntryV2 → Chunks → Result Chunks
unfolding out_of_bounds insert_chunk
read_chunks file [] chunks = ok chunks
read_chunks file (e ∷ es) chunks =
    let rest = read_chunks file es (insert_chunk e.hash (take e.len (drop e.offset file)) chunks) in
    if out_of_bounds file e
    then err (invalid_file_format "Chunk offset/length out of bounds")
    else if leb (length file) e.offset && ltb 0 e.len
    then err (invalid_file_format "Chunk offset out of bounds")
    else rest

module _ (f : FileExternals) where
  unfoldable pub block : ℕ → Bytes → Exec Bytes (Unit {0})
  unfolding write_all write_envelope
  block tag content = do
    write_envelope f.order (record {
      tag = tag;
      content_length = length content % 2 ^ 32;
      content_checksum = f.calculate_crc32 content;
    })
    write_all content

  unfoldable pub write_entries : List ChunkIndexEntryV2 → Exec Bytes (Unit {0})
  unfolding write_index_entry
  write_entries [] = pure tt
  write_entries (e ∷ es) = do write_index_entry f.order e; write_entries es

  unfoldable pub index_content : List ChunkIndexEntryV2 → Bytes
  unfolding write_entries write_all
  index_content entries =
      ((do write_u32 f.order (length entries % 2 ^ 32); write_entries entries) []).1

  -- The parts of a file stand one after the other: the header, the chunks, the index, the metadata
  -- and the last block.
  abbrev pub offset_chunk_index_block_envelope_start : Bytes → ℕ
  offset_chunk_index_block_envelope_start chunks = header_size + length chunks

  abbrev pub offset_metadata_block_envelope_start : Bytes → Bytes → ℕ
  offset_metadata_block_envelope_start chunks index =
      offset_chunk_index_block_envelope_start chunks
      + length (block tag_chunk_index_block index []).1

  abbrev pub offset_eof_block_begins : Bytes → Bytes → Bytes → ℕ
  offset_eof_block_begins chunks index metadata =
      offset_metadata_block_envelope_start chunks index
      + length (block tag_metadata_block metadata []).1

  abbrev pub final_header : Bytes → Bytes → Bytes → FileHeaderV2
  final_header chunks index metadata =
      new_header (offset_metadata_block_envelope_start chunks index)
        (offset_chunk_index_block_envelope_start chunks)
        (offset_eof_block_begins chunks index metadata)

  abbrev pub content_to_checksum : Bytes → Bytes → Bytes → Bytes
  content_to_checksum chunks index metadata =
      (write_header f.order (final_header chunks index metadata) []).1
      ++ (chunks
          ++ ((block tag_chunk_index_block index []).1 ++ (block tag_metadata_block metadata []).1))

  abbrev pub eof_block : Bytes → Bytes → Bytes → EofBlockV2
  eof_block chunks index metadata = record {
    tag = tag_eof_block;
    offset_metadata_repeated = offset_metadata_block_envelope_start chunks index;
    offset_chunk_index_repeated = offset_chunk_index_block_envelope_start chunks;
    signature_repeated = reversed_signature;
    overall_file_checksum =
        some (f.calculate_blake3_hash (content_to_checksum chunks index metadata));
  }

  abbrev pub assemble : Bytes → Bytes → Bytes → Bytes
  assemble chunks index metadata =
      content_to_checksum chunks index metadata
      ++ (write_eof f.order (eof_block chunks index metadata) []).1

  -- What becomes of the JSON of the metadata, or of the failure to make it.
  unfoldable pub with_metadata : Chunks → Option Bytes → Result Bytes
  unfolding index_entries sort_entries chunk_data index_content
  with_metadata chunks none = err (serialization "metadata")
  with_metadata chunks (some metadata) = ok (
      assemble (chunk_data chunks) (index_content (sort_entries (index_entries header_size chunks)))
        metadata)

  -- The chunks come in the order in which the map yields them.
  unfoldable pub write_prly_tree_v2 :
      Option Hash → TreeConfig → Chunks → Option String → Result Bytes
  unfolding with_metadata chunk_data
  write_prly_tree_v2 root_hash tree_config chunks description = with_metadata chunks (
      f.to_json (record {
        root_hash = root_hash;
        tree_config = tree_config;
        created_at = f.now;
        description = description;
        total_chunk_data_bytes = length (chunk_data chunks);
      }))

  -- A content block at an offset of the file, checked by its tag and its checksum.
  unfoldable pub read_block : Bytes → ℕ → ℕ → String → String → Exec Bytes Bytes
  read_block file offset tag mismatch context = do
    envelope ← (λ rest. read_envelope f.order (drop offset file))
    reject (not (envelope.tag == tag)) (invalid_file_format mismatch)
    content ← read_exact envelope.content_length
    reject (not (f.calculate_crc32 content == envelope.content_checksum))
        (checksum_mismatch context)
    pure content

  unfoldable pub read_entries : ℕ → Exec Bytes (List ChunkIndexEntryV2)
  unfolding read_index_entry
  read_entries zero = pure []
  read_entries (suc n) = do e ← read_index_entry f.order; es ← read_entries n; pure (e ∷ es)

  unfoldable pub read_index : Bytes → Result (List ChunkIndexEntryV2)
  unfolding read_entries
  read_index content = ((do n ← f.order.read_u32; read_entries n) content).0

  unfoldable pub verify_eof : Bytes → ℕ → EofBlockV2 → Exec Bytes (Unit {0})
  verify_eof file offset eof = do
    reject (not (eof.tag == tag_eof_block)) (invalid_file_format "EOF Block tag mismatch.")
    reject (not (bytes_eq eof.signature_repeated reversed_signature))
        (invalid_file_format "EOF block reversed signature mismatch.")
    elim eof.overall_file_checksum [
      | none ↦ fail (checksum_mismatch "Overall file content checksum missing in file but expected")
      | some checksum ↦
          reject (not (bytes_eq (f.calculate_blake3_hash (take offset file)) checksum))
            (checksum_mismatch "Overall file content")
    ]

  unfoldable pub check_eof : Bytes → ℕ → Exec Bytes (Unit {0})
  check_eof file offset = do
    eof ← (λ rest. read_eof f.order true (drop offset file))
    verify_eof file offset eof

  unfoldable pub read_prly_tree_v2 :
      Bytes → Exec Bytes (Option Hash × TreeConfig × Chunks × Option String)
  read_prly_tree_v2 file = do
    header ←
        (λ rest. map_err (invalid_file_format "Failed to read header") (read_header f.order file))
    reject (not (bytes_eq header.signature file_signature_v2))
        (invalid_file_format "Invalid signature")
    reject (not (header.version == format_version_v2)) (invalid_file_format "Unsupported version")
    reject (ltb (length file) header.offset_eof)
        (invalid_file_format "EOF offset in header is out of bounds.")
    index ←
        read_block file header.offset_chunk_index tag_chunk_index_block
          "Chunk Index Block tag mismatch" "Chunk Index Block"
    entries ← lift (read_index index)
    json ←
        read_block file header.offset_metadata tag_metadata_block "Metadata Block tag mismatch"
          "Metadata Block"
    metadata ← lift (option_or (deserialization "metadata") (f.from_json json))
    chunks ← lift (read_chunks file entries [])
    check_eof file header.offset_eof
    pure (metadata.root_hash, metadata.tree_config, chunks, metadata.description)
