-- ===== src/Format.antt =====
-- src/store/format_v2.rs: the fixed blocks of a file in format 2. A writer appends to the bytes
-- that it has, a reader takes bytes from the front of those that are left. The integers of the
-- crate `byteorder` are a parameter.
pub mod RoundTrip
use prolly_gunna.Prelude.{
  ℕ, ◌+◌, ◌<◌, ◌^◌, Bool, true, false, Option, none, some, List, [], ◌∷◌, ◌++◌, ◌≡◌, ltb, length,
  take, drop, if◌then◌else◌,
}
use prolly_gunna.Prelude.Bytes.{Bytes}
use prolly_gunna.Errors.{Result, ok, err, Exec, pure, fail, ◌>>=◌, ◌>>◌, io_error}

-- What `byteorder` writes for an integer, big end first, and how it reads it.
pub record ByteOrder : Type 0 where
  pub bytes_u32 : ℕ → Bytes
  pub bytes_u64 : ℕ → Bytes
  pub read_u32 : Exec Bytes ℕ
  pub read_u64 : Exec Bytes ℕ

-- An integer in range takes four or eight bytes, and is read as it was written.
pub record IsByteOrder (o : ByteOrder) : Type 0 where
  pub length_u32 : (n : ℕ) → length (o.bytes_u32 n) ≡ 4
  pub length_u64 : (n : ℕ) → length (o.bytes_u64 n) ≡ 8
  pub read_write_u32 :
      (n : ℕ) (rest : Bytes) → n < 2 ^ 32 → o.read_u32 (o.bytes_u32 n ++ rest) ≡ (ok n, rest)
  pub read_write_u64 :
      (n : ℕ) (rest : Bytes) → n < 2 ^ 64 → o.read_u64 (o.bytes_u64 n ++ rest) ≡ (ok n, rest)

-- `write_all` into a vector
unfoldable pub write_all : Bytes → Exec Bytes (Unit {0})
write_all b out = (ok tt, out ++ b)

unfoldable pub write_u8 : ℕ → Exec Bytes (Unit {0})
write_u8 n out = (ok tt, out ++ (n ∷ []))

-- `read_exact` fails when there are too few bytes.
unfoldable pub read_exact : ℕ → Exec Bytes Bytes
read_exact n rest =
    if ltb (length rest) n then (err io_error, []) else (ok (take n rest), drop n rest)

unfoldable pub read_u8 : Exec Bytes ℕ
read_u8 [] = (err io_error, [])
read_u8 (b ∷ rest) = (ok b, rest)

-- "PRLYTRV2"
abbrev pub file_signature_v2 : Bytes
file_signature_v2 = 80 ∷ 82 ∷ 76 ∷ 89 ∷ 84 ∷ 82 ∷ 86 ∷ 50 ∷ []

abbrev pub format_version_v2 : ℕ
format_version_v2 = 2

abbrev pub tag_chunk_index_block : ℕ
tag_chunk_index_block = 32

abbrev pub tag_metadata_block : ℕ
tag_metadata_block = 1

abbrev pub tag_eof_block : ℕ
tag_eof_block = 255

abbrev pub chunk_hash_size : ℕ
chunk_hash_size = 32

abbrev pub blake3_checksum_size : ℕ
blake3_checksum_size = 32

pub record FileHeaderV2 : Type 0 where
  pub signature : Bytes
  pub version : ℕ
  pub header_flags : ℕ
  pub offset_metadata : ℕ
  pub offset_chunk_index : ℕ
  pub offset_eof : ℕ
  pub reserved : Bytes

pub record ChunkIndexEntryV2 : Type 0 where
  pub hash : Bytes
  pub offset : ℕ
  pub len : ℕ
  pub chunk_type_flags : ℕ

pub record EofBlockV2 : Type 0 where
  pub tag : ℕ
  pub offset_metadata_repeated : ℕ
  pub offset_chunk_index_repeated : ℕ
  pub signature_repeated : Bytes
  pub overall_file_checksum : Option Bytes

pub record ContentBlockEnvelope : Type 0 where
  pub tag : ℕ
  pub content_length : ℕ
  pub content_checksum : ℕ

unfoldable pub new_header : ℕ → ℕ → ℕ → FileHeaderV2
new_header offset_metadata offset_chunk_index offset_eof = record {
  signature = file_signature_v2;
  version = format_version_v2;
  header_flags = 0;
  offset_metadata = offset_metadata;
  offset_chunk_index = offset_chunk_index;
  offset_eof = offset_eof;
  reserved = 0 ∷ 0 ∷ 0 ∷ 0 ∷ 0 ∷ 0 ∷ 0 ∷ 0 ∷ [];
}

abbrev pub header_size : ℕ
header_size = 8 + 1 + 1 + 8 + 8 + 8 + 8

abbrev pub envelope_size : ℕ
envelope_size = 1 + 4 + 4

unfoldable pub read_checksum : Bool → Exec Bytes (Option Bytes)
unfolding read_exact
read_checksum true = do checksum ← read_exact blake3_checksum_size; pure (some checksum)
read_checksum false = pure none

unfoldable pub write_checksum : Option Bytes → Exec Bytes (Unit {0})
unfolding write_all
write_checksum none = pure tt
write_checksum (some checksum) = write_all checksum

module _ (o : ByteOrder) where
  abbrev pub write_u32 : ℕ → Exec Bytes (Unit {0})
  write_u32 n = write_all (o.bytes_u32 n)

  abbrev pub write_u64 : ℕ → Exec Bytes (Unit {0})
  write_u64 n = write_all (o.bytes_u64 n)

  unfoldable pub write_header : FileHeaderV2 → Exec Bytes (Unit {0})
  unfolding write_all write_u8
  write_header h = do
    write_all h.signature
    write_u8 h.version
    write_u8 h.header_flags
    write_u64 h.offset_metadata
    write_u64 h.offset_chunk_index
    write_u64 h.offset_eof
    write_all h.reserved

  unfoldable pub read_header : Exec Bytes FileHeaderV2
  unfolding read_exact read_u8
  read_header = do
    signature ← read_exact 8
    version ← read_u8
    header_flags ← read_u8
    offset_metadata ← o.read_u64
    offset_chunk_index ← o.read_u64
    offset_eof ← o.read_u64
    reserved ← read_exact 8
    pure (record {
      signature = signature;
      version = version;
      header_flags = header_flags;
      offset_metadata = offset_metadata;
      offset_chunk_index = offset_chunk_index;
      offset_eof = offset_eof;
      reserved = reserved;
    })

  unfoldable pub write_index_entry : ChunkIndexEntryV2 → Exec Bytes (Unit {0})
  unfolding write_all write_u8
  write_index_entry e = do
    write_all e.hash
    write_u64 e.offset
    write_u32 e.len
    write_u8 e.chunk_type_flags

  unfoldable pub read_index_entry : Exec Bytes ChunkIndexEntryV2
  unfolding read_exact read_u8
  read_index_entry = do
    hash ← read_exact chunk_hash_size
    offset ← o.read_u64
    len ← o.read_u32
    chunk_type_flags ← read_u8
    pure (record { hash = hash; offset = offset; len = len; chunk_type_flags = chunk_type_flags })

  unfoldable pub write_eof : EofBlockV2 → Exec Bytes (Unit {0})
  unfolding write_all write_u8 write_checksum
  write_eof e = do
    write_u8 e.tag
    write_u64 e.offset_metadata_repeated
    write_u64 e.offset_chunk_index_repeated
    write_all e.signature_repeated
    write_checksum e.overall_file_checksum

  unfoldable pub read_eof : Bool → Exec Bytes EofBlockV2
  unfolding read_exact read_u8 read_checksum
  read_eof has_overall_checksum = do
    tag ← read_u8
    offset_metadata_repeated ← o.read_u64
    offset_chunk_index_repeated ← o.read_u64
    signature_repeated ← read_exact 8
    overall_file_checksum ← read_checksum has_overall_checksum
    pure (record {
      tag = tag;
      offset_metadata_repeated = offset_metadata_repeated;
      offset_chunk_index_repeated = offset_chunk_index_repeated;
      signature_repeated = signature_repeated;
      overall_file_checksum = overall_file_checksum;
    })

  unfoldable pub write_envelope : ContentBlockEnvelope → Exec Bytes (Unit {0})
  unfolding write_all write_u8
  write_envelope e = do write_u8 e.tag; write_u32 e.content_length; write_u32 e.content_checksum

  unfoldable pub read_envelope : Exec Bytes ContentBlockEnvelope
  unfolding read_u8
  read_envelope = do
    tag ← read_u8
    content_length ← o.read_u32
    content_checksum ← o.read_u32
    pure
        (record { tag = tag; content_length = content_length; content_checksum = content_checksum })
