-- ===== src/Format/RoundTrip.antt =====
-- Each block of a file is read as it was written, whatever follows it.
use prolly_gunna.Prelude.{
  ℕ, ◌<◌, ◌^◌, Bool, true, false, Option, none, some, [], ◌∷◌, ◌++◌, ◌≡◌, refl, ap, arith, ltb,
  length, take, drop, append_assoc,
}
use prolly_gunna.Prelude.Bytes.{Bytes}
use prolly_gunna.Errors.{ok}
use prolly_gunna.Tree.Holds.Children.{length-append}
use prolly_gunna.Format.{
  ByteOrder, IsByteOrder, write_all, write_u8, read_exact, read_u8, FileHeaderV2, ChunkIndexEntryV2,
  EofBlockV2, ContentBlockEnvelope, write_header, read_header, write_index_entry, read_index_entry,
  write_eof, read_eof, read_checksum, write_checksum, write_envelope, read_envelope, header_size,
  envelope_size,
}

pub take-append : (b rest : Bytes) → take (length b) (b ++ rest) ≡ b
take-append [] rest = refl
take-append (c ∷ b) rest = ap (λ (l : Bytes). c ∷ l) (take-append b rest)

pub drop-append : (b rest : Bytes) → drop (length b) (b ++ rest) ≡ rest
drop-append [] rest = refl
drop-append (c ∷ b) rest = drop-append b rest

read_whole : (b rest : Bytes) → read_exact (length b) (b ++ rest) ≡ (ok b, rest)
unfolding read_exact
read_whole b rest =
    let long : ltb (length (b ++ rest)) (length b) ≡ false =
      ground (arith, length-append {0} b rest) in
    rw (long, take-append b rest, drop-append b rest)

-- `read_exact` takes what was written with that length.
pub read_exact_lem :
    (n : ℕ) (b rest : Bytes) → length b ≡ n → read_exact n (b ++ rest) ≡ (ok b, rest)
read_exact_lem n b rest e = rw⁻¹ e (read_whole b rest)

-- The ranges of the fields, which the types of the source fix.
pub record IsHeader (h : FileHeaderV2) : Type 0 where
  pub signature : length h.signature ≡ 8
  pub offset_metadata : h.offset_metadata < 2 ^ 64
  pub offset_chunk_index : h.offset_chunk_index < 2 ^ 64
  pub offset_eof : h.offset_eof < 2 ^ 64
  pub reserved : length h.reserved ≡ 8

pub record IsIndexEntry (e : ChunkIndexEntryV2) : Type 0 where
  pub hash : length e.hash ≡ 32
  pub offset : e.offset < 2 ^ 64
  pub len : e.len < 2 ^ 32

abbrev pub IsChecksum : Option Bytes → Type 0
IsChecksum none = Unit
IsChecksum (some checksum) = length checksum ≡ 32

pub record IsEofBlock (e : EofBlockV2) : Type 0 where
  pub offset_metadata : e.offset_metadata_repeated < 2 ^ 64
  pub offset_chunk_index : e.offset_chunk_index_repeated < 2 ^ 64
  pub signature : length e.signature_repeated ≡ 8
  pub checksum : IsChecksum e.overall_file_checksum

pub record IsEnvelope (e : ContentBlockEnvelope) : Type 0 where
  pub content_length : e.content_length < 2 ^ 32
  pub content_checksum : e.content_checksum < 2 ^ 32

abbrev pub is_some : Option Bytes → Bool
is_some none = false
is_some (some b) = true

checksum_bytes : Option Bytes → Bytes
checksum_bytes none = []
checksum_bytes (some checksum) = checksum

write_checksum_lem :
    (c : Option Bytes) (out rest : Bytes)
    → (write_checksum c out).1 ++ rest ≡ out ++ (checksum_bytes c ++ rest)
unfolding write_checksum write_all checksum_bytes
write_checksum_lem none out rest = refl
write_checksum_lem (some checksum) out rest = append_assoc out checksum rest

read_checksum_lem :
    (c : Option Bytes) (rest : Bytes)
    → IsChecksum c
    → read_checksum (is_some c) (checksum_bytes c ++ rest) ≡ (ok c, rest)
unfolding read_checksum checksum_bytes
read_checksum_lem none rest bound = refl
read_checksum_lem (some checksum) rest bound = rw (read_exact_lem 32 checksum rest bound)

module _ (o : ByteOrder) (lawful : IsByteOrder o) where
  header_bytes : FileHeaderV2 → Bytes → Bytes
  header_bytes h rest =
      h.signature
      ++ (h.version
          ∷ h.header_flags
          ∷ (o.bytes_u64 h.offset_metadata
              ++ (o.bytes_u64 h.offset_chunk_index
                  ++ (o.bytes_u64 h.offset_eof ++ (h.reserved ++ rest)))))

  write_header_lem :
      (h : FileHeaderV2) (rest : Bytes) → (write_header o h []).1 ++ rest ≡ header_bytes h rest
  unfolding write_header write_all write_u8 header_bytes
  write_header_lem h rest = simp append_assoc

  -- A file header is read as it was written, whatever follows it.
  pub read_header-write_header :
      (h : FileHeaderV2) (rest : Bytes)
      → IsHeader h
      → read_header o ((write_header o h []).1 ++ rest) ≡ (ok h, rest)
  unfolding read_header read_u8 header_bytes
  read_header-write_header h rest bounds = rw (
    write_header_lem,
    read_exact_lem 8 h.signature _ bounds.signature,
    lawful.read_write_u64 h.offset_metadata _ bounds.offset_metadata,
    lawful.read_write_u64 h.offset_chunk_index _ bounds.offset_chunk_index,
    lawful.read_write_u64 h.offset_eof _ bounds.offset_eof,
    read_exact_lem 8 h.reserved rest bounds.reserved,
  )

  index_entry_bytes : ChunkIndexEntryV2 → Bytes → Bytes
  index_entry_bytes e rest =
      e.hash ++ (o.bytes_u64 e.offset ++ (o.bytes_u32 e.len ++ (e.chunk_type_flags ∷ rest)))

  write_index_entry_lem :
      (e : ChunkIndexEntryV2) (rest : Bytes)
      → (write_index_entry o e []).1 ++ rest ≡ index_entry_bytes e rest
  unfolding write_index_entry write_all write_u8 index_entry_bytes
  write_index_entry_lem e rest = simp append_assoc

  -- An entry of the chunk index is read as it was written, whatever follows it.
  pub read_index_entry-write_index_entry :
      (e : ChunkIndexEntryV2) (rest : Bytes)
      → IsIndexEntry e
      → read_index_entry o ((write_index_entry o e []).1 ++ rest) ≡ (ok e, rest)
  unfolding read_index_entry read_u8 index_entry_bytes
  read_index_entry-write_index_entry e rest bounds = rw (
    write_index_entry_lem,
    read_exact_lem 32 e.hash _ bounds.hash,
    lawful.read_write_u64 e.offset _ bounds.offset,
    lawful.read_write_u32 e.len _ bounds.len,
  )

  envelope_bytes : ContentBlockEnvelope → Bytes → Bytes
  envelope_bytes e rest =
      e.tag ∷ (o.bytes_u32 e.content_length ++ (o.bytes_u32 e.content_checksum ++ rest))

  write_envelope_lem :
      (e : ContentBlockEnvelope) (rest : Bytes)
      → (write_envelope o e []).1 ++ rest ≡ envelope_bytes e rest
  unfolding write_envelope write_all write_u8 envelope_bytes
  write_envelope_lem e rest = simp append_assoc

  -- The envelope of a content block is read as it was written, whatever follows it.
  pub read_envelope-write_envelope :
      (e : ContentBlockEnvelope) (rest : Bytes)
      → IsEnvelope e
      → read_envelope o ((write_envelope o e []).1 ++ rest) ≡ (ok e, rest)
  unfolding read_envelope read_u8 envelope_bytes
  read_envelope-write_envelope e rest bounds = rw (
    write_envelope_lem,
    lawful.read_write_u32 e.content_length _ bounds.content_length,
    lawful.read_write_u32 e.content_checksum rest bounds.content_checksum,
  )

  eof_bytes : EofBlockV2 → Bytes → Bytes
  eof_bytes e rest =
      e.tag
      ∷ (o.bytes_u64 e.offset_metadata_repeated
          ++ (o.bytes_u64 e.offset_chunk_index_repeated
              ++ (e.signature_repeated ++ (checksum_bytes e.overall_file_checksum ++ rest))))

  write_eof_lem : (e : EofBlockV2) (rest : Bytes) → (write_eof o e []).1 ++ rest ≡ eof_bytes e rest
  unfolding write_eof write_all write_u8 eof_bytes
  write_eof_lem e rest = simp (write_checksum_lem, append_assoc)

  -- The last block of a file is read as it was written by a reader that is told whether it has a
  -- checksum.
  pub read_eof-write_eof :
      (e : EofBlockV2) (rest : Bytes)
      → IsEofBlock e
      → read_eof o (is_some e.overall_file_checksum) ((write_eof o e []).1 ++ rest) ≡ (ok e, rest)
  unfolding read_eof read_u8 eof_bytes
  read_eof-write_eof e rest bounds = rw (
    write_eof_lem,
    lawful.read_write_u64 e.offset_metadata_repeated _ bounds.offset_metadata,
    lawful.read_write_u64 e.offset_chunk_index_repeated _ bounds.offset_chunk_index,
    read_exact_lem 8 e.signature_repeated _ bounds.signature,
    read_checksum_lem e.overall_file_checksum rest bounds.checksum,
  )

  -- A header takes the bytes that `FileHeaderV2::size` says, and an envelope those that
  -- `ContentBlockEnvelope::size` says.
  pub length-write :
      (h : FileHeaderV2) (e : ContentBlockEnvelope)
      → IsHeader h
      → (length (write_header o h []).1 ≡ header_size)
        × (length (write_envelope o e []).1 ≡ envelope_size)
  unfolding write_header write_envelope write_all write_u8
  length-write h e bounds = (
    (simp (length-append {0} {A = ℕ}, bounds.signature, bounds.reserved, lawful.length_u64)),
    (simp (length-append {0} {A = ℕ}, lawful.length_u32)),
  )
