-- ===== src/Examples/Blocks.antt =====
-- The blocks of a file at concrete values.
use prolly_gunna.Prelude.{some, [], ◌∷◌, ◌++◌, ◌≡◌, refl, arith, length, true}
use prolly_gunna.Prelude.Bytes.{Bytes}
use prolly_gunna.Errors.{ok}
use prolly_gunna.Format.{
  FileHeaderV2, ChunkIndexEntryV2, EofBlockV2, ContentBlockEnvelope, file_signature_v2,
  tag_eof_block, tag_chunk_index_block, write_header, read_header, write_index_entry,
  read_index_entry, write_eof, read_eof, write_envelope, read_envelope, header_size, envelope_size,
}
use prolly_gunna.Format.RoundTrip.{
  IsHeader, IsEnvelope, read_header-write_header, read_index_entry-write_index_entry,
  read_eof-write_eof, read_envelope-write_envelope, length-write,
}
use prolly_gunna.Examples.BigEndian.{big_endian, big_endian-IsByteOrder}

abbrev header : FileHeaderV2
header = record {
  signature = file_signature_v2;
  version = 2;
  header_flags = 0;
  offset_metadata = 42;
  offset_chunk_index = 1000;
  offset_eof = 70000;
  reserved = 0 ∷ 0 ∷ 0 ∷ 0 ∷ 0 ∷ 0 ∷ 0 ∷ 0 ∷ [];
}

header-IsHeader : IsHeader header
header-IsHeader = record {
  signature = refl;
  offset_metadata = omega arith;
  offset_chunk_index = omega arith;
  offset_eof = omega arith;
  reserved = refl;
}

abbrev hash : Bytes
hash =
    1 ∷ 2 ∷ 3 ∷ 4 ∷ 5 ∷ 6 ∷ 7 ∷ 8 ∷ 9 ∷ 10 ∷ 11 ∷ 12 ∷ 13 ∷ 14 ∷ 15 ∷ 16 ∷ 17 ∷ 18 ∷ 19 ∷ 20 ∷ 21
    ∷ 22 ∷ 23 ∷ 24 ∷ 25 ∷ 26 ∷ 27 ∷ 28 ∷ 29 ∷ 30 ∷ 31 ∷ 32 ∷ []

abbrev entry : ChunkIndexEntryV2
entry = record { hash = hash; offset = 42; len = 300; chunk_type_flags = 1 }

abbrev envelope : ContentBlockEnvelope
envelope = record { tag = tag_chunk_index_block; content_length = 49; content_checksum = 123456 }

envelope-IsEnvelope : IsEnvelope envelope
envelope-IsEnvelope = record { content_length = omega arith; content_checksum = omega arith }

abbrev eof_block : EofBlockV2
eof_block = record {
  tag = tag_eof_block;
  offset_metadata_repeated = 42;
  offset_chunk_index_repeated = 1000;
  signature_repeated = file_signature_v2;
  overall_file_checksum = some hash;
}

read_header_example :
    read_header big_endian ((write_header big_endian header []).1 ++ (7 ∷ [])) ≡ (ok header, 7 ∷ [])
read_header_example =
    read_header-write_header big_endian big_endian-IsByteOrder header (7 ∷ []) header-IsHeader

read_index_entry_example :
    read_index_entry big_endian ((write_index_entry big_endian entry []).1 ++ (7 ∷ []))
    ≡ (ok entry, 7 ∷ [])
read_index_entry_example =
    read_index_entry-write_index_entry big_endian big_endian-IsByteOrder entry (7 ∷ [])
      (record { hash = refl; offset = omega arith; len = omega arith })

read_envelope_example :
    read_envelope big_endian ((write_envelope big_endian envelope []).1 ++ (7 ∷ []))
    ≡ (ok envelope, 7 ∷ [])
read_envelope_example =
    read_envelope-write_envelope big_endian big_endian-IsByteOrder envelope (7 ∷ [])
      envelope-IsEnvelope

read_eof_example :
    read_eof big_endian true ((write_eof big_endian eof_block []).1 ++ []) ≡ (ok eof_block, [])
read_eof_example = read_eof-write_eof big_endian big_endian-IsByteOrder eof_block [] (record {
  offset_metadata = omega arith;
  offset_chunk_index = omega arith;
  signature = refl;
  checksum = refl;
})

length-write_example :
    (length (write_header big_endian header []).1 ≡ header_size)
    × (length (write_envelope big_endian envelope []).1 ≡ envelope_size)
length-write_example =
    length-write big_endian big_endian-IsByteOrder header envelope header-IsHeader
