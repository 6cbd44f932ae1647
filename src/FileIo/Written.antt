-- ===== src/FileIo/Written.antt =====
-- Where the parts of a written file stand, and how its header and its last block are read.
use prolly_gunna.Prelude.{
  ℕ, ◌<◌, ◌^◌, true, some, [], ◌++◌, append_assoc, append-nil, ◌≡◌, refl, arith, length, take, drop,
}
use prolly_gunna.Prelude.Bytes.{Bytes}
use prolly_gunna.Errors.{ok}
use prolly_gunna.Tree.Holds.Children.{length-append}
use prolly_gunna.Format.{
  IsByteOrder, new_header, header_size, write_header, write_all, write_u8, read_header, write_eof,
  read_eof, tag_chunk_index_block, tag_metadata_block,
}
use prolly_gunna.Format.RoundTrip.{
  IsHeader, read_header-write_header, read_eof-write_eof, take-append, drop-append,
}
use prolly_gunna.FileIo.{
  FileExternals, MetadataContentV2, block, offset_eof_block_begins, final_header,
  content_to_checksum, eof_block,
}

-- Integers and metadata are read as they were written, a checksum of `crc32fast` takes 32 bits, and
-- a hash of `blake3` 32 bytes.
pub record IsFileExternals (f : FileExternals) : Type 0 where
  pub order : IsByteOrder f.order
  pub crc : (b : Bytes) → f.calculate_crc32 b < 2 ^ 32
  pub json : (m : MetadataContentV2) (b : Bytes) → f.to_json m ≡ some b → f.from_json b ≡ some m
  pub hash_length : (b : Bytes) → length (f.calculate_blake3_hash b) ≡ 32

pub take_at : (n : ℕ) (b rest : Bytes) → length b ≡ n → take n (b ++ rest) ≡ b
take_at n b rest e = rw⁻¹ e (take-append b rest)

pub drop_at : (n : ℕ) (b rest : Bytes) → length b ≡ n → drop n (b ++ rest) ≡ rest
drop_at n b rest e = rw⁻¹ e (drop-append b rest)

module _ (f : FileExternals) (lawful : IsFileExternals f) (c i m : Bytes) where
  final_header-IsHeader : offset_eof_block_begins f c i m < 2 ^ 64 → IsHeader (final_header f c i m)
  unfolding new_header
  final_header-IsHeader bound = record {
    signature = refl;
    offset_metadata = omega arith;
    offset_chunk_index = omega arith;
    offset_eof = bound;
    reserved = refl;
  }

  pub length-header : length (write_header f.order (final_header f c i m) []).1 ≡ header_size
  unfolding write_header write_all write_u8 new_header
  length-header = simp (length-append {0} {A = ℕ}, lawful.order.length_u64)

  pub length-content : length (content_to_checksum f c i m) ≡ offset_eof_block_begins f c i m
  length-content =
      let index = (block f tag_chunk_index_block i []).1 in
      let metadata = (block f tag_metadata_block m []).1 in
      ground (
        arith,
        length-header,
        length-append (write_header f.order (final_header f c i m) []).1 (c ++ (index ++ metadata)),
        length-append c (index ++ metadata),
        length-append index metadata,
      )

  pub header_read :
      (rest : Bytes)
      → offset_eof_block_begins f c i m < 2 ^ 64
      → read_header f.order (content_to_checksum f c i m ++ rest) ≡ (
        ok (final_header f c i m),
        c
            ++ ((block f tag_chunk_index_block i []).1 ++ (block f tag_metadata_block m []).1)
            ++ rest,
      )
  header_read rest bound = rw (
    append_assoc (write_header f.order (final_header f c i m) []).1
        (c ++ ((block f tag_chunk_index_block i []).1 ++ (block f tag_metadata_block m []).1)) rest,
    read_header-write_header f.order lawful.order (final_header f c i m) _
        (final_header-IsHeader bound),
  )

  pub eof_read :
      offset_eof_block_begins f c i m < 2 ^ 64
      → read_eof f.order true (write_eof f.order (eof_block f c i m) []).1
        ≡ (ok (eof_block f c i m), [])
  eof_read bound =
      let read = read_eof-write_eof f.order lawful.order (eof_block f c i m) [] (record {
        offset_metadata = omega arith;
        offset_chunk_index = omega arith;
        signature = refl;
        checksum = lawful.hash_length (content_to_checksum f c i m);
      }) in
      rw⁻¹ (append-nil (write_eof f.order (eof_block f c i m) []).1) read
