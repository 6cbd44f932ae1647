-- ===== src/FileIo/Blocks.antt =====
-- The blocks of a file are read back from the offsets at which the writer puts them.
use prolly_gunna.Prelude.{
  ℕ, ◌%◌, ◌<◌, ◌^◌, String, false, not, ◌==◌, [], ◌++◌, append_assoc, ◌≡◌, sym, ◌∙◌, ap, arith,
  length, drop,
}
use prolly_gunna.Prelude.Bytes.{Bytes}
use prolly_gunna.Errors.{ok}
use prolly_gunna.Tree.Holds.Children.{length-append}
use prolly_gunna.Format.{
  ContentBlockEnvelope, write_header, write_eof, write_envelope, read_envelope, write_all,
  tag_chunk_index_block, tag_metadata_block,
}
use prolly_gunna.Format.RoundTrip.{read_envelope-write_envelope, read_exact_lem}
use prolly_gunna.FileIo.{
  FileExternals, block, read_block, final_header, eof_block, assemble,
  offset_chunk_index_block_envelope_start, offset_metadata_block_envelope_start,
}
use prolly_gunna.FileIo.Written.{IsFileExternals, drop_at, length-header}

cut_before : (h c a b l : Bytes) → (h ++ (c ++ (a ++ b))) ++ l ≡ (h ++ c) ++ (a ++ (b ++ l))
cut_before h c a b l = simp append_assoc

cut_after : (h c a b l : Bytes) → (h ++ (c ++ (a ++ b))) ++ l ≡ ((h ++ c) ++ a) ++ (b ++ l)
cut_after h c a b l = simp append_assoc

module _ (f : FileExternals) (lawful : IsFileExternals f) where
  envelope : ℕ → Bytes → ContentBlockEnvelope
  envelope tag content = record {
    tag = tag;
    content_length = length content % 2 ^ 32;
    content_checksum = f.calculate_crc32 content;
  }

  block_lem :
      (tag : ℕ) (content more : Bytes)
      → (block f tag content []).1 ++ more
        ≡ (write_envelope f.order (envelope tag content) []).1 ++ (content ++ more)
  unfolding block write_envelope write_all envelope
  block_lem tag content more =
      append_assoc (write_envelope f.order (envelope tag content) []).1 content more

  -- A block that stands at an offset is read from there.
  pub read_block-block :
      (file : Bytes) (offset tag : ℕ) (mismatch context : String) (content more s : Bytes)
      → drop offset file ≡ (block f tag content []).1 ++ more
      → length content < 2 ^ 32
      → read_block f file offset tag mismatch context s ≡ (ok content, more)
  unfolding read_block envelope
  read_block-block file offset tag mismatch context content more s at small =
      let whole : length content % 2 ^ 32 ≡ length content = omega arith in
      let same : not (tag == tag) ≡ false = ground arith in
      let sum : not (f.calculate_crc32 content == f.calculate_crc32 content) ≡ false =
        ground arith in
      let begins =
        ap (read_envelope f.order) (at ∙ block_lem tag content more)
        ∙ read_envelope-write_envelope f.order lawful.order (envelope tag content) (content ++ more)
            (record {
              content_length = omega (arith, small);
              content_checksum = lawful.crc content;
            }) in
      rw (begins, same, read_exact_lem (length content % 2 ^ 32) content more (sym whole), sum)

  module _ (c i m : Bytes) where
    -- The index stands at its offset, before the metadata and the last block.
    pub index_at :
        drop (offset_chunk_index_block_envelope_start f c) (assemble f c i m)
        ≡ (block f tag_chunk_index_block i []).1
          ++ ((block f tag_metadata_block m []).1 ++ (write_eof f.order (eof_block f c i m) []).1)
    index_at =
        let header = (write_header f.order (final_header f c i m) []).1 in
        let index = (block f tag_chunk_index_block i []).1 in
        let metadata = (block f tag_metadata_block m []).1 in
        let last = (write_eof f.order (eof_block f c i m) []).1 in
        ap (drop (offset_chunk_index_block_envelope_start f c))
          (cut_before header c index metadata last)
        ∙ drop_at (offset_chunk_index_block_envelope_start f c) (header ++ c)
            (index ++ (metadata ++ last))
            (omega (arith, length-append {0} header c, length-header f lawful c i m))

    -- The metadata stands at its offset, before the last block.
    pub metadata_at :
        drop (offset_metadata_block_envelope_start f c i) (assemble f c i m)
        ≡ (block f tag_metadata_block m []).1 ++ (write_eof f.order (eof_block f c i m) []).1
    metadata_at =
        let header = (write_header f.order (final_header f c i m) []).1 in
        let index = (block f tag_chunk_index_block i []).1 in
        let metadata = (block f tag_metadata_block m []).1 in
        let last = (write_eof f.order (eof_block f c i m) []).1 in
        ap (drop (offset_metadata_block_envelope_start f c i))
          (cut_after header c index metadata last)
        ∙ drop_at (offset_metadata_block_envelope_start f c i) ((header ++ c) ++ index)
            (metadata ++ last)
            (omega (
              arith,
              length-append {0} (header ++ c) index,
              length-append {0} header c,
              length-header f lawful c i m,
            ))
