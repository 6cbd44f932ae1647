-- ===== src/FileIo/Integrity.antt =====
-- What the reader of a file has checked when it returns.
use prolly_gunna.Prelude.{
  ℕ, String, ◌≤◌, Bool, true, false, not, Option, some, [], ◌≡◌, refl, arith, Option-cases, inl,
  inr, ltb, ◌==◌, length, take, drop,
}
use prolly_gunna.Prelude.Bytes.{Bytes, bytes_eq, bytes_eq_iff}
use prolly_gunna.Errors.{
  ProllyError, Result, ok, err, panic, out_of_fuel, Exec, and_then, invalid_file_format,
  deserialization,
}
use prolly_gunna.Node.{Hash, TreeConfig}
use prolly_gunna.Format.{
  FileHeaderV2, EofBlockV2, read_header, read_eof, file_signature_v2, format_version_v2,
  tag_eof_block, tag_chunk_index_block, tag_metadata_block,
}
use prolly_gunna.FileIo.{
  FileExternals, Chunks, read_block, read_index, read_chunks, option_or, reversed_signature, reject,
  map_err, verify_eof, check_eof, read_prly_tree_v2,
}

-- A run that returns a value shows the property.
record Ensures {S A : Type 0} (P : Type 0) (r : Result A × S) : Type 0 where
  holds : (a : A) (s : S) → r ≡ (ok a, s) → P

Ensures-and_then :
    {S A B P : Type 0} (r : Result A × S) (k : A → Exec S B)
    → ((a : A) (s : S) → r ≡ (ok a, s) → Ensures P (k a s))
    → Ensures P (and_then r k)
Ensures-and_then (ok a, s) k h = h a s refl
Ensures-and_then (err x, s) k h = record { holds = λ b s' e. absurd (let no : ⊥ = cc in no) }
Ensures-and_then (panic, s) k h = record { holds = λ b s' e. absurd (let no : ⊥ = cc in no) }
Ensures-and_then (out_of_fuel, s) k h = record { holds = λ b s' e. absurd (let no : ⊥ = cc in no) }

Ensures-reject :
    {S B P : Type 0} (t : Bool) (e : ProllyError) (k : Exec S B) (s : S)
    → (t ≡ false → Ensures P (k s))
    → Ensures P (and_then (reject t e s) (λ _. k))
Ensures-reject true e k s h = record { holds = λ b s' e'. absurd (let no : ⊥ = cc in no) }
Ensures-reject false e k s h = h refl

map_err_ok :
    {S A : Type 0} (e : ProllyError) (r : Result A × S) (a : A) (s : S)
    → map_err e r ≡ (ok a, s)
    → r ≡ (ok a, s)
map_err_ok e (ok a', s') a s h = h
map_err_ok e (err x, s') a s h = absurd (let no : ⊥ = cc in no)
map_err_ok e (panic, s') a s h = absurd (let no : ⊥ = cc in no)
map_err_ok e (out_of_fuel, s') a s h = absurd (let no : ⊥ = cc in no)

same_bytes : (a b : Bytes) → not (bytes_eq a b) ≡ false → a ≡ b
same_bytes a b e = ground (arith, e, (bytes_eq_iff a b).0)

same_number : (a b : ℕ) → not (a == b) ≡ false → a ≡ b
same_number a b e = ground (arith, e)

not_below : (a b : ℕ) → ltb b a ≡ false → a ≤ b
not_below a b e = ground (arith, e)

module _ (f : FileExternals) (file : Bytes) where
  -- The last block at the offset is whole, and its checksum is that of what stands before it.
  pub record Sealed (offset : ℕ) : Type 0 where
    pub eof : EofBlockV2
    pub rest : Bytes
    pub reads : read_eof f.order true (drop offset file) ≡ (ok eof, rest)
    pub tag : eof.tag ≡ tag_eof_block
    pub signature : eof.signature_repeated ≡ reversed_signature
    pub checksum : eof.overall_file_checksum ≡ some (f.calculate_blake3_hash (take offset file))

  verify_eof_ok :
      (offset : ℕ) (eof : EofBlockV2) (s s' : Bytes)
      → verify_eof f file offset eof s ≡ (ok tt, s')
      → (eof.tag ≡ tag_eof_block)
        × (eof.signature_repeated ≡ reversed_signature)
        × (eof.overall_file_checksum ≡ some (f.calculate_blake3_hash (take offset file)))
  unfolding verify_eof
  verify_eof_ok offset eof s s' h = elim (Option-cases eof.overall_file_checksum) [
    | inl e ↦ absurd (ground (arith, e, h))
    | inr (c, e) ↦ ground (
      arith,
      e,
      h,
      (bytes_eq_iff eof.signature_repeated reversed_signature).0,
      (bytes_eq_iff (f.calculate_blake3_hash (take offset file)) c).0,
    )
  ]

  check_eof_ok :
      (offset : ℕ) (s s' : Bytes) → check_eof f file offset s ≡ (ok tt, s') → Sealed offset
  unfolding check_eof
  check_eof_ok offset s s' h = go (read_eof f.order true (drop offset file)) refl h
    where
      go :
          (r : Result EofBlockV2 × Bytes)
          → read_eof f.order true (drop offset file) ≡ r
          → and_then r (verify_eof f file offset) ≡ (ok tt, s')
          → Sealed offset
      go (ok eof, rest) e h' =
          let (tag, signature, checksum) = verify_eof_ok offset eof rest s' h' in
          record {
            eof = eof;
            rest = rest;
            reads = e;
            tag = tag;
            signature = signature;
            checksum = checksum;
          }
      go (err x, rest) e h' = absurd (let no : ⊥ = cc in no)
      go (panic, rest) e h' = absurd (let no : ⊥ = cc in no)
      go (out_of_fuel, rest) e h' = absurd (let no : ⊥ = cc in no)

  -- The header has the signature and the version of the format, and the file is sealed up to the
  -- offset that it gives.
  pub record Accepted : Type 0 where
    pub header : FileHeaderV2
    pub rest : Bytes
    pub reads : read_header f.order file ≡ (ok header, rest)
    pub signature : header.signature ≡ file_signature_v2
    pub version : header.version ≡ format_version_v2
    pub within : header.offset_eof ≤ length file
    pub sealed : Sealed header.offset_eof

  abbrev bad_header : ProllyError
  bad_header = invalid_file_format "Failed to read header"

  accepts : (s : Bytes) → Ensures Accepted (read_prly_tree_v2 f file s)
  unfolding read_prly_tree_v2
  accepts s =
      Ensures-and_then (map_err bad_header (read_header f.order file)) _ λ header rest reads.
        Ensures-reject (not (bytes_eq header.signature file_signature_v2)) _ _ _ λ signature.
          Ensures-reject (not (header.version == format_version_v2)) _ _ _ λ version.
            Ensures-reject (ltb (length file) header.offset_eof) _ _ _ λ within.
              Ensures-and_then
                (read_block f file header.offset_chunk_index tag_chunk_index_block
                  "Chunk Index Block tag mismatch" "Chunk Index Block" rest)
                _
                λ index s1 e1.
                  Ensures-and_then (read_index f index, s1) _
                    λ entries s2 e2.
                      Ensures-and_then
                        (read_block f file header.offset_metadata tag_metadata_block
                          "Metadata Block tag mismatch" "Metadata Block" s2)
                        _
                        λ json s3 e3.
                          Ensures-and_then
                            (option_or (deserialization "metadata") (f.from_json json), s3) _
                            λ metadata s4 e4.
                              Ensures-and_then (read_chunks file entries [], s4) _
                                λ chunks s5 e5.
                                  Ensures-and_then (check_eof f file header.offset_eof s5) _
                                    λ u s6 e6. record {
                                      holds = λ result s7 e7. record {
                                        header = header;
                                        rest = rest;
                                        reads =
                                            map_err_ok bad_header (read_header f.order file) header
                                              rest reads;
                                        signature =
                                            same_bytes header.signature file_signature_v2 signature;
                                        version =
                                            same_number header.version format_version_v2 version;
                                        within = not_below header.offset_eof (length file) within;
                                        sealed = check_eof_ok header.offset_eof s5 s6 e6;
                                      };
                                    }

  -- A file that the reader accepts has a header with the signature and the version of the format,
  -- whose end offset lies within the file; at that offset stands a last block with its tag, the
  -- reversed signature, and the hash of all the bytes before it.
  pub read_prly_tree_v2-Accepted :
      (result : Option Hash × TreeConfig × Chunks × Option String) (s s' : Bytes)
      → read_prly_tree_v2 f file s ≡ (ok result, s')
      → Accepted
  read_prly_tree_v2-Accepted result s s' e = (accepts s).holds result s' e
