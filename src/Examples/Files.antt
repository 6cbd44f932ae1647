-- ===== src/Examples/Files.antt =====
-- A file with two chunks, written and read again, and its index.
use text.Mathlib.Text as Text
use text.Mathlib.TextEquality.{eq_iff}
use prolly_gunna.Prelude.{
  Option, Bool, true, false, ◌&&◌, ◌==◌, if◌then◌else◌, String, sym, ap, List, ℕ, ◌%◌, none, some,
  [], ◌∷◌, ◌≡◌, ◌<◌, ◌^◌, arith, refl, length,
}
use prolly_gunna.Prelude.Bytes.{Bytes, cmp, bytes_eq, bytes_eq_iff}
use prolly_gunna.Errors.{Result, ok, err, panic, out_of_fuel}
use prolly_gunna.Node.{Hash, TreeConfig}
use prolly_gunna.FileIo.{
  FileExternals, MetadataContentV2, Chunks, write_prly_tree_v2, read_prly_tree_v2, read_block,
  read_index, index_content, read_chunks, check_eof, verify_eof, block, with_metadata,
  index_entries,
}
use prolly_gunna.Format.{
  ChunkIndexEntryV2, write_header, write_envelope, new_header, write_eof, read_header,
  read_envelope, read_eof,
}
use prolly_gunna.FileIo.Index.{read_index-index_content}
use prolly_gunna.FileIo.Written.{IsFileExternals}
use prolly_gunna.FileIo.ChunkMap.{Distinct, find_chunk}
use prolly_gunna.FileIo.RoundTrip.{read_prly_tree_v2-write_prly_tree_v2}
use prolly_gunna.FileIo.Integrity.{Accepted, read_prly_tree_v2-Accepted}
use prolly_gunna.Examples.BigEndian.{big_endian, big_endian-IsByteOrder, read_u64}
use prolly_gunna.Examples.World.{narrow}

-- 32 bytes that begin with the given one.
abbrev digest : ℕ → Bytes
digest n =
    n ∷ 0 ∷ 0 ∷ 0 ∷ 0 ∷ 0 ∷ 0 ∷ 0 ∷ 0 ∷ 0 ∷ 0 ∷ 0 ∷ 0 ∷ 0 ∷ 0 ∷ 0 ∷ 0 ∷ 0 ∷ 0 ∷ 0 ∷ 0 ∷ 0 ∷ 0 ∷ 0
    ∷ 0 ∷ 0 ∷ 0 ∷ 0 ∷ 0 ∷ 0 ∷ 0 ∷ 0 ∷ []

abbrev metadata : MetadataContentV2
metadata = record {
  root_hash = some (digest 7);
  tree_config = narrow;
  created_at = "now";
  description = none;
  total_chunk_data_bytes = 5;
}

-- The JSON encoding of one value of the metadata; any other is refused.
abbrev is_root : Option Bytes → Bool
is_root none = false
is_root (some h) = bytes_eq h (digest 7)

abbrev is_none : Option String → Bool
is_none none = true
is_none (some s) = false

abbrev is_narrow : TreeConfig → Bool
is_narrow c =
    (c.target_fanout == narrow.target_fanout)
    && (c.min_fanout == narrow.min_fanout)
    && (c.cdc_min_size == narrow.cdc_min_size)
    && (c.cdc_avg_size == narrow.cdc_avg_size)
    && (c.cdc_max_size == narrow.cdc_max_size)
    && (c.max_inline_value_size == narrow.max_inline_value_size)

abbrev encode : MetadataContentV2 → Option Bytes
encode m =
    if is_root m.root_hash
      && is_narrow m.tree_config
      && Text.◌==◌ m.created_at "now"
      && is_none m.description
      && (m.total_chunk_data_bytes == 5)
    then some (1 ∷ 2 ∷ [])
    else none

is_root_lem : (o : Option Bytes) → is_root o ≡ true → o ≡ some (digest 7)
is_root_lem none e = absurd (let no : ⊥ = cc in no)
is_root_lem (some h) e = ap some ((bytes_eq_iff h (digest 7)).0 e)

is_none_lem : (o : Option String) → is_none o ≡ true → o ≡ none
is_none_lem none e = refl
is_none_lem (some s) e = absurd (let no : ⊥ = cc in no)

is_narrow_lem : (c : TreeConfig) → is_narrow c ≡ true → c ≡ narrow
is_narrow_lem c e =
    let a : c.target_fanout ≡ narrow.target_fanout = ground (arith, e) in
    let b : c.min_fanout ≡ narrow.min_fanout = ground (arith, e) in
    let l : c.cdc_min_size ≡ narrow.cdc_min_size = ground (arith, e) in
    let m : c.cdc_avg_size ≡ narrow.cdc_avg_size = ground (arith, e) in
    let h : c.cdc_max_size ≡ narrow.cdc_max_size = ground (arith, e) in
    let v : c.max_inline_value_size ≡ narrow.max_inline_value_size = ground (arith, e) in
    λ i. record {
      target_fanout = a i;
      min_fanout = b i;
      cdc_min_size = l i;
      cdc_avg_size = m i;
      cdc_max_size = h i;
      max_inline_value_size = v i;
    }

same_metadata :
    (m : MetadataContentV2)
    → m.root_hash ≡ some (digest 7)
    → m.tree_config ≡ narrow
    → m.created_at ≡ "now"
    → m.description ≡ none
    → m.total_chunk_data_bytes ≡ 5
    → metadata ≡ m
same_metadata m r c t d n = sym (λ i. record {
  root_hash = r i;
  tree_config = c i;
  created_at = t i;
  description = d i;
  total_chunk_data_bytes = n i;
})

decode_encode : (m : MetadataContentV2) (b : Bytes) → encode m ≡ some b → some metadata ≡ some m
decode_encode m b e = ap some (
    same_metadata m (is_root_lem m.root_hash (ground (arith, e)))
      (is_narrow_lem m.tree_config (ground (arith, e)))
      ((eq_iff m.created_at "now").0 (ground (arith, e)))
      (is_none_lem m.description (ground (arith, e))) (ground (arith, e)))

abbrev files : FileExternals
files = record {
  order = big_endian;
  calculate_crc32 = λ bytes. length bytes % 2 ^ 32;
  calculate_blake3_hash = λ bytes. digest (length bytes % 256);
  to_json = encode;
  from_json = λ bytes. some metadata;
  now = "now";
}

abbrev two_chunks : Chunks
two_chunks = (digest 9, 1 ∷ 2 ∷ 3 ∷ []) ∷ (digest 7, 4 ∷ 5 ∷ []) ∷ []

abbrev sorted_chunks : Chunks
sorted_chunks = (digest 7, 4 ∷ 5 ∷ []) ∷ (digest 9, 1 ∷ 2 ∷ 3 ∷ []) ∷ []

abbrev content : Result Bytes → Bytes
content (ok bytes) = bytes
content (err _) = []
content panic = []
content out_of_fuel = []

abbrev file : Bytes
file = content (write_prly_tree_v2 files (some (digest 7)) narrow two_chunks none)

file_run : read_prly_tree_v2 files file [] ≡ (ok (some (digest 7), narrow, sorted_chunks, none), [])
unfolding read_prly_tree_v2 read_header write_prly_tree_v2 cmp read_u64 read_block read_envelope
    read_index read_chunks check_eof read_eof verify_eof with_metadata write_header new_header block
    write_eof
file_run = refl

read_prly_tree_v2_example : Accepted files file
read_prly_tree_v2_example =
    read_prly_tree_v2-Accepted files file (some (digest 7), narrow, sorted_chunks, none) [] []
      file_run

files-IsFileExternals : IsFileExternals files
files-IsFileExternals = record {
  order = big_endian-IsByteOrder;
  crc = λ b. omega arith;
  json = decode_encode;
  hash_length = λ b. refl;
}

file_written : write_prly_tree_v2 files (some (digest 7)) narrow two_chunks none ≡ ok file
unfolding write_prly_tree_v2 with_metadata cmp
file_written = refl

file_small : length file < 2 ^ 32
unfolding write_prly_tree_v2 with_metadata block write_header new_header write_eof write_envelope
    cmp index_entries
file_small = omega arith

two_chunks-Distinct : Distinct two_chunks
unfolding find_chunk cmp
two_chunks-Distinct = (refl, (refl, tt))

read_written_example :
    (result : Chunks) × (read_prly_tree_v2 files file []
      ≡ (ok (some (digest 7), narrow, result, none), []))
    × ((h : Hash) → find_chunk h result ≡ find_chunk h two_chunks)
read_written_example =
    read_prly_tree_v2-write_prly_tree_v2 files (some (digest 7)) narrow two_chunks none file []
      files-IsFileExternals two_chunks-Distinct (refl, (refl, tt)) (omega arith) file_written
      file_small

abbrev entries : List ChunkIndexEntryV2
entries =
    record { hash = digest 7; offset = 45; len = 2; chunk_type_flags = 0 }
    ∷ record { hash = digest 9; offset = 42; len = 3; chunk_type_flags = 0 }
    ∷ []

read_index_example : read_index files (index_content files entries) ≡ ok entries
read_index_example = read_index-index_content files big_endian-IsByteOrder entries (omega arith) (
  record { hash = refl; offset = omega arith; len = omega arith },
  (record { hash = refl; offset = omega arith; len = omega arith }, tt),
)
