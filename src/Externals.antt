-- ===== src/Externals.antt =====
-- The third-party code that the library calls: the hash of the `blake3` crate, the encoding of
-- `bincode` and the chunker of `fastcdc`. They are parameters; `IsLawful` has what their
-- documentation promises and the library relies on.
use prolly_gunna.Prelude.{
  ℕ, ◌+◌, ◌%◌, ◌^◌, ◌≤◌, ◌≡◌, Option, none, some, List, [], ◌∷◌, ◌++◌, take, drop, length, map, All,
}
use prolly_gunna.Prelude.Bytes.{Bytes}
use prolly_gunna.Errors.{Result, ok, err, bincode_error}
use prolly_gunna.Node.{Hash, Node, TreeConfig}

pub record Externals : Type 0 where
  pub hash_bytes : Bytes → Hash
  pub serialize : Node → Option Bytes
  pub deserialize : Bytes → Option Node
  -- the chunks of a value, as pairs of an offset and a length; `none` where the crate panics on
  -- sizes outside its limits
  pub fast_cdc : Bytes → (min avg max : ℕ) → Option (List (ℕ × ℕ))

-- `&value[offset..offset + length]`
abbrev pub slice : Bytes → ℕ × ℕ → Bytes
slice value (offset, len) = take len (drop offset value)

abbrev pub concat : List Bytes → Bytes
concat [] = []
concat (b ∷ bs) = b ++ concat bs

pub record IsLawful (x : Externals) : Type 0 where
  -- no two byte strings collide
  pub hash_injective : (a b : Bytes) → x.hash_bytes a ≡ x.hash_bytes b → a ≡ b
  -- a node is encoded, and decodes to itself
  pub decode_encode :
      (n : Node) → (b : Bytes) × (x.serialize n ≡ some b) × (x.deserialize b ≡ some n)

-- The chunker accepts the sizes, and its chunks lie in the value and cover it, in order.
pub record Cuts (x : Externals) (v : Bytes) (lo avg hi : ℕ) : Type 0 where
  pub chunks : List (ℕ × ℕ)
  pub returns : x.fast_cdc v lo avg hi ≡ some chunks
  pub in_range : All (λ (p : ℕ × ℕ). p.0 + p.1 ≤ length v) chunks
  pub covers : concat (map (slice v) chunks) ≡ v

pub record IsChunker (x : Externals) (config : TreeConfig) : Type 0 where
  pub cuts :
      (v : Bytes)
      → Cuts x v
          (config.cdc_min_size % 2 ^ 32)
          (config.cdc_avg_size % 2 ^ 32)
          (config.cdc_max_size % 2 ^ 32)

module _ (x : Externals) where
  unfoldable pub encode : Node → Result Bytes
  encode n = elim (x.serialize n) [ none ↦ err bincode_error | some b ↦ ok b ]

  unfoldable pub decode : Bytes → Result Node
  decode b = elim (x.deserialize b) [ none ↦ err bincode_error | some n ↦ ok n ]
