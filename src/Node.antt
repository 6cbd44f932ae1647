-- ===== src/Node.antt =====
-- src/common.rs and src/node/definition.rs: keys, values, the configuration and the nodes.
pub mod Order
use prolly_gunna.Prelude.{
  ℕ, ◌+◌, ◌%◌, ◌^◌, String, Bool, true, false, Option, none, some, List, [], ◌∷◌, ltb, leb, ◌==◌,
  if◌then◌else◌, length, last,
}
use prolly_gunna.Prelude.Bytes.{Bytes}
use prolly_gunna.Errors.{Result, ok, err, config_error}

-- A hash is 32 bytes; the length is stated where it matters.
abbrev pub Hash : Type 0
Hash = Bytes

abbrev pub Key : Type 0
Key = Bytes

abbrev pub Value : Type 0
Value = Bytes

abbrev pub u64_mod : ℕ
u64_mod = 2 ^ 64

-- `usize` has 32 bits on `wasm32`, for which the crate is built.
abbrev pub usize_mod : ℕ
usize_mod = 2 ^ 32

abbrev pub u8_mod : ℕ
u8_mod = 2 ^ 8

pub record TreeConfig : Type 0 where
  pub target_fanout : ℕ
  pub min_fanout : ℕ
  pub cdc_min_size : ℕ
  pub cdc_avg_size : ℕ
  pub cdc_max_size : ℕ
  pub max_inline_value_size : ℕ

unfoldable pub default_config : TreeConfig
default_config = record {
  target_fanout = 32;
  min_fanout = 16;
  cdc_min_size = 4096;
  cdc_avg_size = 16384;
  cdc_max_size = 65536;
  max_inline_value_size = 1024;
}

pub data ValueRepr : Type 0 where
  inline : Value → ValueRepr
  chunked : Hash → ValueRepr
  chunked_sequence : (chunk_hashes : List Hash) → (total_size : ℕ) → ValueRepr

pub record LeafEntry : Type 0 where
  pub key : Key
  pub value : ValueRepr

pub record InternalEntry : Type 0 where
  pub boundary_key : Key
  pub child_hash : Hash
  pub num_items_subtree : ℕ

pub data Node : Type 0 where
  leaf : (level : ℕ) → (entries : List LeafEntry) → Node
  internal : (level : ℕ) → (children : List InternalEntry) → Node

unfoldable pub new_leaf : Node
new_leaf = leaf 0 []

unfoldable pub new_internal : List InternalEntry → ℕ → Result Node
new_internal children level =
    if level == 0
    then err (config_error "Internal node level cannot be 0")
    else ok (internal level children)

unfoldable pub level_of : Node → ℕ
level_of (leaf level entries) = level
level_of (internal level children) = level

unfoldable pub num_entries : Node → ℕ
num_entries (leaf level entries) = length entries
num_entries (internal level children) = length children

unfoldable pub is_full : TreeConfig → Node → Bool
is_full config (leaf level entries) = leb config.target_fanout (length entries)
is_full config (internal level children) = leb config.target_fanout (length children)

unfoldable pub is_underflow : TreeConfig → Node → Bool
is_underflow config (leaf level entries) = ltb (length entries) config.min_fanout
is_underflow config (internal level children) = ltb (length children) config.min_fanout

-- `children.iter().map(|c| c.num_items_subtree).sum()` over `u64`.
unfoldable pub sum_items : List InternalEntry → ℕ
sum_items [] = 0
sum_items (c ∷ cs) = (c.num_items_subtree + sum_items cs) % u64_mod

-- The number of items below a node, as the rebalancing code counts them.
unfoldable pub item_count : Node → ℕ
item_count (leaf level entries) = length entries % u64_mod
item_count (internal level children) = sum_items children

-- The boundary key of a non-empty node: its last key, or the last boundary of its children.
abbrev pub last_key : List LeafEntry → Option Key
last_key [] = none
last_key (e ∷ []) = some e.key
last_key (e ∷ e' ∷ es) = last_key (e' ∷ es)

abbrev pub last_boundary : List InternalEntry → Option Key
last_boundary [] = none
last_boundary (c ∷ []) = some c.boundary_key
last_boundary (c ∷ c' ∷ cs) = last_boundary (c' ∷ cs)

unfoldable pub boundary_of : Node → Option Key
boundary_of (leaf level entries) = last_key entries
boundary_of (internal level children) = last_boundary children
