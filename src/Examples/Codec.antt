-- ===== src/Examples/Codec.antt =====
-- An encoding of nodes as numbers, lengths first, which stands for the encoding of `bincode` in the
-- concrete runs.
use prolly_gunna.Prelude.{ℕ, zero, suc, Option, none, some, List, [], ◌∷◌, ◌≡◌, refl, length}
use prolly_gunna.Prelude.Bytes.{Bytes}
use prolly_gunna.Node.{
  ValueRepr, inline, chunked, chunked_sequence, LeafEntry, InternalEntry, Node, leaf, internal,
}

abbrev pub Reader : Type 0 → Type 0
Reader A = List ℕ → Option (A × List ℕ)

abbrev pub Writer : Type 0 → Type 0
Writer A = A → List ℕ → List ℕ

-- What was written is read back, and nothing after it.
abbrev pub Reads : {A : Type 0} → Reader A → Writer A → Type 0
Reads {A} r w = (v : A) (rest : List ℕ) → r (w v rest) ≡ some (v, rest)

abbrev pub then_read : {A B : Type 0} → Option (A × List ℕ) → (A → Reader B) → Option (B × List ℕ)
then_read none k = none
then_read (some (v, rest)) k = k v rest

pub read_num : Reader ℕ
read_num [] = none
read_num (n ∷ rest) = some (n, rest)

pub write_num : Writer ℕ
write_num n rest = n ∷ rest

read_num-write_num : Reads read_num write_num
unfolding read_num write_num
read_num-write_num n rest = refl

module _ {A : Type 0} (r : Reader A) where
  read_items : ℕ → Reader (List A)
  read_items zero rest = some ([], rest)
  read_items (suc n) rest =
      then_read (r rest) λ v rest. then_read (read_items n rest) λ vs rest. some (v ∷ vs, rest)

  pub read_list : Reader (List A)
  unfolding read_items
  read_list [] = none
  read_list (n ∷ rest) = read_items n rest

module _ {A : Type 0} (w : Writer A) where
  write_items : Writer (List A)
  write_items [] rest = rest
  write_items (v ∷ vs) rest = w v (write_items vs rest)

  pub write_list : Writer (List A)
  unfolding write_items
  write_list vs rest = length vs ∷ write_items vs rest

module _ {A : Type 0} (r : Reader A) (w : Writer A) (reads : Reads r w) where
  read_items-write_items :
      (vs : List A) (rest : List ℕ)
      → read_items r (length vs) (write_items w vs rest) ≡ some (vs, rest)
  unfolding read_items write_items
  read_items-write_items [] rest = refl
  read_items-write_items (v ∷ vs) rest =
      rw (reads v (write_items w vs rest), read_items-write_items vs rest)

  read_list-write_list : Reads (read_list r) (write_list w)
  unfolding read_list write_list
  read_list-write_list vs rest = read_items-write_items vs rest

read_bytes : Reader Bytes
unfolding read_list
read_bytes = read_list read_num

write_bytes : Writer Bytes
unfolding write_list
write_bytes = write_list write_num

read_bytes-write_bytes : Reads read_bytes write_bytes
unfolding read_bytes write_bytes
read_bytes-write_bytes = read_list-write_list read_num write_num read_num-write_num

read_value : Reader ValueRepr
unfolding read_bytes read_list
read_value [] = none
read_value (zero ∷ rest) = then_read (read_bytes rest) λ b rest. some (inline b, rest)
read_value (suc zero ∷ rest) = then_read (read_bytes rest) λ h rest. some (chunked h, rest)
read_value (suc (suc n) ∷ rest) =
    then_read (read_list read_bytes rest)
      λ hs rest. then_read (read_num rest) λ size rest. some (chunked_sequence hs size, rest)

write_value : Writer ValueRepr
unfolding write_bytes write_list
write_value (inline b) rest = 0 ∷ write_bytes b rest
write_value (chunked h) rest = 1 ∷ write_bytes h rest
write_value (chunked_sequence hs size) rest = 2 ∷ write_list write_bytes hs (write_num size rest)

read_value-write_value : Reads read_value write_value
unfolding read_value write_value
read_value-write_value (inline b) rest = rw (read_bytes-write_bytes b rest)
read_value-write_value (chunked h) rest = rw (read_bytes-write_bytes h rest)
read_value-write_value (chunked_sequence hs size) rest = rw (
  read_list-write_list read_bytes write_bytes read_bytes-write_bytes hs (write_num size rest),
  read_num-write_num size rest,
)

pub read_entry : Reader LeafEntry
unfolding read_bytes read_value
read_entry rest =
    then_read (read_bytes rest)
      λ k rest. then_read (read_value rest) λ v rest. some (record { key = k; value = v }, rest)

pub write_entry : Writer LeafEntry
unfolding write_bytes write_value
write_entry e rest = write_bytes e.key (write_value e.value rest)

read_entry-write_entry : Reads read_entry write_entry
unfolding read_entry write_entry
read_entry-write_entry e rest =
    rw
      (read_bytes-write_bytes e.key (write_value e.value rest), read_value-write_value e.value rest)

pub read_child : Reader InternalEntry
unfolding read_bytes
read_child rest = then_read (read_bytes rest) λ b rest. then_read (read_bytes rest) λ h rest.
    then_read (read_num rest)
      λ n rest. some (record { boundary_key = b; child_hash = h; num_items_subtree = n }, rest)

pub write_child : Writer InternalEntry
unfolding write_bytes
write_child c rest =
    write_bytes c.boundary_key (write_bytes c.child_hash (write_num c.num_items_subtree rest))

read_child-write_child : Reads read_child write_child
unfolding read_child write_child
read_child-write_child c rest = rw (
  read_bytes-write_bytes c.boundary_key
      (write_bytes c.child_hash (write_num c.num_items_subtree rest)),
  read_bytes-write_bytes c.child_hash (write_num c.num_items_subtree rest),
  read_num-write_num c.num_items_subtree rest,
)

unfoldable pub serialize : Node → Option Bytes
unfolding write_list write_entry write_child
serialize (leaf level entries) = some (0 ∷ level ∷ write_list write_entry entries [])
serialize (internal level children) = some (1 ∷ level ∷ write_list write_child children [])

-- The bytes of an encoded node, with nothing after it.
unfoldable pub deserialize : Bytes → Option Node
unfolding read_list read_entry read_child
deserialize (zero ∷ level ∷ rest) = elim (read_list read_entry rest) [
  | none ↦ none
  | some p ↦ some (leaf level p.0)
]
deserialize (suc zero ∷ level ∷ rest) = elim (read_list read_child rest) [
  | none ↦ none
  | some p ↦ some (internal level p.0)
]
deserialize _ = none

pub deserialize-serialize :
    (n : Node) → (b : Bytes) × (serialize n ≡ some b) × (deserialize b ≡ some n)
unfolding serialize deserialize
deserialize-serialize (leaf level entries) = (
  _,
  refl,
  rw (deserialize, read_list-write_list read_entry write_entry read_entry-write_entry entries []),
)
deserialize-serialize (internal level children) = (
  _,
  refl,
  rw (deserialize, read_list-write_list read_child write_child read_child-write_child children []),
)
