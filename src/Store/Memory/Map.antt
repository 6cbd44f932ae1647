-- ===== src/Store/Memory/Map.antt =====
-- The `HashMap<Hash, Vec<u8>>` of the in-memory store, as far as the store uses it.
use prolly_gunna.Prelude.{
  Bool, true, false, Option, none, some, List, [], ◌∷◌, arith, ◌≡◌, refl, if◌then◌else◌, ◌||◌,
}
use prolly_gunna.Prelude.Bytes.{Bytes, bytes_eq, bytes_eq_iff}
use prolly_gunna.Node.{Hash}

abbrev pub Chunks : Type 0
Chunks = List (Hash × Bytes)

unfoldable pub find : Hash → Chunks → Option Bytes
find h [] = none
find h ((k, b) ∷ m) = if bytes_eq k h then some b else find h m

-- `entry(hash).or_insert_with(|| bytes)`
unfoldable pub put_new : Hash → Bytes → Chunks → Chunks
put_new h b [] = (h, b) ∷ []
put_new h b ((k, c) ∷ m) = if bytes_eq k h then (k, c) ∷ m else (k, c) ∷ put_new h b m

unfoldable pub remove : Hash → Chunks → Chunks
remove h [] = []
remove h ((k, b) ∷ m) = let rest = remove h m in if bytes_eq k h then rest else (k, b) ∷ rest

unfoldable pub remove_all : List Hash → Chunks → Chunks
remove_all [] m = m
remove_all (h ∷ hs) m = remove_all hs (remove h m)

unfoldable pub keys : Chunks → List Hash
keys [] = []
keys ((k, b) ∷ m) = k ∷ keys m

unfoldable pub contains : Hash → List Hash → Bool
contains h [] = false
contains h (k ∷ ks) = bytes_eq k h || contains h ks

pub find-put_new :
    (h j : Hash) (b : Bytes) (m : Chunks)
    → find j (put_new h b m)
      ≡ (if bytes_eq h j then elim (find h m) [ none ↦ some b | some c ↦ some c ] else find j m)
unfolding find put_new
find-put_new h j b [] = ground arith
find-put_new h j b ((k, c) ∷ m) =
    ground (arith, find-put_new h j b m, bytes_eq_iff h j, bytes_eq_iff k h, bytes_eq_iff k j)

pub find-remove :
    (h j : Hash) (m : Chunks) → find j (remove h m) ≡ (if bytes_eq h j then none else find j m)
unfolding find remove
find-remove h j [] = ground arith
find-remove h j ((k, c) ∷ m) =
    ground (arith, find-remove h j m, bytes_eq_iff h j, bytes_eq_iff k h, bytes_eq_iff k j)

pub find-remove_all :
    (hs : List Hash) (j : Hash) (m : Chunks)
    → find j (remove_all hs m) ≡ (if contains j hs then none else find j m)
unfolding remove_all contains
find-remove_all [] j m = refl
find-remove_all (h ∷ hs) j m = ground (arith, find-remove_all hs j (remove h m), find-remove h j m)

-- A hash is among the keys exactly when something is stored under it.
pub contains-keys :
    (h : Hash) (m : Chunks)
    → contains h (keys m) ≡ (elim (find h m) [ none ↦ false | some _ ↦ true ])
unfolding find keys contains
contains-keys h [] = refl
contains-keys h ((k, b) ∷ m) = ground (arith, contains-keys h m)
