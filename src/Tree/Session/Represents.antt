-- ===== src/Tree/Session/Represents.antt =====
-- The map that a root stands for in a store.
use prolly_gunna.Prelude.{ℕ, suc, Option, none, some, List, [], ◌∷◌, ◌≡◌, refl, arith, length, ap}
use prolly_gunna.Errors.{ok}
use prolly_gunna.Node.{Hash, Key, Value, LeafEntry, ValueRepr, last_key}
use prolly_gunna.Node.Order.{IsSorted, find_entry, insert_entry}
use prolly_gunna.Externals.{Externals}
use prolly_gunna.Store.Access.{Access, View, Extends, IsAccess}
use prolly_gunna.Io.Values.{ValueAt, ValueAt-Extends, load_value_repr_lem}
use prolly_gunna.Tree.Holds.{Holds, Holds-Extends}
use prolly_gunna.Tree.Core.Get.{read_entry}
use prolly_gunna.Tree.SortedMap
use prolly_gunna.Tree.SortedMap.{SortedMap, lookup}

-- The entries are those of the map, and their representations stand for its values.
abbrev pub Pairs : View → List LeafEntry → SortedMap → Type 0
Pairs v [] m = m ≡ []
Pairs v (e ∷ es) [] = ⊥
Pairs v (e ∷ es) ((k, value) ∷ m) = (e.key ≡ k) × ValueAt v e.value value × Pairs v es m

-- A tree of depth `d` at the root holds sorted entries that stand for the map; no root is the empty
-- map.
pub record RootHolds (x : Externals) (v : View) (d : ℕ) (h : Hash) (m : SortedMap) : Type 0 where
  pub entries : List LeafEntry
  pub holds : Holds x v d h entries
  pub sorted : IsSorted entries
  pub last : Key
  pub nonempty : last_key entries ≡ some last
  pub pairs : Pairs v entries m

abbrev pub Represents : Externals → View → ℕ → Option Hash → SortedMap → Type 0
Represents x v d none m = m ≡ []
Represents x v d (some h) m = RootHolds x v d h m

pub Pairs-Extends :
    {v w : View} → Extends v w → (es : List LeafEntry) (m : SortedMap) → Pairs v es m → Pairs w es m
Pairs-Extends ext [] m p = p
Pairs-Extends ext (e ∷ es) [] p = p
Pairs-Extends ext (e ∷ es) ((k, value) ∷ m) p =
    (p.0, ValueAt-Extends ext e.value value p.1, Pairs-Extends ext es m p.2)

-- A root stands for the same map in any store that has kept everything.
pub Represents-Extends :
    (x : Externals) {v w : View}
    → Extends v w
    → (d : ℕ) (o : Option Hash) (m : SortedMap) → Represents x v d o m
    → Represents x w d o m
Represents-Extends x ext d none m r = r
Represents-Extends x ext d (some h) m r = record {
  entries = r.entries;
  holds = Holds-Extends x ext d h r.entries r.holds;
  sorted = r.sorted;
  last = r.last;
  nonempty = r.nonempty;
  pairs = Pairs-Extends ext r.entries m r.pairs;
}

pub length-Pairs :
    (v : View) (es : List LeafEntry) (m : SortedMap) → Pairs v es m → length es ≡ length m
length-Pairs v [] m p = rw p
length-Pairs v (e ∷ es) [] p = absurd p
length-Pairs v (e ∷ es) ((k, value) ∷ m) p = ap suc (length-Pairs v es m p.2)

pub Pairs-insert :
    (v : View) (k : Key) (r : ValueRepr) (value : Value) (es : List LeafEntry) (m : SortedMap)
    → ValueAt v r value
    → Pairs v es m
    → Pairs v (insert_entry k r es) (SortedMap.insert k value m)
unfolding insert_entry SortedMap.insert
Pairs-insert v k r value [] m at p = rw p (refl, at, refl)
Pairs-insert v k r value (e ∷ es) [] at p = absurd p
Pairs-insert v k r value (e ∷ es) ((j, w) ∷ m) at p =
    ground (arith, p, Pairs-insert v k r value es m at p.2)

module _ {S : Type 0} {x : Externals} {a : Access S} (good : IsAccess x a) where
  open good use {view, Ready}

  -- Reading the entry of a key is looking the key up in the map.
  pub read_entry_lem :
      (k : Key) (es : List LeafEntry) (m : SortedMap) (s : S)
      → Ready s
      → Pairs (view s) es m
      → read_entry x a (find_entry k es) s ≡ (ok (lookup k m), s)
  unfolding read_entry find_entry lookup
  read_entry_lem k [] m s r p = rw p
  read_entry_lem k (e ∷ es) [] s r p = absurd p
  read_entry_lem k (e ∷ es) ((j, w) ∷ m) s r p =
      ground (arith, p.0, read_entry_lem k es m s r p.2, load_value_repr_lem good e.value w s r p.1)
