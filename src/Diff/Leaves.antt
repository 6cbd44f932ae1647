-- ===== src/Diff/Leaves.antt =====
-- The differences of two sorted leaves are those of the maps that they stand for.
use prolly_gunna.Prelude.{List, [], ◌∷◌, ◌≡◌, refl, arith, lt, eq, gt, if◌then◌else◌}
use prolly_gunna.Prelude.Bytes.{cmp, bytes_eq}
use prolly_gunna.Errors.{ok}
use prolly_gunna.Node.{LeafEntry}
use prolly_gunna.Externals.{Externals}
use prolly_gunna.Store.Access.{Access, IsAccess}
use prolly_gunna.Io.Values.{load_value_repr_lem}
use prolly_gunna.Tree.SortedMap.{SortedMap}
use prolly_gunna.Tree.Session.Represents.{Pairs}
use prolly_gunna.Diff.{DiffEntry, addition, deletion, modification, leaf_diff}

-- The merge of two maps.
unfoldable pub map_diff : SortedMap → SortedMap → List DiffEntry
unfolding addition deletion modification
map_diff [] [] = []
map_diff ((k, v) ∷ m) [] = deletion k v ∷ map_diff m []
map_diff [] ((j, w) ∷ n) = addition j w ∷ map_diff [] n
map_diff ((k, v) ∷ m) ((j, w) ∷ n) = elim (cmp k j) [
  | lt ↦ deletion k v ∷ map_diff m ((j, w) ∷ n)
  | gt ↦ addition j w ∷ map_diff ((k, v) ∷ m) n
  | eq ↦ if bytes_eq v w then map_diff m n else modification k v w ∷ map_diff m n
]

module _ {S : Type 0} {x : Externals} {a : Access S} (good : IsAccess x a) where
  open good use {view, Ready}

  pub leaf_diff_lem :
      (es fs : List LeafEntry) (m n : SortedMap) (s : S)
      → Ready s
      → Pairs (view s) es m
      → Pairs (view s) fs n
      → leaf_diff x a es fs s ≡ (ok (map_diff m n), s)
  unfolding leaf_diff map_diff
  leaf_diff_lem [] [] m n s r p q = rw (p, q) refl
  leaf_diff_lem (e ∷ es) fs [] n s r p q = absurd p
  leaf_diff_lem es (f ∷ fs) m [] s r p q = absurd q
  leaf_diff_lem (e ∷ es) [] ((k, v) ∷ m) n s r p q =
      rw (load_value_repr_lem good e.value v s r p.1, leaf_diff_lem es [] m [] s r p.2 refl, q, p.0)
  leaf_diff_lem [] (f ∷ fs) m ((j, w) ∷ n) s r p q =
      rw (load_value_repr_lem good f.value w s r q.1, leaf_diff_lem [] fs [] n s r refl q.2, p, q.0)
  leaf_diff_lem (e ∷ es) (f ∷ fs) ((k, v) ∷ m) ((j, w) ∷ n) s r p q = ground (
    arith,
    p.0,
    q.0,
    load_value_repr_lem good e.value v s r p.1,
    load_value_repr_lem good f.value w s r q.1,
    leaf_diff_lem es (f ∷ fs) m ((j, w) ∷ n) s r p.2 q,
    leaf_diff_lem (e ∷ es) fs ((k, v) ∷ m) n s r p q.2,
    leaf_diff_lem es fs m n s r p.2 q.2,
  )
