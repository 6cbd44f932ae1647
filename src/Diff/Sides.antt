-- ===== src/Diff/Sides.antt =====
-- The method `diff` of a tree where one side is empty, both are the same, or both are leaves.
use prolly_gunna.Prelude.{
  ℕ, suc, ◌≤◌, none, some, List, ◌≡◌, sym, ap, ◌∙◌, Option, true, false, length, subst,
}
use prolly_gunna.Prelude.Bytes.{bytes_eq}
use prolly_gunna.Errors.{ok}
use prolly_gunna.Node.{Hash, Key, leaf}
use prolly_gunna.Externals.{Externals}
use prolly_gunna.Store.Access.{Access, IsAccess}
use prolly_gunna.Io.Laws.{load_node_lem}
use prolly_gunna.Tree.SortedMap.{SortedMap, lookup}
use prolly_gunna.Tree.Session.{Session, root}
use prolly_gunna.Tree.Session.Represents.{Represents, length-Pairs}
use prolly_gunna.Diff.{DiffEntry, recursive_diff, diff_trees, diff}
use prolly_gunna.Diff.Leaves.{map_diff, leaf_diff_lem}
use prolly_gunna.Diff.Changes.{change, find_diff, find_diff-map_diff, Pairs-IsSortedMap}
use prolly_gunna.Diff.Subtree.{
  side_diff, only_left, only_right, side_diff-only_left, side_diff-only_right, weight, walk_tree,
}

module _ {S : Type 0} {x : Externals} {a : Access S} (good : IsAccess x a) where
  open good use {view, Ready}

  deletions_lem :
      (levels fuel d : ℕ) (o : Option Hash) (m : SortedMap) (s : S)
      → weight d (length m) ≤ fuel
      → Ready s
      → Represents x (view s) d o m
      → recursive_diff x a (suc levels) fuel o none s ≡ (ok (side_diff false m), s)
  unfolding recursive_diff side_diff
  deletions_lem levels fuel d none m s enough r at = rw at
  deletions_lem levels fuel d (some h) m s enough r at =
      walk_tree good false fuel d h at.entries at.last m s
        (subst (λ n. weight d n ≤ fuel) (sym (length-Pairs (view s) at.entries m at.pairs)) enough)
        r at.holds at.nonempty at.pairs

  additions_lem :
      (levels fuel d : ℕ) (o : Option Hash) (m : SortedMap) (s : S)
      → weight d (length m) ≤ fuel
      → Ready s
      → Represents x (view s) d o m
      → recursive_diff x a (suc levels) fuel none o s ≡ (ok (side_diff true m), s)
  unfolding recursive_diff side_diff
  additions_lem levels fuel d none m s enough r at = rw at
  additions_lem levels fuel d (some h) m s enough r at =
      walk_tree good true fuel d h at.entries at.last m s
        (subst (λ n. weight d n ≤ fuel) (sym (length-Pairs (view s) at.entries m at.pairs)) enough)
        r at.holds at.nonempty at.pairs

  -- A run on the store of a session.
  session_run :
      (levels fuel : ℕ) (o : Option Hash) (ds : List DiffEntry) (w : Session S)
      → recursive_diff x a levels fuel (root w) o w.store ≡ (ok ds, w.store)
      → diff x a levels fuel o w ≡ (ok ds, w)
  unfolding diff diff_trees
  session_run levels fuel o ds w e = rw e

  -- In a ready store, on a tree of depth `d` that stands for a map, with fuel for the nodes of the
  -- tree: the differences to the empty tree are all keys of the map, in key order, each with
  -- its value on the left and none on the right, and nothing is changed.
  pub diff_to_empty :
      (levels fuel d : ℕ) (m : SortedMap) (w : Session S)
      → weight d (length m) ≤ fuel
      → Ready w.store
      → Represents x (view w.store) d (root w) m
      → diff x a (suc levels) fuel none w ≡ (ok (only_left m), w)
  diff_to_empty levels fuel d m w enough r at = session_run (suc levels) fuel none (only_left m) w (
      deletions_lem levels fuel d (root w) m w.store enough r at
      ∙ ap (λ (l : List DiffEntry). (ok l, w.store)) (side_diff-only_left m))

  -- In a ready store, from a tree with no root to a root at which a tree of depth `d` stands for a
  -- map, with fuel for the nodes of the tree: the differences are all keys of the map, in key
  -- order, each with its value on the right and none on the left, and nothing is changed.
  pub diff_from_empty :
      (levels fuel d : ℕ) (o : Option Hash) (m : SortedMap) (w : Session S)
      → root w ≡ none
      → weight d (length m) ≤ fuel
      → Ready w.store
      → Represents x (view w.store) d o m
      → diff x a (suc levels) fuel o w ≡ (ok (only_right m), w)
  diff_from_empty levels fuel d o m w empty enough r at =
      session_run (suc levels) fuel o (only_right m) w (
        ap (λ l. recursive_diff x a (suc levels) fuel l o w.store) empty
        ∙ additions_lem levels fuel d o m w.store enough r at
        ∙ ap (λ (l : List DiffEntry). (ok l, w.store)) (side_diff-only_right m))

  leaves_lem :
      (levels fuel : ℕ) (h j : Hash) (m n : SortedMap) (s : S)
      → bytes_eq h j ≡ false
      → Ready s
      → Represents x (view s) 0 (some h) m
      → Represents x (view s) 0 (some j) n
      → recursive_diff x a (suc levels) fuel (some h) (some j) s ≡ (ok (map_diff m n), s)
  unfolding recursive_diff
  leaves_lem levels fuel h j m n s differ r at at' =
      rw
        (
          differ,
          load_node_lem good h (leaf 0 at.entries) s r at.holds,
          load_node_lem good j (leaf 0 at'.entries) s r at'.holds,
        )
        (leaf_diff_lem good at.entries at'.entries m n s r at.pairs at'.pairs)

  -- In a ready store, on two trees of one leaf each with different hashes, which stand for two maps:
  -- `diff` returns, for every key, the addition, the deletion or the modification that its values in
  -- the two maps call for, and no difference where the maps agree; nothing is changed.
  pub diff_leaves :
      (levels fuel : ℕ) (h j : Hash) (m n : SortedMap) (w : Session S)
      → root w ≡ some h
      → bytes_eq h j ≡ false
      → Ready w.store
      → Represents x (view w.store) 0 (some h) m
      → Represents x (view w.store) 0 (some j) n
      → (ds : List DiffEntry) × (diff x a (suc levels) fuel (some j) w ≡ (ok ds, w))
        × ((k : Key) → find_diff k ds ≡ change k (lookup k m) (lookup k n))
  diff_leaves levels fuel h j m n w e differ r at at' = (
    map_diff m n,
    session_run (suc levels) fuel (some j) (map_diff m n) w (
        ap (λ l. recursive_diff x a (suc levels) fuel l (some j) w.store) e
        ∙ leaves_lem levels fuel h j m n w.store differ r at at'),
    (λ k.
        find_diff-map_diff k m n (Pairs-IsSortedMap (view w.store) at.entries m at.pairs at.sorted)
          (Pairs-IsSortedMap (view w.store) at'.entries n at'.pairs at'.sorted)),
  )
