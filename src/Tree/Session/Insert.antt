-- ===== src/Tree/Session/Insert.antt =====
-- `insert` and `insert_batch` of `ProllyTree`.
use prolly_gunna.Prelude.{
  ℕ, suc, ◌==◌, ◌+◌, ◌%◌, ◌≤◌, ◌<◌, Bool, false, Option, none, some, List, [], ◌∷◌, ◌++◌, ◌≡◌, refl,
  sym, subst, ◌∙◌, ap, arith, append-nil,
}
use prolly_gunna.Errors.{ok, Result}
use prolly_gunna.Node.{
  Hash, Key, Value, ValueRepr, Node, TreeConfig, LeafEntry, leaf, internal, new_internal, level_of,
  new_internal, boundary_of,
}
use prolly_gunna.Node.Order.{insert_entry, insert_entry-IsSorted}
use prolly_gunna.Externals.{Externals, IsLawful, IsChunker}
use prolly_gunna.Store.Access.{Access, IsAccess, Extends, Extends-trans}
use prolly_gunna.Io.{load_node, prepare_value_repr}
use prolly_gunna.Io.Laws.{store_node_lem}
use prolly_gunna.Io.Values.{ValueAt, ValueAt-Extends, prepare_value_repr_lem}
use prolly_gunna.Tree.Types.{ProcessedNodeUpdate, entry_of, sibling_of}
use prolly_gunna.Tree.Holds.{Holds, Holds-Extends, Children, Children-imp}
use prolly_gunna.Tree.Holds.Children.{last_boundary_lem}
use prolly_gunna.Tree.Core.{insert_recursive_impl}
use prolly_gunna.Tree.Core.Insert.{insert_recursive_impl_lem, insert_entry_nonempty}
use prolly_gunna.Tree.Core.Insert.Stores.{entries_of, siblings, last_key_total}
use prolly_gunna.Tree.SortedMap
use prolly_gunna.Tree.SortedMap.{SortedMap}
use prolly_gunna.Tree.Session.{Session, root, grow_root, insert_repr, insert, root_differs}
use prolly_gunna.Tree.Session.Get.{level_lem}
use prolly_gunna.Tree.Session.Represents.{
  Represents, Pairs-insert, Pairs-Extends, Represents-Extends,
}

module _ {S : Type 0} {x : Externals} {a : Access S} (lawful : IsLawful x)
    (good : IsAccess x a) where
  open good use {view, Ready}

  abbrev at_root : Session S → Option Hash → S → Session S
  at_root w o s = record { tree = record { root_hash = o; config = w.tree.config }; store = s }

  -- The root after an update of the old root: of the same depth, or one level higher.
  record Grown (d : ℕ) (w : Session S) (u : ProcessedNodeUpdate) (es : List LeafEntry)
      : Type 0 where
    hash : Hash
    after : S
    depth : ℕ
    returns :
        grow_root x a d u (at_root w (some u.new_hash) w.store)
        ≡ (ok tt, at_root w (some hash) after)
    ready : Ready after
    keeps : Extends (view w.store) (view after)
    holds : Holds x (view after) depth hash es
    level : depth ≤ suc d

  grow_root_lem :
      (d : ℕ) (w : Session S) (u : ProcessedNodeUpdate) (es : List LeafEntry)
      → suc d < 256
      → Ready w.store
      → Children (Holds x (view w.store) d) (entries_of u) es
      → Grown d w u es
  unfolding grow_root boundary_of new_internal
  grow_root_lem d w u es shallow r children = go u.split_info refl children
    where
      go :
          (o : Option (Key × Hash × ℕ))
          → u.split_info ≡ o
          → Children (Holds x (view w.store) d) (entry_of u ∷ siblings o) es
          → Grown d w u es
      go none e (xs, ys, split, child, rest) = record {
        hash = u.new_hash;
        after = w.store;
        depth = d;
        returns = rw e;
        ready = r;
        keeps = λ h b q. q;
        holds =
            subst (Holds x (view w.store) d u.new_hash)
              (sym (split ∙ ap (λ (l : List LeafEntry). xs ++ l) rest ∙ append-nil xs)) child.0;
        level = omega arith;
      }
      go (some p) e children =
          let (b, lb, lk) =
            last_boundary_lem (Holds x (view w.store) d) (entry_of u) (sibling_of p ∷ []) es
              children in
          let level : (d + 1) % 256 ≡ suc d = omega arith in
          let high : (suc d == 0) ≡ false = ground arith in
          let q =
            store_node_lem good lawful (internal (suc d) (entry_of u ∷ sibling_of p ∷ [])) b w.store
              r lb in
          record {
            hash = q.hash;
            after = q.after;
            depth = suc d;
            returns = rw (e, level, high, q.returns);
            ready = q.ready;
            keeps = q.keeps;
            holds = (
              entry_of u ∷ sibling_of p ∷ [],
              q.node_at,
              Children-imp (Holds-Extends x q.keeps d) (entry_of u ∷ sibling_of p ∷ []) es children,
            );
            level = omega arith;
          }

  -- A run that sets the root to a tree for the map and loses nothing of the store.
  pub record Inserted (d : ℕ) (w : Session S) (m : SortedMap) (run : Result Bool × Session S)
      : Type 0 where
    pub hash : Hash
    pub after : S
    pub depth : ℕ
    pub returns : run ≡ (ok (root_differs (root w) (some hash)), at_root w (some hash) after)
    pub ready : Ready after
    pub keeps : Extends (view w.store) (view after)
    pub represents : Represents x (view after) depth (some hash) m
    pub level : depth ≤ suc d

  -- The steps of an insertion below an old root.
  insert_repr_steps :
      (config : TreeConfig) (fuel d : ℕ) (h g : Hash) (k : Key) (r : ValueRepr) (n : Node)
      (u : ProcessedNodeUpdate) (w : Session S) (t t' : S)
      → root w ≡ some h
      → load_node x a h w.store ≡ (ok n, w.store)
      → level_of n ≡ d
      → insert_recursive_impl x a config fuel h k r d w.store ≡ (ok u, t)
      → grow_root x a d u (at_root w (some u.new_hash) t) ≡ (ok tt, at_root w (some g) t')
      → insert_repr x a config fuel k r (some h) w
        ≡ (ok (root_differs (root w) (some g)), at_root w (some g) t')
  unfolding insert_repr
  insert_repr_steps config fuel d h g k r n u w t t' o loads level inserts grows =
      rw (o, loads, level, inserts, grows)

  module _ (config : TreeConfig) (wide : 1 ≤ config.target_fanout) where
    insert_repr_lem :
        (fuel d : ℕ) (k : Key) (r : ValueRepr) (value : Value) (o : Option Hash) (m : SortedMap)
        (w : Session S)
        → root w ≡ o
        → d < fuel
        → suc d < 256
        → Ready w.store
        → Represents x (view w.store) d o m
        → ValueAt (view w.store) r value
        → Inserted d w (SortedMap.insert k value m) (insert_repr x a config fuel k r o w)
    unfolding insert_repr root_differs boundary_of insert_entry
    insert_repr_lem fuel d k r value none m w o lt shallow ready at value_at =
        let entry : LeafEntry = record { key = k; value = r } in
        let q = store_node_lem good lawful (leaf 0 (entry ∷ [])) k w.store ready refl in
        record {
          hash = q.hash;
          after = q.after;
          depth = 0;
          returns = rw (o, q.returns);
          ready = q.ready;
          keeps = q.keeps;
          represents = record {
            entries = entry ∷ [];
            holds = q.node_at;
            sorted = insert_entry-IsSorted k r [] tt;
            last = k;
            nonempty = refl;
            pairs =
                Pairs-insert (view q.after) k r value [] m
                  (ValueAt-Extends q.keeps r value value_at) at;
          };
          level = omega arith;
        }
    insert_repr_lem fuel d k r value (some h) m w o lt shallow ready at value_at =
        let (n, loads, level) = level_lem good d h at.entries w.store ready at.holds in
        let es = insert_entry k r at.entries in
        let u =
          insert_recursive_impl_lem lawful good config wide fuel d h k at.last r at.entries w.store
            lt (omega arith) ready at.holds at.sorted at.nonempty in
        let g =
          grow_root_lem d (record w { store = u.after }) u.update es shallow u.ready u.holds in
        let (b, nonempty) = last_key_total es (insert_entry_nonempty k r at.entries) in
        let keeps : Extends (view w.store) (view g.after) = Extends-trans u.keeps g.keeps in
        record {
          hash = g.hash;
          after = g.after;
          depth = g.depth;
          returns =
              insert_repr_steps config fuel d h g.hash k r n u.update w u.after g.after o loads
                level u.returns g.returns;
          ready = g.ready;
          keeps = keeps;
          represents = record {
            entries = es;
            holds = g.holds;
            sorted = insert_entry-IsSorted k r at.entries at.sorted;
            last = b;
            nonempty = nonempty;
            pairs =
                Pairs-insert (view g.after) k r value at.entries m
                  (ValueAt-Extends keeps r value value_at)
                  (Pairs-Extends keeps at.entries m at.pairs);
          };
          level = g.level;
        }

  -- Insertion of a key and a value, from the value's chunks to the new root.
  pub insert_lem :
      (fuel d : ℕ) (k : Key) (value : Value) (m : SortedMap) (w : Session S)
      → IsChunker x w.tree.config
      → 1 ≤ w.tree.config.target_fanout
      → d < fuel
      → suc d < 256
      → Ready w.store
      → Represents x (view w.store) d (root w) m
      → Inserted d w (SortedMap.insert k value m) (insert x a fuel k value w)
  unfolding insert
  insert_lem fuel d k value m w chunker wide lt shallow ready at =
      let p = prepare_value_repr_lem good w.tree.config value w.store chunker ready in
      let q =
        insert_repr_lem w.tree.config wide fuel d k p.repr value (root w) m
          (record w { store = p.after }) refl lt shallow p.ready
          (Represents-Extends x p.keeps d (root w) m at) p.holds in
      record {
        hash = q.hash;
        after = q.after;
        depth = q.depth;
        returns = insert_steps fuel k value p.repr q.hash w p.after q.after p.returns q.returns;
        ready = q.ready;
        keeps = Extends-trans p.keeps q.keeps;
        represents = q.represents;
        level = q.level;
      }
    where
      insert_steps :
          (fuel : ℕ) (k : Key) (value : Value) (r : ValueRepr) (g : Hash) (w : Session S) (t t' : S)
          → prepare_value_repr x a w.tree.config value w.store ≡ (ok r, t)
          → insert_repr x a w.tree.config fuel k r (root w) (record w { store = t })
            ≡ (ok (root_differs (root w) (some g)), at_root w (some g) t')
          → insert x a fuel k value w ≡ (ok (root_differs (root w) (some g)), at_root w (some g) t')
      insert_steps fuel k value r g w t t' prepares inserts = rw (prepares, inserts)
