-- ===== src/Tree/Session/Invariant.antt =====
-- The state of a tree with its store between the calls of its methods.
use prolly_gunna.Prelude.{Bool, ℕ, suc, ◌≤◌, ◌<◌, sym, subst, arith}
use prolly_gunna.Errors.{Result}
use prolly_gunna.Node.{Key, Value}
use prolly_gunna.Externals.{Externals, IsLawful, IsChunker}
use prolly_gunna.Store.Access.{Access, IsAccess}
use prolly_gunna.Tree.SortedMap
use prolly_gunna.Tree.SortedMap.{SortedMap}
use prolly_gunna.Tree.Session.{Session, root, insert}
use prolly_gunna.Tree.Session.Represents.{Represents}
use prolly_gunna.Tree.Session.Insert.{insert_lem}

module _ {S : Type 0} {x : Externals} {a : Access S} (good : IsAccess x a) where
  open good use {view, Ready}

  -- The store is ready, and the root stands for the map, at a depth within the bound.
  pub record IsTree (bound : ℕ) (m : SortedMap) (w : Session S) : Type 0 where
    pub depth : ℕ
    pub level : depth ≤ bound
    pub ready : Ready w.store
    pub represents : Represents x (view w.store) depth (root w) m
    pub chunker : IsChunker x w.tree.config
    pub wide : 1 ≤ w.tree.config.target_fanout

  module _ (lawful : IsLawful x) where
    -- With lawful externals, an insertion into a tree within a depth bound below 255, with fuel
    -- beyond the bound, leaves a tree for the map with the pair inserted, within the next bound:
    -- its store ready, its entries sorted, every boundary key and item count right, and its
    -- configuration still good.
    pub insert-IsTree :
        (fuel bound : ℕ) (k : Key) (value : Value) (m : SortedMap) (w : Session S)
        → bound < fuel
        → suc bound < 256
        → IsTree bound m w
        → IsTree (suc bound) (SortedMap.insert k value m) (insert x a fuel k value w).1
    insert-IsTree fuel bound k value m w enough shallow t =
        let q =
          insert_lem lawful good fuel t.depth k value m w t.chunker t.wide (omega (arith, t.level))
            (omega (arith, t.level)) t.ready t.represents in
        subst
          (λ (run : Result Bool × Session S). IsTree (suc bound) (SortedMap.insert k value m) run.1)
          (sym q.returns)
          (record {
            depth = q.depth;
            level = omega (arith, q.level, t.level);
            ready = q.ready;
            represents = q.represents;
            chunker = t.chunker;
            wide = t.wide;
          })
