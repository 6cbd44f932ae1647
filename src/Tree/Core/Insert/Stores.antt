-- ===== src/Tree/Core/Insert/Stores.antt =====
-- The writes of an insertion: leaves and internal nodes, whole or in two halves.
use prolly_gunna.Prelude.{
  ℕ, zero, suc, ◌-◌, ◌/◌, ◌%◌, ◌≤◌, ◌<◌, Option, none, some, List, [], ◌∷◌, ◌++◌, ◌≡◌, refl, sym,
  ap, subst, arith, length, take, drop, append-nil,
}
use prolly_gunna.Errors.{ok, Result}
use prolly_gunna.Node.{
  Hash, Key, LeafEntry, InternalEntry, ValueRepr, TreeConfig, leaf, internal, last_key,
  last_boundary, u64_mod, sum_items, boundary_of,
}
use prolly_gunna.Node.Order.{insert_entry}
use prolly_gunna.Externals.{Externals, IsLawful}
use prolly_gunna.Store.Access.{Access, IsAccess, Extends, Extends-trans}
use prolly_gunna.Io.Laws.{store_node_lem, NodeAt-Extends}
use prolly_gunna.Tree.Types.{ProcessedNodeUpdate, entry_of, sibling_of}
use prolly_gunna.Tree.Holds.{Holds, Holds-Extends, Children, Children-imp}
use prolly_gunna.Tree.Holds.Children.{Children-parts, sum_items_lem, last_boundary_lem}
use prolly_gunna.Tree.Core.{put_entry, store_leaf, split_leaf, store_internal, split_internal}

abbrev pub siblings : Option (Key × Hash × ℕ) → List InternalEntry
siblings none = []
siblings (some p) = sibling_of p ∷ []

-- The entries that stand in the parent for an updated child.
abbrev pub entries_of : ProcessedNodeUpdate → List InternalEntry
entries_of u = entry_of u ∷ siblings u.split_info

pub put_entry-insert_entry :
    (k : Key) (v : ValueRepr) (es : List LeafEntry) → put_entry k v es ≡ insert_entry k v es
unfolding put_entry insert_entry
put_entry-insert_entry k v [] = refl
put_entry-insert_entry k v (e ∷ es) = ground (arith, put_entry-insert_entry k v es)

module _ {ℓ} {A : Type ℓ} where
  pub take-append-drop : (n : ℕ) (xs : List A) → take n xs ++ drop n xs ≡ xs
  take-append-drop zero xs = refl
  take-append-drop (suc n) [] = refl
  take-append-drop (suc n) (x ∷ xs) = ap (λ (l : List A). x ∷ l) (take-append-drop n xs)

  length-take : (n : ℕ) (xs : List A) → n ≤ length xs → length (take n xs) ≡ n
  length-take zero xs h = refl
  length-take (suc n) [] h = absurd (omega arith)
  length-take (suc n) (x ∷ xs) h = ap suc (length-take n xs (omega arith))

  pub length-drop : (n : ℕ) (xs : List A) → length (drop n xs) ≡ length xs - n
  length-drop zero xs = omega arith
  length-drop (suc n) [] = omega arith
  length-drop (suc n) (x ∷ xs) = omega (arith, length-drop n xs)

  -- Both halves of a list of two or more have elements.
  halves :
      (xs : List A)
      → 2 ≤ length xs
      → (0 < length (take (length xs / 2) xs)) × (0 < length (drop (length xs / 2) xs))
  halves xs h = (
    omega (arith, length-take (length xs / 2) xs (omega arith)),
    omega (arith, length-drop (length xs / 2) xs),
  )

pub last_key_total : (es : List LeafEntry) → 0 < length es → (b : Key) × (last_key es ≡ some b)
last_key_total [] h = absurd (omega arith)
last_key_total (e ∷ []) h = (e.key, refl)
last_key_total (e ∷ e' ∷ es) h = last_key_total (e' ∷ es) (omega arith)

pub last_boundary_total :
    (P : Hash → List LeafEntry → Type 0) (cs : List InternalEntry) (es : List LeafEntry)
    → 0 < length cs
    → Children P cs es
    → (b : Key) × (last_boundary cs ≡ some b) × (last_key es ≡ some b)
last_boundary_total P [] es h children = absurd (omega arith)
last_boundary_total P (c ∷ cs) es h children = last_boundary_lem P c cs es children

module _ {S : Type 0} {x : Externals} {a : Access S} (lawful : IsLawful x) (good : IsAccess x a)
    (config : TreeConfig) where
  open good use {view, Ready}

  -- A run that updates a tree of depth `d` to the entries `es`, and loses nothing of the store.
  pub record Updates (d : ℕ) (s : S) (es : List LeafEntry) (run : Result ProcessedNodeUpdate × S)
      : Type 0 where
    pub update : ProcessedNodeUpdate
    pub after : S
    pub returns : run ≡ (ok update, after)
    pub ready : Ready after
    pub keeps : Extends (view s) (view after)
    pub holds : Children (Holds x (view after) d) (entries_of update) es

  pub store_leaf_lem :
      (es : List LeafEntry) (b : Key) (s : S)
      → Ready s
      → last_key es ≡ some b
      → Updates zero s es (store_leaf x a config 0 es s)
  unfolding store_leaf boundary_of
  store_leaf_lem es b s r e =
      let p = store_node_lem good lawful (leaf 0 es) b s r e in
      record {
        update = record {
          new_hash = p.hash;
          new_boundary_key = b;
          new_item_count = length es % u64_mod;
          split_info = none;
        };
        after = p.after;
        returns = rw p.returns;
        ready = p.ready;
        keeps = p.keeps;
        holds = (es, [], sym (append-nil es), (p.node_at, refl, e), refl);
      }

  pub split_leaf_lem :
      (es : List LeafEntry) (s : S)
      → Ready s
      → 2 ≤ length es
      → Updates zero s es (split_leaf x a config 0 es s)
  unfolding split_leaf boundary_of
  split_leaf_lem es s r two =
      let left = take (length es / 2) es in
      let right = drop (length es / 2) es in
      let (some_left, some_right) = halves es two in
      let (b, e) = last_key_total left some_left in
      let (b', e') = last_key_total right some_right in
      let p = store_node_lem good lawful (leaf 0 right) b' s r e' in
      let q = store_node_lem good lawful (leaf 0 left) b p.after p.ready e in
      record {
        update = record {
          new_hash = q.hash;
          new_boundary_key = b;
          new_item_count = length left % u64_mod;
          split_info = some (b', p.hash, length right % u64_mod);
        };
        after = q.after;
        returns = rw (e', p.returns, q.returns);
        ready = q.ready;
        keeps = Extends-trans p.keeps q.keeps;
        holds = (
          left,
          right,
          sym (take-append-drop (length es / 2) es),
          (q.node_at, refl, e),
          (right, [], sym (append-nil right), (NodeAt-Extends q.keeps p.node_at, refl, e'), refl),
        );
      }

  -- The node is stored with its children; `split` is what stands beside it already.
  store_internal_lem :
      (d : ℕ) (cs : List InternalEntry) (es rest : List LeafEntry) (split : Option (Key × Hash × ℕ))
      (s : S)
      → Ready s
      → 0 < length cs
      → Children (Holds x (view s) d) cs es
      → Children (Holds x (view s) (suc d)) (siblings split) rest
      → Updates (suc d) s (es ++ rest) (store_internal x a config (suc d) cs split s)
  unfolding store_internal boundary_of
  store_internal_lem d [] es rest split s r some_cs children beside = absurd (omega arith)
  store_internal_lem d (c ∷ cs) es rest split s r some_cs children beside =
      let (b, lb, lk) = last_boundary_lem (Holds x (view s) d) c cs es children in
      let p = store_node_lem good lawful (internal (suc d) (c ∷ cs)) b s r lb in
      record {
        update = record {
          new_hash = p.hash;
          new_boundary_key = b;
          new_item_count = sum_items (c ∷ cs);
          split_info = split;
        };
        after = p.after;
        returns = rw p.returns;
        ready = p.ready;
        keeps = p.keeps;
        holds = (
          es,
          rest,
          refl,
          (
            (c ∷ cs, p.node_at, Children-imp (Holds-Extends x p.keeps d) (c ∷ cs) es children),
            sum_items_lem (Holds x (view s) d) (c ∷ cs) es children,
            lk,
          ),
          Children-imp (Holds-Extends x p.keeps (suc d)) (siblings split) rest beside,
        );
      }

  pub store_whole_lem :
      (d : ℕ) (cs : List InternalEntry) (es : List LeafEntry) (s : S)
      → Ready s
      → 0 < length cs
      → Children (Holds x (view s) d) cs es
      → Updates (suc d) s es (store_internal x a config (suc d) cs none s)
  store_whole_lem d cs es s r some_cs children =
      subst (λ l. Updates (suc d) s l (store_internal x a config (suc d) cs none s)) (append-nil es)
        (store_internal_lem d cs es [] none s r some_cs children refl)

  pub Updates-weaken :
      (d : ℕ) (s t : S) (es : List LeafEntry) (run : Result ProcessedNodeUpdate × S)
      → Extends (view s) (view t)
      → Updates d t es run
      → Updates d s es run
  Updates-weaken d s t es run ext u = record {
    update = u.update;
    after = u.after;
    returns = u.returns;
    ready = u.ready;
    keeps = Extends-trans ext u.keeps;
    holds = u.holds;
  }

  pub split_internal_lem :
      (d : ℕ) (cs : List InternalEntry) (es : List LeafEntry) (s : S)
      → Ready s
      → 2 ≤ length cs
      → Children (Holds x (view s) d) cs es
      → Updates (suc d) s es (split_internal x a config (suc d) (suc d) cs s)
  unfolding split_internal boundary_of
  split_internal_lem d cs es s r two children =
      let left = take (length cs / 2) cs in
      let right = drop (length cs / 2) cs in
      let (some_left, some_right) = halves cs two in
      let (ls, rs, e, in_left, in_right) = Children-parts (Holds x (view s) d) left right es (
        subst (λ l. Children (Holds x (view s) d) l es) (sym (take-append-drop (length cs / 2) cs))
          children) in
      let (b, lb, lk) = last_boundary_total (Holds x (view s) d) right rs some_right in_right in
      let p = store_node_lem good lawful (internal (suc d) right) b s r lb in
      let keep = Children-imp (Holds-Extends x p.keeps d) in
      let u =
        store_internal_lem d left ls rs (some (b, p.hash, sum_items right)) p.after p.ready
          some_left (keep left ls in_left)
          (
            rs,
            [],
            sym (append-nil rs),
            (
              (right, p.node_at, keep right rs in_right),
              sum_items_lem (Holds x (view s) d) right rs in_right,
              lk,
            ),
            refl,
          ) in
      record {
        update = u.update;
        after = u.after;
        returns = rw (lb, p.returns) u.returns;
        ready = u.ready;
        keeps = Extends-trans p.keeps u.keeps;
        holds =
            subst (λ l. Children (Holds x (view u.after) (suc d)) (entries_of u.update) l) (sym e)
              u.holds;
      }
