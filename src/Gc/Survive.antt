-- ===== src/Gc/Survive.antt =====
-- Trees survive a collection that has their roots among its roots.
use prolly_gunna.Prelude.{
  ℕ, zero, suc, ◌≤◌, ◌<◌, true, ◌||◌, Option, none, some, List, [], ◌∷◌, ◌++◌, ◌≡◌, refl, sym,
  subst, arith, Bool-cases, ◌⊎◌, inl, inr,
}
use prolly_gunna.Prelude.Bytes.{Bytes, bytes_eq_iff}
use prolly_gunna.Errors.{ok}
use prolly_gunna.Node.{
  Hash, Key, Value, ValueRepr, inline, chunked, chunked_sequence, LeafEntry, InternalEntry, Node,
  leaf, internal,
}
use prolly_gunna.Externals.{Externals, IsLawful}
use prolly_gunna.Store.Memory.{InMemoryStore, async_access}
use prolly_gunna.Store.Memory.Map.{find, contains}
use prolly_gunna.Store.Memory.Laws.{view, IsAddressed, async_access-IsAccess}
use prolly_gunna.Io.Laws.{NodeAt}
use prolly_gunna.Io.Values.{ValueAt, ChunksAt}
use prolly_gunna.Tree.Holds.{Holds, Children}
use prolly_gunna.Tree.SortedMap.{SortedMap, lookup}
use prolly_gunna.Tree.Session.{ProllyTree, Session, root, get}
use prolly_gunna.Tree.Session.Represents.{Represents, Pairs}
use prolly_gunna.Tree.Session.Get.{get_lem}
use prolly_gunna.Gc.{
  memory, set_insert, value_refs, entry_refs, child_refs, node_refs, chunk_refs, gc, gc_roots,
}
use prolly_gunna.Gc.Mark.{Reaches, at_root, at_ref, refs_at, contains-append}
use prolly_gunna.Gc.Collect.{collect_lem, enough_fuel, contains-to_set}

module _ (x : Externals) (s t : InMemoryStore) (roots : List Hash)
    (keeps : (h : Hash) (b : Bytes)
      → Reaches x s roots h
      → find h s.chunks ≡ some b
      → find h t.chunks ≡ some b) where
  abbrev AllReached : List Hash → Type 0
  AllReached rs = (r : Hash) → contains r rs ≡ true → Reaches x s roots r

  -- The references of a node that can be reached can be reached.
  node_reached :
      (h : Hash) (n : Node) → NodeAt x (view s) h n → Reaches x s roots h → AllReached (node_refs n)
  unfolding refs_at chunk_refs
  node_reached h n at reached r ref =
      at_ref h r reached (ground (arith, ref, at.stored, at.decodes))

  NodeAt-kept :
      (h : Hash) (n : Node) → Reaches x s roots h → NodeAt x (view s) h n → NodeAt x (view t) h n
  NodeAt-kept h n reached at = record {
    bytes = at.bytes;
    stored = keeps h at.bytes reached at.stored;
    decodes = at.decodes;
  }

  ChunksAt-kept :
      (hs : List Hash) (value : Value)
      → AllReached hs
      → ChunksAt (view s) hs value
      → ChunksAt (view t) hs value
  unfolding contains
  ChunksAt-kept [] value reached at = at
  ChunksAt-kept (h ∷ hs) value reached (b, rest, at, e, ats) = (
    b,
    rest,
    keeps h b (reached h (ground (arith, bytes_eq_iff h h))) at,
    e,
    ChunksAt-kept hs rest (λ r ref. reached r (ground (arith, ref))) ats,
  )

  ValueAt-kept :
      (r : ValueRepr) (value : Value)
      → AllReached (value_refs r)
      → ValueAt (view s) r value
      → ValueAt (view t) r value
  unfolding value_refs contains
  ValueAt-kept (inline value') value reached at = at
  ValueAt-kept (chunked h) value reached at =
      keeps h value (reached h (ground (arith, bytes_eq_iff h h))) at
  ValueAt-kept (chunked_sequence hs size) value reached at =
      (ChunksAt-kept hs value reached at.0, at.1)

  Pairs-kept :
      (es : List LeafEntry) (m : SortedMap)
      → AllReached (entry_refs es)
      → Pairs (view s) es m
      → Pairs (view t) es m
  unfolding entry_refs
  Pairs-kept [] m reached p = p
  Pairs-kept (e ∷ es) [] reached p = p
  Pairs-kept (e ∷ es) ((k, value) ∷ m) reached p = (
    p.0,
    ValueAt-kept e.value value
        (λ r ref.
          reached r (ground (arith, ref, contains-append r (value_refs e.value) (entry_refs es))))
        p.1,
    Pairs-kept es m
        (λ r ref.
          reached r (ground (arith, ref, contains-append r (value_refs e.value) (entry_refs es))))
        p.2,
  )

  entry_refs-append :
      (xs ys : List LeafEntry) (r : Hash)
      → contains r (entry_refs (xs ++ ys))
        ≡ (contains r (entry_refs xs) || contains r (entry_refs ys))
  unfolding entry_refs contains
  entry_refs-append [] ys r = refl
  entry_refs-append (e ∷ xs) ys r = ground (
    arith,
    entry_refs-append xs ys r,
    contains-append r (value_refs e.value) (entry_refs (xs ++ ys)),
    contains-append r (value_refs e.value) (entry_refs xs),
  )

  -- A tree whose root can be reached is kept, and what its values refer to can be reached.
  Kept : (d : ℕ) (h : Hash) (es : List LeafEntry) → Type 0
  Kept d h es = Holds x (view t) d h es × AllReached (entry_refs es)

  Children-Kept :
      (d : ℕ)
      → ((h : Hash) (es : List LeafEntry)
          → Reaches x s roots h
          → Holds x (view s) d h es
          → Kept d h es)
      → (cs : List InternalEntry) (es : List LeafEntry) → AllReached (child_refs cs)
      → Children (Holds x (view s) d) cs es
      → Children (Holds x (view t) d) cs es × AllReached (entry_refs es)
  unfolding Kept child_refs entry_refs contains
  Children-Kept d kept [] es reached e = (e, λ r ref. absurd (ground (arith, e, ref)))
  Children-Kept d kept (c ∷ cs) es reached (xs, ys, e, child, rest) =
      let (holds, values) =
        kept c.child_hash xs
          (reached c.child_hash (ground (arith, bytes_eq_iff c.child_hash c.child_hash))) child.0 in
      let (holds', values') =
        Children-Kept d kept cs ys (λ r ref. reached r (ground (arith, ref))) rest in
      (
        (xs, ys, e, (holds, child.1, child.2), holds'),
        λ r ref. elim (Bool-cases (contains r (entry_refs xs))) [
          | inl left ↦ values r left
          | inr right ↦ values' r (ground (arith, ref, e, right, entry_refs-append xs ys r))
        ],
      )

  Holds-Kept :
      (d : ℕ) (h : Hash) (es : List LeafEntry)
      → Reaches x s roots h
      → Holds x (view s) d h es
      → Kept d h es
  unfolding Kept node_refs
  Holds-Kept zero h es reached at =
      (NodeAt-kept h (leaf 0 es) reached at, node_reached h (leaf 0 es) at reached)
  Holds-Kept (suc d) h es reached (cs, at, children) =
      let (holds, values) =
        Children-Kept d (Holds-Kept d) cs es (node_reached h (internal (suc d) cs) at reached)
          children in
      ((cs, NodeAt-kept h (internal (suc d) cs) reached at, holds), values)

  Represents-kept :
      (d : ℕ) (h : Hash) (m : SortedMap)
      → Reaches x s roots h
      → Represents x (view s) d (some h) m
      → Represents x (view t) d (some h) m
  unfolding Kept
  Represents-kept d h m reached at =
      let (holds, values) = Holds-Kept d h at.entries reached at.holds in
      record {
        entries = at.entries;
        holds = holds;
        sorted = at.sorted;
        last = at.last;
        nonempty = at.nonempty;
        pairs = Pairs-kept at.entries m values at.pairs;
      }

-- A root is among the roots that `gc` collects for, if it is the current one or provided.
gc_roots_lem :
    (o : Option Hash) (provided : List Hash) (h : Hash)
    → ((o ≡ some h) ⊎ (contains h provided ≡ true))
    → contains h (gc_roots o provided) ≡ true
unfolding gc_roots contains set_insert
gc_roots_lem none provided h (inl e) = absurd (ground (arith, e))
gc_roots_lem none provided h (inr at) = ground (arith, at, contains-to_set h provided)
gc_roots_lem (some k) provided h live =
    ground (arith, live, contains-to_set h provided, bytes_eq_iff k h)

module _ (x : Externals) (lawful : IsLawful x) (fuel : ℕ) (provided : List Hash)
    (w : Session InMemoryStore)
    (enough : enough_fuel x w.store (gc_roots (root w) provided) ≤ fuel) where
  -- With lawful externals, a store whose chunks stand under their own hashes and fuel for the mark
  -- phase: for a root that is the current one or among those provided, and that stood for a map
  -- before the collection, a tree with that root over the remaining store reads at every key what
  -- the map has, with fuel beyond its depth.
  pub get-gc :
      (d fuel' : ℕ) (h : Hash) (k : Key) (m : SortedMap) (tree : ProllyTree)
      → d < fuel'
      → IsAddressed x w.store
      → (root w ≡ some h) ⊎ (contains h provided ≡ true)
      → Represents x (view w.store) d (some h) m
      → tree.root_hash ≡ some h
      → (get x
          (async_access x)
          fuel'
          k
          (record { tree = tree; store = (gc x memory fuel provided w).1.store })).0
        ≡ ok (lookup k m)
  unfolding gc async_access-IsAccess
  get-gc d fuel' h k m tree lt addressed live at e =
      let c = collect_lem x w.store (gc_roots (root w) provided) fuel enough in
      let reached : Reaches x w.store (gc_roots (root w) provided) h =
        at_root h (gc_roots_lem (root w) provided h live) in
      let w' : Session InMemoryStore = record { tree = tree; store = c.after } in
      let kept =
        Represents-kept x w.store c.after (gc_roots (root w) provided) c.keeps d h m reached at in
      let ready : IsAddressed x c.after = λ j b found. addressed j b (c.only j b found).1 in
      rw (
        gc,
        c.returns,
        get_lem (async_access-IsAccess x lawful) fuel' d k m w' lt ready
            (subst (λ o. Represents x (view c.after) d o m) (sym e) kept),
      )
