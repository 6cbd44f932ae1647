-- ===== src/Tree/Holds.antt =====
-- What a tree in a store stands for: the entries below a hash, in order. A node at depth d has
-- level d; a child's entry has the count of what is below it and its last key.
pub mod Children
use prolly_gunna.Prelude.{ℕ, zero, suc, ◌%◌, some, List, [], ◌∷◌, ◌++◌, ◌≡◌, length}
use prolly_gunna.Node.{Hash, Key, LeafEntry, InternalEntry, leaf, internal, last_key, u64_mod}
use prolly_gunna.Externals.{Externals}
use prolly_gunna.Store.Access.{View, Extends}
use prolly_gunna.Io.Laws.{NodeAt, NodeAt-Extends}

abbrev pub Child : (Hash → List LeafEntry → Type 0) → InternalEntry → List LeafEntry → Type 0
Child P c es =
    P c.child_hash es
    × (c.num_items_subtree ≡ length es % u64_mod)
    × (last_key es ≡ some c.boundary_key)

-- The children side by side hold the entries.
abbrev pub Children :
    (Hash → List LeafEntry → Type 0) → List InternalEntry → List LeafEntry → Type 0
Children P [] es = es ≡ []
Children P (c ∷ cs) es =
    (xs : List LeafEntry) × (ys : List LeafEntry) × (es ≡ xs ++ ys)
    × Child P c xs
    × Children P cs ys

-- The tree of depth `d` at `h` holds the entries.
abbrev pub Holds : Externals → View → ℕ → Hash → List LeafEntry → Type 0
Holds x v zero h es = NodeAt x v h (leaf 0 es)
Holds x v (suc d) h es =
    (cs : List InternalEntry) × NodeAt x v h (internal (suc d) cs) × Children (Holds x v d) cs es

pub Children-imp :
    {P Q : Hash → List LeafEntry → Type 0}
    → ((h : Hash) (es : List LeafEntry) → P h es → Q h es)
    → (cs : List InternalEntry) (es : List LeafEntry) → Children P cs es
    → Children Q cs es
Children-imp f [] es h = h
Children-imp f (c ∷ cs) es (xs, ys, e, child, rest) =
    (xs, ys, e, (f c.child_hash xs child.0, child.1, child.2), Children-imp f cs ys rest)

-- A tree is still there in any store that has kept everything: old versions stay readable.
pub Holds-Extends :
    (x : Externals) {v w : View}
    → Extends v w
    → (d : ℕ) (h : Hash) (es : List LeafEntry) → Holds x v d h es
    → Holds x w d h es
Holds-Extends x ext zero h es at = NodeAt-Extends ext at
Holds-Extends x ext (suc d) h es (cs, at, children) =
    (cs, NodeAt-Extends ext at, Children-imp (Holds-Extends x ext d) cs es children)
