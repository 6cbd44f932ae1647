-- ===== src/Cursor/Ahead.antt =====
-- The entries that a cursor's path has still to yield, and the moves to a leaf.
use prolly_gunna.Prelude.{
  ℕ, zero, suc, ◌+◌, ◌<◌, none, some, List, [], ◌∷◌, ◌++◌, ◌≡◌, refl, sym, ap, ◌∙◌, arith, true,
  false, Option-cases, inl, inr, Bool, subst, length, get_elem?, drop, append_assoc,
}
use prolly_gunna.Errors.{Result, ok, Exec, fail, internal_error}
use prolly_gunna.Node.{Hash, Key, LeafEntry, InternalEntry, Node, leaf, internal, last_key}
use prolly_gunna.Externals.{Externals}
use prolly_gunna.Store.Access.{Access, View, IsAccess}
use prolly_gunna.Io.Laws.{load_node_lem}
use prolly_gunna.Tree.Holds.{Holds, Children}
use prolly_gunna.Cursor.{Step, Cursor, Messages, descend, advance_next_from}

-- The entries after child `i` of the node that the path ends in; the child has depth `d`.
abbrev pub After : Externals → View → ℕ → ℕ → List Step → List LeafEntry → Type 0
After x v d i [] es = es ≡ []
After x v d i ((h, leaf level entries, j) ∷ path) es = ⊥
After x v d i ((h, internal level cs, j) ∷ path) es =
    (xs : List LeafEntry) × (ys : List LeafEntry) × (es ≡ xs ++ ys)
    × Children (Holds x v d) (drop (suc i) cs) xs
    × After x v (suc d) j path ys

module _ {S : Type 0} (x : Externals) (v : View) where
  -- The cursor stands in a leaf, with some entries behind it, and those of the leaf and the later
  -- ones ahead.
  pub record Landed (c : Cursor S) (r : Result (Unit {0}) × Cursor S) (n : ℕ) (es : List LeafEntry)
      : Type 0 where
    pub hash : Hash
    pub entries : List LeafEntry
    pub index : ℕ
    pub parents : List Step
    pub rest : List LeafEntry
    pub returns : r ≡ (ok tt, record c { path = (hash, leaf 0 entries, index) ∷ parents })
    pub after : After x v 0 index parents rest
    pub splits : es ≡ entries ++ rest
    pub depth : length parents ≡ n
    pub last : Key
    pub nonempty : last_key entries ≡ some last

pub no_last_key : (es : List LeafEntry) (b : Key) → es ≡ [] → last_key es ≡ some b → ⊥
no_last_key [] b nil e = cc
no_last_key (e' ∷ es) b nil e = cc

pub add-one : (n : ℕ) → n + 1 ≡ suc n
add-one n = omega arith

module _ {ℓ} {A : Type ℓ} where
  pub drop_next :
      (i : ℕ) (xs : List A) (y : A) → get_elem? xs i ≡ some y → drop i xs ≡ y ∷ drop (suc i) xs
  drop_next i [] y e = cc
  drop_next zero (z ∷ xs) y e = ground arith
  drop_next (suc i) (z ∷ xs) y e = drop_next i xs y e

  pub drop_end : (i : ℕ) (xs : List A) → get_elem? xs i ≡ none → drop i xs ≡ []
  drop_end zero [] e = refl
  drop_end (suc i) [] e = refl
  drop_end zero (z ∷ xs) e = cc
  drop_end (suc i) (z ∷ xs) e = drop_end i xs e

-- What moving to the next leaf does: the path is used up when no entry is left.
module _ {S : Type 0} (x : Externals) (v : View) where
  pub data Advanced (c : Cursor S) (r : Result Bool × Cursor S) (n : ℕ) (es : List LeafEntry)
      : Type 0 where
    exhausted : es ≡ [] → r ≡ (ok false, record c { path = [] }) → Advanced c r n es
    moved : (c' : Cursor S) → Landed x v c (ok tt, c') n es → r ≡ (ok true, c') → Advanced c r n es

module _ {S : Type 0} {x : Externals} {a : Access S} (good : IsAccess x a) where
  open good use {view, Ready}

  -- The descent to the first leaf below a node.
  pub descend_first :
      (on_empty : Exec (Cursor S) (Unit {0})) (pick : List InternalEntry → ℕ) (fuel d : ℕ)
      (h : Hash) (i : ℕ) (es later : List LeafEntry) (b : Key) (c : Cursor S)
      → ((c' : InternalEntry) (cs : List InternalEntry) → pick (c' ∷ cs) ≡ 0)
      → d < fuel
      → Ready c.store
      → Holds x (view c.store) d h es
      → last_key es ≡ some b
      → After x (view c.store) d i c.path later
      → Landed x
          (view c.store)
          c
          (descend x a on_empty pick fuel h i c)
          (d + length c.path)
          (es ++ later)
  unfolding descend
  descend_first on_empty pick zero d h i es later b c picks lt r at e after = elim lt [ ]
  descend_first on_empty pick (suc fuel) zero h i es later b c picks lt r at e after = record {
    hash = h;
    entries = es;
    index = i;
    parents = c.path;
    rest = later;
    returns = rw (load_node_lem good h (leaf 0 es) c.store r at);
    after = after;
    splits = refl;
    depth = omega arith;
    last = b;
    nonempty = e;
  }
  descend_first on_empty pick (suc fuel) (suc d) h i es later b c picks lt r ([], at, nil) e after =
      absurd (no_last_key es b nil e)
  descend_first on_empty pick (suc fuel) (suc d) h i es later b c picks lt r
        (child ∷ cs, at, (xs, ys, split, below, others)) e after =
      let node = internal (suc d) (child ∷ cs) in
      let l =
        descend_first on_empty pick fuel d child.child_hash 0 xs (ys ++ later) child.boundary_key
          (record c { path = (h, node, i) ∷ c.path }) picks (omega arith) r below.0 below.2
          (ys, later, refl, others, after) in
      record {
        hash = l.hash;
        entries = l.entries;
        index = l.index;
        parents = l.parents;
        rest = l.rest;
        returns = rw (load_node_lem good h node c.store r at, picks child cs) l.returns;
        after = l.after;
        splits = rw split (append_assoc xs ys later ∙ l.splits);
        depth = omega (arith, l.depth);
        last = l.last;
        nonempty = l.nonempty;
      }

  advance_next_up :
      (messages : Messages) (fuel : ℕ) (h h' : Hash) (n : Node) (i level j : ℕ)
      (cs : List InternalEntry) (path : List Step) (c : Cursor S)
      → get_elem? cs (suc i) ≡ none
      → advance_next_from x a messages fuel ((h, n, i) ∷ (h', internal level cs, j) ∷ path) c
        ≡ advance_next_from x a messages fuel ((h', internal level cs, j) ∷ path) c
  unfolding advance_next_from
  advance_next_up messages fuel h h' n i level j cs path c e =
      let e' : get_elem? cs (i + 1) ≡ none = rw add-one e in ground arith

  advance_next_down :
      (messages : Messages) (fuel : ℕ) (h h' : Hash) (n : Node) (i level j : ℕ)
      (cs : List InternalEntry) (path : List Step) (c c' : Cursor S) (child : InternalEntry)
      → get_elem? cs (suc i) ≡ some child
      → descend x a
          (fail (internal_error messages.empty_node))
          (λ l. 0)
          fuel
          child.child_hash
          (suc i)
          (record c { path = (h', internal level cs, j) ∷ path })
        ≡ (ok tt, c')
      → advance_next_from x a messages fuel ((h, n, i) ∷ (h', internal level cs, j) ∷ path) c
        ≡ (ok true, c')
  unfolding advance_next_from
  advance_next_down messages fuel h h' n i level j cs path c c' child e returns =
      let e' : get_elem? cs (i + 1) ≡ some child = rw add-one e in
      let returns' = rw (sym (add-one i)) at returns in ground (arith, e', returns')

  pub advance_next_lem :
      (messages : Messages) (fuel d : ℕ) (h : Hash) (n : Node) (i : ℕ) (path : List Step)
      (es : List LeafEntry) (c : Cursor S)
      → d + length path < fuel
      → Ready c.store
      → After x (view c.store) d i path es
      → Advanced x
          (view c.store)
          c
          (advance_next_from x a messages fuel ((h, n, i) ∷ path) c)
          (d + length path)
          es
  unfolding advance_next_from
  advance_next_lem messages fuel d h n i [] es c lt r after = exhausted after refl
  advance_next_lem messages fuel d h n i ((h', leaf level entries, j) ∷ path) es c lt r after =
      absurd after
  advance_next_lem messages fuel d h n i ((h', internal level cs, j) ∷ path) es c lt r
        (xs, ys, split, below, after) =
      elim (Option-cases (get_elem? cs (suc i))) [
        | inl e ↦
            let none_here : xs ≡ [] =
              subst (λ l. Children (Holds x (view c.store) d) l xs) (drop_end (suc i) cs e) below in
            let rest =
              advance_next_lem messages fuel (suc d) h' (internal level cs) j path ys c
                (omega arith) r after in
            let same : suc d + length path ≡ d + length ((h', internal level cs, j) ∷ path) =
              omega arith in
            rw
              (
                advance_next_up messages fuel h h' n i level j cs path c e,
                split,
                none_here,
                sym same,
              )
              rest
        | inr (child, e) ↦
            let (ys', zs, split', first, others) =
              subst (λ l. Children (Holds x (view c.store) d) l xs) (drop_next (suc i) cs child e)
                below in
            let l =
              descend_first _ (λ cs. 0) fuel d child.child_hash (suc i) ys' (zs ++ ys)
                child.boundary_key (record c { path = (h', internal level cs, j) ∷ path })
                (λ c' cs'. refl) (omega arith) r first.0 first.2 (zs, ys, refl, others, after) in
            moved (record c { path = (l.hash, leaf 0 l.entries, l.index) ∷ l.parents })
              (record {
                hash = l.hash;
                entries = l.entries;
                index = l.index;
                parents = l.parents;
                rest = l.rest;
                returns = refl;
                after = l.after;
                splits =
                    split
                    ∙ ap (λ (l : List LeafEntry). l ++ ys) split'
                    ∙ append_assoc ys' zs ys
                    ∙ l.splits;
                depth = omega (arith, l.depth);
                last = l.last;
                nonempty = l.nonempty;
              })
              (advance_next_down messages fuel h h' n i level j cs path c _ child e l.returns)
      ]
