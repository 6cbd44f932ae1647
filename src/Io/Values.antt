-- ===== src/Io/Values.antt =====
-- Values in a store: what `prepare_value_repr` stores, the loading functions read back.
use prolly_gunna.Prelude.{
  ℕ, ◌+◌, ◌%◌, ◌≤◌, List, [], ◌∷◌, ◌++◌, ◌≡◌, refl, ap, subst, some, arith, false, length, map, All,
  ltb, leb, append-nil, append_assoc, Bool-cases, inl, inr,
}
use prolly_gunna.Prelude.Bytes.{Bytes}
use prolly_gunna.Errors.{ok}
use prolly_gunna.Node.{
  Hash, Value, ValueRepr, inline, chunked, chunked_sequence, TreeConfig, u64_mod,
}
use prolly_gunna.Externals.{Externals, IsChunker, slice, concat}
use prolly_gunna.Store.Access.{Access, View, Extends, Extends-trans, IsAccess}
use prolly_gunna.Io.{load_chunks, load_value_repr, store_chunks, repr_of_hashes, prepare_value_repr}
use prolly_gunna.Io.Laws.{load_chunk_lem}

-- The chunks under the hashes, one after the other, are the value.
abbrev pub ChunksAt : View → List Hash → Value → Type 0
ChunksAt v [] value = value ≡ []
ChunksAt v (h ∷ hs) value =
    (b : Bytes) × (rest : Value) × (v h ≡ some b) × (value ≡ b ++ rest) × ChunksAt v hs rest

-- The representation stands for the value.
abbrev pub ValueAt : View → ValueRepr → Value → Type 0
ValueAt v (inline value') value = value' ≡ value
ValueAt v (chunked h) value = v h ≡ some value
ValueAt v (chunked_sequence hs size) value = ChunksAt v hs value × (size ≡ length value % u64_mod)

pub ChunksAt-Extends :
    {v w : View}
    → Extends v w
    → (hs : List Hash) (value : Value) → ChunksAt v hs value
    → ChunksAt w hs value
ChunksAt-Extends ext [] value at = at
ChunksAt-Extends ext (h ∷ hs) value (b, rest, at, e, ats) =
    (b, rest, ext h b at, e, ChunksAt-Extends ext hs rest ats)

pub ValueAt-Extends :
    {v w : View}
    → Extends v w
    → (r : ValueRepr) (value : Value) → ValueAt v r value
    → ValueAt w r value
ValueAt-Extends ext (inline value') value at = at
ValueAt-Extends ext (chunked h) value at = ext h value at
ValueAt-Extends ext (chunked_sequence hs size) value at = (ChunksAt-Extends ext hs value at.0, at.1)

module _ {S : Type 0} {x : Externals} {a : Access S} (good : IsAccess x a) where
  open good use {view, Ready, put_stores}

  load_chunks_lem :
      (hs : List Hash) (acc value : Value) (s : S)
      → Ready s
      → ChunksAt (view s) hs value
      → load_chunks x a hs acc s ≡ (ok (acc ++ value), s)
  unfolding load_chunks
  load_chunks_lem [] acc value s r at = rw (at, append-nil)
  load_chunks_lem (h ∷ hs) acc value s r (b, rest, at, e, ats) =
      rw (load_chunk_lem good h b s r at, load_chunks_lem hs (acc ++ b) rest s r ats, e)
        (ap (λ (l : Value). (ok l, s)) (append_assoc acc b rest))

  -- A representation is read back as the value that it stands for.
  pub load_value_repr_lem :
      (repr : ValueRepr) (value : Value) (s : S)
      → Ready s
      → ValueAt (view s) repr value
      → load_value_repr x a repr s ≡ (ok value, s)
  unfolding load_value_repr
  load_value_repr_lem (inline value') value s r at = rw at
  load_value_repr_lem (chunked h) value s r at = load_chunk_lem good h value s r at
  load_value_repr_lem (chunked_sequence hs size) value s r at = load_chunks_lem hs [] value s r at.0

  -- Chunks stored one after the other.
  record ChunksStored (value : Value) (entries : List (ℕ × ℕ)) (s : S) : Type 0 where
    hashes : List Hash
    after : S
    returns : store_chunks x a value entries s ≡ (ok hashes, after)
    ready : Ready after
    keeps : Extends (view s) (view after)
    holds : ChunksAt (view after) hashes (concat (map (slice value) entries))

  store_chunks_lem :
      (value : Value) (entries : List (ℕ × ℕ)) (s : S)
      → Ready s
      → All (λ (p : ℕ × ℕ). p.0 + p.1 ≤ length value) entries
      → ChunksStored value entries s
  unfolding store_chunks
  store_chunks_lem value [] s r fits = record {
    hashes = [];
    after = s;
    returns = refl;
    ready = r;
    keeps = λ h b e. e;
    holds = refl;
  }
  store_chunks_lem value ((o, n) ∷ entries) s r fits =
      let in_range : ltb (length value) (o + n) ≡ false = ground (arith, fits.0) in
      let b = slice value (o, n) in
      let p = put_stores b s r in
      let q = store_chunks_lem value entries p.after p.ready fits.1 in
      record {
        hashes = x.hash_bytes b ∷ q.hashes;
        after = q.after;
        returns = rw (in_range, p.puts, q.returns);
        ready = q.ready;
        keeps = Extends-trans p.keeps q.keeps;
        holds = (
          b,
          concat (map (slice value) entries),
          q.keeps (x.hash_bytes b) b p.holds,
          refl,
          q.holds,
        );
      }

  repr_of_hashes_lem :
      (v : View) (value : Value) (hs : List Hash)
      → ChunksAt v hs value
      → ValueAt v (repr_of_hashes x a value hs) value
  unfolding repr_of_hashes
  repr_of_hashes_lem v value [] at = refl
  repr_of_hashes_lem v value (h ∷ []) (b, rest, at, e, ats) = rw (e, ats, append-nil) at
  repr_of_hashes_lem v value (h ∷ h' ∷ hs) at = (at, refl)

  pub record Prepared (config : TreeConfig) (value : Value) (s : S) : Type 0 where
    pub repr : ValueRepr
    pub after : S
    pub returns : prepare_value_repr x a config value s ≡ (ok repr, after)
    pub ready : Ready after
    pub keeps : Extends (view s) (view after)
    pub holds : ValueAt (view after) repr value

  -- A value is stored inline or in chunks, and its representation stands for it.
  pub prepare_value_repr_lem :
      (config : TreeConfig) (value : Value) (s : S)
      → IsChunker x config
      → Ready s
      → Prepared config value s
  unfolding prepare_value_repr
  prepare_value_repr_lem config value s chunker r =
      elim (Bool-cases (leb (length value) config.max_inline_value_size)) [
        | inl small ↦ record {
          repr = inline value;
          after = s;
          returns = rw small;
          ready = r;
          keeps = λ h b e. e;
          holds = refl;
        }
        | inr large ↦
            let c = chunker.cuts value in
            let p = store_chunks_lem value c.chunks s r c.in_range in
            record {
              repr = repr_of_hashes x a value p.hashes;
              after = p.after;
              returns = rw (large, c.returns, p.returns);
              ready = p.ready;
              keeps = p.keeps;
              holds =
                  repr_of_hashes_lem (view p.after) value p.hashes
                    (subst (ChunksAt (view p.after) p.hashes) c.covers p.holds);
            }
      ]
