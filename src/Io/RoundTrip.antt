-- ===== src/Io/RoundTrip.antt =====
-- What is stored is read back: nodes, and values with their chunks.
use prolly_gunna.Prelude.{◌≡◌, some}
use prolly_gunna.Errors.{ok, ◌>>=◌}
use prolly_gunna.Node.{Key, Value, Node, TreeConfig, boundary_of}
use prolly_gunna.Externals.{Externals, IsLawful, IsChunker}
use prolly_gunna.Store.Access.{Access, IsAccess}
use prolly_gunna.Io.{
  load_node, store_node_and_get_key_hash_pair, prepare_value_repr, load_value_repr,
}
use prolly_gunna.Io.Laws.{load_node_lem, store_node_lem}
use prolly_gunna.Io.Values.{prepare_value_repr_lem, load_value_repr_lem}

module _ {S : Type 0} {x : Externals} {a : Access S} (good : IsAccess x a) where
  open good use {view, Ready, get_view}

  -- In a ready store, with lawful externals, a node that has a boundary key is stored without an
  -- error and loads under the hash that storing it returned.
  pub load_node-store_node :
      (lawful : IsLawful x) (n : Node) (b : Key) (s : S)
      → Ready s
      → boundary_of n ≡ some b
      → ((do p ← store_node_and_get_key_hash_pair x a n; load_node x a p.1) s).0 ≡ ok n
  load_node-store_node lawful n b s r e =
      let q = store_node_lem good lawful n b s r e in
      rw (q.returns, load_node_lem good q.hash n q.after q.ready q.node_at)

  -- In a ready store, with a chunker that covers every value, preparing a value for a leaf, inline
  -- or in chunks, and loading its representation returns the whole value.
  pub load_value_repr-prepare_value_repr :
      (config : TreeConfig) (value : Value) (s : S)
      → IsChunker x config
      → Ready s
      → ((do r ← prepare_value_repr x a config value; load_value_repr x a r) s).0 ≡ ok value
  load_value_repr-prepare_value_repr config value s chunker r =
      let p = prepare_value_repr_lem good config value s chunker r in
      rw (p.returns, load_value_repr_lem good p.repr value p.after p.ready p.holds)
