-- ===== src/Io/Laws.antt =====
-- Nodes in a store that keeps the contract of `Access`: a node that is stored can be loaded.
use prolly_gunna.Prelude.{◌≡◌, some, arith}
use prolly_gunna.Prelude.Bytes.{Bytes}
use prolly_gunna.Errors.{ok}
use prolly_gunna.Node.{Hash, Key, Node, boundary_of}
use prolly_gunna.Externals.{Externals, IsLawful}
use prolly_gunna.Store.Access.{Access, View, Extends, IsAccess}
use prolly_gunna.Io.{store_node_and_get_key_hash_pair, load_chunk, load_node}

-- The bytes under a hash decode to the node.
pub record NodeAt (x : Externals) (v : View) (h : Hash) (n : Node) : Type 0 where
  pub bytes : Bytes
  pub stored : v h ≡ some bytes
  pub decodes : x.deserialize bytes ≡ some n

pub NodeAt-Extends :
    {x : Externals} {v w : View} {h : Hash} {n : Node}
    → Extends v w
    → NodeAt x v h n
    → NodeAt x w h n
NodeAt-Extends {h = h} ext at = record {
  bytes = at.bytes;
  stored = ext h at.bytes at.stored;
  decodes = at.decodes;
}

module _ {S : Type 0} {x : Externals} {a : Access S} (good : IsAccess x a) where
  open good use {view, Ready, get_view, put_stores}

  pub load_chunk_lem :
      (h : Hash) (b : Bytes) (s : S) → Ready s → view s h ≡ some b → load_chunk x a h s ≡ (ok b, s)
  unfolding load_chunk
  load_chunk_lem h b s r e = rw (get_view h s r, e)

  pub load_node_lem :
      (h : Hash) (n : Node) (s : S)
      → Ready s
      → NodeAt x (view s) h n
      → load_node x a h s ≡ (ok n, s)
  unfolding load_node
  load_node_lem h n s r at = ground (arith, get_view h s r)

  -- What storing a node leaves behind.
  pub record NodeStored (n : Node) (b : Key) (s : S) : Type 0 where
    pub hash : Hash
    pub after : S
    pub returns : store_node_and_get_key_hash_pair x a n s ≡ (ok (b, hash), after)
    pub ready : Ready after
    pub node_at : NodeAt x (view after) hash n
    pub keeps : Extends (view s) (view after)

  pub store_node_lem :
      (lawful : IsLawful x) (n : Node) (b : Key) (s : S)
      → Ready s
      → boundary_of n ≡ some b
      → NodeStored n b s
  unfolding store_node_and_get_key_hash_pair
  store_node_lem lawful n b s r e =
      let (bytes, encodes, decodes) = lawful.decode_encode n in
      let p = put_stores bytes s r in
      record {
        hash = x.hash_bytes bytes;
        after = p.after;
        returns = ground (arith, p.puts, encodes);
        ready = p.ready;
        node_at = record { bytes = bytes; stored = p.holds; decodes = decodes };
        keeps = p.keeps;
      }
