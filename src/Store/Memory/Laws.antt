-- ===== src/Store/Memory/Laws.antt =====
-- The in-memory store keeps the contract of `Access`, by its async methods and by its sync ones.
use prolly_gunna.Prelude.{
  ◌≡◌, refl, ap, inl, inr, Option, none, some, List, [], ◌∷◌, arith, Option-cases, if◌then◌else◌,
}
use prolly_gunna.Errors.{ok, ◌>>◌}
use prolly_gunna.Store.Memory.Map
use prolly_gunna.Prelude.Bytes.{Bytes, bytes_eq, bytes_eq_iff}
use prolly_gunna.Node.{Hash}
use prolly_gunna.Externals.{Externals, IsLawful}
use prolly_gunna.Store.Access.{View, Extends, IsAccess}
use prolly_gunna.Store.Memory.Map.{
  find, put_new, find-put_new, contains, remove_all, find-remove_all,
}
use prolly_gunna.Store.Memory.{
  InMemoryStore, free, get, put, delete_batch, get_sync, put_sync, async_access, sync_access,
}

-- Every chunk stands under its own hash.
abbrev pub IsAddressed : Externals → InMemoryStore → Type 0
IsAddressed x s = (h : Hash) (b : Bytes) → find h s.chunks ≡ some b → x.hash_bytes b ≡ h

abbrev pub view : InMemoryStore → View
view s h = find h s.chunks

abbrev pub stored : Externals → Bytes → InMemoryStore → InMemoryStore
stored x b s = record s { chunks = put_new (x.hash_bytes b) b s.chunks }

module _ (x : Externals) (lawful : IsLawful x) (b : Bytes) (s : InMemoryStore)
    (addressed : IsAddressed x s) where
  pub stored_holds : find (x.hash_bytes b) (stored x b s).chunks ≡ some b
  stored_holds =
      let h = x.hash_bytes b in
      elim (Option-cases (find h s.chunks)) [
        | inl e ↦ ground (arith, find-put_new h h b s.chunks, bytes_eq_iff h h)
        | inr (c, e) ↦ ground (
          arith,
          find-put_new h h b s.chunks,
          bytes_eq_iff h h,
          lawful.hash_injective c b (addressed h c e),
        )
      ]

  pub stored_keeps : Extends (view s) (view (stored x b s))
  stored_keeps j c e =
      let h = x.hash_bytes b in ground (arith, find-put_new h j b s.chunks, bytes_eq_iff h j)

  pub stored-IsAddressed : IsAddressed x (stored x b s)
  stored-IsAddressed j c e =
      let h = x.hash_bytes b in
      ground (arith, e, find-put_new h j b s.chunks, bytes_eq_iff h j, addressed j c, stored_holds)

module _ (x : Externals) (lawful : IsLawful x) where
  unfoldable pub async_access-IsAccess : IsAccess x (async_access x)
  unfolding get put
  async_access-IsAccess = record {
    view = view;
    Ready = IsAddressed x;
    get_view = λ h s r. refl;
    put_stores = λ b s r. record {
      after = stored x b s;
      puts = refl;
      ready = stored-IsAddressed x lawful b s r;
      holds = stored_holds x lawful b s r;
      keeps = stored_keeps x lawful b s r;
    };
  }

  unfoldable pub sync_access-IsAccess : IsAccess x (sync_access x)
  unfolding get_sync put_sync
  sync_access-IsAccess = record {
    view = view;
    Ready = λ s. IsAddressed x s × (s.lock ≡ free);
    get_view = λ h s r. rw r.1;
    put_stores = λ b s r. record {
      after = stored x b s;
      puts = rw r.1;
      ready = (stored-IsAddressed x lawful b s r.0, r.1);
      holds = stored_holds x lawful b s r.0;
      keeps = stored_keeps x lawful b s r.0;
    };
  }

-- In a store of addressed chunks, where no two byte strings have one hash, a read after a write
-- returns the bytes at their hash, and at any other hash what was there.
pub get-put :
    (x : Externals) (lawful : IsLawful x) (b : Bytes) (j : Hash) (s : InMemoryStore)
    → IsAddressed x s
    → ((do put x b; get j) s).0
      ≡ ok (if bytes_eq (x.hash_bytes b) j then some b else find j s.chunks)
unfolding get put
get-put x lawful b j s addressed = ground (
  arith,
  find-put_new (x.hash_bytes b) j b s.chunks,
  bytes_eq_iff (x.hash_bytes b) j,
  stored_holds x lawful b s addressed,
)

-- After a batch of deletions the store has nothing at their hashes, and at any other hash what was
-- there.
pub get-delete_batch :
    (hs : List Hash) (j : Hash) (s : InMemoryStore)
    → ((do delete_batch hs; get j) s).0 ≡ ok (if contains j hs then none else find j s.chunks)
unfolding get delete_batch remove_all Map.contains
get-delete_batch [] j s = refl
get-delete_batch (h ∷ hs) j s =
    ap (λ (o : Option Bytes). ok o) (find-remove_all (h ∷ hs) j s.chunks)
