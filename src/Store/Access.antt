-- ===== src/Store/Access.antt =====
-- src/store/chunk_store.rs: the trait `ChunkStore` as the two operations that the tree code calls.
-- The trait has each operation twice, as an async and as a sync method: a value of `Access` is one
-- of the two pairs (`get` and `put`, or `get_sync` and `put_sync`).
use prolly_gunna.Prelude.{◌≡◌, Bool, true, false, Option, none, some}
use prolly_gunna.Prelude.Bytes.{Bytes}
use prolly_gunna.Errors.{ok, Exec, ◌>>=◌, pure, fail, invalid_operation}
use prolly_gunna.Node.{Hash}
use prolly_gunna.Externals.{Externals}

pub record Access (S : Type 0) : Type 0 where
  pub get : Hash → Exec S (Option Bytes)
  pub put : Bytes → Exec S Hash

-- The default methods of the trait: `exists` reads, the sync methods are not supported.
unfoldable pub exists : {S : Type 0} → Access S → Hash → Exec S Bool
exists a h = do found ← a.get h; pure (elim found [ none ↦ false | some _ ↦ true ])

unfoldable pub unsupported_sync : {S : Type 0} → Access S
unsupported_sync = record {
  get = λ h. fail (invalid_operation "This store does not support synchronous get.");
  put = λ b. fail (invalid_operation "This store does not support synchronous put.");
}

-- What a store holds under each hash.
abbrev pub View : Type 0
View = Hash → Option Bytes

-- Nothing that was readable is lost or changed.
abbrev pub Extends : View → View → Type 0
Extends v w = (h : Hash) (b : Bytes) → v h ≡ some b → w h ≡ some b

pub Extends-trans : {u v w : View} → Extends u v → Extends v w → Extends u w
Extends-trans p q = λ h b e. q h b (p h b e)

-- What the tree code relies on: in a ready state a read returns what is stored, and a write returns
-- the hash of the bytes, stores them under it, and loses nothing.
pub record Stored {S : Type 0} (x : Externals) (a : Access S) (view : S → View) (Ready : S → Type 0)
    (b : Bytes) (s : S) : Type 0 where
  pub after : S
  pub puts : a.put b s ≡ (ok (x.hash_bytes b), after)
  pub ready : Ready after
  pub holds : view after (x.hash_bytes b) ≡ some b
  pub keeps : Extends (view s) (view after)

pub record IsAccess {S : Type 0} (x : Externals) (a : Access S) : Type 1 where
  pub view : S → View
  pub Ready : S → Type 0
  pub get_view : (h : Hash) (s : S) → Ready s → a.get h s ≡ (ok (view s h), s)
  pub put_stores : (b : Bytes) (s : S) → Ready s → Stored x a view Ready b s
