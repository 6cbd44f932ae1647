-- ===== src/Errors.antt =====
-- src/error.rs: the error type, and the results of operations that read and write a store.
-- A panic of the source and the end of the fuel of a recursion are outcomes of their own.
use prolly_gunna.Prelude.{String, Option, none, some}
use prolly_gunna.Prelude.Bytes.{Bytes}

-- The errors of `bincode` and of `std::io` are left out of the constructors that hold them.
pub data ProllyError : Type 0 where
  chunk_not_found : Bytes → ProllyError
  node_deserialization : String → ProllyError
  node_serialization : String → ProllyError
  storage_error : String → ProllyError
  bincode_error : ProllyError
  empty_tree key_not_found invalid_root_hash : ProllyError
  config_error : String → ProllyError
  internal_error : String → ProllyError
  js_binding_error : String → ProllyError
  invalid_file_format : String → ProllyError
  checksum_mismatch : (context : String) → ProllyError
  serialization : String → ProllyError
  deserialization : String → ProllyError
  io_error : ProllyError
  wasm_interop_error : String → ProllyError
  invalid_operation : String → ProllyError

pub data Result {ℓ} (A : Type ℓ) : Type ℓ where
  ok : A → Result A
  err : ProllyError → Result A
  panic : Result A
  out_of_fuel : Result A

-- An operation on a store of type `S`: what it wrote before an error stays written.
abbrev pub Exec : Type 0 → Type 0 → Type 0
Exec S A = S → Result A × S

module _ {S A : Type 0} where
  abbrev pub pure : A → Exec S A
  pure a s = (ok a, s)

  abbrev pub fail : ProllyError → Exec S A
  fail e s = (err e, s)

  abbrev pub abort : Exec S A
  abort s = (panic, s)

  abbrev pub stop : Exec S A
  stop s = (out_of_fuel, s)

  abbrev pub lift : Result A → Exec S A
  lift r s = (r, s)

  -- `opt.ok_or(e)?`
  abbrev pub ok_or : ProllyError → Option A → Exec S A
  ok_or e none = fail e
  ok_or e (some a) = pure a

  -- A slice index, which panics out of range.
  abbrev pub or_panic : Option A → Exec S A
  or_panic none = abort
  or_panic (some a) = pure a

module _ {S A B : Type 0} where
  abbrev pub and_then : Result A × S → (A → Exec S B) → Result B × S
  and_then (ok a, s) k = k a s
  and_then (err e, s) k = (err e, s)
  and_then (panic, s) k = (panic, s)
  and_then (out_of_fuel, s) k = (out_of_fuel, s)

  infixl 5 ◌>>=◌ ◌>>◌
  abbrev pub ◌>>=◌ : Exec S A → (A → Exec S B) → Exec S B
  m >>= k = λ s. and_then (m s) k

  abbrev pub ◌>>◌ : Exec S A → Exec S B → Exec S B
  m >> n = m >>= λ _. n
