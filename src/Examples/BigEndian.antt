-- ===== src/Examples/BigEndian.antt =====
-- Integers with the big end first, which stand for those of `byteorder` in the concrete runs.
use prolly_gunna.Prelude.{ℕ, ◌+◌, ◌*◌, ◌/◌, ◌%◌, ◌^◌, [], ◌∷◌, ◌++◌, ◌≡◌, refl, ap, arith}
use prolly_gunna.Prelude.Bytes.{Bytes}
use prolly_gunna.Errors.{Exec, ok, err, pure, ◌>>=◌, io_error}
use prolly_gunna.Format.{ByteOrder, IsByteOrder}

abbrev pub bytes_u32 : ℕ → Bytes
bytes_u32 n = n / 2 ^ 24 ∷ n / 2 ^ 16 % 256 ∷ n / 2 ^ 8 % 256 ∷ n % 256 ∷ []

unfoldable pub read_u32 : Exec Bytes ℕ
read_u32 (a ∷ b ∷ c ∷ d ∷ rest) = (ok (a * 2 ^ 24 + b * 2 ^ 16 + c * 2 ^ 8 + d), rest)
read_u32 _ = (err io_error, [])

digits :
    (n : ℕ)
    → n / 2 ^ 24 * 2 ^ 24 + n / 2 ^ 16 % 256 * 2 ^ 16 + n / 2 ^ 8 % 256 * 2 ^ 8 + n % 256 ≡ n
digits n = omega arith

read_bytes_u32 : (n : ℕ) (rest : Bytes) → read_u32 (bytes_u32 n ++ rest) ≡ (ok n, rest)
unfolding read_u32
read_bytes_u32 n rest = ap (λ (m : ℕ). (ok m, rest)) (digits n)

abbrev pub bytes_u64 : ℕ → Bytes
bytes_u64 n = bytes_u32 (n / 2 ^ 32) ++ bytes_u32 (n % 2 ^ 32)

unfoldable pub read_u64 : Exec Bytes ℕ
unfolding read_u32
read_u64 = do high ← read_u32; low ← read_u32; pure (high * 2 ^ 32 + low)

halves : (n : ℕ) → n / 2 ^ 32 * 2 ^ 32 + n % 2 ^ 32 ≡ n
halves n = omega arith

read_bytes_u64 : (n : ℕ) (rest : Bytes) → read_u64 (bytes_u64 n ++ rest) ≡ (ok n, rest)
unfolding read_u64 read_u32
read_bytes_u64 n rest = rw (digits (n / 2 ^ 32), digits (n % 2 ^ 32), halves n)

abbrev pub big_endian : ByteOrder
big_endian = record {
  bytes_u32 = bytes_u32;
  bytes_u64 = bytes_u64;
  read_u32 = read_u32;
  read_u64 = read_u64;
}

pub big_endian-IsByteOrder : IsByteOrder big_endian
big_endian-IsByteOrder = record {
  length_u32 = λ n. refl;
  length_u64 = λ n. refl;
  read_write_u32 = λ n rest lt. read_bytes_u32 n rest;
  read_write_u64 = λ n rest lt. read_bytes_u64 n rest;
}
