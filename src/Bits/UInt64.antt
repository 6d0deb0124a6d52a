-- ===== src/Bits/UInt64.antt =====
-- afl/bits/uint64le.hpp and uint64be.hpp: a number of 64 bits as 8 bytes, the lowest or the highest first.
use afl.Base.{ℕ, ◌+◌, ◌*◌, ◌/◌, ◌%◌, ◌^◌, ◌<◌, ◌≡◌, arith}

-- `Bytes_t`
abbrev pub Bytes : Type 0
Bytes = ℕ × ℕ × ℕ × ℕ × ℕ × ℕ × ℕ × ℕ

abbrev pub unpack_le : Bytes → ℕ
unpack_le (b0, b1, b2, b3, b4, b5, b6, b7) =
    (b0
      + b1 * 2 ^ 8
      + b2 * 2 ^ 16
      + b3 * 2 ^ 24
      + b4 * 2 ^ 32
      + b5 * 2 ^ 40
      + b6 * 2 ^ 48
      + b7 * 2 ^ 56)
    % 2 ^ 64

abbrev pub pack_le : ℕ → Bytes
pack_le word = (
  word % 256,
  word / 2 ^ 8 % 256,
  word / 2 ^ 16 % 256,
  word / 2 ^ 24 % 256,
  word / 2 ^ 32 % 256,
  word / 2 ^ 40 % 256,
  word / 2 ^ 48 % 256,
  word / 2 ^ 56 % 256,
)

abbrev pub unpack_be : Bytes → ℕ
unpack_be (b0, b1, b2, b3, b4, b5, b6, b7) =
    (b7
      + b6 * 2 ^ 8
      + b5 * 2 ^ 16
      + b4 * 2 ^ 24
      + b3 * 2 ^ 32
      + b2 * 2 ^ 40
      + b1 * 2 ^ 48
      + b0 * 2 ^ 56)
    % 2 ^ 64

abbrev pub pack_be : ℕ → Bytes
pack_be word = (
  word / 2 ^ 56 % 256,
  word / 2 ^ 48 % 256,
  word / 2 ^ 40 % 256,
  word / 2 ^ 32 % 256,
  word / 2 ^ 24 % 256,
  word / 2 ^ 16 % 256,
  word / 2 ^ 8 % 256,
  word % 256,
)

-- Every number of 64 bits is what its bytes are read as, in both orders.
pub unpack-pack64 :
    (word : ℕ)
    → word < 2 ^ 64
    → (unpack_le (pack_le word) ≡ word) × (unpack_be (pack_be word) ≡ word)
unpack-pack64 word h = (omega arith, omega arith)
