-- ===== src/Bits/UInt32.antt =====
-- afl/bits/uint32le.hpp and uint32be.hpp: a number of 32 bits as 4 bytes, the lowest or the highest first.
use afl.Base.{ℕ, ◌+◌, ◌*◌, ◌/◌, ◌%◌, ◌^◌, ◌<◌, ◌≡◌, arith}

-- `Bytes_t`
abbrev pub Bytes : Type 0
Bytes = ℕ × ℕ × ℕ × ℕ

abbrev pub unpack_le : Bytes → ℕ
unpack_le (b0, b1, b2, b3) = (b0 + b1 * 2 ^ 8 + b2 * 2 ^ 16 + b3 * 2 ^ 24) % 2 ^ 32

abbrev pub pack_le : ℕ → Bytes
pack_le word = (word % 256, word / 2 ^ 8 % 256, word / 2 ^ 16 % 256, word / 2 ^ 24 % 256)

abbrev pub unpack_be : Bytes → ℕ
unpack_be (b0, b1, b2, b3) = (b3 + b2 * 2 ^ 8 + b1 * 2 ^ 16 + b0 * 2 ^ 24) % 2 ^ 32

abbrev pub pack_be : ℕ → Bytes
pack_be word = (word / 2 ^ 24 % 256, word / 2 ^ 16 % 256, word / 2 ^ 8 % 256, word % 256)

-- Every number of 32 bits is what its bytes are read as, in both orders, and every 4 bytes are those
-- of the number that they are read as.
pub unpack-pack32 :
    (word b0 b1 b2 b3 : ℕ)
    → word < 2 ^ 32
    → b0 < 256
    → b1 < 256
    → b2 < 256
    → b3 < 256
    → (unpack_le (pack_le word) ≡ word)
      × (unpack_be (pack_be word) ≡ word)
      × (pack_le (unpack_le (b0, b1, b2, b3)) ≡ (b0, b1, b2, b3))
      × (pack_be (unpack_be (b0, b1, b2, b3)) ≡ (b0, b1, b2, b3))
unpack-pack32 word b0 b1 b2 b3 h h0 h1 h2 h3 =
    (omega arith, omega arith, ground arith, ground arith)
