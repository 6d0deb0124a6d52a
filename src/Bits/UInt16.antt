-- ===== src/Bits/UInt16.antt =====
-- afl/bits/uint16le.hpp and uint16be.hpp: a number of 16 bits as 2 bytes, the lowest or the highest first.
use afl.Base.{ℕ, ◌+◌, ◌*◌, ◌/◌, ◌%◌, ◌^◌, ◌<◌, ◌≡◌, arith}

-- `Bytes_t`
abbrev pub Bytes : Type 0
Bytes = ℕ × ℕ

abbrev pub unpack_le : Bytes → ℕ
unpack_le (b0, b1) = (b0 + b1 * 2 ^ 8) % 2 ^ 16

abbrev pub pack_le : ℕ → Bytes
pack_le word = (word % 256, word / 2 ^ 8 % 256)

abbrev pub unpack_be : Bytes → ℕ
unpack_be (b0, b1) = (b1 + b0 * 2 ^ 8) % 2 ^ 16

abbrev pub pack_be : ℕ → Bytes
pack_be word = (word / 2 ^ 8 % 256, word % 256)

-- Every number of 16 bits is what its bytes are read as, in both orders, and every 2 bytes are those
-- of the number that they are read as.
pub unpack-pack16 :
    (word b0 b1 : ℕ)
    → word < 2 ^ 16
    → b0 < 256
    → b1 < 256
    → (unpack_le (pack_le word) ≡ word)
      × (unpack_be (pack_be word) ≡ word)
      × (pack_le (unpack_le (b0, b1)) ≡ (b0, b1))
      × (pack_be (unpack_be (b0, b1)) ≡ (b0, b1))
unpack-pack16 word b0 b1 h h0 h1 = (omega arith, omega arith, ground arith, ground arith)
