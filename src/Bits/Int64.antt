-- ===== src/Bits/Int64.antt =====
-- afl/bits/int64le.hpp and int64be.hpp: a signed number of 64 bits as bytes.
use afl.Base.{ℕ, ◌^◌, ◌<◌, ◌≡◌, ap, ◌∙◌, arith}
use afl.Base.Int.{ℤ, pos, negsuc}
use afl.Bits.UInt64
use afl.Bits.UInt64.{Bytes}
use afl.Bits.Signed.{to_signed, to_unsigned, Fits}

abbrev pub unpack_le : Bytes → ℤ
unpack_le bytes = to_signed (2 ^ 63) (UInt64.unpack_le bytes)

abbrev pub pack_le : ℤ → Bytes
pack_le word = UInt64.pack_le (to_unsigned (2 ^ 63) word)

abbrev pub unpack_be : Bytes → ℤ
unpack_be bytes = to_signed (2 ^ 63) (UInt64.unpack_be bytes)

abbrev pub pack_be : ℤ → Bytes
pack_be word = UInt64.pack_be (to_unsigned (2 ^ 63) word)

signed_unsigned : (v : ℤ) → Fits (2 ^ 63) v → to_signed (2 ^ 63) (to_unsigned (2 ^ 63) v) ≡ v
signed_unsigned (pos n) h = ground arith
signed_unsigned (negsuc n) h = ground arith

unsigned_below : (v : ℤ) → to_unsigned (2 ^ 63) v < 2 ^ 64
unsigned_below (pos n) = omega arith
unsigned_below (negsuc n) = omega arith

-- Every signed number of 64 bits is what its bytes are read as, in both orders.
pub signed64-roundtrip :
    (v : ℤ) → Fits (2 ^ 63) v → (unpack_le (pack_le v) ≡ v) × (unpack_be (pack_be v) ≡ v)
signed64-roundtrip v h =
    let n : ℕ = to_unsigned (2 ^ 63) v in
    let le : UInt64.unpack_le (UInt64.pack_le n) ≡ n = omega (arith, unsigned_below v) in
    let be : UInt64.unpack_be (UInt64.pack_be n) ≡ n = omega (arith, unsigned_below v) in
    (
      ap (to_signed (2 ^ 63)) le ∙ signed_unsigned v h,
      ap (to_signed (2 ^ 63)) be ∙ signed_unsigned v h,
    )
