-- ===== src/Bits/Int32.antt =====
-- afl/bits/int32le.hpp and int32be.hpp: a signed number of 32 bits as bytes.
use afl.Base.{ℕ, ◌^◌, ◌<◌, ◌≡◌, ap, ◌∙◌, arith}
use afl.Base.Int.{ℤ, pos, negsuc}
use afl.Bits.UInt32
use afl.Bits.UInt32.{Bytes}
use afl.Bits.Signed.{to_signed, to_unsigned, Fits}

abbrev pub unpack_le : Bytes → ℤ
unpack_le bytes = to_signed (2 ^ 31) (UInt32.unpack_le bytes)

abbrev pub pack_le : ℤ → Bytes
pack_le word = UInt32.pack_le (to_unsigned (2 ^ 31) word)

abbrev pub unpack_be : Bytes → ℤ
unpack_be bytes = to_signed (2 ^ 31) (UInt32.unpack_be bytes)

abbrev pub pack_be : ℤ → Bytes
pack_be word = UInt32.pack_be (to_unsigned (2 ^ 31) word)

signed_unsigned : (v : ℤ) → Fits (2 ^ 31) v → to_signed (2 ^ 31) (to_unsigned (2 ^ 31) v) ≡ v
signed_unsigned (pos n) h = ground arith
signed_unsigned (negsuc n) h = ground arith

unsigned_below : (v : ℤ) → to_unsigned (2 ^ 31) v < 2 ^ 32
unsigned_below (pos n) = omega arith
unsigned_below (negsuc n) = omega arith

-- Every signed number of 32 bits is what its bytes are read as, in both orders.
pub signed32-roundtrip :
    (v : ℤ) → Fits (2 ^ 31) v → (unpack_le (pack_le v) ≡ v) × (unpack_be (pack_be v) ≡ v)
signed32-roundtrip v h =
    let n : ℕ = to_unsigned (2 ^ 31) v in
    let le : UInt32.unpack_le (UInt32.pack_le n) ≡ n = omega (arith, unsigned_below v) in
    let be : UInt32.unpack_be (UInt32.pack_be n) ≡ n = omega (arith, unsigned_below v) in
    (
      ap (to_signed (2 ^ 31)) le ∙ signed_unsigned v h,
      ap (to_signed (2 ^ 31)) be ∙ signed_unsigned v h,
    )
