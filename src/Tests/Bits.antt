-- ===== src/Tests/Bits.antt =====
-- Numbers as bytes, at a few values.
use afl.Base.{◌≡◌, refl}
use afl.Bits.UInt32

order :
    (UInt32.pack_le 305419896 ≡ (0x78, 0x56, 0x34, 0x12))
    × (UInt32.pack_be 305419896 ≡ (0x12, 0x34, 0x56, 0x78))
order = (refl, refl)
