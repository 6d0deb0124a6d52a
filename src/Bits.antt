-- ===== src/Bits.antt =====
-- afl/bits: numbers as bytes.
pub mod UInt16
pub mod UInt32
pub mod UInt64
pub mod Signed
pub mod Int16
pub mod Int32
pub mod Int64
