-- ===== src/Checksums.antt =====
-- afl/checksums: checksums of byte strings.
pub mod ByteSum
pub mod Adler32
