-- ===== src/Io.antt =====
-- afl/io: streams.
pub mod Limited
pub mod InternalFileSystem
pub mod ConstMemoryStream
pub mod InternalStream
