-- ===== src/Text.antt =====
-- afl/string: characters, and numbers as text.
pub mod Char
pub mod Number
pub mod PosixFileNames
pub mod Hex
pub mod String
