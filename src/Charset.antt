-- ===== src/Charset.antt =====
-- afl/charset: encodings of byte strings.
pub mod Base64
pub mod Hex
pub mod Url
pub mod Unicode
pub mod Utf8Reader
pub mod Utf8
pub mod QuotedPrintable
