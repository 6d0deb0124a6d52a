-- ===== src/Charset/Unicode.antt =====
-- afl/charset/unicode.hpp: limits of the code space and the characters that stand for bytes that are no
-- UTF-8; and the options of afl/charset/utf8.hpp.
use afl.Base.{ℕ, ◌+◌, ◌-◌, ◌%◌, Bool, false, ◌&&◌, leb}

-- A combination of the `AllowXxx` bits.
pub record Flags : Type 0 where
  pub encoded_zero : Bool
  pub surrogates : Bool
  pub non_minimal : Bool
  pub non_characters : Bool
  pub error_escapes : Bool

abbrev pub no_flags : Flags
no_flags = record {
  encoded_zero = false;
  surrogates = false;
  non_minimal = false;
  non_characters = false;
  error_escapes = false;
}

abbrev pub unicode_max : ℕ
unicode_max = 0x10ffff

abbrev pub is_high_surrogate : ℕ → Bool
is_high_surrogate c = leb 0xd800 c && leb c 0xdbff

abbrev pub is_low_surrogate : ℕ → Bool
is_low_surrogate c = leb 0xdc00 c && leb c 0xdfff

-- For a byte from 0x80 on.
abbrev pub make_error_character : ℕ → ℕ
make_error_character id = 0xef80 + (id - 0x80)

abbrev pub is_error_character : ℕ → Bool
is_error_character c = leb 0xef80 c && leb c 0xefff

abbrev pub get_error_character_id : ℕ → ℕ
get_error_character_id c = (c - 0xef80 + 0x80) % 256
