-- ===== src/Tests/Utf8.antt =====
-- UTF-8 at a few values.
use afl.Base.{◌≡◌, refl, arith, [], ◌∷◌, ◌++◌, true}
use afl.Base.Str.{bytes}
use Prim.Native.Nat.{min}
use afl.Charset.Unicode.{Flags, no_flags}
use afl.Charset.Utf8Reader.{eat, count, parse, lead, count_loop, extra_bytes, is_refused}
use afl.Charset.Utf8.{encoded, one, extra_parts, substr, byte_to_char_pos, char_to_byte_pos}
use afl.Charset.Utf8.RoundTrip.{eat-encoded}
use afl.Charset.Utf8.Positions.{text, substr-text, byte_to_char_pos-char_to_byte_pos}

abbrev surrogate_flags : Flags
surrogate_flags = record no_flags { surrogates = true }

euro : encoded no_flags 0x20ac ≡ 0xe2 ∷ 0x82 ∷ 0xac ∷ []
unfolding encoded one extra_parts
euro = refl

pair : encoded surrogate_flags 0x1f600 ≡ 0xed ∷ 0xa0 ∷ 0xbd ∷ 0xed ∷ 0xb8 ∷ 0x80 ∷ []
unfolding encoded one extra_parts
pair = refl

-- A byte that begins no character becomes an error character.
stray : eat no_flags (0xff ∷ 65 ∷ []) ≡ (0xefff, 65 ∷ [])
unfolding eat parse lead
stray = refl

-- U+FFFF is no character, and each of its bytes is an error.
non_character : count no_flags (0xef ∷ 0xbf ∷ 0xbf ∷ []) ≡ 3
unfolding count count_loop eat parse lead extra_bytes is_refused
non_character = refl

eat-encoded_example :
    eat surrogate_flags (encoded surrogate_flags 0x1f600 ++ bytes "x") ≡ (0x1f600, bytes "x")
eat-encoded_example =
    eat-encoded surrogate_flags 0x1f600 (bytes "x") (omega arith, refl, refl, refl)

byte_to_char_pos-char_to_byte_pos_example :
    byte_to_char_pos no_flags
      (0xc3 ∷ 0xa4 ∷ 65 ∷ [])
      (char_to_byte_pos no_flags (0xc3 ∷ 0xa4 ∷ 65 ∷ []) 1)
    ≡ min 1 (count no_flags (0xc3 ∷ 0xa4 ∷ 65 ∷ []))
byte_to_char_pos-char_to_byte_pos_example =
    byte_to_char_pos-char_to_byte_pos no_flags (0xc3 ∷ 0xa4 ∷ 65 ∷ []) 1

substr-text_example :
    substr no_flags
      (text no_flags (0xe4 ∷ []) ++ (text no_flags (0x20ac ∷ 66 ∷ []) ++ text no_flags (67 ∷ [])))
      1
      2
    ≡ text no_flags (0x20ac ∷ 66 ∷ [])
substr-text_example =
    substr-text no_flags (0xe4 ∷ []) (0x20ac ∷ 66 ∷ []) (67 ∷ [])
      ((omega arith, refl, refl, refl), tt)
      ((omega arith, refl, refl, refl), ((omega arith, refl, refl, refl), tt))
