-- ===== src/Charset/Utf8.antt =====
-- afl/charset/utf8.cpp: characters as bytes, and positions in a text by characters.
pub mod Bytes
pub mod RoundTrip
pub mod Progress
pub mod Positions
use afl.Base.{
  ℕ, zero, suc, ◌+◌, ◌-◌, ◌*◌, ◌/◌, ◌%◌, ◌^◌, Bool, true, false, not, ◌&&◌, ◌||◌, List, [], ◌∷◌,
  ◌++◌, length, drop, take, leb, ltb, ◌==◌, if◌then◌else◌,
}
use afl.Base.Str.{Str}
use afl.Charset.Unicode.{Flags, unicode_max, is_error_character, get_error_character_id}
use afl.Charset.Utf8Reader.{eat, has_more, count}

-- The loop that appends the bytes after the first.
unfoldable pub extra_parts : ℕ → ℕ → Str
extra_parts zero ch = []
extra_parts (suc n) ch = (0x80 + ch / 2 ^ (6 * n) % 64) ∷ extra_parts n ch

-- `appendOne`
unfoldable pub one : ℕ → Str
one ch =
    if leb ch 0x7ff
    then (0xc0 + ch / 2 ^ 6) ∷ extra_parts 1 ch
    else if leb ch 0xffff
    then (0xe0 + ch / 2 ^ 12) ∷ extra_parts 2 ch
    else if leb ch 0x1fffff
    then (0xf0 + ch / 2 ^ 18) ∷ extra_parts 3 ch
    else if leb ch 0x3ffffff
    then (0xf8 + ch / 2 ^ 24) ∷ extra_parts 4 ch
    else if leb ch 0x7fffffff
    then (0xfc + ch / 2 ^ 30) ∷ extra_parts 5 ch
    else 0xfe ∷ extra_parts 6 ch

-- What `append` appends.
unfoldable pub encoded : Flags → ℕ → Str
encoded f ch =
    if f.error_escapes && is_error_character ch
    then get_error_character_id ch ∷ []
    else if leb 0x10000 ch && leb ch unicode_max && f.surrogates
    then one (0xd800 + (ch - 0x10000) / 2 ^ 10 % 0x400) ++ one (0xdc00 + (ch - 0x10000) % 0x400)
    else if ch == 0 && f.encoded_zero
    then one 0
    else if leb 0x80 ch
    then one ch
    else ch ∷ []

unfoldable pub append : Flags → Str → ℕ → Str
append f s ch = s ++ encoded f ch

-- `while (rdr.hasMore() && index != 0) { rdr.eat(); --index; }`: what remains of the index and the text.
unfoldable pub skip : Flags → ℕ → Str → ℕ × Str
skip f zero s = (0, s)
skip f (suc n) s = let rest = skip f n (eat f s).1 in if has_more s then rest else (suc n, s)

unfoldable pub substr : Flags → Str → ℕ → ℕ → Str
substr f text index count =
    let tail = (skip f index text).1 in
    if leb (length tail) count then tail else take (length tail - length (skip f count tail).1) tail

abbrev pub char_here : Flags → ℕ × Str → ℕ
char_here f (index, s) = if index == 0 && has_more s then (eat f s).0 else 0

unfoldable pub char_at : Flags → Str → ℕ → ℕ
char_at f text index = char_here f (skip f index text)

-- `while (total - rdr.getRemainder().size() < bytePos)`, on at most as many characters as there are
-- bytes.
unfoldable pub byte_loop : ℕ → Flags → ℕ → ℕ → Str → ℕ
byte_loop zero f total byte_pos s = 0
byte_loop (suc fuel) f total byte_pos s =
    let rest = suc (byte_loop fuel f total byte_pos (eat f s).1) in
    if ltb (total - length s) byte_pos then rest else 0

unfoldable pub byte_to_char_pos : Flags → Str → ℕ → ℕ
byte_to_char_pos f text byte_pos =
    if leb (length text) byte_pos
    then count f text
    else byte_loop (length text) f (length text) byte_pos text

-- `while (charPos != 0) { rdr.eat(); --charPos; }`
unfoldable pub eat_loop : Flags → ℕ → Str → Str
eat_loop f zero s = s
eat_loop f (suc n) s = eat_loop f n (eat f s).1

unfoldable pub char_to_byte_pos : Flags → Str → ℕ → ℕ
char_to_byte_pos f text char_pos =
    if leb (length text) char_pos
    then length text
    else length text - length (eat_loop f char_pos text)
