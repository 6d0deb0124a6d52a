-- ===== src/Charset/Utf8Reader.antt =====
-- afl/charset/utf8reader.cpp: characters from the front of a byte string.
use afl.Base.{
  ℕ, zero, suc, ◌+◌, ◌-◌, ◌*◌, ◌/◌, ◌%◌, ◌^◌, Bool, true, false, not, ◌&&◌, ◌||◌, Option, none,
  some, [], ◌∷◌, length, drop, leb, ltb, ◌==◌, if◌then◌else◌,
}
use afl.Base.Str.{Str}
use afl.Charset.Unicode.{
  Flags, unicode_max, is_high_surrogate, is_low_surrogate, make_error_character, is_error_character,
}

pub record Character : Type 0 where
  pub value : ℕ
  pub first_char : ℕ
  pub size : ℕ

abbrev pub nothing : Character
nothing = record { value = 0; first_char = 0; size = 0 }

abbrev pub invalid : ℕ → Character
invalid c = record { value = make_error_character c; first_char = c; size = 1 }

-- What a first byte says: its bits of the character, the least character of the form, and how many
-- bytes follow.
unfoldable pub lead : ℕ → Option (ℕ × ℕ × ℕ)
lead c =
    if ltb c 0x80
    then some (c, 0, 0)
    else if leb 0xc0 c && ltb c 0xe0
    then some (c - 0xc0, 0x80, 1)
    else if leb 0xe0 c && ltb c 0xf0
    then some (c - 0xe0, 0x800, 2)
    else if leb 0xf0 c && ltb c 0xf8
    then some (c - 0xf0, 0x10000, 3)
    else if leb 0xf8 c && ltb c 0xfc
    then some (c - 0xf8, 0x200000, 4)
    else if leb 0xfc c && ltb c 0xfe
    then some (c - 0xfc, 0x4000000, 5)
    else if leb 0xfe c && ltb c 0xff
    then some (c - 0xfe, 0x80000000, 6)
    else none

-- `(*pch & 0xC0) == 0x80`
abbrev pub is_continuation_byte : ℕ → Bool
is_continuation_byte b = b / 64 % 4 == 2

-- The loop over the bytes that follow.
unfoldable pub extra_bytes : ℕ → ℕ → Str → Option ℕ
extra_bytes zero rune s = some rune
extra_bytes (suc n) rune [] = none
extra_bytes (suc n) rune (b ∷ s) =
    let rest = extra_bytes n (64 * rune + b % 64) s in
    if is_continuation_byte b && ltb rune (2 ^ 26) then rest else none

-- The range checks.
unfoldable pub is_refused : Flags → ℕ → ℕ → ℕ → Bool
is_refused f rune min_val extra =
    (is_error_character rune && f.error_escapes)
    || (ltb rune min_val && not f.non_minimal && not (rune == 0 && f.encoded_zero && extra == 1))
    || ((leb unicode_max rune || leb 0xfffe (rune % 65536)) && not f.non_characters)

abbrev pub checked : Flags → ℕ → ℕ → ℕ → Option ℕ → Character
checked f c min_val extra none = invalid c
checked f c min_val extra (some rune) =
    if is_refused f rune min_val extra
    then invalid c
    else record { value = rune; first_char = c; size = 1 + extra }

abbrev pub parse_rest : Flags → ℕ → Str → Option (ℕ × ℕ × ℕ) → Character
parse_rest f c s none = invalid c
parse_rest f c s (some (rune, min_val, extra)) =
    checked f c min_val extra (extra_bytes extra rune s)

unfoldable pub parse : Flags → Str → Character
parse f [] = nothing
parse f (c ∷ s) = parse_rest f c s (lead c)

-- A high surrogate and what follows it.
abbrev pub surrogate_pair : Str → Character → Character → ℕ × Str
surrogate_pair s first second =
    if is_low_surrogate second.value
    then (
      0x10000 + first.value % 0x400 * 0x400 + second.value % 0x400,
      drop (first.size + second.size) s,
    )
    else (make_error_character first.first_char, drop 1 s)

abbrev pub lone_surrogate : Flags → Str → Character → ℕ × Str
lone_surrogate f s first =
    if f.non_characters
    then (first.value, drop first.size s)
    else (make_error_character first.first_char, drop 1 s)

-- The character that `eat` returns, and what remains.
unfoldable pub eat : Flags → Str → ℕ × Str
eat f s =
    let first = parse f s in
    if first.size == 0
    then (0, s)
    else if is_high_surrogate first.value
    then (if f.surrogates
        then surrogate_pair s first (parse f (drop first.size s))
        else lone_surrogate f s first)
    else if is_low_surrogate first.value
    then lone_surrogate f s first
    else (first.value, drop first.size s)

-- `hasMore`
abbrev pub has_more : Str → Bool
has_more [] = false
has_more (c ∷ s) = true

-- The loop of `count`, on at most as many characters as there are bytes.
unfoldable pub count_loop : ℕ → Flags → Str → ℕ
count_loop zero f s = 0
count_loop (suc fuel) f s =
    let rest = suc (count_loop fuel f (eat f s).1) in if has_more s then rest else 0

unfoldable pub count : Flags → Str → ℕ
count f s = count_loop (length s) f s
