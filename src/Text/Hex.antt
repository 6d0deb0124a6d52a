-- ===== src/Text/Hex.antt =====
-- afl/string/hex.cpp: hexadecimal digits.
use afl.Base.{
  ℕ, ◌+◌, ◌-◌, ◌/◌, ◌%◌, ◌&&◌, Option, none, some, [], ◌∷◌, ◌++◌, get_elem?, leb, if◌then◌else◌,
}
use afl.Base.Str.{Str, bytes}

-- `HEX_DIGITS_UPPER`
abbrev pub hex_digits_upper : Str
hex_digits_upper = bytes "0123456789ABCDEF"

-- `HEX_DIGITS_LOWER`
abbrev pub hex_digits_lower : Str
hex_digits_lower = bytes "0123456789abcdef"

-- `digits[n]`, for an index inside the array.
unfoldable pub digit : Str → ℕ → ℕ
digit digits n = elim (get_elem? digits n) [ none ↦ 0 | some c ↦ c ]

-- `getHexDigitValue`; none for -1.
unfoldable pub get_hex_digit_value : ℕ → Option ℕ
get_hex_digit_value c =
    if leb b'0' c && leb c b'9'
    then some (c - b'0')
    else if leb b'A' c && leb c b'F'
    then some (c - b'A' + 10)
    else if leb b'a' c && leb c b'f'
    then some (c - b'a' + 10)
    else none

-- `putHexByte`
unfoldable pub put_hex_byte : Str → ℕ → Str → Str
unfolding digit
put_hex_byte s b digits = s ++ (digit digits (b / 16 % 16) ∷ digit digits (b % 16) ∷ [])
