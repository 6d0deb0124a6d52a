-- ===== src/Text/Number.antt =====
-- Decimal text: `Format("%d")` (afl/string/formattraits.cpp) and `strToInteger<int32_t>`
-- (afl/string/parse.cpp, parse.hpp), with the libc `strtol` that it calls.
pub mod RoundTrip
use afl.Base.{
  ℕ, zero, suc, ◌+◌, ◌-◌, ◌*◌, ◌/◌, ◌%◌, ◌^◌, ◌≡◌, refl, Bool, true, false, ◌&&◌, ◌||◌, not,
}
use afl.Base.{List, [], ◌∷◌, ◌++◌, Option, none, some, ltb, leb, ◌==◌, if◌then◌else◌, arith}
use afl.Base.Int.{ℤ, pos, negsuc, pos_part, neg_part, neg}
use afl.Base.Str.{Str}
use afl.Text.Char.{char_is_space, char_is_digit}

-- `while (c) { *--p = alpha[c % base]; c /= base; }` with base 10; `out` is what stands from `p` on.
-- The fuel is the room in the buffer, 64 digits, which no 64-bit number fills.
unfoldable pub format_loop : ℕ → ℕ → Str → Str
format_loop zero c out = out
format_loop (suc fuel) c out =
    let rest = format_loop fuel (c / 10) ((b'0' + c % 10) ∷ out) in if c == 0 then out else rest

-- `if (!*p) { *--p = '0'; }`
abbrev pub or_zero : Str → Str
or_zero [] = b'0' ∷ []
or_zero (d ∷ ds) = d ∷ ds

unfoldable pub format_unsigned : ℕ → Str
format_unsigned c = or_zero (format_loop 64 c [])

-- A negative number is formatted with a plus sign in front, which is then changed to a minus sign.
unfoldable pub format_signed : ℤ → Str
format_signed (pos n) = format_unsigned n
format_signed (negsuc n) = b'-' ∷ format_unsigned (suc n)

-- `str.c_str()`, as far as the terminating null.
unfoldable pub c_str : Str → Str
c_str [] = []
c_str (c ∷ s) = if c == 0 then [] else c ∷ c_str s

-- The C locale's `isspace`.
unfoldable pub isspace : ℕ → Bool
isspace c = c == 32 || (leb 9 c && leb c 13)

unfoldable pub skip_while : (ℕ → Bool) → Str → Str
skip_while p [] = []
skip_while p (c ∷ s) = let rest = skip_while p s in if p c then rest else c ∷ s

-- A run of digits: whether there is one, its value on top of `value`, and what follows it.
unfoldable pub read_digits : Bool → ℕ → Str → Bool × ℕ × Str
unfolding char_is_digit
read_digits found value [] = (found, value, [])
read_digits found value (c ∷ s) =
    let rest = read_digits true (10 * value + (c - b'0')) s in
    if char_is_digit c then rest else (found, value, c ∷ s)

-- The sign that `strtol` takes: whether it is a minus, and what follows.
unfoldable pub read_sign : Str → Bool × Str
read_sign [] = (false, [])
read_sign (c ∷ s) =
    if c == b'-' then (true, s) else if c == b'+' then (false, s) else (false, c ∷ s)

-- `strtol(c, &end, 10)` with 64-bit `long`: the value and the text at `end`. There is no result
-- where `parsePostValidate` finds `errno == ERANGE` or `c == end`.
abbrev pub in_range : Bool → Bool × ℕ × Str → Option (ℤ × Str)
in_range minus (false, value, end) = none
in_range true (true, value, end) = if leb value (2 ^ 63) then some (neg (pos value), end) else none
in_range false (true, value, end) = if ltb value (2 ^ 63) then some (pos value, end) else none

unfoldable pub strtol : Str → Option (ℤ × Str)
strtol c =
    let (minus, s) = read_sign (skip_while isspace c) in in_range minus (read_digits false 0 s)

-- The rest of `parsePostValidate`: white space may follow, and nothing else.
unfoldable pub post_validate : Str → Bool
unfolding skip_while char_is_space
post_validate end = elim (skip_while char_is_space end) [ [] ↦ true | c ∷ s ↦ false ]

-- `static_cast<long>(T(tmp)) != tmp` for 32-bit T.
abbrev pub fits_int32 : ℤ → Bool
fits_int32 v = ltb (pos_part v) (2 ^ 31) && leb (neg_part v) (2 ^ 31)

abbrev pub checked : ℤ × Str → Option ℤ
checked (v, end) = if post_validate end && fits_int32 v then some v else none

unfoldable pub str_to_integer : Str → Option ℤ
str_to_integer s = elim (strtol (c_str s)) [ none ↦ none | some r ↦ checked r ]

minus_twelve : str_to_integer (32 ∷ b'-' ∷ b'1' ∷ b'2' ∷ 10 ∷ []) ≡ some (negsuc 11)
unfolding str_to_integer c_str strtol skip_while isspace read_sign read_digits post_validate
minus_twelve = refl

largest : str_to_integer (format_signed (pos 2147483647)) ≡ some (pos 2147483647)
unfolding str_to_integer c_str strtol skip_while isspace read_sign read_digits post_validate
    format_signed format_unsigned format_loop
largest = refl

too_large : str_to_integer (format_signed (pos 2147483648)) ≡ none
unfolding str_to_integer c_str strtol skip_while isspace read_sign read_digits post_validate
    format_signed format_unsigned format_loop
too_large = refl
