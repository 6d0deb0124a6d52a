-- ===== src/Text/Char.antt =====
-- afl/string/char.hpp, and `strUCase` and `strCaseCompare` of afl/string/string.cpp: ASCII classes of a byte.
use afl.Base.{ℕ, ◌+◌, ◌-◌, ◌≡◌, refl, Bool, ◌&&◌, ◌||◌, map, [], ◌∷◌, arith, true, false}
use afl.Base.{leb, ◌==◌, if◌then◌else◌}
use afl.Base.Str.{Str}

unfoldable pub char_is_upper : ℕ → Bool
char_is_upper c = leb b'A' c && leb c b'Z'

unfoldable pub char_is_lower : ℕ → Bool
char_is_lower c = leb b'a' c && leb c b'z'

unfoldable pub char_is_digit : ℕ → Bool
char_is_digit c = leb b'0' c && leb c b'9'

unfoldable pub char_is_space : ℕ → Bool
char_is_space c = c == 32 || (c == 9 || (c == 13 || c == 10))

unfoldable pub char_to_upper : ℕ → ℕ
unfolding char_is_lower
char_to_upper c = if char_is_lower c then c - 0x20 else c

unfoldable pub char_to_lower : ℕ → ℕ
unfolding char_is_upper
char_to_lower c = if char_is_upper c then c + 0x20 else c

unfoldable pub str_ucase : Str → Str
unfolding char_to_upper
str_ucase = map char_to_upper

-- Whether `strCaseCompare` gives 0. No two bytes differ in their upper case if they are the same.
unfoldable pub case_equal : Str → Str → Bool
case_equal [] [] = true
case_equal [] (d ∷ t) = false
case_equal (c ∷ s) [] = false
case_equal (c ∷ s) (d ∷ t) = (c == d || char_to_upper c == char_to_upper d) && case_equal s t

char_to_upper_idem : (c : ℕ) → char_to_upper (char_to_upper c) ≡ char_to_upper c
unfolding char_to_upper
char_to_upper_idem c = ground arith

-- Converting twice is converting once.
pub str_ucase_idem : (s : Str) → str_ucase (str_ucase s) ≡ str_ucase s
unfolding str_ucase
str_ucase_idem [] = refl
str_ucase_idem (c ∷ s) = cc (char_to_upper_idem c, str_ucase_idem s)
