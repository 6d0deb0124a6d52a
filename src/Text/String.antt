-- ===== src/Text/String.antt =====
-- afl/string/string.cpp: trimming, splitting, capitals and words.
pub mod Trim
pub mod Split
pub mod Words
use afl.Base.{
  ℕ, zero, suc, ◌+◌, ◌&&◌, ◌||◌, Bool, true, false, not, Option, none, some, List, [], ◌∷◌, ◌==◌,
  if◌then◌else◌, length, take, drop, map,
}
use afl.Base.Str.{Str}
use afl.Text.Char.{char_is_space, char_to_upper, char_to_lower}

-- The length in `strLTrim` grows while there is white space, and that in `strRTrim` shrinks.
unfoldable pub str_ltrim : Str → Str
str_ltrim [] = []
str_ltrim (c ∷ s) = if char_is_space c then str_ltrim s else c ∷ s

abbrev pub put_front : ℕ → Str → Str
put_front c [] = if char_is_space c then [] else c ∷ []
put_front c (d ∷ s) = c ∷ d ∷ s

unfoldable pub str_rtrim : Str → Str
str_rtrim [] = []
str_rtrim (c ∷ s) = put_front c (str_rtrim s)

unfoldable pub str_trim : Str → Str
str_trim s = str_ltrim (str_rtrim s)

unfoldable pub starts_with : Str → Str → Bool
starts_with [] s = true
starts_with (c ∷ sep) [] = false
starts_with (c ∷ sep) (d ∷ s) = c == d && starts_with sep s

abbrev pub one_later : Option ℕ → Option ℕ
one_later none = none
one_later (some n) = some (suc n)

-- `std::string::find`: the first place where a text stands.
unfoldable pub find : Str → Str → Option ℕ
find sep [] = if starts_with sep [] then some 0 else none
find sep (c ∷ s) = if starts_with sep (c ∷ s) then some 0 else one_later (find sep s)

abbrev pub first_at : Str → Option ℕ → Str
first_at s none = s
first_at s (some n) = take n s

unfoldable pub str_first : Str → Str → Str
str_first s sep = first_at s (find sep s)

-- Whether the separator was found, and the string then.
abbrev pub remove_at : Str → Str → Option ℕ → Bool × Str
remove_at s sep none = (false, s)
remove_at s sep (some n) = (true, drop (n + length sep) s)

unfoldable pub str_remove : Str → Str → Bool × Str
str_remove s sep = remove_at s sep (find sep s)

abbrev pub split_at : Str → Str → Option ℕ → Option (Str × Str)
split_at s sep none = none
split_at s sep (some n) = some (take n s, drop (n + length sep) s)

unfoldable pub str_split : Str → Str → Option (Str × Str)
str_split s sep = split_at s sep (find sep s)

unfoldable pub str_lcase : Str → Str
str_lcase = map char_to_lower

abbrev pub is_break : ℕ → Bool
is_break c = char_is_space c || c == b'-'

-- Both loops, from a place on where a word begins or does not.
unfoldable pub ucfirst_loop : Bool → Str → Str
ucfirst_loop uc [] = []
ucfirst_loop uc (c ∷ s) =
    let b = is_break c in
    (if b then c else if uc then char_to_upper c else char_to_lower c) ∷ ucfirst_loop b s

unfoldable pub str_ucfirst : Str → Str
str_ucfirst s = ucfirst_loop true s

unfoldable pub lcwords_loop : Bool → Str → Str
lcwords_loop uc [] = []
lcwords_loop uc (c ∷ s) =
    let b = is_break c in (if b then c else if uc then c else char_to_lower c) ∷ lcwords_loop b s

unfoldable pub str_lcwords : Str → Str
str_lcwords s = lcwords_loop true s

-- A word's start, as the string from there on.
unfoldable pub skip_word : Str → Str
skip_word [] = []
skip_word (c ∷ s) = if char_is_space c then c ∷ s else skip_word s

unfoldable pub skip_words : ℕ → Str → Str
skip_words zero s = s
skip_words (suc i) s = skip_words i (str_ltrim (skip_word s))

abbrev pub nth_word_start : Str → ℕ → Str
nth_word_start s i = skip_words i (str_ltrim s)

unfoldable pub until_space : Str → Str
until_space [] = []
until_space (c ∷ s) = if char_is_space c then [] else c ∷ until_space s

unfoldable pub str_nth_word : Str → ℕ → Str
str_nth_word s i = until_space (nth_word_start s i)

unfoldable pub str_nth_word_rest : Str → ℕ → Str
str_nth_word_rest s i = nth_word_start s i
