-- ===== src/Text/String/Trim.antt =====
-- What trimming leaves.
use afl.Base.{ℕ, ◌≡◌, refl, ap, ◌∙◌, true, false, [], ◌∷◌, Bool-cases, inl, inr}
use afl.Base.Str.{Str}
use afl.Text.Char.{char_is_space}
use afl.Text.String.{str_ltrim, str_rtrim, str_trim, put_front}

str_ltrim-put_front :
    (c : ℕ) (r : Str) → char_is_space c ≡ true → str_ltrim (put_front c r) ≡ str_ltrim r
unfolding str_ltrim
str_ltrim-put_front c [] h = rw h refl
str_ltrim-put_front c (d ∷ r) h = rw h refl

-- White space at the front does not matter.
pub str_trim-space : (c : ℕ) (s : Str) → char_is_space c ≡ true → str_trim (c ∷ s) ≡ str_trim s
unfolding str_trim str_rtrim
str_trim-space c s h = str_ltrim-put_front c (str_rtrim s) h

-- A string ends well, if its last byte is no white space.
abbrev EndsWell : Str → Type 0
EndsWell [] = Unit {0}
EndsWell (c ∷ []) = char_is_space c ≡ false
EndsWell (c ∷ d ∷ s) = EndsWell (d ∷ s)

abbrev StartsWell : Str → Type 0
StartsWell [] = Unit {0}
StartsWell (c ∷ s) = char_is_space c ≡ false

put_front-EndsWell : (c : ℕ) (s : Str) → EndsWell s → EndsWell (put_front c s)
put_front-EndsWell c [] h = elim (Bool-cases (char_is_space c)) [ inl e ↦ rw e tt | inr e ↦ rw e e ]
put_front-EndsWell c (d ∷ s) h = h

str_rtrim-EndsWell : (s : Str) → EndsWell (str_rtrim s)
unfolding str_rtrim
str_rtrim-EndsWell [] = tt
str_rtrim-EndsWell (c ∷ s) = put_front-EndsWell c (str_rtrim s) (str_rtrim-EndsWell s)

shorter : (c : ℕ) (s : Str) → EndsWell (c ∷ s) → EndsWell s
shorter c [] h = tt
shorter c (d ∷ s) h = h

str_ltrim-Well : (s : Str) → EndsWell s → StartsWell (str_ltrim s) × EndsWell (str_ltrim s)
unfolding str_ltrim
str_ltrim-Well [] h = (tt, tt)
str_ltrim-Well (c ∷ s) h = elim (Bool-cases (char_is_space c)) [
  | inl e ↦ rw e (str_ltrim-Well s (shorter c s h))
  | inr e ↦ rw e (e, h)
]

-- A trimmed string neither begins nor ends with white space.
pub str_trim-Well : (s : Str) → StartsWell (str_trim s) × EndsWell (str_trim s)
unfolding str_trim
str_trim-Well s = str_ltrim-Well (str_rtrim s) (str_rtrim-EndsWell s)

str_rtrim_same : (s : Str) → EndsWell s → str_rtrim s ≡ s
unfolding str_rtrim
str_rtrim_same [] h = refl
str_rtrim_same (c ∷ []) h = rw h refl
str_rtrim_same (c ∷ d ∷ s) h = ap (put_front c) (str_rtrim_same (d ∷ s) h)

str_ltrim_same : (s : Str) → StartsWell s → str_ltrim s ≡ s
unfolding str_ltrim
str_ltrim_same [] h = refl
str_ltrim_same (c ∷ s) h = rw h refl

-- A string that neither begins nor ends with white space is left as it is.
pub str_trim_same : (s : Str) → StartsWell s → EndsWell s → str_trim s ≡ s
unfolding str_trim
str_trim_same s h k = ap str_ltrim (str_rtrim_same s k) ∙ str_ltrim_same s h

-- Trimming twice is trimming once.
pub str_trim_idem : (s : Str) → str_trim (str_trim s) ≡ str_trim s
str_trim_idem s = let w = str_trim-Well s in str_trim_same (str_trim s) w.0 w.1
