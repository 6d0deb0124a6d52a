-- ===== src/Charset/QuotedPrintable.antt =====
-- afl/charset/quotedprintable.cpp: text where some bytes are an equals sign with two digits.
use afl.Base.{
  ℕ, ◌+◌, ◌*◌, ◌/◌, ◌%◌, ◌≡◌, refl, ap, ◌∙◌, [], ◌∷◌, ◌++◌, Bool, true, false, ◌||◌, ◌==◌, ltb, leb,
  if◌then◌else◌, arith, All, Bool-cases, inl, inr,
}
use afl.Base.Str.{Str}
use afl.Text.Hex.{hex_digits_upper, digit, get_hex_digit_value}
use afl.Charset.Base64.RoundTrip.{IsByte}
use afl.Charset.Hex.{digit-value, upper-AreDigits}
use afl.Charset.Url.{unescaped}

abbrev pub is_special : ℕ → Bool
is_special u = leb 128 u || (ltb u 32 || u == b'=')

unfoldable pub encode : Str → Str
encode [] = []
encode (u ∷ input) =
    let rest = encode input in
    if is_special u
    then b'=' ∷ digit hex_digits_upper (u / 16) ∷ digit hex_digits_upper (u % 16) ∷ rest
    else u ∷ rest

-- An equals sign with fewer than two characters behind it stands for itself.
unfoldable pub decode : Str → Str
decode [] = []
decode (c ∷ []) = c ∷ []
decode (c ∷ x ∷ []) = c ∷ decode (x ∷ [])
decode (c ∷ x ∷ y ∷ input) = elim (c == b'=') [
  | true ↦ unescaped c x y (get_hex_digit_value x) (get_hex_digit_value y) ++ decode input
  | false ↦ c ∷ decode (x ∷ y ∷ input)
]

decode-plain : (c : ℕ) (input : Str) → (c == b'=') ≡ false → decode (c ∷ input) ≡ c ∷ decode input
unfolding decode
decode-plain c [] h = refl
decode-plain c (x ∷ []) h = refl
decode-plain c (x ∷ y ∷ input) h = rw (h, decode) refl

decode-special :
    (u : ℕ) (input : Str)
    → IsByte u
    → decode (b'=' ∷ digit hex_digits_upper (u / 16) ∷ digit hex_digits_upper (u % 16) ∷ input)
      ≡ u ∷ decode input
unfolding decode
decode-special u input h =
    let whole : 16 * (u / 16) + u % 16 ≡ u = omega arith in
    let high = digit-value hex_digits_upper (u / 16) upper-AreDigits (omega (arith, h)) in
    let low = digit-value hex_digits_upper (u % 16) upper-AreDigits (omega arith) in
    rw (high, low, whole) refl

-- Every byte string that was encoded decodes to itself.
pub quoted_decode-encode : (input : Str) → All IsByte input → decode (encode input) ≡ input
unfolding encode
quoted_decode-encode [] h = unfold decode in refl
quoted_decode-encode (u ∷ input) h = elim (Bool-cases (is_special u)) [
  | inl e ↦ rw e (decode-special u (encode input) h.0 ∙ ap (◌∷◌ u) (quoted_decode-encode input h.1))
  | inr e ↦
      rw e
        (decode-plain u (encode input) (ground arith) ∙ ap (◌∷◌ u) (quoted_decode-encode input h.1))
]
