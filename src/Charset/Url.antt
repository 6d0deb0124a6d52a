-- ===== src/Charset/Url.antt =====
-- afl/charset/urlencoding.cpp: text in the query part of a URL.
use afl.Base.{
  ℕ, ◌+◌, ◌*◌, ◌/◌, ◌%◌, ◌≡◌, refl, ap, ◌∙◌, Option, none, some, [], ◌∷◌, ◌++◌, Bool, true, false,
  ◌||◌, ◌==◌, ltb, leb, if◌then◌else◌, arith, All, Bool-cases, inl, inr,
}
use afl.Base.Str.{Str}
use afl.Text.Hex.{hex_digits_upper, digit, get_hex_digit_value}
use afl.Charset.Base64.RoundTrip.{IsByte}
use afl.Charset.Hex.{digit-value, upper-AreDigits}

-- 8-bit and control characters, and '%', '&', '+', '='.
abbrev pub is_escaped : ℕ → Bool
is_escaped u = leb 128 u || (ltb u 32 || (u == b'%' || (u == b'&' || (u == b'+' || u == b'='))))

unfoldable pub encode : Str → Str
encode [] = []
encode (u ∷ input) =
    if is_escaped u
    then b'%' ∷ digit hex_digits_upper (u / 16) ∷ digit hex_digits_upper (u % 16) ∷ encode input
    else if u == 32
    then b'+' ∷ encode input
    else u ∷ encode input

abbrev pub plain : ℕ → ℕ
plain c = if c == b'+' then 32 else c

-- The two characters behind a '%': a byte, or what stands there as it is.
abbrev pub unescaped : ℕ → ℕ → ℕ → Option ℕ → Option ℕ → Str
unescaped c x y (some a) (some b) = (16 * a + b) ∷ []
unescaped c x y none o = c ∷ x ∷ y ∷ []
unescaped c x y (some a) none = c ∷ x ∷ y ∷ []

-- A '%' with fewer than two characters behind it stands for itself.
unfoldable pub decode : Str → Str
decode [] = []
decode (c ∷ []) = plain c ∷ []
decode (c ∷ x ∷ []) = plain c ∷ decode (x ∷ [])
decode (c ∷ x ∷ y ∷ input) = elim (c == b'%') [
  | true ↦ unescaped c x y (get_hex_digit_value x) (get_hex_digit_value y) ++ decode input
  | false ↦ plain c ∷ decode (x ∷ y ∷ input)
]

decode-plain :
    (c : ℕ) (input : Str) → (c == b'%') ≡ false → decode (c ∷ input) ≡ plain c ∷ decode input
unfolding decode
decode-plain c [] h = refl
decode-plain c (x ∷ []) h = refl
decode-plain c (x ∷ y ∷ input) h = rw (h, decode) refl

decode-escaped :
    (u : ℕ) (input : Str)
    → IsByte u
    → decode (b'%' ∷ digit hex_digits_upper (u / 16) ∷ digit hex_digits_upper (u % 16) ∷ input)
      ≡ u ∷ decode input
unfolding decode
decode-escaped u input h =
    let whole : 16 * (u / 16) + u % 16 ≡ u = omega arith in
    rw
      (
        digit-value hex_digits_upper (u / 16) upper-AreDigits (omega (arith, h)),
        digit-value hex_digits_upper (u % 16) upper-AreDigits (omega arith),
        whole,
      )
      refl

-- Bytes that were encoded for a URL decode to themselves.
pub url_decode-encode : (input : Str) → All IsByte input → decode (encode input) ≡ input
unfolding encode
url_decode-encode [] h = unfold decode in refl
url_decode-encode (u ∷ input) h = elim (Bool-cases (is_escaped u)) [
  | inl e ↦
      rw (e, encode)
        (decode-escaped u (encode input) h.0 ∙ ap (◌∷◌ u) (url_decode-encode input h.1))
  | inr e ↦ elim (Bool-cases (u == 32)) [
    | inl s ↦
        rw (e, s, encode)
          (decode-plain b'+' (encode input) refl
            ∙ (let blank : 32 ≡ u = ground arith in rw (url_decode-encode input h.1, blank) refl))
    | inr s ↦
        rw (e, s, encode)
          (decode-plain u (encode input) (ground arith)
            ∙ (let same : plain u ≡ u = ground arith in
                rw (url_decode-encode input h.1, same) refl))
  ]
]
