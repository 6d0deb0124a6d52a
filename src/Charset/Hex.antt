-- ===== src/Charset/Hex.antt =====
-- afl/charset/hexencoding.cpp: bytes as pairs of hexadecimal digits.
use afl.Base.{
  ℕ, ◌+◌, ◌*◌, ◌/◌, ◌%◌, ◌<◌, ◌≡◌, refl, ap, Option, none, some, [], ◌∷◌, Bool, true, false, arith,
  All, ◌==◌, ==_iff,
}
use afl.Base.Str.{Str}
use afl.Text.Hex.{hex_digits_upper, hex_digits_lower, digit, get_hex_digit_value}
use afl.Charset.Base64.RoundTrip.{all_below, all_below-holds, IsByte}

unfoldable pub encode : Str → Str → Str
encode digits [] = []
encode digits (i ∷ input) = digit digits (i / 16) ∷ digit digits (i % 16) ∷ encode digits input

-- A byte that is no digit is skipped alone as a first digit, and together with the first as a second.
unfoldable pub decode : Str → Str
decode [] = []
decode (p ∷ []) = []
decode (p ∷ q ∷ input) = elim (get_hex_digit_value p) [
  | none ↦ decode (q ∷ input)
  | some a ↦ elim (get_hex_digit_value q) [
    | none ↦ decode input
    | some b ↦ (16 * a + b) ∷ decode input
  ]
]

abbrev pub is_value : Option ℕ → ℕ → Bool
is_value none n = false
is_value (some m) n = m == n

-- The digits that decoding understands: each stands for its place.
abbrev pub AreDigits : Str → Type 0
AreDigits digits = all_below 16 (λ n. is_value (get_hex_digit_value (digit digits n)) n) ≡ true

value_is : (o : Option ℕ) (n : ℕ) → is_value o n ≡ true → o ≡ some n
value_is none n h = cc
value_is (some m) n h = ap some ((==_iff m n).0 h)

pub digit-value :
    (digits : Str) (n : ℕ)
    → AreDigits digits
    → n < 16
    → get_hex_digit_value (digit digits n) ≡ some n
digit-value digits n h b = value_is _ n (all_below-holds 16 _ n h b)

pub upper-AreDigits : AreDigits hex_digits_upper
unfolding all_below digit get_hex_digit_value
upper-AreDigits = refl

pub lower-AreDigits : AreDigits hex_digits_lower
unfolding all_below digit get_hex_digit_value
lower-AreDigits = refl

-- Bytes that were encoded with digits that stand for their places, as the two sets of digits do, decode
-- to themselves.
pub hex_decode-encode :
    (digits input : Str)
    → AreDigits digits
    → All IsByte input
    → decode (encode digits input) ≡ input
unfolding encode decode
hex_decode-encode digits [] d h = refl
hex_decode-encode digits (i ∷ input) d h =
    let whole : 16 * (i / 16) + i % 16 ≡ i = omega arith in
    rw
      (
        digit-value digits (i / 16) d (omega (arith, h.0)),
        digit-value digits (i % 16) d (omega arith),
        decode,
        hex_decode-encode digits input d h.1,
        whole,
      )
      refl
