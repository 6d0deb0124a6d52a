-- ===== src/Charset/Base64/RoundTrip.antt =====
-- Base64 text decodes to the bytes that were encoded.
use afl.Base.{
  ℕ, zero, suc, ◌+◌, ◌*◌, ◌/◌, ◌%◌, ◌^◌, ◌<◌, ◌≡◌, refl, sym, ap, subst, ==_iff, Bool, true, false,
  not, ◌&&◌, [], ◌∷◌, ◌==◌, arith, All, Bool-cases, inl, inr,
}
use afl.Base.Str.{Str}
use afl.Charset.Base64.{
  letter, b64_value, index_from, encode, in_front, trim_end, decode_groups, decode,
}

abbrev pub IsByte : ℕ → Type 0
IsByte c = c < 256

-- A test at all numbers below a bound.
unfoldable pub all_below : ℕ → (ℕ → Bool) → Bool
all_below zero p = true
all_below (suc n) p = p n && all_below n p

pub all_below-holds : (n : ℕ) (p : ℕ → Bool) (i : ℕ) → all_below n p ≡ true → i < n → p i ≡ true
unfolding all_below
all_below-holds zero p i h l = absurd (omega arith)
all_below-holds (suc n) p i h l = elim (Bool-cases (i == n)) [
  | inl e ↦ subst (λ j. p j ≡ true) (sym ((==_iff i n).0 e)) (ground arith)
  | inr e ↦ all_below-holds n p i (ground arith) (ground arith)
]

abbrev right : ℕ → Bool
right n = (b64_value (letter n) == n) && not (letter n == b'=')

all_right : all_below 64 right ≡ true
unfolding all_below letter b64_value index_from
all_right = refl

letter_mod : (n : ℕ) → letter n ≡ letter (n % 64)
unfolding letter
letter_mod n = let e : (n % 64) % 64 ≡ n % 64 = omega arith in rw (letter, e) refl

right_apart : (v l n : ℕ) → ((v == n) && not (l == b'=')) ≡ true → (v ≡ n) × ((l == b'=') ≡ false)
right_apart v l n h = ground arith

letter-right : (n : ℕ) → (b64_value (letter n) ≡ n % 64) × ((letter n == b'=') ≡ false)
letter-right n = rw (letter_mod n) (
    right_apart (b64_value (letter (n % 64))) (letter (n % 64)) (n % 64)
      (all_below-holds 64 right (n % 64) all_right (omega arith)))

in_front-letter : (c : ℕ) (s : Str) → (c == b'=') ≡ false → in_front c s ≡ c ∷ s
in_front-letter c [] h = rw h refl
in_front-letter c (d ∷ s) h = refl

trim_end-letter : (n : ℕ) (s : Str) → trim_end (letter n ∷ s) ≡ letter n ∷ trim_end s
unfolding trim_end
trim_end-letter n s = in_front-letter (letter n) (trim_end s) (letter-right n).1

module _ (a b c : ℕ) (ha : IsByte a) (hb : IsByte b) (hc : IsByte c) where
  -- The first byte out of the first two letters, and so on.
  first_byte :
      (v : ℕ)
      → v ≡ 65536 * a + 256 * b + c
      → ((v / 2 ^ 18) % 64 * 2 ^ 18 + (v / 2 ^ 12) % 64 * 2 ^ 12) / 2 ^ 16 % 256 ≡ a
  first_byte v e = omega (arith, e, ha, hb, hc)

  second_byte :
      (v : ℕ)
      → v ≡ 65536 * a + 256 * b + c
      → ((v / 2 ^ 18) % 64 * 2 ^ 18 + (v / 2 ^ 12) % 64 * 2 ^ 12 + (v / 2 ^ 6) % 64 * 2 ^ 6)
          / 2 ^ 8
          % 256
        ≡ b
  second_byte v e = omega (arith, e, ha, hb, hc)

  third_byte :
      (v : ℕ)
      → v ≡ 65536 * a + 256 * b + c
      → ((v / 2 ^ 18) % 64 * 2 ^ 18
            + (v / 2 ^ 12) % 64 * 2 ^ 12
            + (v / 2 ^ 6) % 64 * 2 ^ 6
            + v % 64)
          % 256
        ≡ c
  third_byte v e = omega (arith, e, ha, hb, hc)

decode-two :
    (m n : ℕ)
    → decode_groups (letter m ∷ letter n ∷ [])
      ≡ ((m % 64 * 2 ^ 18 + n % 64 * 2 ^ 12) / 2 ^ 16) % 256 ∷ []
unfolding decode_groups
decode-two m n = rw ((letter-right m).0, (letter-right n).0) refl

decode-three :
    (m n o : ℕ)
    → decode_groups (letter m ∷ letter n ∷ letter o ∷ [])
      ≡ ((m % 64 * 2 ^ 18 + n % 64 * 2 ^ 12) / 2 ^ 16) % 256
        ∷ ((m % 64 * 2 ^ 18 + n % 64 * 2 ^ 12 + o % 64 * 2 ^ 6) / 2 ^ 8) % 256
        ∷ []
unfolding decode_groups
decode-three m n o = rw ((letter-right m).0, (letter-right n).0, (letter-right o).0) refl

decode-four :
    (m n o p : ℕ) (input : Str)
    → decode_groups (letter m ∷ letter n ∷ letter o ∷ letter p ∷ input)
      ≡ ((m % 64 * 2 ^ 18 + n % 64 * 2 ^ 12) / 2 ^ 16) % 256
        ∷ ((m % 64 * 2 ^ 18 + n % 64 * 2 ^ 12 + o % 64 * 2 ^ 6) / 2 ^ 8) % 256
        ∷ (m % 64 * 2 ^ 18 + n % 64 * 2 ^ 12 + o % 64 * 2 ^ 6 + p % 64) % 256
        ∷ decode_groups input
unfolding decode_groups
decode-four m n o p input =
    rw ((letter-right m).0, (letter-right n).0, (letter-right o).0, (letter-right p).0) refl

padding : (trim_end (b'=' ∷ []) ≡ []) × (trim_end (b'=' ∷ b'=' ∷ []) ≡ [])
unfolding trim_end
padding = (refl, refl)

-- For every byte string, the decoder gives back what was encoded, for each of the three lengths that
-- the last group can have.
pub decode-encode : (s : Str) → All IsByte s → decode (encode s) ≡ s
unfolding decode encode
decode-encode [] h = unfold trim_end decode_groups in refl
decode-encode (a ∷ []) h =
    let v = 65536 * a in
    rw
      (
        trim_end-letter (v / 2 ^ 18) (letter (v / 2 ^ 12) ∷ b'=' ∷ b'=' ∷ []),
        trim_end-letter (v / 2 ^ 12) (b'=' ∷ b'=' ∷ []),
        padding.1,
        decode-two (v / 2 ^ 18) (v / 2 ^ 12),
      )
      (ap (λ x. x ∷ []) (first_byte a 0 0 h.0 (omega arith) (omega arith) v (omega arith)))
decode-encode (a ∷ b ∷ []) h =
    let v = 65536 * a + 256 * b in
    rw
      (
        trim_end-letter (v / 2 ^ 18) (letter (v / 2 ^ 12) ∷ letter (v / 2 ^ 6) ∷ b'=' ∷ []),
        trim_end-letter (v / 2 ^ 12) (letter (v / 2 ^ 6) ∷ b'=' ∷ []),
        trim_end-letter (v / 2 ^ 6) (b'=' ∷ []),
        padding.0,
        decode-three (v / 2 ^ 18) (v / 2 ^ 12) (v / 2 ^ 6),
        first_byte a b 0 h.0 h.1.0 (omega arith) v (omega arith),
        second_byte a b 0 h.0 h.1.0 (omega arith) v (omega arith),
      )
      refl
decode-encode (a ∷ b ∷ c ∷ s) h =
    let v = 65536 * a + 256 * b + c in
    rw
      (
        trim_end-letter (v / 2 ^ 18)
            (letter (v / 2 ^ 12) ∷ letter (v / 2 ^ 6) ∷ letter v ∷ encode s),
        trim_end-letter (v / 2 ^ 12) (letter (v / 2 ^ 6) ∷ letter v ∷ encode s),
        trim_end-letter (v / 2 ^ 6) (letter v ∷ encode s),
        trim_end-letter v (encode s),
        decode-four (v / 2 ^ 18) (v / 2 ^ 12) (v / 2 ^ 6) v (trim_end (encode s)),
        first_byte a b c h.0 h.1.0 h.1.1.0 v refl,
        second_byte a b c h.0 h.1.0 h.1.1.0 v refl,
        third_byte a b c h.0 h.1.0 h.1.1.0 v refl,
      )
      (ap (λ x. a ∷ b ∷ c ∷ x) (decode-encode s h.1.1.1))
