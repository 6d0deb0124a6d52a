-- ===== src/Json/Scanned.antt =====
-- What the parser makes of the pieces that the writer writes.
use afl.Base.{
  ℕ, zero, suc, ◌+◌, ◌-◌, ◌*◌, ◌/◌, ◌%◌, ◌≤◌, ◌<◌, ◌≡◌, refl, ap, ◌∙◌, true, false, Option, some,
  [], ◌∷◌, ◌++◌, length, All, append_assoc, append-nil, leb, ◌==◌, arith, Bool-cases, inl, inr,
}
use afl.Base.Int.{ℤ, pos, negsuc, IsInt32}
use afl.Base.Str.{Str}
use afl.Except.{ok}
use afl.Text.Number.{format_signed, format_unsigned}
use afl.Text.Number.RoundTrip.{IsDigit, format_unsigned-All, str_to_integer-format_signed}
use afl.Charset.Unicode.{no_flags}
use afl.Charset.Utf8.{append, encoded}
use afl.Data.Value.{Value, integer}
use afl.Json.Writer.{
  Writer, Layout, before, spaces, undented, breaks_line, upper_digit, escaped, escape_all,
}
use afl.Json.Parser.{
  skip_whitespace, is_whitespace, is_number_byte, is_identifier_byte, number_text, after_number,
  Point, literal, quote, digits, hex_value, next, continue, unquoted, string_from, number, start,
  number_start,
}

skip-spaces : (n : ℕ) (s : Str) → skip_whitespace (spaces n ++ s) ≡ skip_whitespace s
unfolding spaces skip_whitespace
skip-spaces zero s = refl
skip-spaces (suc n) s = skip-spaces n s

-- White space before a token does not count.
pub skip-before :
    (x : Str) (l : Layout) (w : Writer) (s : Str)
    → skip_whitespace (before x l w ++ s) ≡ skip_whitespace s
unfolding before skip_whitespace
skip-before x l w s = elim (Bool-cases (breaks_line x l w)) [
  | inl e ↦ rw e (skip-spaces (undented l w) s)
  | inr e ↦ rw e refl
]

pub skip_idem : (s : Str) → skip_whitespace (skip_whitespace s) ≡ skip_whitespace s
unfolding skip_whitespace
skip_idem [] = refl
skip_idem (c ∷ s) = elim (Bool-cases (is_whitespace c)) [
  | inl e ↦ rw e (skip_idem s)
  | inr e ↦ rw (e, e) refl
]

pub skip-length : (s : Str) → length (skip_whitespace s) ≤ length s
unfolding skip_whitespace
skip-length [] = omega arith
skip-length (c ∷ s) = ground (arith, skip-length s)

-- What may stand behind a number or a keyword.
abbrev pub IsDelimited : Str → Type 0
IsDelimited [] = Unit {0}
IsDelimited (c ∷ s) = (is_number_byte c ≡ false) × (is_identifier_byte c ≡ false)

pub before-IsDelimited :
    (x : Str) (l : Layout) (w : Writer) (c : ℕ) (s : Str)
    → IsDelimited (c ∷ s)
    → IsDelimited (before x l w ++ (c ∷ s))
unfolding before
before-IsDelimited x l w c s h = elim (Bool-cases (breaks_line x l w)) [
  | inl e ↦ rw e (refl, refl)
  | inr e ↦ rw e h
]

number_text-All :
    (ds rest : Str)
    → All (λ c. is_number_byte c ≡ true) ds
    → IsDelimited rest
    → (number_text (ds ++ rest) ≡ ds) × (after_number (ds ++ rest) ≡ rest)
unfolding number_text after_number
number_text-All [] [] h d = (refl, refl)
number_text-All [] (c ∷ rest) h d = (rw d.0 refl, rw d.0 refl)
number_text-All (c ∷ ds) rest h d =
    let (e, g) = number_text-All ds rest h.1 d in (rw (h.0, e) refl, rw (h.0, g) refl)

digits-All : (ds : Str) → All IsDigit ds → All (λ c. is_number_byte c ≡ true) ds
digits-All [] h = tt
digits-All (c ∷ ds) h = (ground (arith, h.0), digits-All ds h.1)

format_signed-All : (n : ℤ) → All (λ c. is_number_byte c ≡ true) (format_signed n)
unfolding format_signed
format_signed-All (pos n) =
    let (d, ds, e, hd, hds) = format_unsigned-All n in rw e (digits-All (d ∷ ds) (hd, hds))
format_signed-All (negsuc n) =
    let (d, ds, e, hd, hds) = format_unsigned-All (suc n) in
    (refl, rw e (digits-All (d ∷ ds) (hd, hds)))

-- A number begins with a digit or a minus sign.
pub start-format_signed :
    (n : ℤ)
    → (c : ℕ) × (s : Str) × (format_signed n ≡ c ∷ s)
      × (start c ≡ number_start)
      × (is_whitespace c ≡ false)
      × ((c == b']') ≡ false)
unfolding format_signed start
start-format_signed (pos n) =
    let (d, ds, e, hd, hds) = format_unsigned-All n in
    (d, ds, e, ground (arith, hd.0, hd.1), ground (arith, hd.0, hd.1), ground (arith, hd.0, hd.1))
start-format_signed (negsuc n) = (b'-', format_unsigned (suc n), refl, refl, refl, refl)

append-control : (value : Str) (ch : ℕ) → ch < 32 → append no_flags value ch ≡ value ++ ch ∷ []
unfolding append encoded
append-control value ch h = ap (◌++◌ value) (ground arith)

hex_value-upper_digit : (d : ℕ) → d < 16 → hex_value (upper_digit d) ≡ some d
unfolding hex_value upper_digit
hex_value-upper_digit d h = ground arith

module _ (name : Str) (float : Str → Option Value) where
  pub number-format_signed :
      (n : ℤ) (rest : Str)
      → IsInt32 n
      → IsDelimited rest
      → number name float (format_signed n ++ rest) ≡ ok (integer n, rest)
  unfolding number
  number-format_signed n rest h d =
      let (e, g) = number_text-All (format_signed n) rest (format_signed-All n) d in
      rw (e, g, str_to_integer-format_signed n h) refl

  -- One step of `parseString`.
  string-continue :
      (p q : Point) (value value' : Str) (c : ℕ) (s : Str)
      → next p value c ≡ continue q value'
      → string_from name float p value (c ∷ s) ≡ string_from name float q value' s
  unfolding string_from
  string-continue p q value value' c s e = rw (e, string_from) refl

  string_letter :
      (value : Str) (ch d : ℕ) (rest : Str)
      → unquoted value d ≡ continue literal (value ++ ch ∷ [])
      → string_from name float literal value (b'\\' ∷ d ∷ rest)
        ≡ string_from name float literal (value ++ ch ∷ []) rest
  unfolding next
  string_letter value ch d rest e =
      string-continue literal quote value value b'\\' (d ∷ rest) refl
      ∙ string-continue quote literal value (value ++ ch ∷ []) d rest e

  string_digit :
      (value : Str) (k n c d : ℕ) (rest : Str)
      → hex_value c ≡ some d
      → string_from name float (digits (suc (suc k)) n) value (c ∷ rest)
        ≡ string_from name float (digits (suc k) (16 * n + d)) value rest
  unfolding next
  string_digit value k n c d rest e =
      string-continue (digits (suc (suc k)) n) (digits (suc k) (16 * n + d)) value value c rest
        (let z : suc (suc k) - 1 ≡ suc k = omega arith in rw (e, z) refl)

  string-control :
      (value : Str) (ch : ℕ) (rest : Str)
      → ch < 32
      → string_from name float literal value
          (b'\\' ∷ b'u' ∷ b'0' ∷ b'0' ∷ upper_digit (ch / 16) ∷ upper_digit (ch % 16) ∷ rest)
        ≡ string_from name float literal (value ++ ch ∷ []) rest
  string-control value ch rest h =
      let n : 16 * (16 * (16 * (16 * 0 + 0) + 0) + ch / 16) + ch % 16 ≡ ch = omega arith in
      unfold next in
      unfold unquoted in
      string-continue literal quote value value b'\\' _ refl
      ∙ string-continue quote (digits 4 0) value value b'u' _ refl
      ∙ string_digit value 2 0 b'0' 0 _ (unfold hex_value in refl)
      ∙ string_digit value 1 (16 * 0 + 0) b'0' 0 _ (unfold hex_value in refl)
      ∙ string_digit value 0 (16 * (16 * 0 + 0) + 0) (upper_digit (ch / 16)) (ch / 16) _
          (hex_value-upper_digit (ch / 16) (omega arith))
      ∙ string-continue (digits 1 (16 * (16 * (16 * 0 + 0) + 0) + ch / 16)) literal value
          (value ++ ch ∷ []) (upper_digit (ch % 16)) rest
          (rw (hex_value-upper_digit (ch % 16) (omega arith), n)
            (ap (continue literal) (append-control value ch h)))

  -- One byte that was escaped.
  string-escaped :
      (value : Str) (ch : ℕ) (rest : Str)
      → string_from name float literal value (escaped ch ++ rest)
        ≡ string_from name float literal (value ++ ch ∷ []) rest
  unfolding escaped unquoted
  string-escaped value ch rest = elim (Bool-cases (ch == b'\\')) [
    | inl e ↦ rw e (string_letter value ch b'\\' rest (ground arith))
    | inr e1 ↦ rw e1 (elim (Bool-cases (ch == 34)) [
      | inl e ↦ rw e (string_letter value ch 34 rest (ground arith))
      | inr e2 ↦ rw e2 (elim (Bool-cases (leb 32 ch)) [
        | inl e ↦ rw e (
            string-continue literal literal value (value ++ ch ∷ []) ch rest
              (unfold next in ground arith))
        | inr e3 ↦ rw e3 (elim (Bool-cases (ch == 10)) [
          | inl e ↦ rw e (string_letter value ch b'n' rest (ground arith))
          | inr e4 ↦ rw e4 (elim (Bool-cases (ch == 13)) [
            | inl e ↦ rw e (string_letter value ch b'r' rest (ground arith))
            | inr e5 ↦ rw e5 (elim (Bool-cases (ch == 8)) [
              | inl e ↦ rw e (string_letter value ch b'b' rest (ground arith))
              | inr e6 ↦ rw e6 (elim (Bool-cases (ch == 9)) [
                | inl e ↦ rw e (string_letter value ch b't' rest (ground arith))
                | inr e7 ↦ rw e7 (elim (Bool-cases (ch == 12)) [
                  | inl e ↦ rw e (string_letter value ch b'f' rest (ground arith))
                  | inr e8 ↦ rw e8 (string-control value ch rest (ground arith))
                ])
              ])
            ])
          ])
        ])
      ])
    ])
  ]

  -- A string that was quoted.
  pub string-escape_all :
      (value s rest : Str)
      → string_from name float literal value (escape_all s ++ (34 ∷ rest)) ≡ ok (value ++ s, rest)
  unfolding escape_all
  string-escape_all value [] rest = rw append-nil (unfold string_from next in refl)
  string-escape_all value (ch ∷ s) rest =
      rw (append_assoc (escaped ch) (escape_all s) (34 ∷ rest)) (
        string-escaped value ch (escape_all s ++ (34 ∷ rest))
        ∙ string-escape_all (value ++ ch ∷ []) s rest
        ∙ ap (λ t. ok (t, rest)) (append_assoc value (ch ∷ []) s))
