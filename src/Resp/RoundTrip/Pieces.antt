-- ===== src/Resp/RoundTrip/Pieces.antt =====
-- The parts of a value on the wire: counts, bulk strings, lines and elements.
use afl.Base.{
  ℕ, zero, suc, ◌+◌, ◌-◌, ◌*◌, ◌^◌, ◌<◌, ◌≤◌, ◌==◌, ◌||◌, Bool, true, false, Bool-cases, [], ◌∷◌,
  ◌++◌, ◌≡◌, refl, sym, ◌∙◌, ap, inl, inr, arith, All, length, append-nil, append_assoc,
}
use afl.Base.Str.{Str}
use afl.Except.{ok}
use afl.Text.Number.{read_digits, format_unsigned}
use afl.Text.Number.RoundTrip.{IsDigit, format_unsigned-All, read_digits-format_unsigned}
use afl.Text.Char.{char_is_digit}
use afl.Data.Value.{Value, string, vector, Items, nil, push_back}
use afl.Resp.Writer.{first_line}
use afl.Resp.Parser.{
  State, root, line, number, bulk, array, done, Kind, Sign, virgin, positive_digits, number_digit,
  number_end, array_kind, line_value, is_negative, has_digits, numbered, number_byte,
}
use afl.Resp.Parser.Bytes.{feed, feed_all, feed_all-cons, pushed}
use afl.Resp.Parser.Chunks.{feed_all-array}

read_digits-ge :
    (found : Bool) (v w : ℕ) (ds : Str) → read_digits found v ds ≡ (true, w, []) → v ≤ w
unfolding read_digits
read_digits-ge found v w [] e = ground arith
read_digits-ge found v w (d ∷ ds) e = ground (arith, read_digits-ge true (10 * v + (d - b'0')) w ds)

number_byte-digit :
    (sign : Sign) (v d : ℕ)
    → IsDigit d
    → is_negative sign ≡ false
    → 10 * v + (d - b'0') < 2 ^ 31
    → number_byte sign v d ≡ ok (positive_digits, 10 * v + (d - b'0'))
unfolding number_byte number_digit
number_byte-digit sign v d h n b = ground arith

read_digits-cons :
    (found : Bool) (v d : ℕ) (ds : Str)
    → IsDigit d
    → read_digits found v (d ∷ ds) ≡ read_digits true (10 * v + (d - b'0')) ds
unfolding read_digits char_is_digit
read_digits-cons found v d ds h = ground arith

feed-digit :
    (a : Bool) (kind : Kind) (sign : Sign) (v d : ℕ)
    → IsDigit d
    → is_negative sign ≡ false
    → 10 * v + (d - b'0') < 2 ^ 31
    → feed a (number kind sign v) d ≡ ok (number kind positive_digits (10 * v + (d - b'0')))
unfolding feed
feed-digit a kind sign v d h n b =
    let e : (d == 10) ≡ false = ground arith in rw (e, number_byte-digit sign v d h n b) refl

feed-line_feed :
    (a : Bool) (kind : Kind) (sign : Sign) (v : ℕ)
    → has_digits sign ≡ true
    → is_negative sign ≡ false
    → feed a (number kind sign v) 10 ≡ ok (numbered kind false v)
unfolding feed number_end
feed-line_feed a kind sign v h n = rw (h, n) refl

feed-return :
    (a : Bool) (kind : Kind) (sign : Sign) (v : ℕ)
    → feed a (number kind sign v) 13 ≡ ok (number kind sign v)
unfolding feed number_byte
feed-return a kind sign v = refl

-- The digits of a number and the line break behind them.
feed_all-digits :
    (a found : Bool) (kind : Kind) (sign : Sign) (v w : ℕ) (ds rest : Str)
    → All IsDigit ds
    → read_digits found v ds ≡ (true, w, [])
    → w < 2 ^ 31
    → has_digits sign ≡ found
    → is_negative sign ≡ false
    → feed_all a (number kind sign v) (ds ++ 13 ∷ 10 ∷ rest)
      ≡ feed_all a (numbered kind false w) rest
feed_all-digits a found kind sign v w [] rest h e b s n =
    let same : (found ≡ true) × (v ≡ w) =
      unfold read_digits in (ap (λ x. x.0) e, ap (λ x. x.1) e) in
    rw
      (
        feed_all-cons a (number kind sign v) 13 (10 ∷ rest) refl,
        feed-return a kind sign v,
        feed_all-cons a (number kind sign v) 10 rest refl,
        feed-line_feed a kind sign v (s ∙ same.0) n,
        same.1,
      )
      refl
feed_all-digits a found kind sign v w (d ∷ ds) rest h e b s n =
    let next = sym (read_digits-cons found v d ds h.0) ∙ e in
    let l = read_digits-ge true (10 * v + (d - b'0')) w ds next in
    rw
      (
        feed_all-cons a (number kind sign v) d (ds ++ 13 ∷ 10 ∷ rest) refl,
        feed-digit a kind sign v d h.0 n (omega (arith, l, b)),
      )
      (feed_all-digits a true kind positive_digits (10 * v + (d - b'0')) w ds rest h.1 next b refl
        refl)

-- A length or a count in front of a string or a vector.
pub feed_all-count :
    (a : Bool) (kind : Kind) (n : ℕ) (rest : Str)
    → n < 2 ^ 31
    → feed_all a (number kind virgin 0) (format_unsigned n ++ 13 ∷ 10 ∷ rest)
      ≡ feed_all a (numbered kind false n) rest
feed_all-count a kind n rest b =
    let (d, ds, e, hd, hds) = format_unsigned-All n in
    let r = read_digits-format_unsigned n (omega (arith, b)) in
    rw e (feed_all-digits a false kind virgin 0 n (d ∷ ds) rest (hd, hds) (rw e at r) b refl refl)

pub feed_all-bulk :
    (a : Bool) (s t rest : Str)
    → feed_all a (bulk (length s) t) (s ++ 13 ∷ 10 ∷ rest) ≡ ok (done (string (t ++ s)), rest)
unfolding feed_all
feed_all-bulk a [] t rest = rw (append-nil t) refl
feed_all-bulk a (c ∷ s) t rest =
    rw (sym (append_assoc t (c ∷ []) s)) (feed_all-bulk a s (t ++ (c ∷ [])) rest)

feed-text :
    (a success : Bool) (t : Str) (c : ℕ)
    → (c == 13 || c == 10) ≡ false
    → feed a (line success t) c ≡ ok (line success (t ++ (c ∷ [])))
unfolding feed
feed-text a success t c e = ground arith

feed_all-text :
    (a success : Bool) (t : Str) (c : ℕ) (rest : Str)
    → (c == 13 || c == 10) ≡ false
    → feed_all a (line success t) (c ∷ rest) ≡ feed_all a (line success (t ++ (c ∷ []))) rest
feed_all-text a success t c rest e =
    rw (feed_all-cons a (line success t) c rest refl, feed-text a success t c e) refl

-- An error's first line has no line break in it.
pub feed_all-line :
    (a success : Bool) (s t rest : Str)
    → feed_all a (line success t) (first_line s ++ 13 ∷ 10 ∷ rest)
      ≡ ok (done (line_value success (t ++ first_line s)), rest)
unfolding feed_all first_line
feed_all-line a success [] t rest = rw (append-nil t) refl
feed_all-line a success (c ∷ s) t rest = elim (Bool-cases (c == 13 || c == 10)) [
  | inl e ↦ rw (e, append-nil t) refl
  | inr e ↦ rw e (
      feed_all-text a success t c (first_line s ++ 13 ∷ 10 ∷ rest) e
      ∙ rw (sym (append_assoc t (c ∷ []) (first_line s)))
          (feed_all-line a success s (t ++ (c ∷ [])) rest))
]

-- An array that has `n` elements to come.
abbrev pub waiting : ℕ → Items → State
waiting zero ws = done (vector ws)
waiting (suc n) ws = array (suc n) ws root

pushed-waiting : (n : ℕ) (ws : Items) (v : Value) → pushed (suc n) ws v ≡ waiting n (push_back ws v)
pushed-waiting zero ws v = refl
pushed-waiting (suc n) ws v = refl

pub numbered-waiting : (n : ℕ) → numbered array_kind false n ≡ waiting n nil
numbered-waiting zero = refl
numbered-waiting (suc n) = ground arith

-- An element that its own parser reads is pushed, and the array goes on.
pub feed_all-element :
    (a : Bool) (n : ℕ) (ws : Items) (v : Value) (input rest : Str)
    → feed_all false root input ≡ ok (done v, rest)
    → feed_all a (waiting (suc n) ws) input ≡ feed_all a (waiting n (push_back ws v)) rest
feed_all-element a n ws v input rest e =
    rw (feed_all-array a (suc n) ws root input refl, e, pushed-waiting n ws v) refl
