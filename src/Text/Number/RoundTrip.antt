-- ===== src/Text/Number/RoundTrip.antt =====
-- What `Format("%d")` writes is what `strToInteger` reads.
use afl.Base.{ℕ, zero, suc, ◌+◌, ◌*◌, ◌/◌, ◌%◌, ◌^◌, ◌≤◌, ◌<◌, ◌≡◌, ◌≢◌, refl, true, false, Bool}
use afl.Base.{[], ◌∷◌, some, ap, ◌==◌, arith, All, Bool-cases, inl, inr, ◌∙◌}
use afl.Base.Int.{ℤ, pos, negsuc, neg, IsInt32}
use afl.Base.Str.{Str}
use native.Mathlib.Nat.{pow-suc}
use afl.Text.Number.{
  or_zero, format_loop, format_unsigned, format_signed, c_str, isspace, skip_while, read_digits,
  read_sign, strtol, post_validate, str_to_integer,
}

abbrev pub IsDigit : ℕ → Type 0
IsDigit c = (b'0' ≤ c) × (c ≤ b'9')

format_loop-All : (f c : ℕ) (out : Str) → All IsDigit out → All IsDigit (format_loop f c out)
unfolding format_loop
format_loop-All zero c out h = h
format_loop-All (suc f) c out h = ground (arith, format_loop-All f (c / 10) ((b'0' + c % 10) ∷ out))

-- The text is not empty, and holds digits alone.
or_zero-All :
    (r : Str)
    → All IsDigit r
    → (d : ℕ) × (ds : Str) × (or_zero r ≡ d ∷ ds) × IsDigit d × All IsDigit ds
or_zero-All [] h = (b'0', [], refl, omega arith, tt)
or_zero-All (d ∷ ds) h = (d, ds, refl, h.0, h.1)

pub format_unsigned-All :
    (c : ℕ) → (d : ℕ) × (ds : Str) × (format_unsigned c ≡ d ∷ ds) × IsDigit d × All IsDigit ds
unfolding format_unsigned
format_unsigned-All c = or_zero-All (format_loop 64 c []) (format_loop-All 64 c [] tt)

format_loop_zero : (f : ℕ) (out : Str) → format_loop f 0 out ≡ out
unfolding format_loop
format_loop_zero zero out = refl
format_loop_zero (suc f) out = refl

tenth-lt : (f c : ℕ) → c < 2 ^ suc f → c / 10 < 2 ^ f
tenth-lt f c h = omega (arith, pow-suc 2 f)

-- One digit more.
read_digits_digit :
    (found : Bool) (v d : ℕ) (out : Str)
    → d < 10
    → read_digits found v ((b'0' + d) ∷ out) ≡ read_digits true (10 * v + d) out
unfolding read_digits
read_digits_digit found v d out h = ground arith

-- Reading from the front what the loop writes from the back.
read_digits-format_loop :
    (f c : ℕ) (found : Bool) (out : Str)
    → c < 2 ^ f
    → c ≢ 0
    → read_digits found 0 (format_loop f c out) ≡ read_digits true c out
unfolding format_loop
read_digits-format_loop zero c found out h n = absurd (n (omega arith))
read_digits-format_loop (suc f) c found out h n = elim (Bool-cases (c / 10 == 0)) [
  | inl last ↦
      ground
        (arith, format_loop_zero f ((b'0' + c % 10) ∷ out), read_digits_digit found 0 (c % 10) out)
  | inr more ↦ ground (
    arith,
    tenth-lt f c,
    read_digits-format_loop f (c / 10) found ((b'0' + c % 10) ∷ out),
    read_digits_digit true (c / 10) (c % 10) out,
  )
]

read_digits-or_zero :
    (r : Str) (c : ℕ)
    → read_digits false 0 r ≡ (true, c, [])
    → read_digits false 0 (or_zero r) ≡ (true, c, [])
unfolding read_digits
read_digits-or_zero [] c h = cc
read_digits-or_zero (d ∷ ds) c h = h

pub read_digits-format_unsigned :
    (c : ℕ) → c < 2 ^ 64 → read_digits false 0 (format_unsigned c) ≡ (true, c, [])
unfolding format_unsigned
read_digits-format_unsigned zero h = unfold format_loop read_digits in refl
read_digits-format_unsigned (suc c) h =
    read_digits-or_zero (format_loop 64 (suc c) []) (suc c)
      (read_digits-format_loop 64 (suc c) false [] h (omega arith) ∙ unfold read_digits in refl)

c_str-digits : (s : Str) → All IsDigit s → c_str s ≡ s
unfolding c_str
c_str-digits [] h = refl
c_str-digits (c ∷ s) h = ground (arith, c_str-digits s h.1)

module _ (d v : ℕ) (ds : Str) (h : IsDigit d)
    (e : read_digits false 0 (d ∷ ds) ≡ (true, v, [])) where
  strtol-digits : v < 2 ^ 63 → strtol (d ∷ ds) ≡ some (pos v, [])
  unfolding strtol skip_while isspace read_sign
  strtol-digits b = ground (arith, e)

  strtol_minus : v ≤ 2 ^ 63 → strtol (b'-' ∷ d ∷ ds) ≡ some (neg (pos v), [])
  unfolding strtol skip_while isspace read_sign
  strtol_minus b = ground (arith, e)

str_to_integer_of :
    (s : Str) (v : ℤ) → strtol (c_str s) ≡ some (v, []) → IsInt32 v → str_to_integer s ≡ some v
unfolding str_to_integer post_validate skip_while
str_to_integer_of s v e h = rw (e, str_to_integer) (ground arith)

c_str_minus : (s : Str) → All IsDigit s → c_str (b'-' ∷ s) ≡ b'-' ∷ s
c_str_minus s h = unfold c_str in ap (◌∷◌ b'-') (c_str-digits s h)

-- Every int32_t that is formatted by `%d` is read back.
pub str_to_integer-format_signed : (n : ℤ) → IsInt32 n → str_to_integer (format_signed n) ≡ some n
unfolding format_signed
str_to_integer-format_signed (pos n) h =
    let (d, ds, e, hd, hds) = format_unsigned-All n in
    let r = read_digits-format_unsigned n (omega arith) in
    str_to_integer_of (format_unsigned n) (pos n)
      (rw (e, c_str-digits (d ∷ ds) (hd, hds)) (strtol-digits d n ds hd (rw e at r) (omega arith)))
      h
str_to_integer-format_signed (negsuc n) h =
    let (d, ds, e, hd, hds) = format_unsigned-All (suc n) in
    let r = read_digits-format_unsigned (suc n) (omega arith) in
    str_to_integer_of (b'-' ∷ format_unsigned (suc n)) (negsuc n)
      (rw (e, c_str_minus (d ∷ ds) (hd, hds))
        (strtol_minus d (suc n) ds hd (rw e at r) (omega arith) ∙ ground arith))
      h

-- The text of a number is not empty.
pub format_signed_cons : (n : ℤ) → (c : ℕ) × (s : Str) × (format_signed n ≡ c ∷ s)
unfolding format_signed
format_signed_cons (pos n) = let (d, ds, e, hd, hds) = format_unsigned-All n in (d, ds, e)
format_signed_cons (negsuc n) = (b'-', format_unsigned (suc n), refl)
