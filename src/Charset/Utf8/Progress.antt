-- ===== src/Charset/Utf8/Progress.antt =====
-- `Utf8Reader::eat` consumes at least one byte where there is one, and none that is not there.
use afl.Base.{
  ℕ, zero, suc, ◌+◌, ◌-◌, ◌*◌, ◌%◌, ◌^◌, ◌≤◌, ◌<◌, ◌≡◌, refl, ap, Bool, true, false, ◌&&◌, some, [],
  ◌∷◌, length, drop, length-drop, ltb, ◌==◌, if◌then◌else◌, arith, Bool-cases, Option-cases, inl,
  inr,
}
use afl.Base.Str.{Str}
use afl.Charset.Unicode.{Flags, is_high_surrogate, is_low_surrogate}
use afl.Charset.Utf8Reader.{
  lead, extra_bytes, is_refused, is_continuation_byte, parse, checked, eat, count, count_loop,
  surrogate_pair, lone_surrogate,
}

-- All bytes that a character takes are there.
extra_bytes-length : (n rune : ℕ) (s : Str) {r : ℕ} → extra_bytes n rune s ≡ some r → n ≤ length s
unfolding extra_bytes
extra_bytes-length zero rune s e = omega arith
extra_bytes-length (suc n) rune [] e = cc
extra_bytes-length (suc n) rune (b ∷ s) e =
    elim (Bool-cases (is_continuation_byte b && ltb rune (2 ^ 26))) [
      | inl t ↦ omega (arith, extra_bytes-length n (64 * rune + b % 64) s (rw t at e))
      | inr t ↦ cc (rw t at e)
    ]

checked-size :
    (f : Flags) (c m n rune : ℕ) (s : Str)
    → (1 ≤ (checked f c m n (extra_bytes n rune s)).size)
      × ((checked f c m n (extra_bytes n rune s)).size ≤ suc (length s))
checked-size f c m n rune s = elim (Option-cases (extra_bytes n rune s)) [
  | inl e ↦ rw e (omega arith)
  | inr (r, e) ↦ rw e (elim (Bool-cases (is_refused f r m n)) [
    | inl t ↦ rw t (omega arith)
    | inr t ↦ rw t (omega (arith, extra_bytes-length n rune s e))
  ])
]

parse-size :
    (f : Flags) (c : ℕ) (s : Str)
    → (1 ≤ (parse f (c ∷ s)).size) × ((parse f (c ∷ s)).size ≤ suc (length s))
unfolding parse
parse-size f c s = elim (Option-cases (lead c)) [
  | inl e ↦ rw e (omega arith)
  | inr ((rune, m, n), e) ↦ rw e (checked-size f c m n rune s)
]

parse-fits : (f : Flags) (s : Str) → (parse f s).size ≤ length s
unfolding parse
parse-fits f [] = omega arith
parse-fits f (c ∷ s) = (parse-size f c s).1

-- What is left is the text from a later byte on.
abbrev Follows : Str → ℕ → Str → Type 0
Follows s c t = (n : ℕ) × (t ≡ drop n (c ∷ s)) × (1 ≤ n) × (n ≤ suc (length s))

either_way :
    {s : Str} {c : ℕ} (b : Bool) (x y : ℕ × Str)
    → Follows s c x.1
    → Follows s c y.1
    → Follows s c (if b then x else y).1
either_way true x y h k = h
either_way false x y h k = k

pair-Follows :
    (f : Flags) (c : ℕ) (s : Str)
    → Follows s c
        (surrogate_pair (c ∷ s) (parse f (c ∷ s)) (parse f (drop (parse f (c ∷ s)).size (c ∷ s)))).1
pair-Follows f c s =
    let x = parse f (c ∷ s) in
    let y = parse f (drop x.size (c ∷ s)) in
    let p = parse-size f c s in
    let q : y.size ≤ length (drop x.size (c ∷ s)) = parse-fits f (drop x.size (c ∷ s)) in
    let d : length (drop x.size (c ∷ s)) ≡ suc (length s) - x.size = length-drop x.size (c ∷ s) in
    elim (Bool-cases (is_low_surrogate y.value)) [
      | inl e ↦ rw e (x.size + y.size, refl, omega arith, omega arith)
      | inr e ↦ rw e (1, refl, omega arith, omega arith)
    ]

lone-Follows :
    (f : Flags) (c : ℕ) (s : Str) → Follows s c (lone_surrogate f (c ∷ s) (parse f (c ∷ s))).1
lone-Follows f c s =
    let p = parse-size f c s in
    either_way f.non_characters _ _ ((parse f (c ∷ s)).size, refl, p.0, p.1)
      (1, refl, omega arith, omega arith)

eat-Follows : (f : Flags) (c : ℕ) (s : Str) → Follows s c (eat f (c ∷ s)).1
unfolding eat
eat-Follows f c s =
    let x = parse f (c ∷ s) in
    let p = parse-size f c s in
    let z : (x.size == 0) ≡ false = ground arith in
    rw z (
      either_way (is_high_surrogate x.value) _ _
        (either_way f.surrogates _ _ (pair-Follows f c s) (lone-Follows f c s))
        (either_way (is_low_surrogate x.value) _ _ (lone-Follows f c s) (x.size, refl, p.0, p.1)))

-- `eat` leaves less of a text that is not empty.
pub eat-shorter : (f : Flags) (c : ℕ) (s : Str) → length (eat f (c ∷ s)).1 ≤ length s
eat-shorter f c s =
    let (n, e, lo, hi) = eat-Follows f c s in rw e (omega (arith, length-drop n (c ∷ s)))

pub eat_nothing : (f : Flags) → eat f [] ≡ (0, [])
unfolding eat parse
eat_nothing f = refl

pub count_nothing : (f : Flags) → count f [] ≡ 0
unfolding count count_loop
count_nothing f = refl

-- More fuel than bytes changes nothing.
count_loop-fuel :
    (n m : ℕ) (f : Flags) (s : Str)
    → length s ≤ n
    → length s ≤ m
    → count_loop n f s ≡ count_loop m f s
unfolding count_loop
count_loop-fuel zero zero f s h k = refl
count_loop-fuel zero (suc m) f [] h k = refl
count_loop-fuel zero (suc m) f (c ∷ s) h k = elim h [ ]
count_loop-fuel (suc n) zero f [] h k = refl
count_loop-fuel (suc n) zero f (c ∷ s) h k = elim k [ ]
count_loop-fuel (suc n) (suc m) f [] h k = refl
count_loop-fuel (suc n) (suc m) f (c ∷ s) h k =
    let e = eat-shorter f c s in
    ap suc (count_loop-fuel n m f (eat f (c ∷ s)).1 (omega arith) (omega arith))

-- The loop of `count` ends, for every byte string, also one that is no UTF-8: it is one more than the count
-- of what `eat` leaves, which is shorter, and there are no more characters than bytes.
pub count-eat :
    (f : Flags) (c : ℕ) (s : Str)
    → (count f (c ∷ s) ≡ suc (count f (eat f (c ∷ s)).1))
      × (length (eat f (c ∷ s)).1 < length (c ∷ s))
      × (count f (c ∷ s) ≤ length (c ∷ s))
unfolding count count_loop
count-eat f c s =
    let e = eat-shorter f c s in
    (
      ap suc (
          count_loop-fuel (length s) (length (eat f (c ∷ s)).1) f (eat f (c ∷ s)).1 e
            (omega arith)),
      omega arith,
      omega (arith, bound (length s) (eat f (c ∷ s)).1),
    )
  where
    bound : (n : ℕ) (t : Str) → count_loop n f t ≤ n
    bound zero t = omega arith
    bound (suc n) [] = omega arith
    bound (suc n) (x ∷ t) = omega (arith, bound n (eat f (x ∷ t)).1)
