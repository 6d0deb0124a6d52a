-- ===== src/Charset/Utf8/Bytes.antt =====
-- What `appendOne` writes, `Utf8Reader::parse` reads.
use afl.Base.{
  ℕ, zero, suc, ◌+◌, ◌*◌, ◌/◌, ◌%◌, ◌^◌, ◌≤◌, ◌<◌, ◌≡◌, refl, ap, Bool, true, false, not, ◌&&◌,
  ◌||◌, some, ◌∷◌, ◌++◌, drop, leb, ltb, arith, Bool-cases, inl, inr, ◌⊎◌,
}
use afl.Base.Str.{Str}
use afl.Charset.Unicode.{Flags, unicode_max, is_error_character}
use afl.Charset.Utf8Reader.{Character, lead, extra_bytes, is_refused, is_continuation_byte, parse}
use afl.Charset.Utf8.{extra_parts, one}

-- Six bits more.
up :
    (n ch : ℕ)
    → n < 6
    → (64 * (ch / 2 ^ (6 * suc n)) + (0x80 + ch / 2 ^ (6 * n) % 64) % 64 ≡ ch / 2 ^ (6 * n))
      × (is_continuation_byte (0x80 + ch / 2 ^ (6 * n) % 64) ≡ true)
up zero ch h = (omega arith, ground arith)
up (suc zero) ch h = (omega arith, ground arith)
up (suc (suc zero)) ch h = (omega arith, ground arith)
up (suc (suc (suc zero))) ch h = (omega arith, ground arith)
up (suc (suc (suc (suc zero)))) ch h = (omega arith, ground arith)
up (suc (suc (suc (suc (suc zero))))) ch h = (omega arith, ground arith)
up (suc (suc (suc (suc (suc (suc n)))))) ch h = absurd (omega arith)

small : (n ch : ℕ) → n < 6 → ch < 2 ^ 32 → ch / 2 ^ (6 * suc n) < 2 ^ 26
small zero ch h b = omega arith
small (suc zero) ch h b = omega arith
small (suc (suc zero)) ch h b = omega arith
small (suc (suc (suc zero))) ch h b = omega arith
small (suc (suc (suc (suc zero)))) ch h b = omega arith
small (suc (suc (suc (suc (suc zero))))) ch h b = omega arith
small (suc (suc (suc (suc (suc (suc n)))))) ch h b = absurd (omega arith)

-- The bytes behind the first complete the character.
extra_bytes-parts :
    (n ch : ℕ) (rest : Str)
    → n ≤ 6
    → ch < 2 ^ 32
    → extra_bytes n (ch / 2 ^ (6 * n)) (extra_parts n ch ++ rest) ≡ some ch
unfolding extra_bytes extra_parts
extra_bytes-parts zero ch rest h b = ap some (omega arith)
extra_bytes-parts (suc n) ch rest h b =
    let (e, c) = up n ch (omega arith) in
    let s : ltb (ch / 2 ^ (6 * suc n)) (2 ^ 26) ≡ true =
      ground (arith, small n ch (omega arith) b) in
    rw (c, s, e) (extra_bytes-parts n ch rest (omega arith) b)

form :
    (f : Flags) (ch c n min_val : ℕ) (rest : Str)
    → lead c ≡ some (ch / 2 ^ (6 * n), min_val, n)
    → n ≤ 6
    → ch < 2 ^ 32
    → is_refused f ch min_val n ≡ false
    → parse f (c ∷ (extra_parts n ch ++ rest)) ≡ record { value = ch; first_char = c; size = 1 + n }
unfolding parse
form f ch c n min_val rest l h b r = rw (l, extra_bytes-parts n ch rest h b, r) refl

-- The first byte, the number of bytes behind it, and the least character of that form.
one-form :
    (ch : ℕ)
    → ch < 2 ^ 32
    → (c : ℕ) × (n : ℕ) × (min_val : ℕ) × (one ch ≡ c ∷ extra_parts n ch)
      × (lead c ≡ some (ch / 2 ^ (6 * n), min_val, n))
      × (n ≤ 6)
      × ((min_val ≤ ch) ⊎ ((ch < 0x80) × (n ≡ 1)))
unfolding one lead
one-form ch b = elim (Bool-cases (leb ch 0x7ff)) [
  | inl e ↦ (0xc0 + ch / 2 ^ 6, 1, 0x80, rw e refl, ground arith, omega arith, ground arith)
  | inr e ↦ elim (Bool-cases (leb ch 0xffff)) [
    | inl g ↦ (
      0xe0 + ch / 2 ^ 12,
      2,
      0x800,
      rw (e, g) refl,
      ground arith,
      omega arith,
      inl (ground arith),
    )
    | inr g ↦ elim (Bool-cases (leb ch 0x1fffff)) [
      | inl k ↦ (
        0xf0 + ch / 2 ^ 18,
        3,
        0x10000,
        rw (e, g, k) refl,
        ground arith,
        omega arith,
        inl (ground arith),
      )
      | inr k ↦ elim (Bool-cases (leb ch 0x3ffffff)) [
        | inl m ↦ (
          0xf8 + ch / 2 ^ 24,
          4,
          0x200000,
          rw (e, g, k, m) refl,
          ground arith,
          omega arith,
          inl (ground arith),
        )
        | inr m ↦ elim (Bool-cases (leb ch 0x7fffffff)) [
          | inl o ↦ (
            0xfc + ch / 2 ^ 30,
            5,
            0x4000000,
            rw (e, g, k, m, o) refl,
            ground arith,
            omega arith,
            inl (ground arith),
          )
          | inr o ↦ (
            0xfe,
            6,
            0x80000000,
            rw (e, g, k, m, o) refl,
            ground arith,
            omega arith,
            inl (ground arith),
          )
        ]
      ]
    ]
  ]
]

-- Where nothing about the character itself is refused.
abbrev pub is_accepted : Flags → ℕ → Bool
is_accepted f ch =
    not (is_error_character ch && f.error_escapes)
    && not ((leb unicode_max ch || leb 0xfffe (ch % 65536)) && not f.non_characters)

pub accepted :
    (f : Flags) (ch n min_val : ℕ)
    → is_accepted f ch ≡ true
    → (min_val ≤ ch) ⊎ ((ch ≡ 0) × (n ≡ 1) × (f.encoded_zero ≡ true))
    → is_refused f ch min_val n ≡ false
unfolding is_refused
accepted f ch n min_val a m = ground arith

pub drop-parts : (n ch c : ℕ) (rest : Str) → drop (1 + n) (c ∷ (extra_parts n ch ++ rest)) ≡ rest
unfolding extra_parts
drop-parts n ch c rest = let e : 1 + n ≡ suc n = omega arith in rw e (past n)
  where
    past : (n : ℕ) → drop n (extra_parts n ch ++ rest) ≡ rest
    past zero = refl
    past (suc n) = past n

-- The size is that of what `appendOne` wrote.
pub parse-one :
    (f : Flags) (ch : ℕ) (rest : Str)
    → ch < 2 ^ 32
    → is_accepted f ch ≡ true
    → (0x80 ≤ ch) ⊎ ((ch ≡ 0) × (f.encoded_zero ≡ true))
    → (x : Character) × (parse f (one ch ++ rest) ≡ x)
      × (x.value ≡ ch)
      × (drop x.size (one ch ++ rest) ≡ rest)
      × (0 < x.size)
parse-one f ch rest b a z =
    let (c, n, m, o, l, k, d) = one-form ch b in
    (
      record { value = ch; first_char = c; size = 1 + n },
      rw o (form f ch c n m rest l k b (accepted f ch n m a (ground arith))),
      refl,
      rw o (drop-parts n ch c rest),
      omega arith,
    )
