-- ===== src/Charset/Utf8/RoundTrip.antt =====
-- What `Utf8::append` writes, `Utf8Reader::eat` reads.
use afl.Base.{
  ℕ, zero, suc, ◌+◌, ◌-◌, ◌*◌, ◌/◌, ◌%◌, ◌^◌, ◌≤◌, ◌<◌, ◌≡◌, refl, sym, ap, subst, ◌∙◌, true, false,
  ◌&&◌, [], ◌∷◌, ◌++◌, length, length-append, drop, leb, ltb, ◌==◌, arith, Bool-cases, inl, inr,
  ◌⊎◌, drop_all, append_assoc,
}
use afl.Base.Str.{Str}
use afl.Charset.Unicode.{
  Flags, unicode_max, is_high_surrogate, is_low_surrogate, is_error_character,
}
use afl.Charset.Utf8Reader.{Character, lead, extra_bytes, is_refused, parse, eat}
use afl.Charset.Utf8.{one, encoded}
use afl.Charset.Utf8.Bytes.{is_accepted, accepted, parse-one}

eat-plain :
    (f : Flags) (s : Str) (x : Character)
    → parse f s ≡ x
    → 0 < x.size
    → is_high_surrogate x.value ≡ false
    → is_low_surrogate x.value ≡ false
    → eat f s ≡ (x.value, drop x.size s)
unfolding eat
eat-plain f s x p z h l = let t : (x.size == 0) ≡ false = ground arith in rw (p, t, h, l) refl

eat-pair :
    (f : Flags) (s t : Str) (x y : Character)
    → parse f s ≡ x
    → 0 < x.size
    → is_high_surrogate x.value ≡ true
    → f.surrogates ≡ true
    → drop x.size s ≡ t
    → parse f t ≡ y
    → is_low_surrogate y.value ≡ true
    → eat f s ≡ (0x10000 + x.value % 0x400 * 0x400 + y.value % 0x400, drop (x.size + y.size) s)
unfolding eat
eat-pair f s t x y p z h a d q l =
    let e : (x.size == 0) ≡ false = ground arith in rw (p, e, h, d, q, l, a) refl

drop-drop : (n m : ℕ) (s : Str) → drop (n + m) s ≡ drop m (drop n s)
drop-drop zero m s = let e : 0 + m ≡ m = omega arith in rw e refl
drop-drop (suc n) m [] =
    let e : suc n + m ≡ suc (n + m) = omega arith in rw e (sym (drop_all m [] (omega arith)))
drop-drop (suc n) m (x ∷ s) =
    let e : suc n + m ≡ suc (n + m) = omega arith in rw e (drop-drop n m s)

-- The characters that survive: all 32-bit numbers but surrogates, error characters where these are escapes,
-- and non-characters where these are not allowed.
abbrev pub IsReadable : Flags → ℕ → Type 0
IsReadable f ch =
    (ch < 2 ^ 32)
    × (is_accepted f ch ≡ true)
    × (is_high_surrogate ch ≡ false)
    × (is_low_surrogate ch ≡ false)

eat-one :
    (f : Flags) (ch : ℕ) (rest : Str)
    → IsReadable f ch
    → (0x80 ≤ ch) ⊎ ((ch ≡ 0) × (f.encoded_zero ≡ true))
    → eat f (one ch ++ rest) ≡ (ch, rest)
eat-one f ch rest r z =
    let (x, p, v, d, n) = parse-one f ch rest r.0 r.1 z in
    eat-plain f (one ch ++ rest) x p n (rw v r.2) (rw v r.3) ∙ (λ i. (v i, d i))

eat-ascii : (f : Flags) (ch : ℕ) (rest : Str) → ch < 0x80 → eat f (ch ∷ rest) ≡ (ch, rest)
unfolding parse lead extra_bytes
eat-ascii f ch rest h =
    let l : ltb ch 0x80 ≡ true = ground arith in
    let r : is_refused f ch 0 0 ≡ false = accepted f ch 0 0 (ground arith) (inl (omega arith)) in
    eat-plain f (ch ∷ rest) (record { value = ch; first_char = ch; size = 1 + 0 }) (rw (l, r) refl)
      (omega arith) (ground arith) (ground arith)

eat-surrogates :
    (f : Flags) (ch : ℕ) (rest : Str)
    → f.surrogates ≡ true
    → 0x10000 ≤ ch
    → ch ≤ unicode_max
    → eat f (
        (one (0xd800 + (ch - 0x10000) / 2 ^ 10 % 0x400) ++ one (0xdc00 + (ch - 0x10000) % 0x400))
        ++ rest)
      ≡ (ch, rest)
eat-surrogates f ch rest a lo hi =
    let high = 0xd800 + (ch - 0x10000) / 2 ^ 10 % 0x400 in
    let low = 0xdc00 + (ch - 0x10000) % 0x400 in
    let (x, p, v, d, n) =
      parse-one f high (one low ++ rest) (omega arith) (ground arith) (inl (omega arith)) in
    let (y, q, w, c, m) = parse-one f low rest (omega arith) (ground arith) (inl (omega arith)) in
    rw (append_assoc (one high) (one low) rest) (
      eat-pair f (one high ++ (one low ++ rest)) (one low ++ rest) x y p n (rw v (ground arith)) a d
        q (rw w (ground arith))
      ∙ (λ i. (
        0x10000 + v i % 0x400 * 0x400 + w i % 0x400,
        (drop-drop x.size y.size (one high ++ (one low ++ rest)) ∙ ap (drop y.size) d ∙ c) i,
      ))
      ∙ ap (λ t. (t, rest)) (omega arith))

-- `eat` reads back every readable character that `append` wrote, with any options, and leaves what follows.
pub eat-encoded :
    (f : Flags) (ch : ℕ) (rest : Str) → IsReadable f ch → eat f (encoded f ch ++ rest) ≡ (ch, rest)
unfolding encoded
eat-encoded f ch rest r =
    let e : (f.error_escapes && is_error_character ch) ≡ false = ground (arith, r) in
    rw e (elim (Bool-cases (leb 0x10000 ch && leb ch unicode_max && f.surrogates)) [
      | inl s ↦
          rw s
            (eat-surrogates f ch rest (ground (arith, s)) (ground (arith, s)) (ground (arith, s)))
      | inr s ↦ rw s (elim (Bool-cases (ch == 0 && f.encoded_zero)) [
        | inl z ↦ rw z (
            let o : ch ≡ 0 = ground arith in
            subst (λ t. eat f (one t ++ rest) ≡ (ch, rest)) o
              (eat-one f ch rest r (inr (o, ground arith))))
        | inr z ↦ rw z (elim (Bool-cases (leb 0x80 ch)) [
          | inl g ↦ rw g (eat-one f ch rest r (inl (ground arith)))
          | inr g ↦ rw g (eat-ascii f ch rest (ground arith))
        ])
      ])
    ])

one-length : (ch : ℕ) → 1 ≤ length (one ch)
unfolding one
one-length ch = ground arith

encoded-length : (f : Flags) (ch : ℕ) → 1 ≤ length (encoded f ch)
unfolding encoded
encoded-length f ch =
    let high = 0xd800 + (ch - 0x10000) / 2 ^ 10 % 0x400 in
    let low = 0xdc00 + (ch - 0x10000) % 0x400 in
    ground (arith, one-length ch, one-length 0, one-length high, length-append (one high) (one low))

cons_of : (s : Str) → 1 ≤ length s → (c : ℕ) × (t : Str) × (s ≡ c ∷ t)
cons_of [] h = elim h [ ]
cons_of (c ∷ t) h = (c, t, refl)

pub encoded_cons : (f : Flags) (ch : ℕ) → (c : ℕ) × (s : Str) × (encoded f ch ≡ c ∷ s)
encoded_cons f ch = cons_of (encoded f ch) (encoded-length f ch)
