-- ===== src/Checksums/Adler32/Exact.antt =====
-- The sums never leave 32 bits, so that the checksum is the one that divides after every byte.
use afl.Base.{
  ℕ, zero, suc, ◌+◌, ◌*◌, ◌/◌, ◌%◌, ◌^◌, ◌≤◌, ◌<◌, ◌≡◌, refl, sym, ap, ◌∙◌, [], ◌∷◌, ◌++◌, All, ltb,
  arith, Bool-cases, inl, inr,
}
use afl.Base.Str.{Str}
use afl.Checksums.Adler32.{base, combined, add_loop, add}

-- 1 + 2 + ... + n
triangle : ℕ → ℕ
triangle zero = 0
triangle (suc n) = triangle n + suc n

triangle_lem : (n : ℕ) → 2 * triangle n ≡ n * (n + 1)
unfolding triangle
triangle_lem zero = refl
triangle_lem (suc n) = grind (arith, triangle_lem n)

triangle-le : (n : ℕ) → n ≤ 5501 → triangle n ≤ 15133251
triangle-le n h = grind (arith, triangle_lem n)

-- The checksum as its definition has it: a division after every byte.
pub exact : ℕ → ℕ → Str → ℕ
exact s1 s2 [] = combined s1 s2
exact s1 s2 (b ∷ s) = exact ((s1 + b) % base) ((s2 + s1 + b) % base) s

-- `m` bytes after the last division, the sums are so large at most.
abbrev Bounded : ℕ → ℕ → ℕ → Type 0
Bounded m s1 s2 = (s1 ≤ 65535 + 255 * m) × (s2 ≤ 65535 + 65535 * m + 255 * triangle m)

step-Bounded :
    (m s1 s2 b : ℕ)
    → m ≤ 5500
    → b < 256
    → Bounded m s1 s2
    → ((s1 + b) % 2 ^ 32 ≡ s1 + b)
      × ((s2 + (s1 + b)) % 2 ^ 32 ≡ s2 + (s1 + b))
      × Bounded (suc m) (s1 + b) (s2 + (s1 + b))
unfolding triangle
step-Bounded m s1 s2 b h k w =
    let t = triangle-le (suc m) (omega arith) in
    (omega (arith, t), omega (arith, t), (omega arith, omega arith))

loop-exact :
    (s : Str) (counter m s1 s2 r1 r2 : ℕ)
    → m ≤ counter + 1
    → Bounded m s1 s2
    → s1 % base ≡ r1
    → s2 % base ≡ r2
    → All (λ b. b < 256) s
    → add_loop counter s1 s2 s ≡ exact r1 r2 s
unfolding add_loop exact triangle
loop-exact [] counter m s1 s2 r1 r2 h w e1 e2 a = rw (e1, e2) refl
loop-exact (b ∷ s) counter m s1 s2 r1 r2 h w e1 e2 a = elim (Bool-cases (ltb 5500 (counter + 1))) [
  | inl o ↦
      let (f1, f2, v) =
        step-Bounded 0 (s1 % base) (s2 % base) b (omega arith) a.0 (omega arith, omega arith) in
      rw (o, f1, f2)
        (loop-exact s 0 1 (s1 % base + b) (s2 % base + (s1 % base + b)) ((r1 + b) % base)
          ((r2 + r1 + b) % base) (omega arith) v (omega arith) (omega arith) a.1)
  | inr o ↦
      let (f1, f2, v) = step-Bounded m s1 s2 b (ground arith) a.0 w in
      rw (o, f1, f2)
        (loop-exact s (counter + 1) (suc m) (s1 + b) (s2 + (s1 + b)) ((r1 + b) % base)
          ((r2 + r1 + b) % base) (omega arith) v (omega arith) (omega arith) a.1)
]

-- Where a checksum goes on.
resumed : ℕ → Str → ℕ
resumed prev s = exact (prev % 2 ^ 16 % base) (prev / 2 ^ 16 % base) s

exact-append :
    (s t : Str) (r1 r2 : ℕ)
    → r1 < base
    → r2 < base
    → exact r1 r2 (s ++ t) ≡ resumed (exact r1 r2 s) t
unfolding exact resumed
exact-append [] t r1 r2 h k =
    let e1 : combined r1 r2 % 2 ^ 16 % base ≡ r1 = omega arith in
    let e2 : combined r1 r2 / 2 ^ 16 % base ≡ r2 = omega arith in rw (e1, e2) refl
exact-append (b ∷ s) t r1 r2 h k =
    exact-append s t ((r1 + b) % base) ((r2 + r1 + b) % base) (omega arith) (omega arith)

-- For every byte string, of any length, and every 32-bit number to begin with, the checksum is the one that
-- divides after every byte: putting the division off for 5500 bytes lets neither sum overflow.
pub add-exact :
    (s : Str) (prev : ℕ)
    → prev < 2 ^ 32
    → All (λ b. b < 256) s
    → add s prev ≡ exact (prev % 2 ^ 16 % base) (prev / 2 ^ 16 % base) s
unfolding add triangle
add-exact s prev h a =
    loop-exact s 0 0 (prev % 2 ^ 16) (prev / 2 ^ 16) _ _ (omega arith) (omega arith, omega arith)
      refl refl a

exact-bound : (s : Str) (r1 r2 : ℕ) → r1 < base → r2 < base → exact r1 r2 s < 2 ^ 32
unfolding exact
exact-bound [] r1 r2 h k = omega arith
exact-bound (b ∷ s) r1 r2 h k =
    exact-bound s ((r1 + b) % base) ((r2 + r1 + b) % base) (omega arith) (omega arith)

-- The checksum of two pieces, the second on top of the first, is that of both in one.
pub add-append :
    (s t : Str) (prev : ℕ)
    → prev < 2 ^ 32
    → All (λ b. b < 256) s
    → All (λ b. b < 256) t
    → add (s ++ t) prev ≡ add t (add s prev)
unfolding resumed
add-append s t prev h a b =
    let r1 = prev % 2 ^ 16 % base in
    let r2 = prev / 2 ^ 16 % base in
    let e = add-exact s prev h a in
    add-exact (s ++ t) prev h (All-append s t a b)
    ∙ exact-append s t r1 r2 (omega arith) (omega arith)
    ∙ ap (λ x. exact (x % 2 ^ 16 % base) (x / 2 ^ 16 % base) t) (sym e)
    ∙ sym (add-exact t (add s prev) (rw e (exact-bound s r1 r2 (omega arith) (omega arith))) b)
  where
    All-append :
        (s t : Str) → All (λ b. b < 256) s → All (λ b. b < 256) t → All (λ b. b < 256) (s ++ t)
    All-append [] t a b = b
    All-append (c ∷ s) t a b = (a.0, All-append s t a.1 b)
