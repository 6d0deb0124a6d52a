-- ===== src/Text/String/Split.antt =====
-- Splitting a string and putting it together again.
use afl.Base.{
  ℕ, suc, ◌+◌, ◌≡◌, refl, ap, sym, true, false, some, [], ◌∷◌, ◌++◌, ◌==◌, All, arith, Bool-cases,
  Option-cases, inl, inr, length, take, drop,
}
use afl.Base.Str.{Str}
use afl.Text.String.{starts_with, find, one_later, str_split}

starts_with-drop : (sep s : Str) → starts_with sep s ≡ true → sep ++ drop (length sep) s ≡ s
unfolding starts_with
starts_with-drop [] s h = refl
starts_with-drop (c ∷ sep) [] h = cc
starts_with-drop (c ∷ sep) (d ∷ s) h =
    let (e, k) = both in rw e (ap (λ x. d ∷ x) (starts_with-drop sep s k))
  where
    both : (c ≡ d) × (starts_with sep s ≡ true)
    both = ground arith

at_front :
    (sep s : Str) → starts_with sep s ≡ true → take 0 s ++ (sep ++ drop (0 + length sep) s) ≡ s
at_front sep s h =
    let e : 0 + length sep ≡ length sep = omega arith in rw e (starts_with-drop sep s h)

further :
    (sep s : Str) (c m : ℕ)
    → take m s ++ (sep ++ drop (m + length sep) s) ≡ s
    → take (suc m) (c ∷ s) ++ (sep ++ drop (suc m + length sep) (c ∷ s)) ≡ c ∷ s
further sep s c m h =
    let e : suc m + length sep ≡ suc (m + length sep) = omega arith in rw e (ap (λ x. c ∷ x) h)

found :
    (sep s : Str) (n : ℕ) → find sep s ≡ some n → take n s ++ (sep ++ drop (n + length sep) s) ≡ s
unfolding find
found sep [] n h = elim (Bool-cases (starts_with sep [])) [
  | inl e ↦ let k : 0 ≡ n = cc in rw (sym k) (at_front sep [] e)
  | inr e ↦ cc
]
found sep (c ∷ s) n h = elim (Bool-cases (starts_with sep (c ∷ s))) [
  | inl e ↦ let k : 0 ≡ n = cc in rw (sym k) (at_front sep (c ∷ s) e)
  | inr e ↦ elim (Option-cases (find sep s)) [
    | inl k ↦ cc
    | inr (m, k) ↦ let j : suc m ≡ n = cc in rw (sym j) (further sep s c m (found sep s m k))
  ]
]

-- What a string was split into is, with the separator between, the string.
pub str_split_lem : (s sep l r : Str) → str_split s sep ≡ some (l, r) → l ++ (sep ++ r) ≡ s
unfolding str_split
str_split_lem s sep l r h = elim (Option-cases (find sep s)) [
  | inl e ↦ cc
  | inr (n, e) ↦
      let a : take n s ≡ l = cc in
      let b : drop (n + length sep) s ≡ r = cc in rw (sym a, sym b) (found sep s n e)
]

-- A byte is found behind a text without it.
pub find-byte :
    (c : ℕ) (l r : Str)
    → All (λ b. (c == b) ≡ false) l
    → find (c ∷ []) (l ++ (c ∷ r)) ≡ some (length l)
unfolding find starts_with
find-byte c [] r h = ground arith
find-byte c (b ∷ l) r h = rw h.0 (ap one_later (find-byte c l r h.1))
