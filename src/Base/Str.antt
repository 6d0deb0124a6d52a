-- ===== src/Base/Str.antt =====
-- Byte strings: a `String_t` is the list of its bytes. Equality and the order are those of
-- `std::string`, byte by byte as unsigned numbers.
use Prim.Native.Char.{code}
use Prim.Native.String.{String}
use Prim.Native.Nat.{ℕ}
use mathlib.Core.Path.{◌≡◌, refl, subst}
use mathlib.Core.Logic.{◌↔◌}
use mathlib.Core.Bool.{Bool, true, false, ◌&&◌, ◌||◌}
use mathlib.Core.List.{List, [], ◌∷◌}
use native.Mathlib.Omega.{arith}
use afl.Base.Tests.{ltb, ◌==◌}

abbrev pub Str : Type 0
Str = List ℕ

-- The bytes of an ASCII text.
abbrev pub bytes : String → Str
bytes String.[] = []
bytes (String.◌∷◌ c s) = code c ∷ bytes s

unfoldable pub str_eq : Str → Str → Bool
str_eq [] [] = true
str_eq [] (y ∷ ys) = false
str_eq (x ∷ xs) [] = false
str_eq (x ∷ xs) (y ∷ ys) = x == y && str_eq xs ys

unfoldable pub str_lt : Str → Str → Bool
str_lt [] [] = false
str_lt [] (y ∷ ys) = true
str_lt (x ∷ xs) [] = false
str_lt (x ∷ xs) (y ∷ ys) = ltb x y || (x == y && str_lt xs ys)

pub str_eq_refl : (s : Str) → str_eq s s ≡ true
unfolding str_eq
str_eq_refl [] = refl
str_eq_refl (x ∷ xs) = ground (arith, str_eq_refl xs)

pub eq_of_str_eq : (s t : Str) → str_eq s t ≡ true → s ≡ t
unfolding str_eq
eq_of_str_eq [] [] h = refl
eq_of_str_eq [] (y ∷ ys) h = cc
eq_of_str_eq (x ∷ xs) [] h = cc
eq_of_str_eq (x ∷ xs) (y ∷ ys) h = ground (arith, eq_of_str_eq xs ys)

pub str_eq_iff : (s t : Str) → (str_eq s t ≡ true) ↔ (s ≡ t)
str_eq_iff s t = (eq_of_str_eq s t, λ e. subst (λ u. str_eq s u ≡ true) e (str_eq_refl s))

pub str_lt_irrefl : (s : Str) → str_lt s s ≡ false
unfolding str_lt
str_lt_irrefl [] = refl
str_lt_irrefl (x ∷ xs) = ground (arith, str_lt_irrefl xs)

pub str_lt_trans : (s t u : Str) → str_lt s t ≡ true → str_lt t u ≡ true → str_lt s u ≡ true
unfolding str_lt
str_lt_trans [] [] u h k = cc
str_lt_trans [] (y ∷ ys) [] h k = cc
str_lt_trans [] (y ∷ ys) (z ∷ zs) h k = refl
str_lt_trans (x ∷ xs) [] u h k = cc
str_lt_trans (x ∷ xs) (y ∷ ys) [] h k = cc
str_lt_trans (x ∷ xs) (y ∷ ys) (z ∷ zs) h k = ground (arith, str_lt_trans xs ys zs)

-- Of two strings that neither is the same nor comes first, the second comes first.
pub str_lt_total : (s t : Str) → str_eq s t ≡ false → str_lt s t ≡ false → str_lt t s ≡ true
unfolding str_lt str_eq
str_lt_total [] [] h k = cc
str_lt_total [] (y ∷ ys) h k = cc
str_lt_total (x ∷ xs) [] h k = refl
str_lt_total (x ∷ xs) (y ∷ ys) h k = ground (arith, str_lt_total xs ys)

abbrev pub str_mem : Str → List Str → Bool
str_mem s [] = false
str_mem s (t ∷ ts) = str_eq s t || str_mem s ts
