-- ===== src/Redis/Spec/Lists.antt =====
-- Lists: ranges and trimming.
use afl.Base.{ℕ, zero, suc, ◌+◌, ◌-◌, ◌%◌, ◌^◌, ◌≤◌, ◌<◌, ◌≡◌, refl, sym, ◌∙◌, ap, none, some}
use afl.Base.{List, [], ◌∷◌, length, take, drop, if◌then◌else◌, arith, leb, ltb}
use afl.Base.{take_all, take_nil, drop_all, Bool-cases, Option-cases, inl, inr}
use afl.Base.Str.{Str}
use afl.Redis.Lists.{get_by_index, range_loop, range, trim_front, trim_back, trim, pop_back}
use native.Mathlib.Numerals.{add-one}

get_by_index-drop : (l : List Str) (i : ℕ) → get_by_index l i ≡ none → drop i l ≡ []
unfolding get_by_index
get_by_index-drop [] zero h = refl
get_by_index-drop [] (suc i) h = refl
get_by_index-drop (x ∷ xs) zero h = cc
get_by_index-drop (x ∷ xs) (suc i) h = get_by_index-drop xs i h

get_by_index-cons :
    (l : List Str) (i : ℕ) (s : Str) → get_by_index l i ≡ some s → drop i l ≡ s ∷ drop (suc i) l
unfolding get_by_index
get_by_index-cons [] i s h = cc
get_by_index-cons (x ∷ xs) zero s h = ground (arith)
get_by_index-cons (x ∷ xs) (suc i) s h = get_by_index-cons xs i s h

take_step : (n m : ℕ) (x : Str) (xs : List Str) → n ≡ suc m → take n (x ∷ xs) ≡ x ∷ take m xs
take_step n m x xs e = rw e refl

-- What follows the element at `i`.
range_step :
    (l rest : List Str) (i j : ℕ) (s : Str)
    → get_by_index l i ≡ some s
    → rest ≡ take (suc j - (i + 1)) (drop (i + 1) l)
    → (if leb i j then s ∷ rest else []) ≡ take (suc j - i) (drop i l)
range_step l rest i j s e r = elim (Bool-cases (leb i j)) [
  | inl within ↦
      rw (within, get_by_index-cons l i s e)
        (sym (
          take_step (suc j - i) (suc j - suc i) s (drop (suc i) l) (ground arith)
          ∙ ap (◌∷◌ s) (sym (r ∙ rw (add-one i) refl))))
  | inr beyond ↦ rw beyond (let none_left : suc j - i ≡ 0 = ground arith in rw none_left refl)
]

range_loop-eq :
    (fuel : ℕ) (l : List Str) (i j : ℕ)
    → length l ≤ fuel + i
    → range_loop fuel l i j ≡ take (suc j - i) (drop i l)
unfolding range_loop
range_loop-eq zero l i j h = rw (drop_all i l (omega arith)) (sym (take_nil (suc j - i)))
range_loop-eq (suc fuel) l i j h = elim (Option-cases (get_by_index l i)) [
  | inl e ↦ rw (e, range_loop, get_by_index-drop l i e) (sym (take_nil (suc j - i)))
  | inr (s, e) ↦
      rw (e, range_loop) (range_step l _ i j s e (range_loop-eq fuel l (i + 1) j (omega arith)))
]

-- The elements that LRANGE collects from index `i` to index `j` are those at the positions from `i` to
-- `j`, both included, as far as the list goes; none where `j` lies before `i`.
pub range-eq : (l : List Str) (i j : ℕ) → range l i j ≡ take (suc j - i) (drop i l)
unfolding range
range-eq l i j = range_loop-eq (length l) l i j (omega arith)

trim_front-eq :
    (l : List Str) (i j : ℕ)
    → ((trim_front l i j).0 ≡ drop i l) × (i < length l → (trim_front l i j).1 ≡ j - i)
unfolding trim_front
trim_front-eq [] zero j = (refl, λ h. elim h [ ])
trim_front-eq [] (suc i) j = (refl, λ h. elim h [ ])
trim_front-eq (x ∷ xs) zero j = (refl, λ h. omega arith)
trim_front-eq (x ∷ xs) (suc i) j = (
  (trim_front-eq xs i (j - 1)).0,
  λ h. omega (arith, (trim_front-eq xs i (j - 1)).1 (omega arith)),
)

length-pop_back : (x : Str) (xs : List Str) → suc (length (pop_back (x ∷ xs))) ≡ length (x ∷ xs)
unfolding pop_back
length-pop_back x [] = refl
length-pop_back x (y ∷ ys) = ap suc (length-pop_back y ys)

take-pop_back :
    (n : ℕ) (x : Str) (xs : List Str) → n ≤ length xs → take n (pop_back (x ∷ xs)) ≡ take n (x ∷ xs)
unfolding pop_back
take-pop_back zero x xs h = refl
take-pop_back (suc n) x [] h = elim h [ ]
take-pop_back (suc n) x (y ∷ ys) h = ap (◌∷◌ x) (take-pop_back n y ys (omega arith))

trim_back-eq :
    (fuel : ℕ) (l : List Str) (limit : ℕ) → length l ≤ fuel → trim_back fuel l limit ≡ take limit l
unfolding trim_back
trim_back-eq zero [] limit h = sym (take_nil limit)
trim_back-eq zero (x ∷ xs) limit h = elim h [ ]
trim_back-eq (suc fuel) [] limit h = ground (arith, take_nil {A = Str} limit)
trim_back-eq (suc fuel) (x ∷ xs) limit h = elim (Bool-cases (ltb limit (length (x ∷ xs)))) [
  | inl more ↦ rw more (
      trim_back-eq fuel (pop_back (x ∷ xs)) limit (omega (arith, length-pop_back x xs))
      ∙ take-pop_back limit x xs (ground arith))
  | inr done ↦ rw done (sym (take_all limit (x ∷ xs) (ground arith)))
]

-- LTRIM from an index `i` inside the list to an index `j` below 2^64 - 1 keeps the elements from `i`
-- to `j`, both included; where `j` lies before `i` it keeps the one element at `i`.
pub trim-eq :
    (l : List Str) (i j : ℕ)
    → i < length l
    → j < 2 ^ 64 - 1
    → trim l i j ≡ take (suc (j - i)) (drop i l)
unfolding trim
trim-eq l i j h b =
    rw ((trim_front-eq l i j).0, (trim_front-eq l i j).1 h)
      (trim_back-eq (length (drop i l)) (drop i l) _ (omega arith)
        ∙ let e : (j - i + 1) % 2 ^ 64 ≡ suc (j - i) = omega arith in rw e refl)
