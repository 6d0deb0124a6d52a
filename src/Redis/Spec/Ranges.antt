-- ===== src/Redis/Spec/Ranges.antt =====
-- The elements that LRANGE gives for its two indices.
use afl.Base.{
  ℕ, suc, ◌-◌, ◌^◌, ◌≤◌, ◌<◌, ◌≡◌, refl, ◌∙◌, ap, Option, none, some, List, [], ◌∷◌, length, map,
  take, drop, if◌then◌else◌, arith, ltb, take_all, take_nil, drop_all, length-drop, Bool-cases, inl,
  inr,
}
use afl.Base.Int.{ℤ, pos, negsuc}
use afl.Base.Str.{Str, bytes, str_eq}
use afl.Except.{ok}
use afl.Container.Map
use afl.Text.Char.{str_ucase}
use afl.Data.Value.{string, integer, vector, items}
use afl.Data.Access.{to_string, to_integer}
use afl.Redis.Store.{Entry, Db, as_list, ◌>>=◌, eat_string, eat_integer, pure}
use afl.Redis.Lists.{lrange, range, convert_index}
use afl.Redis.Database.{call, execute}
use afl.Redis.Laws.{get_found}
use afl.Redis.Spec.Lists.{range-eq}

-- The position that an index means: a negative one counts from the end, and none is before the front.
abbrev pub position_of : ℕ → ℤ → Option ℕ
position_of size (pos n) = some n
position_of size (negsuc n) = if ltb n size then some (size - suc n) else none

-- What an index from before the front gives: nothing as a start, and all the rest as an end.
abbrev pub selected : List Str → Option ℕ → Option ℕ → List Str
selected l none end = []
selected l (some i) none = drop i l
selected l (some i) (some j) = take (suc j - i) (drop i l)

-- Negative numbers have the range of an int32_t.
abbrev pub IsIndex : ℤ → Type 0
IsIndex (pos n) = Unit {0}
IsIndex (negsuc n) = n < 2 ^ 31

from_front : (size n : ℕ) → convert_index size (pos n) ≡ n
unfolding convert_index
from_front size n = refl

inside : (size n : ℕ) → size < 2 ^ 32 → n < size → convert_index size (negsuc n) ≡ size - suc n
unfolding convert_index
inside size n h k = omega arith

before :
    (size n : ℕ) → size < 2 ^ 32 → n < 2 ^ 31 → size ≤ n → 2 ^ 63 ≤ convert_index size (negsuc n)
unfolding convert_index
before size n h b k = omega arith

-- A start from which nothing is left.
beyond : (l : List Str) (i j : ℕ) → length l ≤ i → take (suc j - i) (drop i l) ≡ []
beyond l i j h = rw (drop_all i l h) (take_nil (suc j - i))

-- An end behind the list.
to_end : (l : List Str) (i j : ℕ) → length l ≤ j → take (suc j - i) (drop i l) ≡ drop i l
to_end l i j h = let e = length-drop i l in take_all (suc j - i) (drop i l) (omega (arith, e, h))

range-from :
    (l : List Str) (i : ℕ) (e : ℤ)
    → length l < 2 ^ 32
    → IsIndex e
    → range l i (convert_index (length l) e) ≡ selected l (some i) (position_of (length l) e)
range-from l i (pos n) h k = ap (range l i) (from_front (length l) n) ∙ range-eq l i n
range-from l i (negsuc n) h k = elim (Bool-cases (ltb n (length l))) [
  | inl b ↦ rw (b, inside (length l) n h (ground arith)) (range-eq l i (length l - suc n))
  | inr b ↦
      let far = before (length l) n h k (ground arith) in
      rw b
        (range-eq l i (convert_index (length l) (negsuc n)) ∙ to_end l i _ (omega (arith, far, h)))
]

range-selected :
    (l : List Str) (b e : ℤ)
    → length l < 2 ^ 32
    → IsIndex b
    → IsIndex e
    → range l (convert_index (length l) b) (convert_index (length l) e)
      ≡ selected l (position_of (length l) b) (position_of (length l) e)
range-selected l (pos n) e h k m =
    ap (λ i. range l i (convert_index (length l) e)) (from_front (length l) n)
    ∙ range-from l n e h m
range-selected l (negsuc n) e h k m = elim (Bool-cases (ltb n (length l))) [
  | inl b ↦ rw (b, inside (length l) n h (ground arith)) (range-from l (length l - suc n) e h m)
  | inr b ↦
      let far = before (length l) n h k (ground arith) in
      let i = convert_index (length l) (negsuc n) in
      rw b (range-eq l i (convert_index (length l) e) ∙ beyond l i _ (omega (arith, far, h)))
]

-- LRANGE on a key that holds a list of less than 2^32 elements, for any two int32_t indices: it gives the
-- elements from the position that the first index means to the one that the second means, both included, as far
-- as the list goes, and changes nothing. A negative index counts from the end; one from before the front gives
-- nothing as the first index and everything up to the end as the second.
pub lrange-selected :
    (roll : ℕ) (key : Str) (b e : ℤ) (l : List Str) (d : Db)
    → Map.find key d ≡ some (Entry.list l)
    → length l < 2 ^ 32
    → IsIndex b
    → IsIndex e
    → call roll (string (bytes "LRANGE") ∷ string key ∷ integer b ∷ integer e ∷ []) d ≡ (
      ok (
          vector (
            items (map string (selected l (position_of (length l) b) (position_of (length l) e))))),
      d,
    )
unfolding call execute str_ucase str_eq lrange ◌>>=◌ eat_string eat_integer pure to_string
    to_integer
lrange-selected roll key b e l d f h k m =
    rw (get_found as_list key d _ l f refl, ◌>>=◌, range-selected l b e h k m) refl
