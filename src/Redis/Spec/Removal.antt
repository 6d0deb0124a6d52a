-- ===== src/Redis/Spec/Removal.antt =====
-- LREM: what is removed, and the empty list that it may leave.
use afl.Base.{ℕ, suc, ◌+◌, ◌-◌, ◌≡◌, refl, ◌∙◌, ap, some}
use afl.Base.{List, [], ◌∷◌, ◌++◌, append-nil, if◌then◌else◌, arith, ◌==◌}
use afl.Base.Int.{ℤ, pos, negsuc, neg_part, pos_part}
use afl.Base.Str.{Str, bytes, str_eq}
use afl.Except.{ok}
use afl.Container.Map
use afl.Data.Access.{to_string, to_integer}
use afl.Data.Value.{string, integer, null}
use afl.Redis.Store.{Entry, Db, as_list, ◌>>=◌, eat_string, eat_integer, pure, store, int32, gets}
use afl.Redis.Lists.{remove_front, remove_count, lrem, lpop}
use afl.Redis.Keys.{exists, exists_loop}
use afl.Redis.Database.{call, execute}
use afl.Redis.Laws.{get_found, find-insert_self}
use afl.Redis.Spec.{command}
use afl.Text.Char.{str_ucase}
use mathlib.Core.List.{reverse, reverse-cons, reverse-reverse}
use Prim.Native.Nat.{min}

-- How often `s` occurs.
abbrev pub occurrences : Str → List Str → ℕ
occurrences s [] = 0
occurrences s (x ∷ xs) = if str_eq x s then suc (occurrences s xs) else occurrences s xs

abbrev pub others : Str → List Str → List Str
others s [] = []
others s (x ∷ xs) = if str_eq x s then others s xs else x ∷ others s xs

remove_front-others :
    (n : ℕ) (s : Str) (l : List Str) → others s (remove_front n s l).0 ≡ others s l
unfolding remove_front
remove_front-others n s [] = refl
remove_front-others n s (x ∷ xs) =
    ground (arith, remove_front-others (n - 1) s xs, remove_front-others n s xs)

-- How many a count of `n` removes out of `m`.
abbrev pub removed : ℕ → ℕ → ℕ
removed n m = if n == 0 then m else min n m

remove_front-count :
    (n : ℕ) (s : Str) (l : List Str)
    → (occurrences s (remove_front n s l).0 + (remove_front n s l).1 ≡ occurrences s l)
      × ((remove_front n s l).1 ≡ removed n (occurrences s l))
unfolding remove_front
remove_front-count n s [] = ground arith
remove_front-count n s (x ∷ xs) =
    ground (arith, remove_front-count (n - 1) s xs, remove_front-count n s xs)

occurrences-append :
    (s : Str) (xs ys : List Str) → occurrences s (xs ++ ys) ≡ occurrences s xs + occurrences s ys
occurrences-append s [] ys = omega arith
occurrences-append s (x ∷ xs) ys = ground (arith, occurrences-append s xs ys)

occurrences-reverse : (s : Str) (l : List Str) → occurrences s (reverse l) ≡ occurrences s l
occurrences-reverse s [] = refl
occurrences-reverse s (x ∷ xs) =
    rw (reverse-cons x xs)
      (ground (arith, occurrences-append s (reverse xs) (x ∷ []), occurrences-reverse s xs))

others-append : (s : Str) (xs ys : List Str) → others s (xs ++ ys) ≡ others s xs ++ others s ys
others-append s [] ys = refl
others-append s (x ∷ xs) ys = ground (arith, others-append s xs ys)

others-reverse : (s : Str) (l : List Str) → others s (reverse l) ≡ reverse (others s l)
others-reverse s [] = refl
others-reverse s (x ∷ xs) =
    rw (reverse-cons x xs, others-append s (reverse xs) (x ∷ []), others-reverse s xs)
      (ground (arith, reverse-cons x (others s xs), append-nil (reverse (others s xs))))

abbrev pub magnitude : ℤ → ℕ
magnitude n = pos_part n + neg_part n

-- LREM with count `n` removes |n| occurrences of the value, or as many as there are, or all for a
-- count of 0; it returns how many it removed, and leaves the other elements in their order.
pub remove_count-eq :
    (n : ℤ) (s : Str) (l : List Str)
    → ((remove_count n s l).1 ≡ removed (magnitude n) (occurrences s l))
      × (occurrences s (remove_count n s l).0 + (remove_count n s l).1 ≡ occurrences s l)
      × (others s (remove_count n s l).0 ≡ others s l)
unfolding remove_count
remove_count-eq (pos n) s l =
    let (a, b) = remove_front-count n s l in
    let e : n + 0 ≡ n = omega arith in rw e (b, a, remove_front-others n s l)
remove_count-eq (negsuc n) s l =
    let back = remove_front (suc n) s (reverse l) in
    let (a, b) = remove_front-count (suc n) s (reverse l) in
    let c = occurrences-reverse s l in
    let e = occurrences-reverse s back.0 in
    (
      ground (arith, b, c),
      omega (arith, a, c, e),
      others-reverse s back.0
          ∙ ap reverse (remove_front-others (suc n) s (reverse l) ∙ others-reverse s l)
          ∙ reverse-reverse (others s l),
    )

removes_all : (s : Str) (l : List Str) → others s l ≡ [] → (remove_count (pos 0) s l).0 ≡ []
unfolding remove_count remove_front
removes_all s [] h = refl
removes_all s (x ∷ xs) h = ground (arith, removes_all s xs)

call-lrem :
    (roll : ℕ) (k s : Str) (n : ℤ) (l : List Str) (d : Db)
    → Map.find k d ≡ some (Entry.list l)
    → call roll (string (bytes "LREM") ∷ string k ∷ integer n ∷ string s ∷ []) d ≡ (
      ok (integer (int32 (remove_count n s l).1)),
      Map.insert k (Entry.list (remove_count n s l).0) d,
    )
unfolding call execute str_ucase str_eq lrem ◌>>=◌ eat_string eat_integer to_string to_integer store
    pure
call-lrem roll k s n l d h = rw (get_found as_list k d _ l h refl, ◌>>=◌) refl

call-exists :
    (roll : ℕ) (k : Str) (e : Entry) (d : Db)
    → Map.find k d ≡ some e
    → (call roll (command "EXISTS" (k ∷ [])) d).0 ≡ ok (integer (pos 1))
unfolding call execute str_ucase str_eq exists exists_loop ◌>>=◌ eat_string to_string gets pure
    Map.find
call-exists roll k e d h = rw h refl

call-lpop_empty :
    (roll : ℕ) (k : Str) (d : Db)
    → Map.find k d ≡ some (Entry.list [])
    → call roll (command "LPOP" (k ∷ [])) d ≡ (ok null, d)
unfolding call execute str_ucase str_eq lpop ◌>>=◌ eat_string to_string pure
call-lpop_empty roll k d h = rw (get_found as_list k d _ [] h refl, ◌>>=◌) refl

-- Where every element of a list equals the value, LREM with count 0 keeps the key, with an empty list:
-- EXISTS still counts the key, and LPOP meets the empty list.
pub lrem_leaves_empty :
    (r r' r'' : ℕ) (k s : Str) (l : List Str) (d : Db)
    → Map.find k d ≡ some (Entry.list l)
    → others s l ≡ []
    → let d' = (call r (string (bytes "LREM") ∷ string k ∷ integer (pos 0) ∷ string s ∷ []) d).1 in
      (Map.find k d' ≡ some (Entry.list []))
      × ((call r' (command "EXISTS" (k ∷ [])) d').0 ≡ ok (integer (pos 1)))
      × (call r'' (command "LPOP" (k ∷ [])) d' ≡ (ok null, d'))
lrem_leaves_empty r r' r'' k s l d h o =
    let e = removes_all s l o in
    let f = find-insert_self k (Entry.list []) d in
    rw (call-lrem r k s (pos 0) l d h, e) (f, call-exists r' k _ _ f, call-lpop_empty r'' k _ f)
