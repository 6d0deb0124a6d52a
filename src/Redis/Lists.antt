-- ===== src/Redis/Lists.antt =====
-- The commands on lists.
use afl.Base.{ℕ, zero, suc, ◌+◌, ◌-◌, ◌%◌, ◌^◌, Option, none, some}
use afl.Base.{List, [], ◌∷◌, ◌++◌, length, map, if◌then◌else◌, ltb, leb, ◌==◌}
use afl.Base.Int.{ℤ, pos, negsuc}
use afl.Base.Str.{Str, bytes, str_eq}
use afl.Data.Value.{Value, null, integer, string, vector, items}
use afl.Redis.Store.{
  Entry, Action, pure, fail, ◌>>=◌, ◌>>◌, when_found, eat_string, eat_integer, get, as_list,
  get_create_list, store, remove, when, invalid_parameter_count, invalid_index, int32,
}
use afl.Redis.Strings.{string_or_null}
use afl.Redis.Hashes.{is_empty}
use mathlib.Core.List.{reverse}

-- `convertIndex`, with the wrap-around of the 64-bit `size_t`.
unfoldable pub convert_index : ℕ → ℤ → ℕ
convert_index size (pos n) = n
convert_index size (negsuc n) = (size + 2 ^ 64 - suc n) % 2 ^ 64

-- `getByIndex` walks the list.
unfoldable pub get_by_index : List Str → ℕ → Option Str
get_by_index [] index = none
get_by_index (x ∷ xs) zero = some x
get_by_index (x ∷ xs) (suc index) = get_by_index xs index

-- `setByIndex`; none for false.
unfoldable pub set_by_index : List Str → ℕ → Str → Option (List Str)
set_by_index [] index val = none
set_by_index (x ∷ xs) zero val = some (val ∷ xs)
set_by_index (x ∷ xs) (suc index) val = elim (set_by_index xs index val) [
  | none ↦ none
  | some ys ↦ some (x ∷ ys)
]

unfoldable pub lindex : List Value → Action Value
lindex (k ∷ i ∷ []) = do
  key ← eat_string [] k
  n ← eat_integer (pos 0) i
  found ← get as_list key
  when_found found (pure null)
      λ l. pure (string_or_null (get_by_index l (convert_index (length l) n)))
lindex _ = fail invalid_parameter_count

unfoldable pub llen : List Value → Action Value
llen (k ∷ []) = do
  key ← eat_string [] k
  found ← get as_list key
  when_found found (pure (integer (pos 0))) λ l. pure (integer (int32 (length l)))
llen _ = fail invalid_parameter_count

-- What a pop leaves in the list; an empty list is not kept.
abbrev pub put_back : Str → List Str → Action (Unit {0})
put_back key l = do store key (Entry.list l); when (is_empty l) (remove key)

abbrev pub pop_front_of : Str → List Str → Action Value
pop_front_of key [] = pure null
pop_front_of key (x ∷ xs) = do put_back key xs; pure (string x)

unfoldable pub lpop : List Value → Action Value
lpop (k ∷ []) = do
  key ← eat_string [] k
  found ← get as_list key
  when_found found (pure null) λ l. pop_front_of key l
lpop _ = fail invalid_parameter_count

unfoldable pub lpush_loop : Str → Str → List Value → List Str → Action (List Str)
lpush_loop key last [] l = pure l
lpush_loop key last (v ∷ vs) l = do
  s ← eat_string last v
  store key (Entry.list (s ∷ l))
  lpush_loop key s vs (s ∷ l)

unfoldable pub lpush : List Value → Action Value
unfolding lpush_loop
lpush (k ∷ v ∷ vs) = do
  key ← eat_string [] k
  l ← get_create_list key
  l' ← lpush_loop key [] (v ∷ vs) l
  pure (integer (int32 (length l')))
lpush _ = fail invalid_parameter_count

-- `while (i <= j && getByIndex(i, stringArg))`. The index passes the end after `length l` rounds.
unfoldable pub range_loop : ℕ → List Str → ℕ → ℕ → List Str
range_loop zero l i j = []
range_loop (suc fuel) l i j =
    let rest = range_loop fuel l (i + 1) j in
    elim (get_by_index l i) [ none ↦ [] | some s ↦ if leb i j then s ∷ rest else [] ]

unfoldable pub range : List Str → ℕ → ℕ → List Str
unfolding range_loop
range l i j = range_loop (length l) l i j

unfoldable pub lrange : List Value → Action Value
unfolding range
lrange (k ∷ b ∷ e ∷ []) = do
  key ← eat_string [] k
  beg ← eat_integer (pos 0) b
  end ← eat_integer (pos 0) e
  found ← get as_list key
  when_found found (pure (vector (items []))) λ l. pure (
      vector (
        items (map string (range l (convert_index (length l) beg) (convert_index (length l) end)))))
lrange _ = fail invalid_parameter_count

-- The loop of LREM from the front, for a count of `n`: no limit for 0, where `--intArg == 0` never
-- holds. The list that is left, and the number of elements erased.
unfoldable pub remove_front : ℕ → Str → List Str → List Str × ℕ
remove_front n s [] = ([], 0)
remove_front n s (x ∷ xs) =
    let rest = remove_front (if str_eq x s then n - 1 else n) s xs in
    if str_eq x s then (if n == 1 then (xs, 1) else (rest.0, rest.1 + 1)) else (x ∷ rest.0, rest.1)

-- The loop from the back, which a negative count selects.
unfoldable pub remove_back : ℕ → Str → List Str → List Str × ℕ
unfolding remove_front
remove_back n s l = let (l', k) = remove_front n s (reverse l) in (reverse l', k)

unfoldable pub remove_count : ℤ → Str → List Str → List Str × ℕ
unfolding remove_back
remove_count (pos n) s l = remove_front n s l
remove_count (negsuc n) s l = remove_back (suc n) s l

unfoldable pub lrem : List Value → Action Value
lrem (k ∷ n ∷ v ∷ []) = do
  key ← eat_string [] k
  count ← eat_integer (pos 0) n
  s ← eat_string [] v
  found ← get as_list key
  when_found found (pure (integer (pos 0))) λ l. do
    store key (Entry.list (remove_count count s l).0)
    pure (integer (int32 (remove_count count s l).1))
lrem _ = fail invalid_parameter_count

abbrev pub or_invalid_index : Str → Option (List Str) → Action Value
or_invalid_index key none = fail invalid_index
or_invalid_index key (some l) = do store key (Entry.list l); pure (string (bytes "OK"))

unfoldable pub lset : List Value → Action Value
lset (k ∷ i ∷ v ∷ []) = do
  key ← eat_string [] k
  n ← eat_integer (pos 0) i
  s ← eat_string [] v
  found ← get as_list key
  when_found found (fail invalid_index)
      λ l. or_invalid_index key (set_by_index l (convert_index (length l) n) s)
lset _ = fail invalid_parameter_count

-- The first loop of LTRIM: the list and `j` after `i` elements went, or all.
unfoldable pub trim_front : List Str → ℕ → ℕ → List Str × ℕ
trim_front [] i j = ([], j)
trim_front (x ∷ xs) zero j = (x ∷ xs, j)
trim_front (x ∷ xs) (suc i) j = trim_front xs i (j - 1)

unfoldable pub pop_back : List Str → List Str
pop_back [] = []
pop_back (x ∷ []) = []
pop_back (x ∷ y ∷ ys) = x ∷ pop_back (y ∷ ys)

-- The second loop, `while (size > limit) pop_back()`. It runs as often as there are elements at most.
unfoldable pub trim_back : ℕ → List Str → ℕ → List Str
unfolding pop_back
trim_back zero l limit = l
trim_back (suc fuel) l limit =
    let rest = trim_back fuel (pop_back l) limit in if ltb limit (length l) then rest else l

unfoldable pub trim : List Str → ℕ → ℕ → List Str
unfolding trim_front trim_back
trim l i j = let (l', j') = trim_front l i j in trim_back (length l') l' ((j' + 1) % 2 ^ 64)

unfoldable pub ltrim : List Value → Action Value
ltrim (k ∷ b ∷ e ∷ []) = do
  key ← eat_string [] k
  beg ← eat_integer (pos 0) b
  end ← eat_integer (pos 0) e
  found ← get as_list key
  when_found found (pure (string (bytes "OK"))) λ l. do
    put_back key (trim l (convert_index (length l) beg) (convert_index (length l) end))
    pure (string (bytes "OK"))
ltrim _ = fail invalid_parameter_count

-- `m_list.back()` of a list with a first element.
unfoldable pub back : Str → List Str → Str
back x [] = x
back x (y ∷ ys) = back y ys

abbrev pub pop_back_of : Str → List Str → Action Value
pop_back_of key [] = pure null
pop_back_of key (x ∷ xs) = do put_back key (pop_back (x ∷ xs)); pure (string (back x xs))

unfoldable pub rpop : List Value → Action Value
unfolding back pop_back
rpop (k ∷ []) = do
  key ← eat_string [] k
  found ← get as_list key
  when_found found (pure null) λ l. pop_back_of key l
rpop _ = fail invalid_parameter_count

-- What the pointer `lk` shows after a change through another one, to the same list perhaps.
abbrev pub reread : Str → Action (List Str)
reread key = do found ← get as_list key; when_found found (pure []) λ l. pure l

abbrev pub rotate_into : Str → Str → List Str → Action Value
rotate_into key other [] = pure null
rotate_into key other (x ∷ xs) = do
  l ← get_create_list other
  store other (Entry.list (back x xs ∷ l))
  now ← reread key
  put_back key (pop_back now)
  pure (string (back x xs))

unfoldable pub rpoplpush : List Value → Action Value
unfolding back pop_back
rpoplpush (k ∷ o ∷ []) = do
  key ← eat_string [] k
  other ← eat_string [] o
  found ← get as_list key
  when_found found (pure null) λ l. rotate_into key other l
rpoplpush _ = fail invalid_parameter_count

unfoldable pub rpush_loop : Str → Str → List Value → List Str → Action (List Str)
rpush_loop key last [] l = pure l
rpush_loop key last (v ∷ vs) l = do
  s ← eat_string last v
  store key (Entry.list (l ++ (s ∷ [])))
  rpush_loop key s vs (l ++ (s ∷ []))

unfoldable pub rpush : List Value → Action Value
unfolding rpush_loop
rpush (k ∷ v ∷ vs) = do
  key ← eat_string [] k
  l ← get_create_list key
  l' ← rpush_loop key [] (v ∷ vs) l
  pure (integer (int32 (length l')))
rpush _ = fail invalid_parameter_count
