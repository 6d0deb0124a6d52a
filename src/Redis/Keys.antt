-- ===== src/Redis/Keys.antt =====
-- The commands on keys of any type.
use afl.Base.{ℕ, suc, ◌+◌, ◌-◌, Bool, ◌&&◌, Option, none, some}
use afl.Base.{List, [], ◌∷◌, length, map, take, drop, if◌then◌else◌, leb, ◌==◌}
use afl.Base.Int.{pos}
use afl.Base.Str.{Str, bytes, str_eq}
use afl.Container.Map
use afl.Data.Value.{Value, integer, string, vector, items}
use afl.Redis.Store.{
  Entry, Action, pure, fail, ◌>>=◌, ◌>>◌, when_found, eat_string, store, remove,
  invalid_parameter_count, key_not_found, gets,
}

-- `last` is what the variable of the loop held before.
unfoldable pub del_loop : Str → List Value → ℕ → Action ℕ
del_loop last [] n = pure n
del_loop last (v ∷ vs) n = do
  key ← eat_string last v
  present ← gets (Map.contains key)
  remove key
  del_loop key vs (if present then n + 1 else n)

unfoldable pub del : List Value → Action Value
unfolding del_loop
del vs = do n ← del_loop [] vs 0; pure (integer (pos n))

unfoldable pub exists_loop : Str → List Value → ℕ → Action ℕ
exists_loop last [] n = pure n
exists_loop last (v ∷ vs) n = do
  key ← eat_string last v
  present ← gets (Map.contains key)
  exists_loop key vs (if present then n + 1 else n)

unfoldable pub exists : List Value → Action Value
unfolding exists_loop
exists vs = do n ← exists_loop [] vs 0; pure (integer (pos n))

-- `pat.find('*')`
unfoldable pub find_star : Str → Option ℕ
find_star [] = none
find_star (c ∷ s) =
    if c == b'*' then some 0 else elim (find_star s) [ none ↦ none | some n ↦ some (suc n) ]

-- `matchKey`. The second `compare` takes the last `endLength` bytes of either text.
unfoldable pub match_key : Str → Str → Bool
unfolding find_star
match_key pat key = elim (find_star pat) [
  | none ↦ str_eq pat key
  | some n ↦
      let end_length = length pat - n - 1 in
      leb (length pat - 1) (length key)
      && (str_eq (take n pat) (take n key)
          && str_eq (drop (length pat - end_length) pat) (drop (length key - end_length) key))
]

unfoldable pub matching : Str → List Str → List Str
unfolding match_key
matching pat [] = []
matching pat (k ∷ ks) = if match_key pat k then k ∷ matching pat ks else matching pat ks

unfoldable pub keys : List Value → Action Value
unfolding matching
keys (p ∷ []) = do
  pat ← eat_string [] p
  names ← gets Map.keys
  pure (vector (items (map string (matching pat names))))
keys _ = fail invalid_parameter_count

-- `m_data.insertNew(to, m_data.extractElement(keyIt))`
abbrev pub move_to : Str → Str → Entry → Action (Unit {0})
move_to from to e = do remove from; store to e

unfoldable pub rename : List Value → Action Value
rename (k ∷ o ∷ []) = do
  key ← eat_string [] k
  to ← eat_string [] o
  found ← gets (Map.find key)
  when_found found (fail key_not_found) λ e. do move_to key to e; pure (string (bytes "OK"))
rename _ = fail invalid_parameter_count

unfoldable pub renamenx : List Value → Action Value
renamenx (k ∷ o ∷ []) = do
  key ← eat_string [] k
  to ← eat_string [] o
  found ← gets (Map.find key)
  taken ← gets (Map.contains to)
  when_found found (fail key_not_found)
      λ e. if taken then pure (integer (pos 0)) else (do move_to key to e; pure (integer (pos 1)))
renamenx _ = fail invalid_parameter_count

-- `getType`
abbrev pub type_name : Entry → Str
type_name (Entry.string s) = bytes "string"
type_name (Entry.hash h) = bytes "hash"
type_name (Entry.list l) = bytes "list"
type_name (Entry.set s) = bytes "set"

abbrev pub type_or_none : Option Entry → Str
type_or_none none = bytes "none"
type_or_none (some e) = type_name e

unfoldable pub type_of : List Value → Action Value
type_of (k ∷ []) = do
  key ← eat_string [] k
  found ← gets (Map.find key)
  pure (string (type_or_none found))
type_of _ = fail invalid_parameter_count

unfoldable pub ping : List Value → Action Value
ping vs = pure (string (bytes "PONG"))
