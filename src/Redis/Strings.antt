-- ===== src/Redis/Strings.antt =====
-- The commands on strings.
use afl.Base.{ℕ, zero, suc, ◌-◌, Bool, true, false, Option, none, some}
use afl.Base.{List, [], ◌∷◌, ◌++◌, length, take, drop, if◌then◌else◌, ◌||◌}
use afl.Base.Int.{ℤ, pos, negsuc, neg, wrap32, ltb_ℤ, leb_ℤ, pos_part}
use afl.Base.Str.{Str, bytes}
use afl.Text.Number.{format_signed, str_to_integer}
use afl.Data.Value.{Value, null, integer, string}
use afl.Redis.Store.{
  Entry, Action, pure, fail, ◌>>=◌, ◌>>◌, when_found, eat_string, eat_integer, get, as_string,
  get_create_string, store, remove, invalid_parameter_count, invalid_type_int, add32, int32,
}

unfoldable pub append : List Value → Action Value
append (k ∷ s ∷ []) = do
  key ← eat_string [] k
  value ← eat_string [] s
  old ← get_create_string key
  store key (Entry.string (old ++ value))
  pure (integer (int32 (length (old ++ value))))
append _ = fail invalid_parameter_count

-- The number that `String::modify` starts from.
abbrev pub number_of : Str → Option ℤ
number_of [] = some (pos 0)
number_of (c ∷ s) = str_to_integer (c ∷ s)

-- `getCreate<String>(key).modify(delta)`
unfoldable pub modify : Str → ℤ → Action Value
modify key delta = do
  old ← get_create_string key
  when_found (number_of old) (fail invalid_type_int) λ n. do
    store key (Entry.string (format_signed (add32 n delta)))
    pure (integer (add32 n delta))

unfoldable pub incr : List Value → Action Value
unfolding modify
incr (k ∷ []) = do key ← eat_string [] k; modify key (pos 1)
incr _ = fail invalid_parameter_count

unfoldable pub decr : List Value → Action Value
unfolding modify
decr (k ∷ []) = do key ← eat_string [] k; modify key (negsuc 0)
decr _ = fail invalid_parameter_count

unfoldable pub incrby : List Value → Action Value
unfolding modify
incrby (k ∷ n ∷ []) = do key ← eat_string [] k; delta ← eat_integer (pos 0) n; modify key delta
incrby _ = fail invalid_parameter_count

unfoldable pub decrby : List Value → Action Value
unfolding modify
decrby (k ∷ n ∷ []) = do
  key ← eat_string [] k
  delta ← eat_integer (pos 0) n
  modify key (wrap32 (neg delta))
decrby _ = fail invalid_parameter_count

abbrev pub string_or_null : Option Str → Value
string_or_null none = null
string_or_null (some s) = string s

unfoldable pub get_value : List Value → Action Value
get_value (k ∷ []) = do
  key ← eat_string [] k
  found ← get as_string key
  pure (string_or_null found)
get_value _ = fail invalid_parameter_count

-- A negative position counts from the end, and one before the start is the start.
abbrev pub from_end : ℤ → ℤ → ℤ
from_end size n =
    let n' = if ltb_ℤ n (pos 0) then add32 n size else n in if ltb_ℤ n' (pos 0) then pos 0 else n'

abbrev pub range_of : Str → ℤ → ℤ → Str
range_of s first last =
    let size = int32 (length s) in
    let beg = from_end size first in
    let end = add32 (from_end size last) (pos 1) in
    if leb_ℤ end beg || leb_ℤ size beg
    then []
    else take (pos_part end - pos_part beg) (drop (pos_part beg) s)

unfoldable pub getrange : List Value → Action Value
getrange (k ∷ b ∷ e ∷ []) = do
  key ← eat_string [] k
  beg ← eat_integer (pos 0) b
  end ← eat_integer (pos 0) e
  found ← get as_string key
  when_found found (pure null) λ s. pure (string (range_of s beg end))
getrange _ = fail invalid_parameter_count

unfoldable pub getset : List Value → Action Value
getset (k ∷ s ∷ []) = do
  key ← eat_string [] k
  value ← eat_string [] s
  found ← get as_string key
  get_create_string key
  store key (Entry.string value)
  pure (string_or_null found)
getset _ = fail invalid_parameter_count

-- `m_data.erase(key); getCreate<String>(key).m_string = value;`
unfoldable pub assign : Str → Str → Action (Unit {0})
assign key value = do remove key; get_create_string key; store key (Entry.string value)

unfoldable pub set_value : List Value → Action Value
set_value (k ∷ s ∷ []) = do
  key ← eat_string [] k
  value ← eat_string [] s
  assign key value
  pure (string (bytes "OK"))
set_value _ = fail invalid_parameter_count

unfoldable pub setnx : List Value → Action Value
setnx (k ∷ s ∷ []) = do
  key ← eat_string [] k
  value ← eat_string [] s
  found ← get as_string key
  when_found found (do store key (Entry.string value); pure (integer (pos 1)))
      λ old. pure (integer (pos 0))
setnx _ = fail invalid_parameter_count

-- The first two are what the variables of the loop held before.
unfoldable pub mset_loop : Str → Str → List Value → Action Value
mset_loop last_key last_value [] = pure (string (bytes "OK"))
mset_loop last_key last_value (k ∷ []) = pure (string (bytes "OK"))
mset_loop last_key last_value (k ∷ s ∷ rest) = do
  key ← eat_string last_key k
  value ← eat_string last_value s
  assign key value
  mset_loop key value rest

abbrev pub is_even : ℕ → Bool
is_even zero = true
is_even (suc zero) = false
is_even (suc (suc n)) = is_even n

unfoldable pub mset : List Value → Action Value
unfolding mset_loop
mset vs = if is_even (length vs) then mset_loop [] [] vs else fail invalid_parameter_count

unfoldable pub strlen : List Value → Action Value
strlen (k ∷ []) = do
  key ← eat_string [] k
  found ← get as_string key
  when_found found (pure (integer (pos 0))) λ s. pure (integer (int32 (length s)))
strlen _ = fail invalid_parameter_count
