-- ===== src/Net/Redis/SetOperation.antt =====
-- afl/net/redis/stringsetoperation.cpp and integersetoperation.cpp, and the operations of the set keys
-- that make them: a request that grows until it is sent.
use afl.Base.{List, [], ◌∷◌, ◌++◌}
use afl.Base.Int.{ℤ}
use afl.Base.Str.{Str, bytes}
use afl.Except.{Result, ok, err, ◌>>=◌}
use afl.Data.Value.{Value, string}
use afl.Data.Access.{to_string, to_string_list, to_integer_list}
use afl.Net.Handler.{CommandHandler, Calls, finish}

-- The request that the constructor makes of an operation and two keys.
abbrev pub request : Str → Str → Str → List Value
request op a b = string op ∷ string a ∷ string b ∷ []

abbrev pub intersect : Str → Str → List Value
intersect a b = request (bytes "SINTER") a b

abbrev pub merge : Str → Str → List Value
merge a b = request (bytes "SUNION") a b

-- `remove(other)`
abbrev pub remove_all : Str → Str → List Value
remove_all a b = request (bytes "SDIFF") a b

abbrev pub and_also : List Value → Str → List Value
and_also req x = req ++ (string x ∷ [])

-- The request of `storeTo`: element 0 gets a suffix, and the key goes behind it.
abbrev pub store_request : List Value → Str → Result (List Value)
store_request [] other = ok (string (bytes "STORE") ∷ string other ∷ [])
store_request (op ∷ req) other =
    to_string op >>= λ s. ok (string (s ++ bytes "STORE") ∷ string other ∷ req)

module _ {S : Type 0} (ch : CommandHandler S) (req : List Value) where
  -- `StringSetOperation::getAll`
  abbrev pub get_strings : Calls S (List Str)
  get_strings = finish (ch.call req) to_string_list

  -- `IntegerSetOperation::getAll`
  abbrev pub get_integers : Calls S (List ℤ)
  get_integers = finish (ch.call req) to_integer_list

  abbrev pub send : Result (List Value) → Calls S (Unit {0})
  send (ok command) s = ch.call_void command s
  send (err e) s = (err e, s)

  abbrev pub store_to : Str → Calls S (Unit {0})
  store_to other = send (store_request req other)
