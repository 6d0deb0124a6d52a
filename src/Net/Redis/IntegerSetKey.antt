-- ===== src/Net/Redis/IntegerSetKey.antt =====
-- afl/net/redis/integersetkey.cpp: a key that holds a set of integers.
use afl.Base.{List, [], ◌∷◌, Bool}
use afl.Base.Int.{ℤ}
use afl.Base.Str.{Str, bytes}
use afl.Data.Value.{string, integer}
use afl.Data.Access.{to_integer_list}
use afl.Net.Handler.{CommandHandler, Calls, call_int, call_bool, finish}

module _ {S : Type 0} (ch : CommandHandler S) (name : Str) where
  abbrev pub add : ℤ → Calls S Bool
  add value = call_bool ch (string (bytes "SADD") ∷ string name ∷ integer value ∷ [])

  abbrev pub remove : ℤ → Calls S Bool
  remove value = call_bool ch (string (bytes "SREM") ∷ string name ∷ integer value ∷ [])

  abbrev pub extract_random : Calls S ℤ
  extract_random = call_int ch (string (bytes "SPOP") ∷ string name ∷ [])

  abbrev pub get_random : Calls S ℤ
  get_random = call_int ch (string (bytes "SRANDMEMBER") ∷ string name ∷ [])

  -- `other` is the name of the other key.
  abbrev pub move_to : ℤ → Str → Calls S Bool
  move_to value other =
      call_bool ch (string (bytes "SMOVE") ∷ string name ∷ string other ∷ integer value ∷ [])

  abbrev pub contains : ℤ → Calls S Bool
  contains value = call_bool ch (string (bytes "SISMEMBER") ∷ string name ∷ integer value ∷ [])

  abbrev pub copy_to : Str → Calls S (Unit {0})
  copy_to other = ch.call_void (string (bytes "SINTERSTORE") ∷ string other ∷ string name ∷ [])

  -- `getAll`; the list that is given starts empty.
  abbrev pub get_all : Calls S (List ℤ)
  get_all = finish (ch.call (string (bytes "SMEMBERS") ∷ string name ∷ [])) to_integer_list
