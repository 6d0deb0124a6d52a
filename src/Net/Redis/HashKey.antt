-- ===== src/Net/Redis/HashKey.antt =====
-- afl/net/redis/hashkey.cpp: a key that holds a hash.
use afl.Base.{List, [], ◌∷◌, map}
use afl.Base.Int.{ℤ}
use afl.Base.Str.{Str, bytes}
use afl.Except.{ok}
use afl.Data.Value.{string}
use afl.Data.Access.{to_string_list}
use afl.Net.Handler.{CommandHandler, Calls, call_int, finish}

module _ {S : Type 0} (ch : CommandHandler S) (name : Str) where
  abbrev pub size : Calls S ℤ
  size = call_int ch (string (bytes "HLEN") ∷ string name ∷ [])

  -- `getFieldNames`; the list that is given starts empty.
  abbrev pub get_field_names : Calls S (List Str)
  get_field_names = finish (ch.call (string (bytes "HKEYS") ∷ string name ∷ [])) to_string_list

  -- `getAll`
  abbrev pub get_all : Calls S (List Str)
  get_all = finish (ch.call (string (bytes "HGETALL") ∷ string name ∷ [])) to_string_list

  -- `setAll`
  abbrev pub set_all : List Str → Calls S (Unit {0})
  set_all [] = λ s. (ok tt, s)
  set_all (x ∷ vec) = ch.call_void (string (bytes "HMSET") ∷ string name ∷ map string (x ∷ vec))
