-- ===== src/Net/Redis/StringSetKey.antt =====
-- afl/net/redis/stringsetkey.cpp: a key that holds a set of strings.
use afl.Base.{List, [], ◌∷◌, Bool}
use afl.Base.Str.{Str, bytes}
use afl.Data.Value.{string}
use afl.Data.Access.{to_string_list}
use afl.Net.Handler.{CommandHandler, Calls, call_string, call_bool, finish}

module _ {S : Type 0} (ch : CommandHandler S) (name : Str) where
  abbrev pub add : Str → Calls S Bool
  add value = call_bool ch (string (bytes "SADD") ∷ string name ∷ string value ∷ [])

  abbrev pub remove : Str → Calls S Bool
  remove value = call_bool ch (string (bytes "SREM") ∷ string name ∷ string value ∷ [])

  abbrev pub extract_random : Calls S Str
  extract_random = call_string ch (string (bytes "SPOP") ∷ string name ∷ [])

  abbrev pub get_random : Calls S Str
  get_random = call_string ch (string (bytes "SRANDMEMBER") ∷ string name ∷ [])

  -- `other` is the name of the other key.
  abbrev pub move_to : Str → Str → Calls S Bool
  move_to value other =
      call_bool ch (string (bytes "SMOVE") ∷ string name ∷ string other ∷ string value ∷ [])

  abbrev pub contains : Str → Calls S Bool
  contains value = call_bool ch (string (bytes "SISMEMBER") ∷ string name ∷ string value ∷ [])

  abbrev pub copy_to : Str → Calls S (Unit {0})
  copy_to other = ch.call_void (string (bytes "SINTERSTORE") ∷ string other ∷ string name ∷ [])

  -- `getAll`; the list that is given starts empty.
  abbrev pub get_all : Calls S (List Str)
  get_all = finish (ch.call (string (bytes "SMEMBERS") ∷ string name ∷ [])) to_string_list
