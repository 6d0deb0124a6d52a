-- ===== src/Net/Redis/StringListKey.antt =====
-- afl/net/redis/stringlistkey.cpp: a key that holds a list of strings.
use afl.Base.{List, [], ◌∷◌}
use afl.Base.Int.{ℤ, pos, negsuc}
use afl.Base.Str.{Str, bytes}
use afl.Data.Value.{string, integer}
use afl.Data.Access.{to_string_list}
use afl.Net.Handler.{CommandHandler, Calls, call_int, call_string, finish}

module _ {S : Type 0} (ch : CommandHandler S) (name : Str) where
  -- `operator[]`
  abbrev pub at : ℤ → Calls S Str
  at index = call_string ch (string (bytes "LINDEX") ∷ string name ∷ integer index ∷ [])

  abbrev pub pop_front : Calls S Str
  pop_front = call_string ch (string (bytes "LPOP") ∷ string name ∷ [])

  abbrev pub push_front : Str → Calls S ℤ
  push_front value = call_int ch (string (bytes "LPUSH") ∷ string name ∷ string value ∷ [])

  abbrev pub pop_back : Calls S Str
  pop_back = call_string ch (string (bytes "RPOP") ∷ string name ∷ [])

  abbrev pub push_back : Str → Calls S ℤ
  push_back value = call_int ch (string (bytes "RPUSH") ∷ string name ∷ string value ∷ [])

  abbrev pub set : ℤ → Str → Calls S (Unit {0})
  set index value =
      ch.call_void (string (bytes "LSET") ∷ string name ∷ integer index ∷ string value ∷ [])

  abbrev pub remove_value : Str → ℤ → Calls S ℤ
  remove_value value count =
      call_int ch (string (bytes "LREM") ∷ string name ∷ integer count ∷ string value ∷ [])

  -- `other` is the name of the other key.
  abbrev pub transfer_element : Str → Calls S Str
  transfer_element other =
      call_string ch (string (bytes "RPOPLPUSH") ∷ string name ∷ string other ∷ [])

  -- `getRange`; the list that is given starts empty.
  abbrev pub get_range : ℤ → ℤ → Calls S (List Str)
  get_range start stop =
      finish (ch.call (string (bytes "LRANGE") ∷ string name ∷ integer start ∷ integer stop ∷ []))
        to_string_list

  abbrev pub get_all : Calls S (List Str)
  get_all = get_range (pos 0) (negsuc 0)
