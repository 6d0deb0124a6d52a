-- ===== src/Net/Redis/IntegerListKey.antt =====
-- afl/net/redis/integerlistkey.cpp: a key that holds a list of integers.
use afl.Base.{List, [], ◌∷◌}
use afl.Base.Int.{ℤ, pos, negsuc}
use afl.Base.Str.{Str, bytes}
use afl.Data.Value.{string, integer}
use afl.Data.Access.{to_integer_list}
use afl.Net.Handler.{CommandHandler, Calls, call_int, finish}

module _ {S : Type 0} (ch : CommandHandler S) (name : Str) where
  -- `operator[]`
  abbrev pub at : ℤ → Calls S ℤ
  at index = call_int ch (string (bytes "LINDEX") ∷ string name ∷ integer index ∷ [])

  abbrev pub pop_front : Calls S ℤ
  pop_front = call_int ch (string (bytes "LPOP") ∷ string name ∷ [])

  abbrev pub push_front : ℤ → Calls S ℤ
  push_front value = call_int ch (string (bytes "LPUSH") ∷ string name ∷ integer value ∷ [])

  abbrev pub pop_back : Calls S ℤ
  pop_back = call_int ch (string (bytes "RPOP") ∷ string name ∷ [])

  abbrev pub push_back : ℤ → Calls S ℤ
  push_back value = call_int ch (string (bytes "RPUSH") ∷ string name ∷ integer value ∷ [])

  abbrev pub set : ℤ → ℤ → Calls S (Unit {0})
  set index value =
      ch.call_void (string (bytes "LSET") ∷ string name ∷ integer index ∷ integer value ∷ [])

  abbrev pub remove_value : ℤ → ℤ → Calls S ℤ
  remove_value value count =
      call_int ch (string (bytes "LREM") ∷ string name ∷ integer count ∷ integer value ∷ [])

  -- `other` is the name of the other key.
  abbrev pub transfer_element : Str → Calls S ℤ
  transfer_element other =
      call_int ch (string (bytes "RPOPLPUSH") ∷ string name ∷ string other ∷ [])

  -- `getRange`; the list that is given starts empty.
  abbrev pub get_range : ℤ → ℤ → Calls S (List ℤ)
  get_range start stop =
      finish (ch.call (string (bytes "LRANGE") ∷ string name ∷ integer start ∷ integer stop ∷ []))
        to_integer_list

  abbrev pub get_all : Calls S (List ℤ)
  get_all = get_range (pos 0) (negsuc 0)
