-- ===== src/Net/Redis/IntegerKey.antt =====
-- afl/net/redis/integerkey.cpp: a key that holds an integer.
use afl.Base.{Option, [], ◌∷◌, Bool}
use afl.Base.Int.{ℤ, pos}
use afl.Base.Str.{Str, bytes}
use afl.Except.{ok}
use afl.Data.Value.{string, integer}
use afl.Net.Handler.{CommandHandler, Calls, call_int, call_bool, call_optional_int, finish, or_else}

module _ {S : Type 0} (ch : CommandHandler S) (name : Str) where
  -- `operator--`
  abbrev pub pre_decrement : Calls S ℤ
  pre_decrement = call_int ch (string (bytes "DECR") ∷ string name ∷ [])

  -- `operator-=`
  abbrev pub sub_assign : ℤ → Calls S ℤ
  sub_assign val = call_int ch (string (bytes "DECRBY") ∷ string name ∷ integer val ∷ [])

  abbrev pub get_optional : Calls S (Option ℤ)
  get_optional = call_optional_int ch (string (bytes "GET") ∷ string name ∷ [])

  abbrev pub get : Calls S ℤ
  get = finish get_optional (λ o. ok (or_else o (pos 0)))

  abbrev pub replace_by : ℤ → Calls S ℤ
  replace_by new_value =
      call_int ch (string (bytes "GETSET") ∷ string name ∷ integer new_value ∷ [])

  -- `operator++`
  abbrev pub pre_increment : Calls S ℤ
  pre_increment = call_int ch (string (bytes "INCR") ∷ string name ∷ [])

  -- `operator+=`
  abbrev pub add_assign : ℤ → Calls S ℤ
  add_assign val = call_int ch (string (bytes "INCRBY") ∷ string name ∷ integer val ∷ [])

  abbrev pub set : ℤ → Calls S (Unit {0})
  set new_value = ch.call_void (string (bytes "SET") ∷ string name ∷ integer new_value ∷ [])

  abbrev pub set_unique : ℤ → Calls S Bool
  set_unique new_value =
      call_bool ch (string (bytes "SETNX") ∷ string name ∷ integer new_value ∷ [])
