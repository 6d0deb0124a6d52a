-- ===== src/Net/Redis/Field.antt =====
-- afl/net/redis/field.cpp, stringfield.cpp and integerfield.cpp: a field of a hash. The object is
-- its handler, the name of its hash and its own name.
use afl.Base.{Option, [], ◌∷◌, Bool}
use afl.Base.Int.{ℤ, pos, negsuc, neg, wrap32}
use afl.Base.Str.{Str, bytes}
use afl.Except.{ok}
use afl.Data.Value.{Value, string, integer}
use afl.Net.Handler.{
  CommandHandler, Calls, call_int, call_bool, call_string, call_optional_int, finish, or_else,
}

module _ {S : Type 0} (ch : CommandHandler S) (hash name : Str) where
  abbrev pub exists : Calls S Bool
  exists = call_bool ch (string (bytes "HEXISTS") ∷ string hash ∷ string name ∷ [])

  abbrev pub remove : Calls S Bool
  remove = call_bool ch (string (bytes "HDEL") ∷ string hash ∷ string name ∷ [])

  abbrev pub get_raw_value : Calls S Value
  get_raw_value = ch.call (string (bytes "HGET") ∷ string hash ∷ string name ∷ [])

  -- `StringField::set` and `get`
  abbrev pub set_string : Str → Calls S Bool
  set_string value =
      call_bool ch (string (bytes "HSET") ∷ string hash ∷ string name ∷ string value ∷ [])

  abbrev pub get_string : Calls S Str
  get_string = call_string ch (string (bytes "HGET") ∷ string hash ∷ string name ∷ [])

  -- `IntegerField`
  abbrev pub add_assign : ℤ → Calls S ℤ
  add_assign incr =
      call_int ch (string (bytes "HINCRBY") ∷ string hash ∷ string name ∷ integer incr ∷ [])

  abbrev pub pre_increment : Calls S ℤ
  pre_increment = add_assign (pos 1)

  abbrev pub pre_decrement : Calls S ℤ
  pre_decrement = add_assign (negsuc 0)

  -- The negation of INT_MIN, which C++ leaves undefined, wraps.
  abbrev pub sub_assign : ℤ → Calls S ℤ
  sub_assign decr = add_assign (wrap32 (neg decr))

  abbrev pub set_integer : ℤ → Calls S Bool
  set_integer value =
      call_bool ch (string (bytes "HSET") ∷ string hash ∷ string name ∷ integer value ∷ [])

  abbrev pub get_optional : Calls S (Option ℤ)
  get_optional = call_optional_int ch (string (bytes "HGET") ∷ string hash ∷ string name ∷ [])

  abbrev pub get_integer : Calls S ℤ
  get_integer = finish get_optional (λ o. ok (or_else o (pos 0)))
