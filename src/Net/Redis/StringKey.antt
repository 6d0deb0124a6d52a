-- ===== src/Net/Redis/StringKey.antt =====
-- afl/net/redis/stringkey.cpp: a key that holds a string.
use afl.Base.{ℕ, ◌+◌, ◌-◌, ◌*◌, ◌^◌, [], ◌∷◌, Bool, ◌&&◌, ◌||◌, not, if◌then◌else◌, ltb, ◌==◌}
use afl.Base.Int.{ℤ, pos, negsuc, pos_part, neg_part, ltb_ℤ, wrap32}
use afl.Base.Str.{Str, bytes}
use afl.Except.{ok}
use afl.Data.Value.{string, integer}
use afl.Redis.Store.{int32}
use afl.Net.Handler.{CommandHandler, Calls, call_int, call_bool, call_string, finish}

-- `MAX_SIZE`
abbrev pub max_size : ℕ
max_size = 512 * 1024 * 1024

-- The conversion of an int32_t to a size_t of 64 bits.
abbrev pub size_from : ℤ → ℕ
size_from (pos n) = n
size_from (negsuc n) = 2 ^ 64 - 1 - n

abbrev pub eq_ℤ : ℤ → ℤ → Bool
eq_ℤ a b = (pos_part a == pos_part b) && (neg_part a == neg_part b)

-- The range check in `size`.
abbrev pub checked_size : ℤ → ℕ
checked_size n =
    if ltb_ℤ n (pos 0) || not (eq_ℤ (wrap32 (pos (size_from n))) n) then 0 else size_from n

module _ {S : Type 0} (ch : CommandHandler S) (name : Str) where
  abbrev pub append : Str → Calls S (Unit {0})
  append text = ch.call_void (string (bytes "APPEND") ∷ string name ∷ string text ∷ [])

  abbrev pub get : Calls S Str
  get = call_string ch (string (bytes "GET") ∷ string name ∷ [])

  abbrev pub substr : ℕ → ℕ → Calls S Str
  substr start length =
      let limited = if ltb max_size length then max_size else length in
      if ltb start max_size && ltb 0 length
      then call_string ch (
          string (bytes "GETRANGE")
          ∷ string name
          ∷ integer (int32 start)
          ∷ integer (int32 (start + limited - 1))
          ∷ [])
      else λ s. (ok [], s)

  abbrev pub replace_by : Str → Calls S Str
  replace_by new_value =
      call_string ch (string (bytes "GETSET") ∷ string name ∷ string new_value ∷ [])

  abbrev pub set : Str → Calls S (Unit {0})
  set new_value = ch.call_void (string (bytes "SET") ∷ string name ∷ string new_value ∷ [])

  abbrev pub set_unique : Str → Calls S Bool
  set_unique new_value = call_bool ch (string (bytes "SETNX") ∷ string name ∷ string new_value ∷ [])

  abbrev pub size : Calls S ℕ
  size =
      finish (call_int ch (string (bytes "STRLEN") ∷ string name ∷ [])) (λ n. ok (checked_size n))
