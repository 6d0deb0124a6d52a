-- ===== src/Net/Redis/ListKey.antt =====
-- afl/net/redis/listkey.cpp: a key that holds a list.
use afl.Base.{[], ◌∷◌, Bool}
use afl.Base.Int.{ℤ}
use afl.Base.Str.{Str, bytes}
use afl.Except.{ok}
use afl.Data.Value.{string, integer}
use afl.Net.Handler.{CommandHandler, Calls, call_int, finish, truth}
use afl.Base.{not}

module _ {S : Type 0} (ch : CommandHandler S) (name : Str) where
  abbrev pub size : Calls S ℤ
  size = call_int ch (string (bytes "LLEN") ∷ string name ∷ [])

  abbrev pub empty : Calls S Bool
  empty = finish size (λ n. ok (not (truth n)))

  abbrev pub trim_to_range : ℤ → ℤ → Calls S (Unit {0})
  trim_to_range start stop =
      ch.call_void (string (bytes "LTRIM") ∷ string name ∷ integer start ∷ integer stop ∷ [])
