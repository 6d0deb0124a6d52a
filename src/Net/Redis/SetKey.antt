-- ===== src/Net/Redis/SetKey.antt =====
-- afl/net/redis/setkey.cpp: a key that holds a set.
use afl.Base.{[], ◌∷◌, Bool, not}
use afl.Base.Int.{ℤ}
use afl.Base.Str.{Str, bytes}
use afl.Except.{ok}
use afl.Data.Value.{string}
use afl.Net.Handler.{CommandHandler, Calls, call_int, finish, truth}

module _ {S : Type 0} (ch : CommandHandler S) (name : Str) where
  abbrev pub size : Calls S ℤ
  size = call_int ch (string (bytes "SCARD") ∷ string name ∷ [])

  abbrev pub empty : Calls S Bool
  empty = finish size (λ n. ok (not (truth n)))
