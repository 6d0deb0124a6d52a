-- ===== src/Net/Redis/Spec.antt =====
-- The client objects on top of the internal database.
pub mod Strings
pub mod Integers
pub mod Sets
pub mod Lists
use afl.Base.{ℕ}
use afl.Redis.Store.{Db}
use afl.Redis.Database.{call}
use afl.Net.Handler.{CommandHandler, discard}

-- `InternalDatabase` as a handler: `callVoid` is `delete call(command)`.
abbrev pub database : ℕ → CommandHandler Db
database roll = record { call = call roll; call_void = discard (call roll) }
