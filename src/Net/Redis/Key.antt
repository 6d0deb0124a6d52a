-- ===== src/Net/Redis/Key.antt =====
-- afl/net/redis/key.cpp: a key of any type. The object is its handler and its name; renaming returns
-- the object's new name.
use afl.Base.{[], ◌∷◌, Bool, if◌then◌else◌}
use afl.Base.Str.{Str, bytes, str_eq}
use afl.Except.{ok}
use afl.Data.Value.{string}
use afl.Net.Handler.{CommandHandler, Calls, call_bool, call_string, finish}

-- `Key::Type`
pub data KeyType : Type 0 where
  no_key string_key list_key set_key z_set_key hash_key unknown : KeyType

abbrev pub key_type : Str → KeyType
key_type s =
    if str_eq s (bytes "none")
    then no_key
    else if str_eq s (bytes "string")
    then string_key
    else if str_eq s (bytes "list")
    then list_key
    else if str_eq s (bytes "set")
    then set_key
    else if str_eq s (bytes "zset")
    then z_set_key
    else if str_eq s (bytes "hash")
    then hash_key
    else unknown

module _ {S : Type 0} (ch : CommandHandler S) (name : Str) where
  abbrev pub exists : Calls S Bool
  exists = call_bool ch (string (bytes "EXISTS") ∷ string name ∷ [])

  abbrev pub remove : Calls S (Unit {0})
  remove = ch.call_void (string (bytes "DEL") ∷ string name ∷ [])

  -- `renameTo`, with the name that the object then has.
  abbrev pub rename_to : Str → Calls S Str
  rename_to new_name =
      finish (ch.call_void (string (bytes "RENAME") ∷ string name ∷ string new_name ∷ []))
        (λ u. ok new_name)

  -- `renameToUnique`, with the name that the object then has.
  abbrev pub rename_to_unique : Str → Calls S (Bool × Str)
  rename_to_unique new_name =
      finish (call_bool ch (string (bytes "RENAMENX") ∷ string name ∷ string new_name ∷ []))
        (λ done. ok (done, if done then new_name else name))

  abbrev pub get_type : Calls S KeyType
  get_type =
      finish (call_string ch (string (bytes "TYPE") ∷ string name ∷ [])) (λ s. ok (key_type s))
