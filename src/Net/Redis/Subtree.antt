-- ===== src/Net/Redis/Subtree.antt =====
-- afl/net/redis/subtree.cpp: a family of keys with a common prefix. The object is its handler and the
-- prefix; the objects for its keys are given by the names that it makes for them.
use afl.Base.{List, [], ◌∷◌, ◌++◌, ◌&&◌, if◌then◌else◌, leb, length, take, drop}
use afl.Base.Int.{ℤ}
use afl.Base.Str.{Str, bytes, str_eq}
use afl.Except.{ok, ◌>>=◌}
use afl.Text.Number.{format_signed}
use afl.Data.Value.{string}
use afl.Data.Access.{to_string_list}
use afl.Net.Handler.{CommandHandler, Calls, finish}

-- `DELIMITER`
abbrev pub delimiter : Str
delimiter = bytes ":"

-- The loop over the answer: keys that do not start with the prefix are left out.
unfoldable pub strip_names : Str → List Str → List Str
strip_names name [] = []
strip_names name (key ∷ keys) =
    let rest = strip_names name keys in
    if leb (length name) (length key) && str_eq (take (length name) key) name
    then drop (length name) key ∷ rest
    else rest

-- The name of a key within the subtree, for all types of keys.
abbrev pub key : Str → Str → Str
key prefix name = prefix ++ name

abbrev pub subtree : Str → Str → Str
subtree prefix name = prefix ++ (name ++ delimiter)

-- `Format("%d", name)`
abbrev pub int_subtree : Str → ℤ → Str
int_subtree prefix name = subtree prefix (format_signed name)

abbrev pub get_key_names : {S : Type 0} → CommandHandler S → Str → Calls S (List Str)
get_key_names ch name =
    finish (ch.call (string (bytes "KEYS") ∷ string (name ++ bytes "*") ∷ []))
      (λ v. to_string_list v >>= λ names. ok (strip_names name names))
