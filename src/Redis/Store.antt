-- ===== src/Redis/Store.antt =====
-- The keys of `InternalDatabase`, the actions of its commands, and the access to a key of a type.
-- An exception leaves the data as the command had changed it so far.
use afl.Base.{ℕ, Bool, true, false, Option, none, some, List, [], if◌then◌else◌}
use afl.Base.Int.{ℤ, pos, wrap32, ◌+ℤ◌}
use afl.Base.Str.{Str, bytes}
use afl.Except.{Result, ok, err, remote_error}
use afl.Container.Map
use afl.Container.Map.{Map, StrSet}
use afl.Data.Value.{Value, null}
use afl.Data.Access.{to_string, to_integer}

-- The classes derived from `Key`.
pub data Entry : Type 0 where
  string : Str → Entry
  hash : Map Str → Entry
  list : List Str → Entry
  set : StrSet → Entry

-- `m_data`
abbrev pub Db : Type 0
Db = Map Entry

abbrev pub Action : Type 0 → Type 0
Action A = Db → Result A × Db

module _ {A : Type 0} where
  unfoldable pub pure : A → Action A
  pure a d = (ok a, d)

  unfoldable pub lift : Result A → Action A
  lift r d = (r, d)

  -- `fail`
  unfoldable pub fail : Str → Action A
  fail msg d = (err (remote_error (bytes "<InternalDatabase>") msg), d)

-- What a null pointer and what a found value lead to.
abbrev pub when_found : {T A : Type 0} → Option T → Action A → (T → Action A) → Action A
when_found none m f = m
when_found (some t) m f = f t

abbrev pub missing_command : Str
missing_command = bytes "Missing command"

abbrev pub invalid_parameter_count : Str
invalid_parameter_count = bytes "Invalid number of parameters"

abbrev pub invalid_option : Str
invalid_option = bytes "Invalid option"

abbrev pub invalid_type : Str
invalid_type = bytes "Invalid type"

abbrev pub invalid_type_int : Str
invalid_type_int = bytes "Invalid type (expect integer)"

abbrev pub invalid_index : Str
invalid_index = bytes "Invalid index"

abbrev pub invalid_command : Str
invalid_command = bytes "Invalid command"

abbrev pub key_not_found : Str
key_not_found = bytes "Key not found"

-- Whether an element of a segment is a null pointer.
abbrev pub is_null : Value → Bool
is_null null = true
is_null _ = false

-- `SegmentView::eat` on an argument that is there, into a variable: a null pointer leaves the variable as it was.
unfoldable pub eat_string : Str → Value → Action Str
unfolding pure lift
eat_string old v = if is_null v then pure old else lift (to_string v)

unfoldable pub eat_integer : ℤ → Value → Action ℤ
unfolding pure lift
eat_integer old v = if is_null v then pure old else lift (to_integer v)

-- The casts to the classes of keys.
abbrev pub as_string : Entry → Option Str
as_string (string s) = some s
as_string _ = none

abbrev pub as_hash : Entry → Option (Map Str)
as_hash (hash h) = some h
as_hash _ = none

abbrev pub as_list : Entry → Option (List Str)
as_list (list l) = some l
as_list _ = none

abbrev pub as_set : Entry → Option StrSet
as_set (set s) = some s
as_set _ = none

-- `Sortable::getValues`, by the cast to `Sortable`.
abbrev pub as_sortable : Entry → Option (List Str)
as_sortable (list l) = some l
as_sortable (set s) = some (Map.keys s)
as_sortable _ = none

-- The result of the cast in `get`.
abbrev pub typed : {T : Type 0} → Option T → Action (Option T)
typed none = fail invalid_type
typed (some t) = pure (some t)

module _ {T : Type 0} (cast : Entry → Option T) where
  abbrev pub get_from : Option Entry → Action (Option T)
  get_from none = pure none
  get_from (some e) = typed (cast e)

  -- `get<T>`: null for a key that is not there, an exception for one of another type.
  unfoldable pub get : Str → Action (Option T)
  unfolding pure fail
  get name d = get_from (Map.find name d) d

-- `m_data.insertNew`, and an assignment through a pointer to the key's value.
unfoldable pub store : Str → Entry → Action (Unit {0})
store name e d = (ok tt, Map.insert name e d)

-- `m_data.erase`
unfoldable pub remove : Str → Action (Unit {0})
remove name d = (ok tt, Map.erase name d)

-- What a command reads of the data.
unfoldable pub gets : {A : Type 0} → (Db → A) → Action A
gets f d = (ok (f d), d)

-- The rest of a command after an action: skipped where the action threw.
abbrev pub after : {A B : Type 0} → Result A × Db → (A → Action B) → Result B × Db
after (ok a, d) f = f a d
after (err e, d) f = (err e, d)

infixl 5 ◌>>=◌ ◌>>◌
unfoldable pub ◌>>=◌ : {A B : Type 0} → Action A → (A → Action B) → Action B
◌>>=◌ m f d = after (m d) f

abbrev pub ◌>>◌ : {A B : Type 0} → Action A → Action B → Action B
m >> k = m >>= λ _. k

-- `getCreate<T>`: a key that is not there is made, with an empty value.
unfoldable pub get_create :
    {T : Type 0} (cast : Entry → Option T) (wrap : T → Entry) → T → Str → Action T
unfolding ◌>>=◌
get_create cast wrap empty name = do
  found ← get cast name
  when_found found (do store name (wrap empty); pure empty) pure

unfoldable pub when : Bool → Action (Unit {0}) → Action (Unit {0})
unfolding pure
when true m = m
when false m = pure tt

-- To unfold this is to unfold all actions.
unfoldable pub actions : Unit {0}
unfolding ◌>>=◌ pure lift fail eat_string eat_integer get gets store remove when get_create
actions = tt

abbrev pub get_create_string : Str → Action Str
get_create_string = get_create as_string string []

abbrev pub get_create_hash : Str → Action (Map Str)
get_create_hash = get_create as_hash hash []

abbrev pub get_create_list : Str → Action (List Str)
get_create_list = get_create as_list list []

abbrev pub get_create_set : Str → Action StrSet
get_create_set = get_create as_set set []

-- int32_t arithmetic and conversions. Overflow, which C++ leaves undefined, wraps.
abbrev pub add32 : ℤ → ℤ → ℤ
add32 a b = wrap32 (a +ℤ b)

abbrev pub int32 : ℕ → ℤ
int32 n = wrap32 (pos n)
