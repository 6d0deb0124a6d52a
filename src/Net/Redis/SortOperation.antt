-- ===== src/Net/Redis/SortOperation.antt =====
-- afl/net/redis/sortoperation.cpp: a SORT request that grows until it is sent.
use afl.Base.{List, [], ◌∷◌, ◌++◌}
use afl.Base.Int.{ℤ}
use afl.Base.Str.{Str, bytes}
use afl.Data.Value.{Value, string, integer}
use afl.Data.Access.{to_string_list, to_integer_list}
use afl.Net.Handler.{CommandHandler, Calls, finish}

-- The constructor.
abbrev pub sort : Str → List Value
sort key = string (bytes "SORT") ∷ string key ∷ []

-- How a field is named in a pattern.
abbrev pub field_pattern : Str → Str → Str
field_pattern hash field = hash ++ (bytes "->" ++ field)

-- The operations that add to the request, which is their first argument.
module _ (req : List Value) where
  abbrev pub by : Str → List Value
  by pattern = req ++ (string (bytes "BY") ∷ string pattern ∷ [])

  abbrev pub by_field : Str → Str → List Value
  by_field hash field = by (field_pattern hash field)

  abbrev pub get_origin : List Value
  get_origin = req ++ (string (bytes "GET") ∷ string (bytes "#") ∷ [])

  abbrev pub get : Str → List Value
  get pattern = req ++ (string (bytes "GET") ∷ string pattern ∷ [])

  abbrev pub get_field : Str → Str → List Value
  get_field hash field = get (field_pattern hash field)

  abbrev pub limit : ℤ → ℤ → List Value
  limit start count = req ++ (string (bytes "LIMIT") ∷ integer start ∷ integer count ∷ [])

  abbrev pub sort_lexicographical : List Value
  sort_lexicographical = req ++ (string (bytes "ALPHA") ∷ [])

  abbrev pub sort_reversed : List Value
  sort_reversed = req ++ (string (bytes "DESC") ∷ [])

  abbrev pub sort_disable : List Value
  sort_disable = by (bytes "nosort")

module _ {S : Type 0} (ch : CommandHandler S) (req : List Value) where
  -- `getResult`, raw and into the two kinds of lists, which start empty.
  abbrev pub get_result : Calls S Value
  get_result = ch.call req

  abbrev pub get_strings : Calls S (List Str)
  get_strings = finish get_result to_string_list

  abbrev pub get_integers : Calls S (List ℤ)
  get_integers = finish get_result to_integer_list

  abbrev pub store_result : Str → Calls S (Unit {0})
  store_result out = ch.call_void (req ++ (string (bytes "STORE") ∷ string out ∷ []))
