-- ===== src/Net/HeaderTable.antt =====
-- afl/net/headertable.cpp: a list of header fields.
pub mod Lookup
use afl.Base.{
  ℕ, Bool, true, false, ◌&&◌, ◌||◌, Option, none, some, List, [], ◌∷◌, ◌++◌, ◌==◌, if◌then◌else◌,
}
use afl.Base.Str.{Str}
use afl.Net.HeaderField.{HeaderField}
use afl.Text.Char.{case_equal}

abbrev pub HeaderTable : Type 0
HeaderTable = List HeaderField

unfoldable pub get : Str → HeaderTable → Option HeaderField
get name [] = none
get name (f ∷ fs) = if case_equal name f.name then some f else get name fs

unfoldable pub add : Str → Str → HeaderTable → HeaderTable
add name value fs = fs ++ record { name = name; value = value } ∷ []

-- `set`: the field that `get` finds gets the value, and a new one is added where there is none.
unfoldable pub set : Str → Str → HeaderTable → HeaderTable
set name value [] = record { name = name; value = value } ∷ []
set name value (f ∷ fs) =
    if case_equal name f.name then record f { value = value } ∷ fs else f ∷ set name value fs

abbrev pub handle_header : Str → Str → HeaderTable → HeaderTable
handle_header = add

unfoldable pub write_headers : HeaderTable → Str
write_headers [] = []
write_headers (f ∷ fs) = f.name ++ (b':' ∷ 32 ∷ (f.value ++ (13 ∷ 10 ∷ write_headers fs)))
