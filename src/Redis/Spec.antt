-- ===== src/Redis/Spec.antt =====
-- What the commands do, seen through `call`.
pub mod Ranges
pub mod Pushed
pub mod Strings
pub mod Lists
pub mod Removal
pub mod Sets
use afl.Base.{List, [], ◌∷◌, map}
use afl.Base.Str.{Str, bytes}
use afl.Data.Value.{Value, string}
use Prim.Native.String.{String}

-- A command as a client sends it.
abbrev pub command : String → List Str → List Value
command verb args = string (bytes verb) ∷ map string args
