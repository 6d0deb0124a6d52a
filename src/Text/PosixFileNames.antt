-- ===== src/Text/PosixFileNames.antt =====
-- afl/string/posixfilenames.cpp: path names with slashes.
pub mod Split
use afl.Base.{ℕ, zero, suc, ◌==◌, Bool, true, false, not, ◌&&◌, ◌||◌, Option, none, some}
use afl.Base.{List, [], ◌∷◌, ◌++◌, if◌then◌else◌}
use afl.Base.Str.{Str, bytes, str_eq}

-- `PATH_SEPARATOR`
abbrev pub separator : ℕ
separator = b'/'

abbrev pub is_path_separator : ℕ → Bool
is_path_separator c = c == separator

abbrev pub is_absolute_path_name : Str → Bool
is_absolute_path_name [] = false
is_absolute_path_name (c ∷ path) = is_path_separator c

-- `isPathSeparator(path[path.size()-1])`, for a text that is not empty.
unfoldable pub ends_in_separator : Str → Bool
ends_in_separator [] = false
ends_in_separator (c ∷ []) = is_path_separator c
ends_in_separator (c ∷ d ∷ path) = ends_in_separator (d ∷ path)

abbrev pub is_empty : Str → Bool
is_empty [] = true
is_empty (c ∷ s) = false

unfoldable pub make_path_name : Str → Str → Str
unfolding ends_in_separator
make_path_name path name =
    if is_absolute_path_name name
    then name
    else if str_eq path (bytes ".")
    then name
    else if not (is_empty path) && not (ends_in_separator path)
    then path ++ (separator ∷ name)
    else path ++ name

-- What stands in front of and behind the last separator, by `rfind`.
unfoldable pub split_last : Str → Option (Str × Str)
split_last [] = none
split_last (c ∷ s) = elim (split_last s) [
  | some (front, behind) ↦ some (c ∷ front, behind)
  | none ↦ if is_path_separator c then some ([], s) else none
]

abbrev pub behind_last : Str → Option (Str × Str) → Str
behind_last name none = name
behind_last name (some (front, behind)) = behind

abbrev pub in_front_of_last : Option (Str × Str) → Str
in_front_of_last none = bytes "."
in_front_of_last (some ([], behind)) = separator ∷ []
in_front_of_last (some (c ∷ front, behind)) = c ∷ front

unfoldable pub get_file_name : Str → Str
unfolding split_last
get_file_name name = behind_last name (split_last name)

unfoldable pub get_directory_name : Str → Str
unfolding split_last
get_directory_name name = in_front_of_last (split_last name)

-- The components between the separators, empty ones too; `part` is what was read of the first.
unfoldable pub components : Str → Str → List Str
components part [] = part ∷ []
components part (c ∷ s) = elim (is_path_separator c) [
  | true ↦ part ∷ components [] s
  | false ↦ components (part ++ (c ∷ [])) s
]

-- `out.pop_back()`, for a list kept with its last element first.
abbrev pub pop_or_count : List Str → ℕ → List Str × ℕ
pop_or_count [] up = ([], suc up)
pop_or_count (x ∷ out) up = (out, up)

-- The loop over the components. `out` is kept with its last element first.
unfoldable pub resolve : List Str → List Str → ℕ → List Str × ℕ
resolve [] out up = (out, up)
resolve (part ∷ parts) out up = elim (is_empty part || str_eq part (bytes ".")) [
  | true ↦ resolve parts out up
  | false ↦ elim (str_eq part (bytes "..")) [
    | true ↦ resolve parts (pop_or_count out up).0 (pop_or_count out up).1
    | false ↦ resolve parts (part ∷ out) up
  ]
]

abbrev pub ups : ℕ → Str
ups zero = []
ups (suc n) = bytes "../" ++ ups n

-- The components joined, from a list that has the last one first.
unfoldable pub join : List Str → Str
join [] = []
join (x ∷ []) = x
join (x ∷ y ∷ out) = join (y ∷ out) ++ (separator ∷ x)

abbrev pub or_dot : Str → Str
or_dot [] = bytes "."
or_dot (c ∷ s) = c ∷ s

abbrev pub canonical : Bool → List Str × ℕ → Str
canonical true (out, up) = separator ∷ join out
canonical false (out, up) = or_dot (ups up ++ join out)

abbrev pub strip_leading : Str → Str
strip_leading [] = []
strip_leading (c ∷ name) = if is_path_separator c then name else c ∷ name

unfoldable pub get_canonical_path_name : Str → Str
unfolding components resolve join
get_canonical_path_name name =
    canonical (is_absolute_path_name name) (resolve (components [] (strip_leading name)) [] 0)
