-- ===== src/Text/PosixFileNames/Split.antt =====
-- A path name and its two parts.
use afl.Base.{false, [], ◌∷◌, ◌++◌, ◌≡◌, ◌≢◌, refl, All, some, none, arith}
use afl.Base.Str.{Str, bytes, str_eq}
use afl.Text.PosixFileNames.{
  separator, is_absolute_path_name, ends_in_separator, is_empty, make_path_name, split_last,
  get_file_name, get_directory_name, in_front_of_last,
}

split_last-file : (name : Str) → All (λ c. c ≢ separator) name → split_last name ≡ none
unfolding split_last
split_last-file [] h = refl
split_last-file (c ∷ name) h = rw (split_last-file name h.1, split_last) (ground (arith, h.0))

split_last-append :
    (path name : Str)
    → All (λ c. c ≢ separator) name
    → split_last (path ++ (separator ∷ name)) ≡ some (path, name)
unfolding split_last
split_last-append [] name h = rw (split_last-file name h, split_last) refl
split_last-append (c ∷ path) name h = rw (split_last-append path name h, split_last) refl

relative : (name : Str) → All (λ c. c ≢ separator) name → is_absolute_path_name name ≡ false
relative [] h = refl
relative (c ∷ name) h = ground (arith, h.0)

directory : (path name : Str) → is_empty path ≡ false → in_front_of_last (some (path, name)) ≡ path
directory [] name h = cc
directory (c ∷ path) name h = refl

-- A directory that is not empty, not "." and does not end in a slash, and a name without a slash: the
-- path name that is made of them is the two with a slash between, its directory name is the
-- directory, and its file name is the name.
pub make_path_name-split :
    (path name : Str)
    → is_empty path ≡ false
    → ends_in_separator path ≡ false
    → str_eq path (bytes ".") ≡ false
    → All (λ c. c ≢ separator) name
    → (make_path_name path name ≡ path ++ (separator ∷ name))
      × (get_directory_name (make_path_name path name) ≡ path)
      × (get_file_name (make_path_name path name) ≡ name)
unfolding make_path_name get_directory_name get_file_name
make_path_name-split path name e s d h =
    rw (relative name h, d, e, s, split_last-append path name h) (refl, directory path name e, refl)
