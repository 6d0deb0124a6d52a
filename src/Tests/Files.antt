-- ===== src/Tests/Files.antt =====
-- The internal file system and path names at a few values.
use afl.Base.{◌≡◌, refl, arith, [], ◌∷◌, ◌++◌, none}
use afl.Base.Str.{bytes, str_eq}
use afl.Except.{ok, err, fault}
use afl.Text.PosixFileNames.{make_path_name, get_directory_name, get_file_name, ends_in_separator}
use afl.Text.PosixFileNames.Split.{make_path_name-split}
use afl.Io.InternalFileSystem
use afl.Io.InternalFileSystem.{
  Node, file, directory, Store, OpenMode, open_file, open_read, create, create_new, locate,
  find_directory, find_node, nodes_at, root_dir, open_file_in,
}
use afl.Io.InternalFileSystem.Entries.{create_directory, do_rename, do_erase, do_move_to}
use afl.Io.InternalFileSystem.Created.{create-open_read}
use afl.Io.InternalFileSystem.Failures.{Unchanged, failures-Unchanged, do_move_to-itself}
use afl.Io.InternalFileSystem.Valid.{IsTidy}
use afl.Io.InternalFileSystem.Valid.Reach.{start, step, opened, directory_created, Reach-IsTidy}

abbrev empty_store : Store
empty_store = record { lists = [] ∷ []; streams = [] }

abbrev with_directory : Store
with_directory = (create_directory (bytes "/d") empty_store).1

abbrev with_file : Store
with_file = (open_file (bytes "/d/x") create_new with_directory).1

Reach-IsTidy_example : IsTidy with_file
Reach-IsTidy_example = Reach-IsTidy with_file (
    step with_directory with_file
      (step empty_store with_directory start (directory_created (bytes "/d") empty_store))
      (opened (bytes "/d/x") create_new with_directory))

-- A directory "d" with a file "x".
abbrev store : Store
store = record {
  lists = (directory (bytes "d") 1 ∷ []) ∷ (file (bytes "x") 0 ∷ []) ∷ [];
  streams = record { name = bytes "/d/x"; content = bytes "old" } ∷ [];
}

create-open_read_example :
    ((open_file (bytes "/d/x") create store).0 ≡ ok 1)
    × ((open_file (bytes "/d/x") create store).1.streams
        ≡ store.streams ++ (record { name = bytes "/d/x"; content = [] } ∷ []))
    × (open_file (bytes "/d/x") open_read (open_file (bytes "/d/x") create store).1
        ≡ (ok 1, (open_file (bytes "/d/x") create store).1))
unfolding locate find_directory find_node str_eq
create-open_read_example =
    create-open_read (bytes "/d/x") (bytes "x")
      (InternalFileSystem.below (make_path_name (bytes "/") (bytes "d")) 1 root_dir) store refl refl
      (omega arith) tt

failures-Unchanged_example :
    Unchanged store (open_file (bytes "/y") open_read store)
    × Unchanged store (create_directory (bytes "/y") store)
    × Unchanged store (do_rename root_dir (bytes "d") (bytes "a/b") store)
    × Unchanged store (do_erase root_dir (bytes "d") store)
failures-Unchanged_example =
    failures-Unchanged (bytes "/y") (bytes "d") (bytes "a/b") open_read root_dir store

abbrev one_file : Store
one_file = (open_file (bytes "f") create_new empty_store).1

do_move_to-itself_example :
    ((do_move_to root_dir (bytes "f") root_dir (bytes "f") one_file).0 ≡ err fault)
    × (find_node
          (bytes "f")
          (nodes_at (do_move_to root_dir (bytes "f") root_dir (bytes "f") one_file).1 0)
        ≡ none)
unfolding open_file locate find_directory find_node str_eq open_file_in
    InternalFileSystem.verify_file_name_component
do_move_to-itself_example = do_move_to-itself root_dir (bytes "f") (bytes "f") 0 one_file refl (
    Reach-IsTidy one_file
      (step empty_store one_file start (opened (bytes "f") create_new empty_store)))

make_path_name-split_example :
    (make_path_name (bytes "/a/b") (bytes "c.txt") ≡ bytes "/a/b/c.txt")
    × (get_directory_name (make_path_name (bytes "/a/b") (bytes "c.txt")) ≡ bytes "/a/b")
    × (get_file_name (make_path_name (bytes "/a/b") (bytes "c.txt")) ≡ bytes "c.txt")
unfolding ends_in_separator str_eq
make_path_name-split_example =
    make_path_name-split (bytes "/a/b") (bytes "c.txt") refl refl refl (ground arith)
