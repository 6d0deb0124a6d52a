-- ===== src/Io/InternalFileSystem/Valid/Reach.antt =====
-- Every file system that the operations lead to has its names in order, if what is moved gets a proper name.
use afl.Base.{ℕ, false, [], ◌∷◌, ◌≡◌, zero, suc, get_elem?}
use afl.Base.Str.{Str}
use afl.Io.InternalFileSystem.{
  Store, Dir, OpenMode, is_bad_component, open_file_in, open_file, locate, or_nothing,
}
use afl.Io.InternalFileSystem.Entries.{
  do_rename, do_erase, do_create_as_directory, do_move_to, create_directory,
}
use afl.Io.InternalFileSystem.Valid.{AreNamed, IsTidy}
use afl.Io.InternalFileSystem.Valid.Operations.{
  verified-Keeps, located-Keeps, open_file_in-Keeps, do_rename-Keeps, do_erase-Keeps,
  do_create-Keeps,
}
use afl.Io.InternalFileSystem.Valid.Moves.{do_move_to-Keeps}

-- What can happen to a file system, whether it succeeds or fails. A name to create a directory at, or to
-- move to, is a component of a path.
pub data Step : Store → Store → Type 0 where
  opened : (file_name : Str) (mode : OpenMode) (d : Store) → Step d (open_file file_name mode d).1
  opened_in :
      (dir : Dir) (name full_name : Str) (mode : OpenMode) (d : Store)
      → Step d (open_file_in dir name full_name mode d).1
  directory_created : (dir_name : Str) (d : Store) → Step d (create_directory dir_name d).1
  created_in :
      (dir : Dir) (name : Str) (d : Store)
      → is_bad_component name ≡ false
      → Step d (do_create_as_directory dir name d).1
  renamed : (dir : Dir) (name new_name : Str) (d : Store) → Step d (do_rename dir name new_name d).1
  erased : (dir : Dir) (name : Str) (d : Store) → Step d (do_erase dir name d).1
  moved :
      (dir : Dir) (name : Str) (to : Dir) (new_name : Str) (d : Store)
      → is_bad_component new_name ≡ false
      → Step d (do_move_to dir name to new_name d).1

pub data Reach : Store → Type 0 where
  -- The constructor: `m_root` is an empty node list.
  start : Reach (record { lists = [] ∷ []; streams = [] })
  step : (d d' : Store) → Reach d → Step d d' → Reach d'

step-IsTidy : (d d' : Store) → IsTidy d → Step d d' → IsTidy d'
unfolding open_file create_directory
step-IsTidy _ _ t (opened file_name mode d) =
    located-Keeps (locate d file_name) (λ dir name. open_file_in dir name file_name mode)
      (λ dir name. open_file_in-Keeps dir name file_name mode) d t
step-IsTidy _ _ t (opened_in dir name full_name mode d) =
    open_file_in-Keeps dir name full_name mode d t
step-IsTidy _ _ t (directory_created dir_name d) =
    located-Keeps (locate d dir_name) _
      (λ dir name. verified-Keeps name _ (λ b. do_create-Keeps dir name b)) d t
step-IsTidy _ _ t (created_in dir name d b) = do_create-Keeps dir name b d t
step-IsTidy _ _ t (renamed dir name new_name d) = do_rename-Keeps dir name new_name d t
step-IsTidy _ _ t (erased dir name d) = do_erase-Keeps dir name d t
step-IsTidy _ _ t (moved dir name to new_name d b) = do_move_to-Keeps dir name to new_name b d t

start-AreNamed : (j : ℕ) → AreNamed (or_nothing (get_elem? ([] ∷ []) j))
start-AreNamed zero = tt
start-AreNamed (suc j) = tt

-- In a file system that was made by the constructor and any operations, each on any directory that was
-- ever opened, the names in every directory differ, and none is empty, ".", or has a slash in it: no
-- node is hidden behind another one or out of the reach of paths. It is required, not concluded, of
-- the new name in a move, and of the name of an entry that is made a directory, that it is such a name.
pub Reach-IsTidy : (d : Store) → Reach d → IsTidy d
Reach-IsTidy _ start = start-AreNamed
Reach-IsTidy _ (step d d' r s) = step-IsTidy d d' (Reach-IsTidy d r) s
