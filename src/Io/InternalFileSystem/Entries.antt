-- ===== src/Io/InternalFileSystem/Entries.antt =====
-- `InternalFileSystem::Entry` and `RootEntry`: the operations on a name in a directory, which may be
-- there or not. An entry is its directory and its name.
use afl.Base.{
  ℕ, ◌==◌, Bool, true, false, Option, none, some, List, [], ◌∷◌, ◌++◌, length, if◌then◌else◌,
}
use afl.Base.Str.{Str, str_eq}
use afl.Except.{Result, ok, err, file_problem, fault, invalid_operation, ◌>>=◌}
use afl.Text.PosixFileNames.{make_path_name}
use afl.Io.InternalFileSystem.Iterators.{find_iterator, extract_element, after_extract}
use afl.Io.InternalFileSystem.{
  Node, file, directory, Store, Dir, directory_name, content_of, Action, OpenMode, file_not_found,
  file_exists, verify_file_name_component, if_verified, find_node, erase_node, rename_node,
  with_name, nodes_at, set_nodes, push_node, open_file_in, locate, in_directory, entered,
}

abbrev pub get_path_name : Dir → Str → Str
get_path_name dir name = make_path_name (directory_name dir) name

abbrev pub not_found : {A : Type 0} → Dir → Str → Action A
not_found dir name d = (err (file_problem (get_path_name dir name) file_not_found), d)

abbrev pub exists : {A : Type 0} → Dir → Str → Action A
exists dir name d = (err (file_problem (get_path_name dir name) file_exists), d)

abbrev pub has_nodes : List Node → Bool
has_nodes [] = false
has_nodes (n ∷ nodes) = true

module _ (dir : Dir) (name : Str) where
  -- `openFile`
  abbrev pub open_entry : OpenMode → Action ℕ
  open_entry mode = open_file_in dir name (get_path_name dir name) mode

  -- `openDirectory`
  abbrev pub open_entry_directory : Store → Result Dir
  open_entry_directory d =
      entered (get_path_name dir name) dir name (find_node name (nodes_at d (content_of dir)))

  -- `doRename` of the node that was found to another name, at which another node may stand.
  abbrev pub rename_over : Str → Node → Option Node → Action (Unit {0})
  rename_over new_name (file n i) none d = (
    ok tt,
    set_nodes (content_of dir) (rename_node name new_name (nodes_at d (content_of dir))) d,
  )
  rename_over new_name (file n i) (some (file m j)) d = (
    ok tt,
    set_nodes (content_of dir)
        (rename_node name new_name (erase_node new_name (nodes_at d (content_of dir)))) d,
  )
  rename_over new_name (file n i) (some (directory m j)) d = exists dir name d
  rename_over new_name (directory n i) none d = (
    ok tt,
    set_nodes (content_of dir) (rename_node name new_name (nodes_at d (content_of dir))) d,
  )
  rename_over new_name (directory n i) (some m) d = exists dir name d

  abbrev pub rename_found : Str → Option Node → Action (Unit {0})
  rename_found new_name none d = not_found dir name d
  rename_found new_name (some n) d =
      if str_eq new_name name
      then (ok tt, d)
      else rename_over new_name n (find_node new_name (nodes_at d (content_of dir))) d

  -- `doRename`
  unfoldable pub do_rename : Str → Action (Unit {0})
  do_rename new_name =
      if_verified (verify_file_name_component new_name)
        λ d. rename_found new_name (find_node name (nodes_at d (content_of dir))) d

  abbrev pub erase_found : Option Node → Action (Unit {0})
  erase_found none d = not_found dir name d
  erase_found (some (directory n i)) d =
      if has_nodes (nodes_at d i)
      then exists dir name d
      else (ok tt, set_nodes (content_of dir) (erase_node name (nodes_at d (content_of dir))) d)
  erase_found (some (file n i)) d =
      (ok tt, set_nodes (content_of dir) (erase_node name (nodes_at d (content_of dir))) d)

  -- `doErase`
  unfoldable pub do_erase : Action (Unit {0})
  do_erase d = erase_found (find_node name (nodes_at d (content_of dir))) d

  -- A new, empty node list, and a directory node for it.
  abbrev pub create_if_free : Option Node → Action (Unit {0})
  create_if_free (some n) d = exists dir name d
  create_if_free none d = (
    ok tt,
    push_node (content_of dir) (directory name (length d.lists))
        (record d { lists = d.lists ++ ([] ∷ []) }),
  )

  -- `doCreateAsDirectory`
  unfoldable pub do_create_as_directory : Action (Unit {0})
  do_create_as_directory d = create_if_free (find_node name (nodes_at d (content_of dir))) d

  -- `doSetFlag`
  abbrev pub do_set_flag : Action (Unit {0})
  do_set_flag d = (err (file_problem (get_path_name dir name) invalid_operation), d)

  -- The end of `doMoveTo`: what was extracted goes to the end of the other list, and a null pointer is used.
  abbrev pub move_extracted : Dir → Str → Option Node × List Node → Action (Unit {0})
  move_extracted to new_name (none, rest) d = (err fault, d)
  move_extracted to new_name (some n, rest) d =
      (ok tt, push_node (content_of to) (with_name new_name n) (set_nodes (content_of dir) rest d))

  abbrev pub move_element : Option ℕ → Dir → Str → Action (Unit {0})
  move_element it to new_name d =
      move_extracted to new_name (extract_element it (nodes_at d (content_of dir))) d

  abbrev pub source_iterator : Store → Option ℕ
  source_iterator d = find_iterator name (nodes_at d (content_of dir))

  -- `destList.nodes.erase(destIt)`, and `srcIt` after it, which may be an iterator of the same list.
  abbrev pub erase_target : Dir → Str → Store → Store
  erase_target to new_name d =
      let nodes = nodes_at d (content_of to) in
      set_nodes (content_of to) (extract_element (find_iterator new_name nodes) nodes).1 d

  abbrev pub source_after : Dir → Str → Store → Option ℕ
  source_after to new_name d =
      if content_of to == content_of dir
      then after_extract (find_iterator new_name (nodes_at d (content_of to))) (source_iterator d)
      else source_iterator d

  abbrev pub move_over : Dir → Str → Node → Option Node → Action (Unit {0})
  move_over to new_name n none d = move_element (source_iterator d) to new_name d
  move_over to new_name (file m i) (some (directory t j)) d = exists to new_name d
  move_over to new_name (directory m i) (some t) d = exists to new_name d
  move_over to new_name (file m i) (some (file t j)) d =
      move_element (source_after to new_name d) to new_name (erase_target to new_name d)

  abbrev pub move_found : Dir → Str → Option Node → Action (Unit {0})
  move_found to new_name none d = not_found dir name d
  move_found to new_name (some n) d =
      move_over to new_name n (find_node new_name (nodes_at d (content_of to))) d

  -- `doMoveTo`, to a directory of this kind.
  unfoldable pub do_move_to : Dir → Str → Action (Unit {0})
  do_move_to to new_name d = move_found to new_name (find_node name (nodes_at d (content_of dir))) d

-- `InternalFileSystem::createDirectory`
unfoldable pub create_directory : Str → Action (Unit {0})
create_directory dir_name d =
    in_directory (locate d dir_name)
      (λ dir name. if_verified (verify_file_name_component name) (do_create_as_directory dir name))
      d

-- `getDirectoryEntryByName`
unfoldable pub get_directory_entry_by_name : Dir → Str → Result (Dir × Str)
get_directory_entry_by_name dir name = verify_file_name_component name >>= λ u. ok (dir, name)
