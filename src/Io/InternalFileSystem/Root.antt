-- ===== src/Io/InternalFileSystem/Root.antt =====
-- The rest of afl/io/internalfilesystem.cpp: what entries and directories tell of themselves, the
-- directory above the root, and the functions on path names.
use afl.Base.{ℕ, Option, none, some, List, length, get_elem?, map}
use afl.Base.Str.{Str, bytes}
use afl.Except.{Exception, Result, err, file_problem}
use afl.Text.PosixFileNames
use afl.Io.InternalFileSystem.{
  Node, file, directory, InternalStream, Store, Dir, top, below, content_of, root_dir, node_name,
  find_node, nodes_at,
}

-- What `updateInfo` sets: a type, and a size for files.
pub data Info : Type 0 where
  unknown_type directory_type : Info
  file_type : ℕ → Info
  -- The entry for the root: a directory that is a link to the path.
  link_type : Str → Info

abbrev pub size_at : Option InternalStream → ℕ
size_at none = 0
size_at (some s) = length s.content

abbrev pub info_of : Store → Option Node → Info
info_of d none = unknown_type
info_of d (some (directory name i)) = directory_type
info_of d (some (file name s)) = file_type (size_at (get_elem? d.streams s))

-- `Entry::updateInfo`
abbrev pub update_info : Dir → Str → Store → Info
update_info dir name d = info_of d (find_node name (nodes_at d (content_of dir)))

abbrev pub root_dir_title : Str
root_dir_title = bytes "Root"

abbrev pub root_link_title : Str
root_link_title = bytes "Root Directory"

-- `Dir::getTitle`
abbrev pub get_title : Dir → Str
get_title (top name i) = root_dir_title
get_title (below name i parent) = PosixFileNames.get_file_name name

-- The names of the entries that the enumerator of `getDirectoryEntries` gives, where the directory does
-- not change in between.
abbrev pub get_directory_entries : Dir → Store → List Str
get_directory_entries dir d = map node_name (nodes_at d (content_of dir))

-- `Messages::cannotAccessFiles`
abbrev pub cannot_access_files : Str
cannot_access_files = bytes "Cannot access files here"

-- `Messages::cannotAccessDirectories`
abbrev pub cannot_access_directories : Str
cannot_access_directories = bytes "Cannot access directories"

-- What `openFile`, `doRename`, `doErase`, `doSetFlag` and `doMoveTo` of `RootEntry` throw.
abbrev pub root_refusal : Exception
root_refusal = file_problem root_dir_title cannot_access_files

-- What `RootEntry::doCreateAsDirectory` throws.
abbrev pub root_directory_refusal : Exception
root_directory_refusal = file_problem root_dir_title cannot_access_directories

-- `RootEntry::openDirectory`
abbrev pub open_root_entry : Dir
open_root_entry = root_dir

-- `RootEntry::updateInfo`
abbrev pub root_info : Info
root_info = link_type (bytes "/")

-- `RootDir::getDirectoryEntryByName`
abbrev pub root_entry_by_name : Str → Result (Unit {0})
root_entry_by_name name = err (file_problem name cannot_access_files)

abbrev pub get_working_directory_name : Str
get_working_directory_name = bytes "/"

abbrev pub get_absolute_path_name : Str → Str
get_absolute_path_name name =
    PosixFileNames.get_canonical_path_name
      (PosixFileNames.make_path_name get_working_directory_name name)
