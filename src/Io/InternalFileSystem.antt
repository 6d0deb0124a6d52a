-- ===== src/Io/InternalFileSystem.antt =====
-- afl/io/internalfilesystem.cpp: a file system in memory. Node lists and streams are shared by reference
-- counting; here they stand in a store and are named by their positions in it.
pub mod Iterators
pub mod Entries
pub mod Root
pub mod Valid
pub mod Failures
pub mod Created
use afl.Base.{
  ℕ, suc, ◌==◌, Bool, true, false, ◌||◌, Option, none, some, List, [], ◌∷◌, ◌++◌, length, get_elem?,
  set, if◌then◌else◌,
}
use afl.Base.Str.{Str, bytes, str_eq}
use afl.Except.{Exception, file_problem, Result, ok, err, ◌>>=◌}
use afl.Text.PosixFileNames.{separator, is_empty, is_absolute_path_name, make_path_name}

-- `FileNode` with its stream, `DirectoryNode` with its node list.
pub data Node : Type 0 where
  file : Str → ℕ → Node
  directory : Str → ℕ → Node

-- An `InternalStream`: its name and its data.
pub record InternalStream : Type 0 where
  pub name : Str
  pub content : Str

-- All node lists and all streams. The file system's `m_root` is the node list 0. What nothing refers to
-- any more stays where it is.
pub record Store : Type 0 where
  pub lists : List (List Node)
  pub streams : List InternalStream

-- `Dir`: its full name, its node list, and its parent.
pub data Dir : Type 0 where
  top : Str → ℕ → Dir
  below : Str → ℕ → Dir → Dir

abbrev pub directory_name : Dir → Str
directory_name (top name content) = name
directory_name (below name content parent) = name

abbrev pub content_of : Dir → ℕ
content_of (top name content) = content
content_of (below name content parent) = content

abbrev pub parent_directory : Dir → Option Dir
parent_directory (top name content) = none
parent_directory (below name content parent) = some parent

-- `FileSystem::OpenMode`
pub data OpenMode : Type 0 where
  open_read open_write create create_new : OpenMode

-- What an operation gives, and the store after it.
abbrev pub Action : Type 0 → Type 0
Action A = Store → Result A × Store

-- The texts of afl/string/messages.hpp.
abbrev pub file_not_found : Str
file_not_found = bytes "File not found"

abbrev pub file_exists : Str
file_exists = bytes "File exists"

abbrev pub invalid_file_name : Str
invalid_file_name = bytes "Invalid file name"

abbrev pub has_separator : Str → Bool
has_separator [] = false
has_separator (c ∷ name) = (c == separator) || has_separator name

abbrev pub is_dot : Str → Bool
is_dot name = str_eq name (bytes ".")

abbrev pub is_bad_component : Str → Bool
is_bad_component name = is_empty name || (has_separator name || is_dot name)

-- `verifyFileNameComponent`
unfoldable pub verify_file_name_component : Str → Result (Unit {0})
verify_file_name_component name =
    if is_bad_component name then err (file_problem name invalid_file_name) else ok tt

abbrev pub node_name : Node → Str
node_name (file name content) = name
node_name (directory name content) = name

abbrev pub with_name : Str → Node → Node
with_name name (file old content) = file name content
with_name name (directory old content) = directory name content

-- `findNode` and `findIterator`: the first node with the name.
unfoldable pub find_node : Str → List Node → Option Node
find_node name [] = none
find_node name (n ∷ nodes) = if str_eq name (node_name n) then some n else find_node name nodes

-- `nodes.erase(it)`, and `nodes.extractElement(it)`, for the iterator to the first node with the name.
unfoldable pub erase_node : Str → List Node → List Node
erase_node name [] = []
erase_node name (n ∷ nodes) = if str_eq name (node_name n) then nodes else n ∷ erase_node name nodes

-- `n->name = newName`, for the first node with the name.
unfoldable pub rename_node : Str → Str → List Node → List Node
rename_node name new_name [] = []
rename_node name new_name (n ∷ nodes) =
    if str_eq name (node_name n)
    then with_name new_name n ∷ nodes
    else n ∷ rename_node name new_name nodes

abbrev pub or_nothing : Option (List Node) → List Node
or_nothing none = []
or_nothing (some nodes) = nodes

abbrev pub nodes_at : Store → ℕ → List Node
nodes_at d i = or_nothing (get_elem? d.lists i)

abbrev pub set_nodes : ℕ → List Node → Store → Store
set_nodes i nodes d = record d { lists = set d.lists i nodes }

-- `nodes.pushBackNew(n)`
abbrev pub push_node : ℕ → Node → Store → Store
push_node i n d = set_nodes i (nodes_at d i ++ (n ∷ [])) d

abbrev pub entered : Str → Dir → Str → Option Node → Result Dir
entered full_name dir name (some (directory n content)) =
    ok (below (make_path_name (directory_name dir) name) content dir)
entered full_name dir name _ = err (file_problem full_name file_not_found)

-- A round of the loop in `findDirectory`.
abbrev pub enter : Store → Str → Dir → Str → Result Dir
enter d full_name dir name =
    if is_dot name
    then ok dir
    else entered full_name dir name (find_node name (nodes_at d (content_of dir)))

-- `findDirectory`: the directory, and the name that is left in `pathName`. `part` is what was read of
-- the next component.
unfoldable pub find_directory : Store → Str → Dir → Str → Str → Result (Dir × Str)
find_directory d full_name dir part [] = ok (dir, part)
find_directory d full_name dir part (c ∷ path) = elim (c == separator) [
  | true ↦ enter d full_name dir part >>= λ next. find_directory d full_name next [] path
  | false ↦ find_directory d full_name dir (part ++ (c ∷ [])) path
]

-- `prepareFileName`
abbrev pub prepare_file_name : Str → Str
prepare_file_name [] = []
prepare_file_name (c ∷ name) = if c == separator then name else c ∷ name

abbrev pub root_dir : Dir
root_dir = top (bytes "/") 0

-- `m_root->findDirectory(name, fullName)` after `prepareFileName`.
unfoldable pub locate : Store → Str → Result (Dir × Str)
unfolding find_directory
locate d full_name = find_directory d full_name root_dir [] (prepare_file_name full_name)

-- A new stream with a name, which `content` of a new or an old file node then refers to.
abbrev pub new_stream : Str → Store → Store
new_stream full_name d = record d {
  streams = d.streams ++ (record { name = full_name; content = [] } ∷ []);
}

-- `fileNode->content.reset(...)`, for the first node with the name.
unfoldable pub reset_content : Str → ℕ → List Node → List Node
reset_content name stream [] = []
reset_content name stream (n ∷ nodes) =
    if str_eq name (node_name n)
    then file (node_name n) stream ∷ nodes
    else n ∷ reset_content name stream nodes

-- A new file node at the end of a list.
abbrev pub create_file : ℕ → Str → Str → Action ℕ
create_file i name full_name d =
    (ok (length d.streams), push_node i (file name (length d.streams)) (new_stream full_name d))

abbrev pub replace_file : ℕ → Str → Str → Action ℕ
replace_file i name full_name d = (
  ok (length d.streams),
  set_nodes i (reset_content name (length d.streams) (nodes_at d i)) (new_stream full_name d),
)

-- `Dir::open` after the name was verified, for the node that was found.
abbrev pub open_node : ℕ → Str → Str → OpenMode → Option Node → Action ℕ
open_node i name full_name mode (some (directory n content)) d =
    (err (file_problem full_name file_exists), d)
open_node i name full_name open_read none d = (err (file_problem full_name file_not_found), d)
open_node i name full_name open_read (some (file n stream)) d = (ok stream, d)
open_node i name full_name open_write none d = (err (file_problem full_name file_not_found), d)
open_node i name full_name open_write (some (file n stream)) d = (ok stream, d)
open_node i name full_name create none d = create_file i name full_name d
open_node i name full_name create (some (file n stream)) d = replace_file i name full_name d
open_node i name full_name create_new none d = create_file i name full_name d
open_node i name full_name create_new (some (file n stream)) d =
    (err (file_problem full_name file_exists), d)

abbrev pub if_verified : {A : Type 0} → Result (Unit {0}) → Action A → Action A
if_verified (err e) m d = (err e, d)
if_verified (ok u) m d = m d

-- `Dir::open`: the stream that the child is made of.
unfoldable pub open_file_in : Dir → Str → Str → OpenMode → Action ℕ
open_file_in dir name full_name mode = if_verified (verify_file_name_component name) λ d.
    open_node (content_of dir) name full_name mode (find_node name (nodes_at d (content_of dir))) d

-- What follows the search for the directory.
abbrev pub in_directory : {A : Type 0} → Result (Dir × Str) → (Dir → Str → Action A) → Action A
in_directory (err e) f d = (err e, d)
in_directory (ok (dir, name)) f d = f dir name d

-- `InternalFileSystem::openFile`
unfoldable pub open_file : Str → OpenMode → Action ℕ
open_file file_name mode d =
    in_directory (locate d file_name) (λ dir name. open_file_in dir name file_name mode) d

abbrev pub final_directory : Store → Str → Dir → Str → Result Dir
final_directory d dir_name dir name =
    if is_empty name || is_dot name
    then ok dir
    else entered dir_name dir name (find_node name (nodes_at d (content_of dir)))

-- `InternalFileSystem::openDirectory`
unfoldable pub open_directory : Store → Str → Result Dir
open_directory d dir_name =
    locate d dir_name >>= λ found. final_directory d dir_name found.0 found.1
