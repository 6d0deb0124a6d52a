-- ===== src/Io/InternalFileSystem/Valid/Operations.antt =====
-- Every operation keeps the names of all directories in order.
use afl.Base.{ℕ, false, Option, none, some, [], ◌∷◌, ◌≡◌, refl, inl, inr, Bool-cases, length, ◌++◌}
use afl.Base.Str.{Str, str_eq}
use afl.Except.{Result, ok, err}
use afl.Io.InternalFileSystem.{
  Node, file, directory, Store, Dir, content_of, OpenMode, open_read, open_write, create,
  create_new, is_bad_component, verify_file_name_component, if_verified, in_directory, find_node,
  nodes_at, open_node, open_file_in, Action, node_name, erase_node, new_stream, set_nodes,
  push_node,
}
use afl.Io.InternalFileSystem.Entries.{
  rename_over, rename_found, do_rename, erase_found, has_nodes, do_erase, create_if_free,
  do_create_as_directory,
}
use afl.Io.InternalFileSystem.Valid.{
  IsTidy, push-AreNamed, erase-AreNamed, find-erase_self, rename-AreNamed, reset-AreNamed,
  set_nodes-IsTidy, new_list-IsTidy, new_list-missing,
}

-- An action that keeps them.
abbrev pub Keeps : {A : Type 0} → Action A → Type 0
Keeps m = (d : Store) → IsTidy d → IsTidy (m d).1

pub verified-Keeps :
    {A : Type 0} (name : Str) (m : Action A)
    → (is_bad_component name ≡ false → Keeps m)
    → Keeps (if_verified (verify_file_name_component name) m)
unfolding verify_file_name_component
verified-Keeps name m h d t = elim (Bool-cases (is_bad_component name)) [
  | inl bad ↦ rw (bad, if_verified) t
  | inr good ↦ rw (good, if_verified) (h good d t)
]

pub located-Keeps :
    {A : Type 0} (r : Result (Dir × Str)) (f : Dir → Str → Action A)
    → ((dir : Dir) (name : Str) → Keeps (f dir name))
    → Keeps (in_directory r f)
located-Keeps (ok (dir, name)) f h d t = h dir name d t
located-Keeps (err e) f h d t = t

pub push-IsTidy :
    (i : ℕ) (n : Node) (d : Store)
    → IsTidy d
    → is_bad_component (node_name n) ≡ false
    → find_node (node_name n) (nodes_at d i) ≡ none
    → IsTidy (push_node i n d)
push-IsTidy i n d t b f = set_nodes-IsTidy i _ d t (push-AreNamed n (nodes_at d i) (t i) b f)

pub open_node-Keeps :
    (i : ℕ) (name full_name : Str) (mode : OpenMode) (o : Option Node) (d : Store)
    → is_bad_component name ≡ false
    → find_node name (nodes_at d i) ≡ o
    → IsTidy d
    → IsTidy (open_node i name full_name mode o d).1
open_node-Keeps i name full_name mode (some (directory n c)) d b f t = t
open_node-Keeps i name full_name open_read none d b f t = t
open_node-Keeps i name full_name open_read (some (file n s)) d b f t = t
open_node-Keeps i name full_name open_write none d b f t = t
open_node-Keeps i name full_name open_write (some (file n s)) d b f t = t
open_node-Keeps i name full_name create none d b f t =
    push-IsTidy i (file name (length d.streams)) (new_stream full_name d) t b f
open_node-Keeps i name full_name create (some (file n s)) d b f t =
    set_nodes-IsTidy i _ (new_stream full_name d) t
      (reset-AreNamed name (length d.streams) (nodes_at d i) (t i))
open_node-Keeps i name full_name create_new none d b f t =
    push-IsTidy i (file name (length d.streams)) (new_stream full_name d) t b f
open_node-Keeps i name full_name create_new (some (file n s)) d b f t = t

pub open_file_in-Keeps :
    (dir : Dir) (name full_name : Str) (mode : OpenMode)
    → Keeps (open_file_in dir name full_name mode)
unfolding open_file_in
open_file_in-Keeps dir name full_name mode =
    verified-Keeps name _ λ b d t. open_node-Keeps (content_of dir) name full_name mode _ d b refl t

pub rename_over-Keeps :
    (dir : Dir) (name new_name : Str) (n : Node) (o : Option Node) (d : Store)
    → is_bad_component new_name ≡ false
    → find_node new_name (nodes_at d (content_of dir)) ≡ o
    → IsTidy d
    → IsTidy (rename_over dir name new_name n o d).1
rename_over-Keeps dir name new_name (file n i) none d b f t =
    set_nodes-IsTidy (content_of dir) _ d t
      (rename-AreNamed name new_name _ (t (content_of dir)) b f)
rename_over-Keeps dir name new_name (file n i) (some (file m j)) d b f t =
    set_nodes-IsTidy (content_of dir) _ d t (
      rename-AreNamed name new_name _ (erase-AreNamed new_name _ (t (content_of dir))) b
        (find-erase_self new_name _ (t (content_of dir))))
rename_over-Keeps dir name new_name (file n i) (some (directory m j)) d b f t = t
rename_over-Keeps dir name new_name (directory n i) none d b f t =
    set_nodes-IsTidy (content_of dir) _ d t
      (rename-AreNamed name new_name _ (t (content_of dir)) b f)
rename_over-Keeps dir name new_name (directory n i) (some m) d b f t = t

pub rename_found-Keeps :
    (dir : Dir) (name new_name : Str) (o : Option Node)
    → is_bad_component new_name ≡ false
    → Keeps (rename_found dir name new_name o)
rename_found-Keeps dir name new_name none b d t = t
rename_found-Keeps dir name new_name (some n) b d t = elim (Bool-cases (str_eq new_name name)) [
  | inl e ↦ rw e t
  | inr e ↦ rw e (rename_over-Keeps dir name new_name n _ d b refl t)
]

pub do_rename-Keeps : (dir : Dir) (name new_name : Str) → Keeps (do_rename dir name new_name)
unfolding do_rename
do_rename-Keeps dir name new_name =
    verified-Keeps new_name _ λ b d t. rename_found-Keeps dir name new_name _ b d t

pub erase-IsTidy :
    (i : ℕ) (name : Str) (d : Store)
    → IsTidy d
    → IsTidy (set_nodes i (erase_node name (nodes_at d i)) d)
erase-IsTidy i name d t = set_nodes-IsTidy i _ d t (erase-AreNamed name (nodes_at d i) (t i))

pub erase_found-Keeps : (dir : Dir) (name : Str) (o : Option Node) → Keeps (erase_found dir name o)
erase_found-Keeps dir name none d t = t
erase_found-Keeps dir name (some (file n i)) d t = erase-IsTidy (content_of dir) name d t
erase_found-Keeps dir name (some (directory n i)) d t =
    elim (Bool-cases (has_nodes (nodes_at d i))) [
      | inl e ↦ rw e t
      | inr e ↦ rw e (erase-IsTidy (content_of dir) name d t)
    ]

pub do_erase-Keeps : (dir : Dir) (name : Str) → Keeps (do_erase dir name)
unfolding do_erase
do_erase-Keeps dir name d t = erase_found-Keeps dir name _ d t

pub create_if_free-Keeps :
    (dir : Dir) (name : Str) (o : Option Node) (d : Store)
    → is_bad_component name ≡ false
    → find_node name (nodes_at d (content_of dir)) ≡ o
    → IsTidy d
    → IsTidy (create_if_free dir name o d).1
create_if_free-Keeps dir name (some n) d b f t = t
create_if_free-Keeps dir name none d b f t =
    push-IsTidy (content_of dir) (directory name (length d.lists))
      (record d { lists = d.lists ++ ([] ∷ []) }) (new_list-IsTidy d t) b
      (new_list-missing name d (content_of dir) f)

pub do_create-Keeps :
    (dir : Dir) (name : Str)
    → is_bad_component name ≡ false
    → Keeps (do_create_as_directory dir name)
unfolding do_create_as_directory
do_create-Keeps dir name b d t = create_if_free-Keeps dir name _ d b refl t
