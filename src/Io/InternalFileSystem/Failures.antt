-- ===== src/Io/InternalFileSystem/Failures.antt =====
-- What a failed operation leaves.
use afl.Base.{
  ℕ, Bool, true, false, Option, none, some, ◌≡◌, ◌==◌, ap, ◌∙◌, refl, inl, inr, Bool-cases, arith,
}
use afl.Base.Str.{Str, str_eq}
use afl.Except.{Result, ok, err, fault}
use afl.Io.InternalFileSystem.{
  Node, file, directory, Store, Dir, content_of, OpenMode, open_read, open_write, create,
  create_new, verify_file_name_component, if_verified, in_directory, find_node, nodes_at, open_node,
  open_file_in, open_file, locate, Action,
}
use afl.Io.InternalFileSystem.Entries.{
  rename_over, rename_found, do_rename, erase_found, has_nodes, do_erase, create_if_free,
  do_create_as_directory, create_directory, do_move_to, source_iterator,
}
use afl.Io.InternalFileSystem.Valid.{IsTidy}
use afl.Io.InternalFileSystem.Valid.Moves.{erased-missing, erase_target-erase}
use afl.Io.InternalFileSystem.Iterators.{after_extract_self}

abbrev pub is_error : {A : Type 0} → Result A → Bool
is_error (ok a) = false
is_error (err e) = true

-- Where it fails, the store is as before.
abbrev pub Unchanged : {A : Type 0} → Store → Result A × Store → Type 0
Unchanged d r = is_error r.0 ≡ true → r.1 ≡ d

verified-Unchanged :
    {A : Type 0} (r : Result (Unit {0})) (m : Action A) (d : Store)
    → Unchanged d (m d)
    → Unchanged d (if_verified r m d)
verified-Unchanged (ok u) m d h = h
verified-Unchanged (err e) m d h = λ q. refl

located-Unchanged :
    {A : Type 0} (r : Result (Dir × Str)) (f : Dir → Str → Action A) (d : Store)
    → ((dir : Dir) (name : Str) → Unchanged d (f dir name d))
    → Unchanged d (in_directory r f d)
located-Unchanged (ok (dir, name)) f d h = h dir name
located-Unchanged (err e) f d h = λ q. refl

open_node-Unchanged :
    (i : ℕ) (name full_name : Str) (mode : OpenMode) (o : Option Node) (d : Store)
    → Unchanged d (open_node i name full_name mode o d)
open_node-Unchanged i name full_name mode (some (directory n c)) d = λ q. refl
open_node-Unchanged i name full_name open_read none d = λ q. refl
open_node-Unchanged i name full_name open_read (some (file n s)) d = λ q. refl
open_node-Unchanged i name full_name open_write none d = λ q. refl
open_node-Unchanged i name full_name open_write (some (file n s)) d = λ q. refl
open_node-Unchanged i name full_name create none d = λ q. cc
open_node-Unchanged i name full_name create (some (file n s)) d = λ q. cc
open_node-Unchanged i name full_name create_new none d = λ q. cc
open_node-Unchanged i name full_name create_new (some (file n s)) d = λ q. refl

rename_over-Unchanged :
    (dir : Dir) (name new_name : Str) (n : Node) (o : Option Node) (d : Store)
    → Unchanged d (rename_over dir name new_name n o d)
rename_over-Unchanged dir name new_name (file n i) none d = λ q. cc
rename_over-Unchanged dir name new_name (file n i) (some (file m j)) d = λ q. cc
rename_over-Unchanged dir name new_name (file n i) (some (directory m j)) d = λ q. refl
rename_over-Unchanged dir name new_name (directory n i) none d = λ q. cc
rename_over-Unchanged dir name new_name (directory n i) (some m) d = λ q. refl

rename_found-Unchanged :
    (dir : Dir) (name new_name : Str) (o : Option Node) (d : Store)
    → Unchanged d (rename_found dir name new_name o d)
rename_found-Unchanged dir name new_name none d = λ q. refl
rename_found-Unchanged dir name new_name (some n) d = elim (Bool-cases (str_eq new_name name)) [
  | inl e ↦ rw e (λ q. refl)
  | inr e ↦ rw e (rename_over-Unchanged dir name new_name n _ d)
]

erase_found-Unchanged :
    (dir : Dir) (name : Str) (o : Option Node) (d : Store) → Unchanged d (erase_found dir name o d)
erase_found-Unchanged dir name none d = λ q. refl
erase_found-Unchanged dir name (some (file n i)) d = λ q. cc
erase_found-Unchanged dir name (some (directory n i)) d =
    elim (Bool-cases (has_nodes (nodes_at d i))) [
      | inl e ↦ rw e (λ q. refl)
      | inr e ↦ rw e (λ q. cc)
    ]

create_if_free-Unchanged :
    (dir : Dir) (name : Str) (o : Option Node) (d : Store)
    → Unchanged d (create_if_free dir name o d)
create_if_free-Unchanged dir name none d = λ q. cc
create_if_free-Unchanged dir name (some n) d = λ q. refl

-- Opening a file in any mode, creating a directory, renaming and erasing leave the file system as it was
-- where they fail.
pub failures-Unchanged :
    (path name new_name : Str) (mode : OpenMode) (dir : Dir) (d : Store)
    → Unchanged d (open_file path mode d)
      × Unchanged d (create_directory path d)
      × Unchanged d (do_rename dir name new_name d)
      × Unchanged d (do_erase dir name d)
unfolding open_file open_file_in create_directory do_create_as_directory do_rename do_erase
failures-Unchanged path name new_name mode dir d = (
  located-Unchanged (locate d path) _ d (λ in_dir part.
      verified-Unchanged (verify_file_name_component part) _ d
        (open_node-Unchanged (content_of in_dir) part path mode _ d)),
  located-Unchanged (locate d path) _ d (λ in_dir part.
      verified-Unchanged (verify_file_name_component part) _ d
        (create_if_free-Unchanged in_dir part _ d)),
  verified-Unchanged (verify_file_name_component new_name) _ d
      (rename_found-Unchanged dir name new_name _ d),
  erase_found-Unchanged dir name _ d,
)

-- Where the names in every directory differ and can stand in a path, a file that is moved to its own name in
-- its own directory has gone afterwards, and the code uses a null pointer: the iterator to it has no node any
-- more when it is extracted.
pub do_move_to-itself :
    (dir : Dir) (name n : Str) (stream : ℕ) (d : Store)
    → find_node name (nodes_at d (content_of dir)) ≡ some (file n stream)
    → IsTidy d
    → let (r, d') = do_move_to dir name dir name d in
      (r ≡ err fault) × (find_node name (nodes_at d' (content_of dir)) ≡ none)
unfolding do_move_to
do_move_to-itself dir name n stream d h t =
    let i = content_of dir in
    let here : (i == i) ≡ true = ground arith in
    let gone = after_extract_self (source_iterator dir name d) in
    let missing = erased-missing name d.lists i (t i) in
    rw (h, h, here, gone)
      (
        refl,
        ap (λ e. find_node name (nodes_at e i)) (erase_target-erase dir name dir name d) ∙ missing,
      )
