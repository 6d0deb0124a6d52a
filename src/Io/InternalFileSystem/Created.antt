-- ===== src/Io/InternalFileSystem/Created.antt =====
-- A file that was created is there.
use afl.Base.{
  ℕ, zero, suc, ◌==◌, ◌<◌, false, Option, none, some, List, [], ◌∷◌, ◌++◌, ◌≡◌, refl, sym, ap, ◌∙◌,
  inl, inr, Bool-cases, length, get_elem?, set, arith,
}
use afl.Base.Str.{Str, str_eq, str_eq_refl}
use afl.Except.{Result, ok, err, Result-cases}
use afl.Text.PosixFileNames.{separator}
use afl.Io.InternalFileSystem.{
  Node, file, directory, Store, Dir, content_of, open_read, create, node_name, is_dot, entered,
  enter, find_directory, find_node, reset_content, or_nothing, nodes_at, open_node, open_file,
  open_file_in, locate, is_bad_component, verify_file_name_component, prepare_file_name, root_dir,
}

-- Each directory that is found in the one is found in the other.
abbrev pub HasDirectories : List Node → List Node → Type 0
HasDirectories nodes nodes' =
    (x n : Str) (c : ℕ)
    → find_node x nodes ≡ some (directory n c)
    → find_node x nodes' ≡ some (directory n c)

abbrev pub Extends : Store → Store → Type 0
Extends d d' = (i : ℕ) → HasDirectories (nodes_at d i) (nodes_at d' i)

entered-ok :
    (full_name : Str) (dir : Dir) (part : Str) (next : Dir) (o : Option Node)
    → entered full_name dir part o ≡ ok next
    → (n : Str) × (c : ℕ) × (o ≡ some (directory n c))
entered-ok full_name dir part next none h = cc
entered-ok full_name dir part next (some (file n s)) h = cc
entered-ok full_name dir part next (some (directory n c)) h = (n, c, refl)

pub entered-Extends :
    (full_name : Str) (dir : Dir) (part : Str) (next : Dir) (d d' : Store)
    → Extends d d'
    → entered full_name dir part (find_node part (nodes_at d (content_of dir))) ≡ ok next
    → entered full_name dir part (find_node part (nodes_at d' (content_of dir))) ≡ ok next
entered-Extends full_name dir part next d d' h e =
    let (n, c, f) = entered-ok full_name dir part next _ e in
    rw (h (content_of dir) part n c f) (sym (ap (entered full_name dir part) f) ∙ e)

enter-Extends :
    (full_name : Str) (dir : Dir) (part : Str) (next : Dir) (d d' : Store)
    → Extends d d'
    → enter d full_name dir part ≡ ok next
    → enter d' full_name dir part ≡ ok next
enter-Extends full_name dir part next d d' h e = elim (Bool-cases (is_dot part)) [
  | inl dot ↦ rw dot (rw dot at e)
  | inr sub ↦ rw sub (entered-Extends full_name dir part next d d' h (rw sub at e))
]

pub find_directory-Extends :
    (full_name : Str) (dir : Dir) (part path : Str) (found : Dir × Str) (d d' : Store)
    → Extends d d'
    → find_directory d full_name dir part path ≡ ok found
    → find_directory d' full_name dir part path ≡ ok found
unfolding find_directory
find_directory-Extends full_name dir part [] found d d' h e = e
find_directory-Extends full_name dir part (c ∷ path) found d d' h e =
    elim (Bool-cases (c == separator)) [
      | inr plain ↦
          rw (plain, find_directory)
            (find_directory-Extends full_name dir (part ++ (c ∷ [])) path found d d' h
              (rw (plain, find_directory) at e))
      | inl slash ↦ elim (Result-cases (enter d full_name dir part)) [
        | inl (next, f) ↦
            rw (slash, find_directory, enter-Extends full_name dir part next d d' h f)
              (find_directory-Extends full_name next [] path found d d' h
                (rw (slash, find_directory, f) at e))
        | inr (x, f) ↦
            let bad : err x ≡ ok found = rw (slash, find_directory, f) at e in absurd (cc bad)
      ]
    ]

set-HasDirectories :
    (ls : List (List Node)) (i : ℕ) (nodes : List Node)
    → HasDirectories (or_nothing (get_elem? ls i)) nodes
    → (j : ℕ)
    → HasDirectories (or_nothing (get_elem? ls j)) (or_nothing (get_elem? (set ls i nodes) j))
set-HasDirectories [] i nodes h j x n c e = e
set-HasDirectories (l ∷ ls) zero nodes h zero x n c e = h x n c e
set-HasDirectories (l ∷ ls) zero nodes h (suc j) x n c e = e
set-HasDirectories (l ∷ ls) (suc i) nodes h zero x n c e = e
set-HasDirectories (l ∷ ls) (suc i) nodes h (suc j) x n c e =
    set-HasDirectories ls i nodes h j x n c e

set-get :
    (ls : List (List Node)) (i : ℕ) (nodes : List Node)
    → i < length ls
    → or_nothing (get_elem? (set ls i nodes) i) ≡ nodes
set-get [] i nodes h = elim h [ ]
set-get (l ∷ ls) zero nodes h = refl
set-get (l ∷ ls) (suc i) nodes h = set-get ls i nodes (omega arith)

pushed-HasDirectories : (nodes : List Node) (n : Node) → HasDirectories nodes (nodes ++ (n ∷ []))
unfolding find_node
pushed-HasDirectories [] n x m c e = cc
pushed-HasDirectories (k ∷ nodes) n x m c e = ground (arith, pushed-HasDirectories nodes n x m c)

pushed-found :
    (name : Str) (s : ℕ) (nodes : List Node)
    → find_node name nodes ≡ none
    → find_node name (nodes ++ (file name s ∷ [])) ≡ some (file name s)
unfolding find_node
pushed-found name s [] h = rw (str_eq_refl name) refl
pushed-found name s (k ∷ nodes) h = ground (arith, pushed-found name s nodes)

reset-HasDirectories :
    (name n : Str) (s t : ℕ) (nodes : List Node)
    → find_node name nodes ≡ some (file n t)
    → HasDirectories nodes (reset_content name s nodes)
unfolding find_node reset_content
reset-HasDirectories name n s t [] h x m c e = cc
reset-HasDirectories name n s t (file k i ∷ nodes) h x m c e = elim (Bool-cases (str_eq name k)) [
  | inl same ↦ rw (same, reset_content) (ground arith)
  | inr other ↦
      let further = reset-HasDirectories name n s t nodes (rw (other, find_node) at h) x m c in
      rw (other, reset_content) (ground (arith, further))
]
reset-HasDirectories name n s t (directory k i ∷ nodes) h x m c e =
    elim (Bool-cases (str_eq name k)) [
      | inl same ↦ rw (same, reset_content) (ground arith)
      | inr other ↦
          let further = reset-HasDirectories name n s t nodes (rw (other, find_node) at h) x m c in
          rw (other, reset_content) (ground (arith, further))
    ]

reset-found :
    (name n : Str) (s t : ℕ) (nodes : List Node)
    → find_node name nodes ≡ some (file n t)
    → (k : Str) × (find_node name (reset_content name s nodes) ≡ some (file k s))
unfolding find_node reset_content
reset-found name n s t [] h = cc
reset-found name n s t (k ∷ nodes) h = elim (Bool-cases (str_eq name (node_name k))) [
  | inl e ↦ (node_name k, rw e (rw e refl))
  | inr e ↦ let (m, r) = reset-found name n s t nodes (rw (e, find_node) at h) in (m, rw e (rw e r))
]

-- A place where a file can stand.
abbrev pub IsNoDirectory : Option Node → Type 0
IsNoDirectory (some (directory n c)) = ⊥
IsNoDirectory _ = Unit {0}

-- What `Create` makes at a place in a list.
pub record IsCreated (i : ℕ) (name full_name : Str) (d : Store) (r : Result ℕ × Store)
    : Type 0 where
  pub stream : r.0 ≡ ok (length d.streams)
  pub kept : Extends d r.1
  pub node : (k : Str) × (find_node name (nodes_at r.1 i) ≡ some (file k (length d.streams)))
  pub streams : r.1.streams ≡ d.streams ++ (record { name = full_name; content = [] } ∷ [])

open_node-IsCreated :
    (i : ℕ) (name full_name : Str) (o : Option Node) (d : Store)
    → find_node name (nodes_at d i) ≡ o
    → IsNoDirectory o
    → i < length d.lists
    → IsCreated i name full_name d (open_node i name full_name create o d)
open_node-IsCreated i name full_name (some (directory n c)) d f h b = absurd h
open_node-IsCreated i name full_name none d f h b =
    let s = length d.streams in
    let nodes = nodes_at d i ++ (file name s ∷ []) in
    record {
      stream = refl;
      kept =
          set-HasDirectories d.lists i nodes (pushed-HasDirectories (nodes_at d i) (file name s));
      node = (
        name,
        ap (find_node name) (set-get d.lists i nodes b) ∙ pushed-found name s (nodes_at d i) f,
      );
      streams = refl;
    }
open_node-IsCreated i name full_name (some (file n t)) d f h b =
    let s = length d.streams in
    let nodes = reset_content name s (nodes_at d i) in
    let (k, found) = reset-found name n s t (nodes_at d i) f in
    record {
      stream = refl;
      kept = set-HasDirectories d.lists i nodes (reset-HasDirectories name n s t (nodes_at d i) f);
      node = (k, ap (find_node name) (set-get d.lists i nodes b) ∙ found);
      streams = refl;
    }

locate-Extends :
    (path : Str) (found : Dir × Str) (d d' : Store)
    → Extends d d'
    → locate d path ≡ ok found
    → locate d' path ≡ ok found
unfolding locate
locate-Extends path found d d' h l =
    find_directory-Extends path root_dir [] (prepare_file_name path) found d d' h l

-- A path that leads to a directory of the file system and a valid name in it, at which no directory
-- stands: creating a file there succeeds with a new, empty stream, and opening the same path for reading
-- afterwards gives that same stream.
pub create-open_read :
    (path name : Str) (dir : Dir) (d : Store)
    → locate d path ≡ ok (dir, name)
    → is_bad_component name ≡ false
    → content_of dir < length d.lists
    → IsNoDirectory (find_node name (nodes_at d (content_of dir)))
    → let (r, d') = open_file path create d in
      (r ≡ ok (length d.streams))
      × (d'.streams ≡ d.streams ++ (record { name = path; content = [] } ∷ []))
      × (open_file path open_read d' ≡ (ok (length d.streams), d'))
unfolding open_file open_file_in verify_file_name_component
create-open_read path name dir d l g b h =
    let c = open_node-IsCreated (content_of dir) name path _ d refl h b in
    let (k, found) = c.node in
    let d' : Store =
      (open_node (content_of dir) name path create (find_node name (nodes_at d (content_of dir)))
        d).1 in
    rw (l, g)
      (c.stream, c.streams, rw (locate-Extends path (dir, name) d d' c.kept l, g, found) refl)
