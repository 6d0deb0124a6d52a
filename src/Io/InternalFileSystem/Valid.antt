-- ===== src/Io/InternalFileSystem/Valid.antt =====
-- Names in a directory: they differ from each other, and paths can name them.
pub mod Operations
pub mod Moves
pub mod Reach
use afl.Base.{
  ℕ, zero, suc, ◌==◌, Bool, true, false, Option, none, some, List, [], ◌∷◌, ◌++◌, ◌≡◌, refl, sym,
  ◌∙◌, ap, get_elem?, set, arith, if◌then◌else◌, Bool-cases, inl, inr, leb, length, ltb, ◌<◌, ◌≤◌,
}
use afl.Base.Str.{Str, str_eq, str_eq_iff, str_eq_refl}
use afl.Io.InternalFileSystem.{
  Node, file, directory, Store, node_name, with_name, is_bad_component, find_node, erase_node,
  rename_node, reset_content, or_nothing, nodes_at, set_nodes, push_node,
}

-- Every name is a component of a path, and the names differ.
abbrev pub AreNamed : List Node → Type 0
AreNamed [] = Unit {0}
AreNamed (n ∷ nodes) =
    (is_bad_component (node_name n) ≡ false)
    × (find_node (node_name n) nodes ≡ none)
    × AreNamed nodes

-- This holds in all node lists.
abbrev pub IsTidy : Store → Type 0
IsTidy d = (i : ℕ) → AreNamed (nodes_at d i)

missing-cons :
    (x : Str) (m : Node) (nodes : List Node)
    → find_node x (m ∷ nodes) ≡ none
    → (str_eq x (node_name m) ≡ false) × (find_node x nodes ≡ none)
unfolding find_node
missing-cons x m nodes h = ground arith

str_eq_sym : (x y : Str) → str_eq x y ≡ false → str_eq y x ≡ false
str_eq_sym x y h = ground (arith, str_eq_iff x y, str_eq_iff y x)

find-push :
    (x : Str) (n : Node) (nodes : List Node)
    → find_node x nodes ≡ none
    → str_eq x (node_name n) ≡ false
    → find_node x (nodes ++ (n ∷ [])) ≡ none
unfolding find_node
find-push x n [] h e = rw e refl
find-push x n (m ∷ nodes) h e = ground (arith, find-push x n nodes)

pub push-AreNamed :
    (n : Node) (nodes : List Node)
    → AreNamed nodes
    → is_bad_component (node_name n) ≡ false
    → find_node (node_name n) nodes ≡ none
    → AreNamed (nodes ++ (n ∷ []))
unfolding find_node
push-AreNamed n [] h b f = (b, refl, tt)
push-AreNamed n (m ∷ nodes) h b f =
    let g = missing-cons (node_name n) m nodes f in
    (
      h.0,
      find-push (node_name m) n nodes h.1 (str_eq_sym (node_name n) (node_name m) g.0),
      push-AreNamed n nodes h.2 b g.1,
    )

pub find-erase :
    (x y : Str) (nodes : List Node)
    → find_node y nodes ≡ none
    → find_node y (erase_node x nodes) ≡ none
unfolding find_node erase_node
find-erase x y [] h = refl
find-erase x y (m ∷ nodes) h = ground (arith, find-erase x y nodes)

pub erase-AreNamed : (x : Str) (nodes : List Node) → AreNamed nodes → AreNamed (erase_node x nodes)
unfolding erase_node
erase-AreNamed x [] h = tt
erase-AreNamed x (m ∷ nodes) h = elim (Bool-cases (str_eq x (node_name m))) [
  | inl e ↦ rw (e, erase_node) h.2
  | inr e ↦
      rw (e, erase_node) (h.0, find-erase x (node_name m) nodes h.1, erase-AreNamed x nodes h.2)
]

pub find-erase_self :
    (x : Str) (nodes : List Node) → AreNamed nodes → find_node x (erase_node x nodes) ≡ none
unfolding find_node erase_node
find-erase_self x [] h = refl
find-erase_self x (m ∷ nodes) h =
    ground (arith, find-erase_self x nodes h.2, str_eq_iff x (node_name m), h.1)

find-rename :
    (x y z : Str) (nodes : List Node)
    → str_eq z y ≡ false
    → find_node z nodes ≡ none
    → find_node z (rename_node x y nodes) ≡ none
unfolding find_node rename_node
find-rename x y z [] e h = refl
find-rename x y z (file n i ∷ nodes) e h = ground (arith, find-rename x y z nodes)
find-rename x y z (directory n i ∷ nodes) e h = ground (arith, find-rename x y z nodes)

renamed-head :
    (y : Str) (m : Node) (nodes : List Node)
    → AreNamed nodes
    → is_bad_component y ≡ false
    → find_node y nodes ≡ none
    → AreNamed (with_name y m ∷ nodes)
renamed-head y (file n i) nodes h b f = (b, f, h)
renamed-head y (directory n i) nodes h b f = (b, f, h)

pub rename-AreNamed :
    (x y : Str) (nodes : List Node)
    → AreNamed nodes
    → is_bad_component y ≡ false
    → find_node y nodes ≡ none
    → AreNamed (rename_node x y nodes)
unfolding rename_node
rename-AreNamed x y [] h b f = tt
rename-AreNamed x y (m ∷ nodes) h b f =
    let g = missing-cons y m nodes f in
    elim (Bool-cases (str_eq x (node_name m))) [
      | inl e ↦ rw (e, rename_node) (renamed-head y m nodes h.2 b g.1)
      | inr e ↦
          rw (e, rename_node)
            (
              h.0,
              find-rename x y (node_name m) nodes (str_eq_sym y (node_name m) g.0) h.1,
              rename-AreNamed x y nodes h.2 b g.1,
            )
    ]

find-reset :
    (x z : Str) (s : ℕ) (nodes : List Node)
    → find_node z nodes ≡ none
    → find_node z (reset_content x s nodes) ≡ none
unfolding find_node reset_content
find-reset x z s [] h = refl
find-reset x z s (m ∷ nodes) h = ground (arith, find-reset x z s nodes)

pub reset-AreNamed :
    (x : Str) (s : ℕ) (nodes : List Node) → AreNamed nodes → AreNamed (reset_content x s nodes)
unfolding reset_content
reset-AreNamed x s [] h = tt
reset-AreNamed x s (m ∷ nodes) h = elim (Bool-cases (str_eq x (node_name m))) [
  | inl e ↦ rw (e, reset_content) h
  | inr e ↦
      rw (e, reset_content)
        (h.0, find-reset x (node_name m) s nodes h.1, reset-AreNamed x s nodes h.2)
]

set-AreNamed :
    (ls : List (List Node)) (i : ℕ) (nodes : List Node)
    → AreNamed nodes
    → ((j : ℕ) → AreNamed (or_nothing (get_elem? ls j)))
    → (j : ℕ) → AreNamed (or_nothing (get_elem? (set ls i nodes) j))
set-AreNamed [] i nodes h all j = tt
set-AreNamed (l ∷ ls) zero nodes h all zero = h
set-AreNamed (l ∷ ls) zero nodes h all (suc j) = all (suc j)
set-AreNamed (l ∷ ls) (suc i) nodes h all zero = all zero
set-AreNamed (l ∷ ls) (suc i) nodes h all (suc j) = set-AreNamed ls i nodes h (λ k. all (suc k)) j

pub set_nodes-IsTidy :
    (i : ℕ) (nodes : List Node) (d : Store)
    → IsTidy d
    → AreNamed nodes
    → IsTidy (set_nodes i nodes d)
set_nodes-IsTidy i nodes d h g = set-AreNamed d.lists i nodes g h

append-AreNamed :
    (ls : List (List Node))
    → ((j : ℕ) → AreNamed (or_nothing (get_elem? ls j)))
    → (j : ℕ) → AreNamed (or_nothing (get_elem? (ls ++ ([] ∷ [])) j))
append-AreNamed [] all zero = tt
append-AreNamed [] all (suc j) = tt
append-AreNamed (l ∷ ls) all zero = all zero
append-AreNamed (l ∷ ls) all (suc j) = append-AreNamed ls (λ k. all (suc k)) j

pub new_list-IsTidy : (d : Store) → IsTidy d → IsTidy (record d { lists = d.lists ++ ([] ∷ []) })
new_list-IsTidy d h = append-AreNamed d.lists h

new_list-find :
    (x : Str) (ls : List (List Node)) (i : ℕ)
    → find_node x (or_nothing (get_elem? ls i)) ≡ none
    → find_node x (or_nothing (get_elem? (ls ++ ([] ∷ [])) i)) ≡ none
unfolding find_node
new_list-find x [] zero h = refl
new_list-find x [] (suc i) h = refl
new_list-find x (l ∷ ls) zero h = h
new_list-find x (l ∷ ls) (suc i) h = new_list-find x ls i h

pub new_list-missing :
    (x : Str) (d : Store) (i : ℕ)
    → find_node x (nodes_at d i) ≡ none
    → find_node x (nodes_at (record d { lists = d.lists ++ ([] ∷ []) }) i) ≡ none
new_list-missing x d i h = new_list-find x d.lists i h
