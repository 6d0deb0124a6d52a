-- ===== src/Io/InternalFileSystem/Iterators.antt =====
-- Iterators of a node list, with the operations of afl/container/ptrmultilistbase.cpp that moves use. An
-- iterator is the place of its node in the list, or none where it has no node.
use afl.Base.{
  ℕ, zero, suc, ◌-◌, ◌==◌, ◌≡◌, refl, sym, ap, ◌∙◌, true, false, Option, none, some, List, [], ◌∷◌,
  get_elem?, ltb, if◌then◌else◌, arith, Bool-cases, inl, inr,
}
use afl.Base.Str.{Str, str_eq, str_eq_iff}
use afl.Io.InternalFileSystem.{Node, node_name, find_node, erase_node}

abbrev pub later : Option ℕ → Option ℕ
later none = none
later (some i) = some (suc i)

-- `findIterator`
unfoldable pub find_iterator : Str → List Node → Option ℕ
find_iterator name [] = none
find_iterator name (n ∷ nodes) =
    if str_eq name (node_name n) then some 0 else later (find_iterator name nodes)

-- The list without the node at a place.
unfoldable pub without : List Node → ℕ → List Node
without [] i = []
without (n ∷ nodes) zero = nodes
without (n ∷ nodes) (suc i) = n ∷ without nodes i

-- `extractElement`: null for an iterator without a node.
abbrev pub extract_element : Option ℕ → List Node → Option Node × List Node
extract_element none nodes = (none, nodes)
extract_element (some i) nodes = (get_elem? nodes i, without nodes i)

-- What the loop in `extractElement` does to another iterator of the list: one to the same node has none any
-- more, and those behind it have the place before.
unfoldable pub after_extract : Option ℕ → Option ℕ → Option ℕ
after_extract none it = it
after_extract (some i) none = none
after_extract (some i) (some j) = if i == j then none else if ltb i j then some (j - 1) else some j

pub after_extract_self : (it : Option ℕ) → after_extract it it ≡ none
unfolding after_extract
after_extract_self none = refl
after_extract_self (some i) = ground arith

extract-later :
    (it : Option ℕ) (n : Node) (nodes : List Node)
    → extract_element (later it) (n ∷ nodes)
      ≡ ((extract_element it nodes).0, n ∷ (extract_element it nodes).1)
unfolding without
extract-later none n nodes = refl
extract-later (some i) n nodes = refl

-- What is extracted at the iterator that was found for a name is the first node with the name.
pub extract-found :
    (name : Str) (nodes : List Node)
    → extract_element (find_iterator name nodes) nodes
      ≡ (find_node name nodes, erase_node name nodes)
unfolding find_iterator find_node erase_node without
extract-found name [] = refl
extract-found name (n ∷ nodes) = elim (Bool-cases (str_eq name (node_name n))) [
  | inl e ↦ rw e refl
  | inr e ↦ rw e (
      extract-later (find_iterator name nodes) n nodes
      ∙ ap (λ r. (r.0, n ∷ r.1)) (extract-found name nodes))
]

after_front : (it : Option ℕ) → after_extract (some 0) (later it) ≡ it
unfolding after_extract
after_front none = refl
after_front (some j) = ground arith

before_rest : (it : Option ℕ) → after_extract (later it) (some 0) ≡ some 0
unfolding after_extract
before_rest none = refl
before_rest (some i) = ground arith

both_later : (i j : Option ℕ) → after_extract (later i) (later j) ≡ later (after_extract i j)
unfolding after_extract
both_later none none = refl
both_later none (some j) = refl
both_later (some i) none = refl
both_later (some i) (some j) = elim (Bool-cases (i == j)) [
  | inl e ↦ let k : (suc i == suc j) ≡ true = ground arith in rw (e, k) refl
  | inr e ↦
      let k : (suc i == suc j) ≡ false = ground arith in
      elim (Bool-cases (ltb i j)) [
        | inl b ↦
            let c : ltb (suc i) (suc j) ≡ true = ground arith in
            let m : suc j - 1 ≡ suc (j - 1) = ground arith in rw (e, k, b, c) (ap some m)
        | inr b ↦ let c : ltb (suc i) (suc j) ≡ false = ground arith in rw (e, k, b, c) refl
      ]
]

differ :
    (name other n : Str) → str_eq name other ≡ false → str_eq name n ≡ true → str_eq other n ≡ false
differ name other n h e = elim (Bool-cases (str_eq other n)) [
  | inl k ↦
      let same : name ≡ other = (str_eq_iff name n).0 e ∙ sym ((str_eq_iff other n).0 k) in
      let t = (str_eq_iff name other).1 same in cc
  | inr k ↦ k
]

-- An iterator that was found for a name stays the one for this name, while the node of another name is
-- extracted.
pub after_extract-found :
    (name other : Str) (nodes : List Node)
    → str_eq name other ≡ false
    → after_extract (find_iterator other nodes) (find_iterator name nodes)
      ≡ find_iterator name (erase_node other nodes)
unfolding find_iterator erase_node
after_extract-found name other [] h = unfold after_extract in refl
after_extract-found name other (n ∷ nodes) h = elim (Bool-cases (str_eq name (node_name n))) [
  | inl e ↦
      rw (e, differ name other (node_name n) h e)
        (before_rest (find_iterator other nodes) ∙ (rw e refl))
  | inr e ↦ elim (Bool-cases (str_eq other (node_name n))) [
    | inl k ↦ rw (e, k) (after_front (find_iterator name nodes))
    | inr k ↦
        rw (e, k)
          (both_later (find_iterator other nodes) (find_iterator name nodes)
            ∙ ap later (after_extract-found name other nodes h)
            ∙ (rw e refl))
  ]
]
