-- ===== src/Io/InternalFileSystem/Valid/Moves.antt =====
-- Moves keep the names of all directories in order, where the new name can stand in a path.
use afl.Base.{
  ℕ, false, Option, none, some, List, [], ◌∷◌, ◌≡◌, refl, inl, inr, Bool-cases, zero, suc,
  get_elem?, set, ◌⊎◌, sym, ap, ◌∙◌, subst, ◌==◌, arith, true, if◌then◌else◌,
}
use afl.Base.Str.{Str, str_eq, str_eq_iff}
use afl.Io.InternalFileSystem.Iterators.{
  find_iterator, extract_element, after_extract, after_extract_self, extract-found,
  after_extract-found,
}
use afl.Io.InternalFileSystem.{
  Node, file, directory, Store, Dir, content_of, is_bad_component, find_node, nodes_at, node_name,
  with_name, erase_node, set_nodes, or_nothing,
}
use afl.Io.InternalFileSystem.Entries.{
  move_over, move_found, do_move_to, move_extracted, move_element, source_iterator, source_after,
  erase_target,
}
use afl.Io.InternalFileSystem.Valid.{AreNamed, IsTidy, find-erase, find-erase_self}
use afl.Io.InternalFileSystem.Valid.Operations.{Keeps, push-IsTidy, erase-IsTidy}

erase-missing :
    (x y : Str) (ls : List (List Node)) (i j : ℕ)
    → find_node x (or_nothing (get_elem? ls j)) ≡ none
    → find_node x (or_nothing (get_elem? (set ls i (erase_node y (or_nothing (get_elem? ls i)))) j))
      ≡ none
erase-missing x y [] i j h = h
erase-missing x y (l ∷ ls) zero zero h = find-erase y x l h
erase-missing x y (l ∷ ls) zero (suc j) h = h
erase-missing x y (l ∷ ls) (suc i) zero h = h
erase-missing x y (l ∷ ls) (suc i) (suc j) h = erase-missing x y ls i j h

pub erased-missing :
    (x : Str) (ls : List (List Node)) (i : ℕ)
    → AreNamed (or_nothing (get_elem? ls i))
    → find_node x (or_nothing (get_elem? (set ls i (erase_node x (or_nothing (get_elem? ls i)))) i))
      ≡ none
unfolding find_node
erased-missing x [] i h = refl
erased-missing x (l ∷ ls) zero h = find-erase_self x l h
erased-missing x (l ∷ ls) (suc i) h = erased-missing x ls i h

named-with : (y : Str) (n : Node) → node_name (with_name y n) ≡ y
named-with y (file m i) = refl
named-with y (directory m i) = refl

move_found_node-Keeps :
    (dir : Dir) (name : Str) (to : Dir) (new_name : Str) (o : Option Node) (d : Store)
    → is_bad_component new_name ≡ false
    → find_node new_name (nodes_at d (content_of to)) ≡ none
    → IsTidy d
    → IsTidy
        (move_extracted dir name to new_name (o, erase_node name (nodes_at d (content_of dir))) d).1
move_found_node-Keeps dir name to new_name none d b f t = t
move_found_node-Keeps dir name to new_name (some n) d b f t =
    push-IsTidy (content_of to) (with_name new_name n)
      (set_nodes (content_of dir) (erase_node name (nodes_at d (content_of dir))) d)
      (erase-IsTidy (content_of dir) name d t) (rw (named-with new_name n) b)
      (rw (named-with new_name n)
        (erase-missing new_name name d.lists (content_of dir) (content_of to) f))

-- An iterator is the one that is found for the name, or has no node.
move_element-Keeps :
    (dir : Dir) (name : Str) (it : Option ℕ) (to : Dir) (new_name : Str) (d : Store)
    → (it ≡ source_iterator dir name d) ⊎ (it ≡ none)
    → is_bad_component new_name ≡ false
    → find_node new_name (nodes_at d (content_of to)) ≡ none
    → IsTidy d
    → IsTidy (move_element dir name it to new_name d).1
move_element-Keeps dir name it to new_name d (inl e) b f t =
    subst (λ x. IsTidy (move_extracted dir name to new_name x d).1)
      (sym (
        ap (λ i. extract_element i (nodes_at d (content_of dir))) e
        ∙ extract-found name (nodes_at d (content_of dir))))
      (move_found_node-Keeps dir name to new_name _ d b f t)
move_element-Keeps dir name it to new_name d (inr e) b f t =
    subst (λ i. IsTidy (move_element dir name i to new_name d).1) (sym e) t

other_list :
    (ls : List (List Node)) (i j : ℕ) (nodes : List Node)
    → (i == j) ≡ false
    → or_nothing (get_elem? (set ls i nodes) j) ≡ or_nothing (get_elem? ls j)
other_list [] i j nodes h = refl
other_list (l ∷ ls) zero zero nodes h = cc
other_list (l ∷ ls) zero (suc j) nodes h = refl
other_list (l ∷ ls) (suc i) zero nodes h = refl
other_list (l ∷ ls) (suc i) (suc j) nodes h = other_list ls i j nodes (ground arith)

same_list :
    (ls : List (List Node)) (i : ℕ) (name : Str)
    → or_nothing (get_elem? (set ls i (erase_node name (or_nothing (get_elem? ls i)))) i)
      ≡ erase_node name (or_nothing (get_elem? ls i))
unfolding erase_node
same_list [] i name = refl
same_list (l ∷ ls) zero name = refl
same_list (l ∷ ls) (suc i) name = same_list ls i name

pub erase_target-erase :
    (dir : Dir) (name : Str) (to : Dir) (new_name : Str) (d : Store)
    → erase_target dir name to new_name d
      ≡ set_nodes (content_of to) (erase_node new_name (nodes_at d (content_of to))) d
erase_target-erase dir name to new_name d =
    ap (λ r. set_nodes (content_of to) r.1 d) (extract-found new_name (nodes_at d (content_of to)))

-- After the target was erased, the iterator to the source is the one for its name, or has no node.
source_after-found :
    (name new_name : Str) (ls : List (List Node)) (i j : ℕ)
    → let it = find_iterator name (or_nothing (get_elem? ls j)) in
      let after =
        if i == j
        then after_extract (find_iterator new_name (or_nothing (get_elem? ls i))) it
        else it in
      let ls' = set ls i (erase_node new_name (or_nothing (get_elem? ls i))) in
      (after ≡ find_iterator name (or_nothing (get_elem? ls' j))) ⊎ (after ≡ none)
source_after-found name new_name ls i j = elim (Bool-cases (i == j)) [
  | inr e ↦ rw e (inl (ap (find_iterator name) (sym (other_list ls i j _ e))))
  | inl e ↦
      let p : j ≡ i = ground arith in
      subst
        (λ k.
          let it = find_iterator name (or_nothing (get_elem? ls k)) in
          let after =
            if i == k
            then after_extract (find_iterator new_name (or_nothing (get_elem? ls i))) it
            else it in
          let ls' = set ls i (erase_node new_name (or_nothing (get_elem? ls i))) in
          (after ≡ find_iterator name (or_nothing (get_elem? ls' k))) ⊎ (after ≡ none))
        (sym p) (in_same_list i (ground arith))
]
  where
    in_same_list :
        (k : ℕ)
        → (k == k) ≡ true
        → let nodes = or_nothing (get_elem? ls k) in
          let after =
            if k == k
            then after_extract (find_iterator new_name nodes) (find_iterator name nodes)
            else find_iterator name nodes in
          (after
            ≡ find_iterator name (or_nothing (get_elem? (set ls k (erase_node new_name nodes)) k)))
          ⊎ (after ≡ none)
    in_same_list k r = elim (Bool-cases (str_eq name new_name)) [
      | inl same ↦ rw (r, (str_eq_iff name new_name).0 same) (inr (after_extract_self _))
      | inr apart ↦ rw r (
          inl (
            after_extract-found name new_name (or_nothing (get_elem? ls k)) apart
            ∙ ap (find_iterator name) (sym (same_list ls k new_name))))
    ]

move_over-Keeps :
    (dir : Dir) (name : Str) (to : Dir) (new_name : Str) (n : Node) (o : Option Node) (d : Store)
    → is_bad_component new_name ≡ false
    → find_node new_name (nodes_at d (content_of to)) ≡ o
    → IsTidy d
    → IsTidy (move_over dir name to new_name n o d).1
move_over-Keeps dir name to new_name (file m i) none d b f t =
    move_element-Keeps dir name _ to new_name d (inl refl) b f t
move_over-Keeps dir name to new_name (directory m i) none d b f t =
    move_element-Keeps dir name _ to new_name d (inl refl) b f t
move_over-Keeps dir name to new_name (file m i) (some (directory u j)) d b f t = t
move_over-Keeps dir name to new_name (directory m i) (some u) d b f t = t
move_over-Keeps dir name to new_name (file m i) (some (file u j)) d b f t =
    subst
      (λ s. IsTidy (move_element dir name (source_after dir name to new_name d) to new_name s).1)
      (sym (erase_target-erase dir name to new_name d))
      (move_element-Keeps dir name (source_after dir name to new_name d) to new_name
        (set_nodes (content_of to) (erase_node new_name (nodes_at d (content_of to))) d)
        (source_after-found name new_name d.lists (content_of to) (content_of dir)) b
        (erased-missing new_name d.lists (content_of to) (t (content_of to)))
        (erase-IsTidy (content_of to) new_name d t))

move_found-Keeps :
    (dir : Dir) (name : Str) (to : Dir) (new_name : Str) (o : Option Node)
    → is_bad_component new_name ≡ false
    → Keeps (move_found dir name to new_name o)
move_found-Keeps dir name to new_name none b d t = t
move_found-Keeps dir name to new_name (some n) b d t =
    move_over-Keeps dir name to new_name n _ d b refl t

pub do_move_to-Keeps :
    (dir : Dir) (name : Str) (to : Dir) (new_name : Str)
    → is_bad_component new_name ≡ false
    → Keeps (do_move_to dir name to new_name)
unfolding do_move_to
do_move_to-Keeps dir name to new_name b d t = move_found-Keeps dir name to new_name _ b d t
