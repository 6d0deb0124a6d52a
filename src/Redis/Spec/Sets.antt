-- ===== src/Redis/Spec/Sets.antt =====
-- Sets: the set operations by membership, and what SMOVE does.
use afl.Base.{ℕ, ◌≡◌, refl, ◌∙◌, none, some, Bool, true, false, not, ◌&&◌, ◌||◌}
use afl.Base.{[], ◌∷◌, arith}
use afl.Base.Str.{Str, bytes, str_eq, str_eq_iff}
use afl.Except.{err, runtime_error}
use afl.Container.Map
use afl.Container.Map.{StrSet}
use afl.Data.Access.{to_string}
use afl.Redis.Store.{
  Entry, Db, as_set, ◌>>=◌, eat_string, store, invalid_type, fail, get_create, get,
}
use afl.Redis.Sets.{
  add, SetOperation, difference, intersection, union, subtract, intersect, unite, combine, smove,
  move_member,
}
use afl.Redis.Database.{call, execute, with_verb}
use afl.Redis.Laws.{get_found, get_eq, find-insert_self}
use afl.Redis.Spec.{command}
use afl.Text.Char.{str_ucase}

contains-subtract :
    (x : Str) (s t : StrSet)
    → Map.contains x (subtract s t) ≡ (Map.contains x s && not (Map.contains x t))
unfolding subtract Map.find
contains-subtract x [] t = refl
contains-subtract x ((y, u) ∷ s) t = ground (arith, str_eq_iff x y, contains-subtract x s t)

contains-intersect :
    (x : Str) (s t : StrSet)
    → Map.contains x (intersect s t) ≡ (Map.contains x s && Map.contains x t)
unfolding intersect Map.find
contains-intersect x [] t = refl
contains-intersect x ((y, u) ∷ s) t = ground (arith, str_eq_iff x y, contains-intersect x s t)

pub contains-add :
    (x y : Str) (s : StrSet) → Map.contains x (add y s) ≡ (str_eq x y || Map.contains x s)
contains-add x y s = ground (arith, Map.find-insert y x tt s)

contains-unite :
    (x : Str) (s t : StrSet) → Map.contains x (unite s t) ≡ (Map.contains x s || Map.contains x t)
unfolding unite Map.find
contains-unite x s [] = ground arith
contains-unite x s ((y, u) ∷ t) = ground (arith, contains-unite x (add y s) t, contains-add x y s)

-- What an operation on sets means for one member.
abbrev pub meaning : SetOperation → Bool → Bool → Bool
meaning difference a b = a && not b
meaning intersection a b = a && b
meaning union a b = a || b

-- A string is in the combination of two sets exactly where the Boolean operation says so: in the first
-- and not the second for a difference, in both for an intersection, in either for a union.
pub contains-combine :
    (op : SetOperation) (x : Str) (s t : StrSet)
    → Map.contains x (combine op s t) ≡ meaning op (Map.contains x s) (Map.contains x t)
contains-combine difference x s t = contains-subtract x s t
contains-combine intersection x s t = contains-intersect x s t
contains-combine union x s t = contains-unite x s t

get_wrong_set :
    (k : Str) (e : Entry) (d : Db)
    → Map.find k d ≡ some e
    → as_set e ≡ none
    → get as_set k d ≡ (fail invalid_type d)
get_wrong_set k e d h c = get_eq as_set k d (some e) h ∙ rw c refl

move_member_wrong :
    (k dest x : Str) (s : StrSet) (e : Entry) (d : Db)
    → str_eq dest k ≡ false
    → Map.find dest d ≡ some e
    → as_set e ≡ none
    → move_member k dest x s d ≡ fail invalid_type (Map.insert k (Entry.set (Map.erase x s)) d)
unfolding ◌>>=◌ store get_create fail
move_member_wrong k dest x s e d ne h c =
    let f : Map.find dest (Map.insert k (Entry.set (Map.erase x s)) d) ≡ some e =
      Map.find-insert k dest (Entry.set (Map.erase x s)) d ∙ rw ne h in
    rw (get_wrong_set dest e _ f c, get_create, ◌>>=◌) refl

call-smove :
    (roll : ℕ) (k dest x : Str) (s : StrSet) (d : Db)
    → Map.find k d ≡ some (Entry.set s)
    → Map.contains x s ≡ true
    → call roll (command "SMOVE" (k ∷ dest ∷ x ∷ [])) d
      ≡ (with_verb (bytes "SMOVE") (move_member k dest x s d).0, (move_member k dest x s d).1)
unfolding call execute str_ucase str_eq smove ◌>>=◌ eat_string to_string
call-smove roll k dest x s d h m = rw (get_found as_set k d _ s h refl, ◌>>=◌, m) refl

-- SMOVE of a member to another key that holds something else than a set fails, and the member has gone
-- from its set by then; the other key holds what it held.
pub smove_loses_member :
    (roll : ℕ) (k dest x : Str) (s : StrSet) (e : Entry) (d : Db)
    → str_eq dest k ≡ false
    → Map.find k d ≡ some (Entry.set s)
    → Map.contains x s ≡ true
    → Map.find dest d ≡ some e
    → as_set e ≡ none
    → let (r, d') = call roll (command "SMOVE" (k ∷ dest ∷ x ∷ [])) d in
      (r ≡ err (runtime_error (bytes "Invalid type [verb: SMOVE]")))
      × (Map.find k d' ≡ some (Entry.set (Map.erase x s)))
      × (Map.find dest d' ≡ some e)
unfolding fail
smove_loses_member roll k dest x s e d ne h m g c =
    rw (call-smove roll k dest x s d h m, move_member_wrong k dest x s e d ne g c)
      (refl, find-insert_self k _ d, Map.find-insert k dest _ d ∙ rw ne g)
