-- ===== src/Net/Redis/Spec/Sets.antt =====
-- String sets: members come and go one at a time.
use afl.Base.{ℕ, ◌≡◌, refl, ◌∙◌, none, some, [], ◌∷◌, not, ◌&&◌, ◌||◌, arith, if◌then◌else◌}
use afl.Base.Int.{pos}
use afl.Base.Str.{Str, bytes, str_eq}
use afl.Except.{ok}
use afl.Container.Map
use afl.Container.Map.{StrSet}
use afl.Text.Char.{str_ucase}
use afl.Data.Value.{Value, integer}
use afl.Data.Access.{to_string, to_integer}
use afl.Redis.Store.{Entry, Db, as_set, ◌>>=◌, ◌>>◌, eat_string, pure, store, when, remove}
use afl.Redis.Hashes.{is_empty}
use afl.Redis.Sets.{add, sadd, sadd_loop, srem, srem_loop, sismember}
use afl.Redis.Database.{call, execute, guarded}
use afl.Redis.Laws.{
  get_found, get_missing, create_found, create_new, find-insert_self, find-erase_self,
}
use afl.Redis.Spec.{command}
use afl.Redis.Spec.Sets.{contains-add}
use afl.Net.Handler.{optional_int}
use afl.Net.Redis.StringSetKey
use afl.Net.Redis.Spec.{database}

-- What stands at a key that holds a set, or nothing, is that set, or the empty one.
pub data HoldsSet (k : Str) (d : Db) : StrSet → Type 0 where
  absent : Map.find k d ≡ none → HoldsSet k d []
  present : (s : StrSet) → Map.find k d ≡ some (Entry.set s) → HoldsSet k d s

call-sismember :
    (roll : ℕ) (k x : Str) (s : StrSet) (d : Db)
    → HoldsSet k d s
    → call roll (command "SISMEMBER" (k ∷ x ∷ [])) d
      ≡ (ok (integer (if Map.contains x s then pos 1 else pos 0)), d)
unfolding call execute str_ucase str_eq sismember ◌>>=◌ eat_string pure to_string Map.find
call-sismember roll k x s d (absent h) = rw (get_missing as_set k d h, ◌>>=◌) refl
call-sismember roll k x s d (present _ h) = rw (get_found as_set k d _ s h refl, ◌>>=◌) refl

contains-eq :
    (r : ℕ) (k x : Str) (s : StrSet) (d : Db)
    → HoldsSet k d s
    → StringSetKey.contains (database r) k x d ≡ (ok (Map.contains x s), d)
unfolding optional_int to_integer
contains-eq r k x s d h = rw (call-sismember r k x s d h) (ground arith)

-- The set that `put` leaves at the key.
abbrev pub after_add : Str → Str → StrSet → Db → Db
after_add k x s d = Map.insert k (Entry.set (add x s)) d

abbrev pub created : {k : Str} {d : Db} {s : StrSet} → HoldsSet k d s → Db
created {k} {d} (absent h) = Map.insert k (Entry.set []) d
created {k} {d} (present s h) = d

call-sadd :
    (roll : ℕ) (k x : Str) (s : StrSet) (d : Db) (h : HoldsSet k d s)
    → call roll (command "SADD" (k ∷ x ∷ [])) d
      ≡ (ok (integer (pos (if Map.contains x s then 0 else 1))), after_add k x s (created h))
unfolding call execute str_ucase str_eq sadd sadd_loop ◌>>=◌ eat_string pure to_string store
call-sadd roll k x s d (absent h) = rw (create_new as_set k d Entry.set [] h, ◌>>=◌) refl
call-sadd roll k x s d (present _ h) =
    rw (create_found as_set k d Entry.set [] _ s h refl, ◌>>=◌) refl

-- `add` returns whether the string was new to the set, which may be missing before, and then `contains`
-- finds that string and those that were there.
pub add-contains :
    (r : ℕ) (k x y : Str) (s : StrSet) (d : Db)
    → HoldsSet k d s
    → let ch = database r in
      let (added, d') = StringSetKey.add ch k x d in
      (added ≡ ok (not (Map.contains x s)))
      × (StringSetKey.contains ch k y d' ≡ (ok (str_eq y x || Map.contains y s), d'))
unfolding optional_int to_integer
add-contains r k x y s d h = rw (call-sadd r k x s d h) (
  ground arith,
  contains-eq r k y (add x s) _ (present (add x s) (find-insert_self k _ _))
      ∙ rw (contains-add y x s) refl,
)

-- The data after SREM of one string.
abbrev pub after_remove : Str → StrSet → Db → Db
after_remove k s d =
    if is_empty s then Map.erase k (Map.insert k (Entry.set s) d) else Map.insert k (Entry.set s) d

srem_end :
    (k : Str) (s : StrSet) (v : Value) (d : Db)
    → guarded (bytes "SREM") (when (is_empty s) (remove k) >> pure v) (Map.insert k (Entry.set s) d)
      ≡ (ok v, after_remove k s d)
unfolding when remove pure ◌>>=◌
srem_end k [] v d = refl
srem_end k (x ∷ s) v d = refl

call-srem :
    (roll : ℕ) (k x : Str) (s : StrSet) (d : Db)
    → Map.find k d ≡ some (Entry.set s)
    → call roll (command "SREM" (k ∷ x ∷ [])) d
      ≡ (ok (integer (pos (if Map.contains x s then 1 else 0))), after_remove k (Map.erase x s) d)
unfolding call execute str_ucase str_eq srem srem_loop ◌>>=◌ eat_string pure to_string store when
    remove
call-srem roll k x s d h =
    rw (get_found as_set k d _ s h refl, ◌>>=◌) (srem_end k (Map.erase x s) _ d)

after_remove-HoldsSet : (k : Str) (s : StrSet) (d : Db) → HoldsSet k (after_remove k s d) s
after_remove-HoldsSet k [] d = absent (find-erase_self k _)
after_remove-HoldsSet k (x ∷ s) d = present (x ∷ s) (find-insert_self k _ d)

call-srem_missing :
    (roll : ℕ) (k x : Str) (d : Db)
    → Map.find k d ≡ none
    → call roll (command "SREM" (k ∷ x ∷ [])) d ≡ (ok (integer (pos 0)), d)
unfolding call execute str_ucase str_eq srem ◌>>=◌ eat_string pure to_string
call-srem_missing roll k x d h = rw (get_missing as_set k d h, ◌>>=◌) refl

-- `remove` returns whether the string was in the set, and then `contains` finds the others that were
-- there, also where the last one has gone and the key with it.
pub remove-contains :
    (r : ℕ) (k x y : Str) (s : StrSet) (d : Db)
    → HoldsSet k d s
    → let ch = database r in
      let (removed, d') = StringSetKey.remove ch k x d in
      (removed ≡ ok (Map.contains x s))
      × (StringSetKey.contains ch k y d' ≡ (ok (not (str_eq y x) && Map.contains y s), d'))
unfolding optional_int to_integer Map.find
remove-contains r k x y s d (absent h) =
    rw (call-srem_missing r k x d h) (refl, contains-eq r k y [] d (absent h) ∙ ground arith)
remove-contains r k x y s d (present _ h) = rw (call-srem r k x s d h) (
  ground arith,
  contains-eq r k y (Map.erase x s) _ (after_remove-HoldsSet k (Map.erase x s) d)
      ∙ ground (arith, Map.find-erase x y s),
)
