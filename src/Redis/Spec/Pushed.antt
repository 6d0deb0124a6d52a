-- ===== src/Redis/Spec/Pushed.antt =====
-- What was pushed onto a list is popped from it.
use afl.Base.{ℕ, suc, ◌≡◌, refl, sym, ap, Option, none, some, List, [], ◌∷◌, ◌++◌, length}
use afl.Base.Str.{Str, bytes, str_eq}
use afl.Except.{Result, ok}
use afl.Container.Map
use afl.Text.Char.{str_ucase}
use afl.Data.Value.{Value, string, integer}
use afl.Data.Access.{to_string}
use afl.Redis.Store.{Entry, Db, as_list, ◌>>=◌, ◌>>◌, eat_string, pure, store, remove, when, int32}
use afl.Redis.Lists.{
  lpush, lpush_loop, rpush, rpush_loop, lpop, rpop, put_back, pop_back_of, pop_back, back,
}
use afl.Redis.Database.{call, execute, with_verb}
use afl.Redis.Laws.{get_found, create_found, create_new, find-insert_self, find-erase_self}
use afl.Redis.Spec.{command}

-- The list at a key, the empty one where there is no key; none where something else is there.
abbrev pub held : Option Entry → Option (List Str)
held none = some []
held (some (Entry.list l)) = some l
held (some _) = none

-- An empty list is not kept.
abbrev pub kept : List Str → Option Entry
kept [] = none
kept (x ∷ xs) = some (Entry.list (x ∷ xs))

-- What a push leaves: the list, in some database.
abbrev Pushed : Str → List Str → Result Value × Db → Type 0
Pushed k l r = (r.0 ≡ ok (integer (int32 (length l)))) × (Map.find k r.1 ≡ some (Entry.list l))

abbrev Popped : Str → Str → List Str → Result Value × Db → Type 0
Popped k x l r = (r.0 ≡ ok (string x)) × (Map.find k r.1 ≡ kept l)

module _ (roll : ℕ) (k x : Str) (l : List Str) (d : Db) where
  lpush-found :
      (e : Option Entry)
      → Map.find k d ≡ e
      → held e ≡ some l
      → Pushed k (x ∷ l) (call roll (command "LPUSH" (k ∷ x ∷ [])) d)
  unfolding call execute str_ucase str_eq lpush lpush_loop ◌>>=◌ eat_string pure to_string store
  lpush-found none f h =
      let e : [] ≡ l = cc in
      rw (create_new as_list k d Entry.list [] f, ◌>>=◌, sym e) (refl, find-insert_self k _ _)
  lpush-found (some (Entry.list m)) f h =
      let e : m ≡ l = cc in
      rw (create_found as_list k d Entry.list [] _ m f refl, ◌>>=◌, sym e)
        (refl, find-insert_self k _ _)
  lpush-found (some (Entry.string s)) f h = cc
  lpush-found (some (Entry.hash s)) f h = cc
  lpush-found (some (Entry.set s)) f h = cc

  rpush-found :
      (e : Option Entry)
      → Map.find k d ≡ e
      → held e ≡ some l
      → Pushed k (l ++ (x ∷ [])) (call roll (command "RPUSH" (k ∷ x ∷ [])) d)
  unfolding call execute str_ucase str_eq rpush rpush_loop ◌>>=◌ eat_string pure to_string store
  rpush-found none f h =
      let e : [] ≡ l = cc in
      rw (create_new as_list k d Entry.list [] f, ◌>>=◌, sym e) (refl, find-insert_self k _ _)
  rpush-found (some (Entry.list m)) f h =
      let e : m ≡ l = cc in
      rw (create_found as_list k d Entry.list [] _ m f refl, ◌>>=◌, sym e)
        (refl, find-insert_self k _ _)
  rpush-found (some (Entry.string s)) f h = cc
  rpush-found (some (Entry.hash s)) f h = cc
  rpush-found (some (Entry.set s)) f h = cc

put_back-Popped :
    (k x : Str) (l : List Str) (d : Db) → Popped k x l ((put_back k l >> pure (string x)) d)
unfolding ◌>>=◌ pure store remove when
put_back-Popped k x [] d = (refl, find-erase_self k _)
put_back-Popped k x (y ∷ l) d = (refl, find-insert_self k _ _)

back-append : (y x : Str) (ys : List Str) → back y (ys ++ (x ∷ [])) ≡ x
unfolding back
back-append y x [] = refl
back-append y x (z ∷ ys) = back-append z x ys

pop_back-append : (x : Str) (l : List Str) → pop_back (l ++ (x ∷ [])) ≡ l
unfolding pop_back
pop_back-append x [] = refl
pop_back-append x (y ∷ []) = refl
pop_back-append x (y ∷ z ∷ l) = ap (◌∷◌ y) (pop_back-append x (z ∷ l))

pop_back_of-append :
    (k x : Str) (l : List Str) → pop_back_of k (l ++ (x ∷ [])) ≡ (put_back k l >> pure (string x))
pop_back_of-append k x [] = unfold back pop_back in refl
pop_back_of-append k x (y ∷ ys) = rw (back-append y x ys, pop_back-append x (y ∷ ys)) refl

lpop-front :
    (roll : ℕ) (k x : Str) (l : List Str) (d : Db)
    → Map.find k d ≡ some (Entry.list (x ∷ l))
    → Popped k x l (call roll (command "LPOP" (k ∷ [])) d)
unfolding call execute str_ucase str_eq lpop eat_string to_string ◌>>=◌ pure
lpop-front roll k x l d f =
    let (p, e) = put_back-Popped k x l d in
    rw (get_found as_list k d _ (x ∷ l) f refl, ◌>>=◌) (ap (with_verb (bytes "LPOP")) p, e)

rpop-back :
    (roll : ℕ) (k x : Str) (l : List Str) (d : Db)
    → Map.find k d ≡ some (Entry.list (l ++ (x ∷ [])))
    → Popped k x l (call roll (command "RPOP" (k ∷ [])) d)
unfolding call execute str_ucase str_eq rpop eat_string to_string ◌>>=◌ pure
rpop-back roll k x l d f =
    let (p, e) = put_back-Popped k x l d in
    rw (get_found as_list k d _ (l ++ (x ∷ [])) f refl, ◌>>=◌, pop_back_of-append k x l)
      (ap (with_verb (bytes "RPOP")) p, e)

-- Where a key holds a list or nothing, LPUSH of a value returns the new size as an int32_t, and LPOP then returns the value and
-- leaves the list as it was, without a key for an empty list; RPUSH and RPOP do the same at the other end.
pub pushed-popped :
    (r r' : ℕ) (k x : Str) (l : List Str) (d : Db)
    → held (Map.find k d) ≡ some l
    → let (lpushed, d') = call r (command "LPUSH" (k ∷ x ∷ [])) d in
      let (lpopped, d'') = call r' (command "LPOP" (k ∷ [])) d' in
      let (rpushed, e') = call r (command "RPUSH" (k ∷ x ∷ [])) d in
      let (rpopped, e'') = call r' (command "RPOP" (k ∷ [])) e' in
      (lpushed ≡ ok (integer (int32 (suc (length l)))))
      × (lpopped ≡ ok (string x))
      × (Map.find k d'' ≡ kept l)
      × (rpushed ≡ ok (integer (int32 (length (l ++ (x ∷ []))))))
      × (rpopped ≡ ok (string x))
      × (Map.find k e'' ≡ kept l)
pushed-popped r r' k x l d h =
    let (p, f) = lpush-found r k x l d (Map.find k d) refl h in
    let (q, g) = lpop-front r' k x l _ f in
    let (p', f') = rpush-found r k x l d (Map.find k d) refl h in
    let (q', g') = rpop-back r' k x l _ f' in (p, q, g, p', q', g')
