-- ===== src/Net/Redis/Spec/Lists.antt =====
-- String lists: what was pushed is read.
use afl.Base.{
  ◌-◌, ℕ, suc, ◌^◌, ◌<◌, ◌≡◌, refl, ◌∙◌, none, some, [], ◌∷◌, ◌++◌, List, length, map, take_all,
  arith, length-append,
}
use afl.Base.Int.{pos, negsuc, wrap32-eq}
use afl.Base.Str.{Str, bytes, str_eq}
use afl.Except.{ok}
use afl.Container.Map
use afl.Text.Char.{str_ucase}
use afl.Data.Value.{Value, string, integer, vector, items}
use afl.Data.Access.{to_string, to_integer, array_items, each_string}
use afl.Redis.Store
use afl.Redis.Store.{Entry, Db, as_list, eat_string, eat_integer, pure, store, int32}
use afl.Redis.Lists.{rpush, rpush_loop, lrange, range, convert_index}
use afl.Redis.Database.{call, execute}
use afl.Redis.Laws.{get_found, create_found, create_new, find-insert_self}
use afl.Redis.Spec.{command}
use afl.Redis.Spec.Lists.{range-eq}
use afl.Net.Handler.{optional_int}
use afl.Net.Redis.StringListKey
use afl.Net.Redis.Spec.{database}

-- What stands at a key that holds a list, or nothing, is that list, or the empty one.
pub data HoldsList (k : Str) (d : Db) : List Str → Type 0 where
  absent : Map.find k d ≡ none → HoldsList k d []
  present : (l : List Str) → Map.find k d ≡ some (Entry.list l) → HoldsList k d l

abbrev pub created : {k : Str} {d : Db} {l : List Str} → HoldsList k d l → Db
created {k} {d} (absent h) = Map.insert k (Entry.list []) d
created {k} {d} (present l h) = d

call-rpush :
    (roll : ℕ) (k x : Str) (l : List Str) (d : Db) (h : HoldsList k d l)
    → call roll (command "RPUSH" (k ∷ x ∷ [])) d ≡ (
      ok (integer (int32 (length (l ++ (x ∷ []))))),
      Map.insert k (Entry.list (l ++ (x ∷ []))) (created h),
    )
unfolding call execute str_ucase str_eq rpush rpush_loop Store.◌>>=◌ eat_string pure to_string store
call-rpush roll k x l d (absent h) = rw (create_new as_list k d Entry.list [] h, Store.◌>>=◌) refl
call-rpush roll k x l d (present _ h) =
    rw (create_found as_list k d Entry.list [] _ l h refl, Store.◌>>=◌) refl

each_string-items : (l : List Str) → each_string (items (map string l)) ≡ ok l
unfolding each_string items to_string
each_string-items [] = refl
each_string-items (x ∷ l) = rw (each_string-items l) refl

abbrev pub all_of : Str → List Value
all_of k = string (bytes "LRANGE") ∷ string k ∷ integer (pos 0) ∷ integer (negsuc 0) ∷ []

range_all :
    (l : List Str)
    → length l < 2 ^ 31
    → range l (convert_index (length l) (pos 0)) (convert_index (length l) (negsuc 0)) ≡ l
unfolding convert_index
range_all l h =
    let last : ℕ = convert_index (length l) (negsuc 0) in
    range-eq l 0 last ∙ take_all (suc last - 0) l (omega arith)

call-lrange_all :
    (roll : ℕ) (k : Str) (l : List Str) (d : Db)
    → Map.find k d ≡ some (Entry.list l)
    → length l < 2 ^ 31
    → call roll (all_of k) d ≡ (ok (vector (items (map string l))), d)
unfolding call execute str_ucase str_eq lrange Store.◌>>=◌ eat_string eat_integer pure to_string
    to_integer
call-lrange_all roll k l d h b =
    rw (get_found as_list k d _ l h refl, Store.◌>>=◌, range_all l b) refl

get_all-eq :
    (r : ℕ) (k : Str) (l : List Str) (d : Db)
    → Map.find k d ≡ some (Entry.list l)
    → length l < 2 ^ 31
    → StringListKey.get_all (database r) k d ≡ (ok l, d)
unfolding array_items
get_all-eq r k l d h b = rw (call-lrange_all r k l d h b) (rw (each_string-items l) refl)

-- `pushBack` to a list, which may be missing before, returns the new number of elements, and `getAll`
-- then returns those that were there and the new one at the end; a list may have 2^31 - 1 elements.
pub push_back-get_all :
    (r : ℕ) (k x : Str) (l : List Str) (d : Db)
    → HoldsList k d l
    → suc (length l) < 2 ^ 31
    → let ch = database r in
      let (size, d') = StringListKey.push_back ch k x d in
      (size ≡ ok (pos (suc (length l))))
      × (StringListKey.get_all ch k d' ≡ (ok (l ++ (x ∷ [])), d'))
unfolding optional_int to_integer
push_back-get_all r k x l d h b =
    let size : length (l ++ (x ∷ [])) ≡ suc (length l) = omega (arith, length-append l (x ∷ [])) in
    rw (call-rpush r k x l d h) (
      rw (size, wrap32-eq (pos (suc (length l))) (b, omega arith)) refl,
      get_all-eq r k (l ++ (x ∷ [])) _ (find-insert_self k _ _) (omega (arith, size)),
    )
