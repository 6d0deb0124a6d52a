-- ===== src/Redis/Spec/Strings.antt =====
-- Strings: what was set is read back, and numbers are counted.
use afl.Base.{ℕ, ◌≡◌, refl, none, some, List, [], ◌∷◌, if◌then◌else◌, arith, ◌∙◌, ap}
use afl.Base.Int.{ℤ, pos, IsInt32, ◌+ℤ◌, wrap32-IsInt32}
use afl.Base.Str.{Str, bytes, str_eq}
use afl.Except.{Result, ok}
use afl.Container.Map
use afl.Text.Char.{str_ucase}
use afl.Text.Number.{format_signed}
use afl.Text.Number.RoundTrip.{str_to_integer-format_signed, format_signed_cons}
use afl.Data.Value.{Value, string, integer}
use afl.Data.Access.{to_string, to_integer}
use afl.Redis.Store.{
  Entry, Db, add32, as_string, ◌>>=◌, eat_string, eat_integer, pure, remove, store,
}
use afl.Redis.Strings.{set_value, assign, get_value, incrby, modify, number_of}
use afl.Redis.Database.{call, execute, guarded, with_verb}
use afl.Redis.Laws.{get_found, create_new, create_found, find-insert_self, find-erase_self}
use afl.Redis.Spec.{command}

pub assign_eq :
    (k v : Str) (d : Db)
    → assign k v d
      ≡ (ok tt, Map.insert k (Entry.string v) (Map.insert k (Entry.string []) (Map.erase k d)))
unfolding assign ◌>>=◌ remove store
assign_eq k v d =
    rw (create_new as_string k (Map.erase k d) Entry.string [] (find-erase_self k d), ◌>>=◌) refl

-- The data after SET.
abbrev pub assigned : Str → Str → Db → Db
assigned k v d = Map.insert k (Entry.string v) (Map.insert k (Entry.string []) (Map.erase k d))

find-assigned :
    (k j v : Str) (d : Db)
    → Map.find j (assigned k v d) ≡ (if str_eq j k then some (Entry.string v) else Map.find j d)
find-assigned k j v d = ground (
  arith,
  Map.find-insert k j (Entry.string v) (Map.insert k (Entry.string []) (Map.erase k d)),
  Map.find-insert k j (Entry.string []) (Map.erase k d),
  Map.find-erase k j d,
)

pub call-set :
    (roll : ℕ) (k v : Str) (d : Db)
    → call roll (command "SET" (k ∷ v ∷ [])) d ≡ (ok (string (bytes "OK")), assigned k v d)
unfolding call execute str_ucase str_eq set_value ◌>>=◌ eat_string pure to_string
call-set roll k v d = rw (assign_eq k v d, ◌>>=◌) refl

pub call-get :
    (roll : ℕ) (k v : Str) (d : Db)
    → Map.find k d ≡ some (Entry.string v)
    → call roll (command "GET" (k ∷ [])) d ≡ (ok (string v), d)
unfolding call execute str_ucase str_eq get_value ◌>>=◌ eat_string pure to_string
call-get roll k v d h = rw (get_found as_string k d _ v h refl, ◌>>=◌) refl

-- SET succeeds whatever was at the key, GET then returns the value that was set, and each key but that
-- one holds what it held.
pub get-set :
    (r r' : ℕ) (k j v : Str) (d : Db)
    → let d' = (call r (command "SET" (k ∷ v ∷ [])) d).1 in
      ((call r (command "SET" (k ∷ v ∷ [])) d).0 ≡ ok (string (bytes "OK")))
      × ((call r' (command "GET" (k ∷ [])) d').0 ≡ ok (string v))
      × (Map.find j d' ≡ (if str_eq j k then some (Entry.string v) else Map.find j d))
get-set r r' k j v d =
    rw (call-set r k v d)
      (refl, ap (λ x. x.0) (call-get r' k v _ (find-insert_self k _ _)), find-assigned k j v d)

pub number_of-format_signed : (n : ℤ) → IsInt32 n → number_of (format_signed n) ≡ some n
number_of-format_signed n h =
    let (c, s, e) = format_signed_cons n in rw e (rw e at (str_to_integer-format_signed n h))

modify_eq :
    (k s : Str) (n a : ℤ) (d : Db)
    → Map.find k d ≡ some (Entry.string s)
    → number_of s ≡ some n
    → modify k a d
      ≡ (ok (integer (add32 n a)), Map.insert k (Entry.string (format_signed (add32 n a))) d)
unfolding modify ◌>>=◌ store pure
modify_eq k s n a d h e =
    rw (create_found as_string k d Entry.string [] _ s h refl, ◌>>=◌) (rw e refl)

modify_new :
    (k : Str) (a : ℤ) (d : Db)
    → Map.find k d ≡ none
    → modify k a d ≡ (
      ok (integer (add32 (pos 0) a)),
      Map.insert k
          (Entry.string (format_signed (add32 (pos 0) a)))
          (Map.insert k (Entry.string []) d),
    )
unfolding modify ◌>>=◌ store pure
modify_new k a d h = rw (create_new as_string k d Entry.string [] h, ◌>>=◌) refl

abbrev pub incrby_command : Str → ℤ → List Value
incrby_command k a = string (bytes "INCRBY") ∷ string k ∷ integer a ∷ []

call-incrby :
    (roll : ℕ) (k : Str) (a : ℤ) (d : Db)
    → call roll (incrby_command k a) d ≡ guarded (bytes "INCRBY") (modify k a) d
unfolding call execute str_ucase str_eq incrby ◌>>=◌ eat_string eat_integer to_string to_integer
call-incrby roll k a d = refl

pub call-incrby_eq :
    (roll : ℕ) (k s : Str) (n a : ℤ) (d : Db)
    → Map.find k d ≡ some (Entry.string s)
    → number_of s ≡ some n
    → call roll (incrby_command k a) d
      ≡ (ok (integer (add32 n a)), Map.insert k (Entry.string (format_signed (add32 n a))) d)
call-incrby_eq roll k s n a d h e = call-incrby roll k a d ∙ rw (modify_eq k s n a d h e) refl

-- A key that is not there counts from zero: two INCRBYs return the running sums as int32_t, and GET
-- then returns the decimal text of the second.
pub incrby-incrby :
    (r r' r'' : ℕ) (k : Str) (a b : ℤ) (d : Db)
    → Map.find k d ≡ none
    → let first = call r (incrby_command k a) d in
      let second = call r' (incrby_command k b) first.1 in
      let sum = add32 (add32 (pos 0) a) b in
      (first.0 ≡ ok (integer (add32 (pos 0) a)))
      × (second.0 ≡ ok (integer sum))
      × ((call r'' (command "GET" (k ∷ [])) second.1).0 ≡ ok (string (format_signed sum)))
incrby-incrby r r' r'' k a b d h =
    let m = add32 (pos 0) a in
    let d1 = Map.insert k (Entry.string (format_signed m)) (Map.insert k (Entry.string []) d) in
    let s1 =
      call-incrby r k a d
      ∙ ap (λ (x : Result Value × Db). (with_verb (bytes "INCRBY") x.0, x.1))
          (modify_new k a d h) in
    let s2 =
      call-incrby_eq r' k (format_signed m) m b d1 (find-insert_self k _ _)
        (number_of-format_signed m (wrap32-IsInt32 (pos 0 +ℤ a))) in
    rw s1
      (refl, ap (λ x. x.0) s2, rw s2 (ap (λ x. x.0) (call-get r'' k _ _ (find-insert_self k _ _))))
