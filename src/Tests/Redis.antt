-- ===== src/Tests/Redis.antt =====
-- The database at a few keys.
use afl.Base.{map, ◌+◌, ◌≡◌, refl, arith, List, [], ◌∷◌, some, if◌then◌else◌, true}
use afl.Base.Int.{pos, negsuc}
use afl.Base.Str.{Str, bytes, str_eq}
use afl.Except.{ok, err, runtime_error, remote_error}
use afl.Container.Map
use afl.Data.Value.{vector, items, string, integer, null}
use afl.Redis.Store.{Entry, Db, add32, int32, actions, get}
use afl.Redis.Keys.{exists, exists_loop}
use afl.Redis.Strings.{get_value}
use afl.Data.Access.{to_string}
use afl.Redis.Lists.{trim, remove_count}
use afl.Redis.Sets.{combine, difference}
use afl.Redis.Database.{call, execute}
use afl.Redis.Reads.Call.{reading, call-reading}
use afl.Redis.Spec.{command}
use afl.Redis.Spec.Strings.{get-set, incrby-incrby, incrby_command}
use afl.Redis.Spec.Lists.{trim-eq}
use afl.Redis.Spec.Pushed.{pushed-popped}
use afl.Redis.Spec.Ranges.{lrange-selected}
use afl.Redis.Spec.Removal.{
  remove_count-eq, removed, magnitude, occurrences, others, lrem_leaves_empty,
}
use afl.Redis.Spec.Sets.{contains-combine, smove_loses_member}
use afl.Text.Char.{str_ucase}
use afl.Text.Number.{format_signed}

abbrev a : Str
a = bytes "a"

abbrev b : Str
b = bytes "b"

abbrev c : Str
c = bytes "c"

abbrev letters : List Str
letters = a ∷ b ∷ c ∷ []

-- A set at "a", a string at "b" and a list at "c".
abbrev some_keys : Db
some_keys =
    (a, Entry.set ((c, tt) ∷ []))
    ∷ (b, Entry.string (bytes "7"))
    ∷ (c, Entry.list (b ∷ b ∷ []))
    ∷ []

-- A null element leaves the variable as it was, and a null verb is none.
null_elements :
    ((call 0 (string (bytes "EXISTS") ∷ string a ∷ null ∷ []) some_keys).0 ≡ ok (integer (pos 2)))
    × ((call 0 (string (bytes "GET") ∷ null ∷ []) some_keys).0 ≡ ok null)
    × ((call 0 (null ∷ []) some_keys).0
        ≡ err (remote_error (bytes "<InternalDatabase>") (bytes "Missing command")))
unfolding call execute str_ucase str_eq exists exists_loop get_value actions to_string Map.find get
null_elements = (refl, refl, refl)

call-reading_example : (call 5 (command "srandmember" (a ∷ [])) some_keys).1 ≡ some_keys
unfolding reading str_eq str_ucase
call-reading_example = call-reading 5 (bytes "srandmember") (string a ∷ []) some_keys refl

abbrev after_set : Db
after_set = (call 0 (command "SET" (a ∷ c ∷ [])) some_keys).1

get-set_example :
    ((call 0 (command "SET" (a ∷ c ∷ [])) some_keys).0 ≡ ok (string (bytes "OK")))
    × ((call 0 (command "GET" (a ∷ [])) after_set).0 ≡ ok (string c))
    × (Map.find b after_set ≡ (if str_eq b a then some (Entry.string c) else Map.find b some_keys))
get-set_example = get-set 0 0 a b c some_keys

abbrev counted : Db
counted = (call 0 (incrby_command (bytes "n") (pos 5)) some_keys).1

abbrev counted_twice : Db
counted_twice = (call 0 (incrby_command (bytes "n") (negsuc 6)) counted).1

incrby-incrby_example :
    ((call 0 (incrby_command (bytes "n") (pos 5)) some_keys).0
      ≡ ok (integer (add32 (pos 0) (pos 5))))
    × ((call 0 (incrby_command (bytes "n") (negsuc 6)) counted).0
        ≡ ok (integer (add32 (add32 (pos 0) (pos 5)) (negsuc 6))))
    × ((call 0 (command "GET" (bytes "n" ∷ [])) counted_twice).0
        ≡ ok (string (format_signed (add32 (add32 (pos 0) (pos 5)) (negsuc 6)))))
unfolding Map.find str_eq
incrby-incrby_example = incrby-incrby 0 0 0 (bytes "n") (pos 5) (negsuc 6) some_keys refl

abbrev l_pushed : Db
l_pushed = (call 0 (command "LPUSH" (c ∷ a ∷ [])) some_keys).1

abbrev r_pushed : Db
r_pushed = (call 0 (command "RPUSH" (c ∷ a ∷ [])) some_keys).1

pushed-popped_example :
    ((call 0 (command "LPUSH" (c ∷ a ∷ [])) some_keys).0 ≡ ok (integer (int32 3)))
    × ((call 0 (command "LPOP" (c ∷ [])) l_pushed).0 ≡ ok (string a))
    × (Map.find c (call 0 (command "LPOP" (c ∷ [])) l_pushed).1 ≡ some (Entry.list (b ∷ b ∷ [])))
    × ((call 0 (command "RPUSH" (c ∷ a ∷ [])) some_keys).0 ≡ ok (integer (int32 3)))
    × ((call 0 (command "RPOP" (c ∷ [])) r_pushed).0 ≡ ok (string a))
    × (Map.find c (call 0 (command "RPOP" (c ∷ [])) r_pushed).1 ≡ some (Entry.list (b ∷ b ∷ [])))
unfolding Map.find str_eq
pushed-popped_example = pushed-popped 0 0 c a (b ∷ b ∷ []) some_keys refl

-- A start counted from the end, and an end behind the list.
lrange-selected_example :
    call 0
      (string (bytes "LRANGE") ∷ string c ∷ integer (negsuc 1) ∷ integer (pos 9) ∷ [])
      some_keys
    ≡ (ok (vector (items (map string (b ∷ b ∷ [])))), some_keys)
unfolding Map.find str_eq
lrange-selected_example =
    lrange-selected 0 c (negsuc 1) (pos 9) (b ∷ b ∷ []) some_keys refl (omega arith) (omega arith)
      tt

trim-eq_example : trim letters 2 1 ≡ c ∷ []
trim-eq_example = trim-eq letters 2 1 (omega arith) (omega arith)

remove_count-eq_example :
    ((remove_count (negsuc 0) b (b ∷ a ∷ b ∷ [])).1
      ≡ removed (magnitude (negsuc 0)) (occurrences b (b ∷ a ∷ b ∷ [])))
    × (occurrences b (remove_count (negsuc 0) b (b ∷ a ∷ b ∷ [])).0
          + (remove_count (negsuc 0) b (b ∷ a ∷ b ∷ [])).1
        ≡ occurrences b (b ∷ a ∷ b ∷ []))
    × (others b (remove_count (negsuc 0) b (b ∷ a ∷ b ∷ [])).0 ≡ others b (b ∷ a ∷ b ∷ []))
remove_count-eq_example = remove_count-eq (negsuc 0) b (b ∷ a ∷ b ∷ [])

abbrev after_lrem : Db
after_lrem =
    (call 0 (string (bytes "LREM") ∷ string c ∷ integer (pos 0) ∷ string b ∷ []) some_keys).1

lrem_leaves_empty_example :
    (Map.find c after_lrem ≡ some (Entry.list []))
    × ((call 0 (command "EXISTS" (c ∷ [])) after_lrem).0 ≡ ok (integer (pos 1)))
    × (call 0 (command "LPOP" (c ∷ [])) after_lrem ≡ (ok null, after_lrem))
unfolding Map.find str_eq
lrem_leaves_empty_example = lrem_leaves_empty 0 0 0 c b (b ∷ b ∷ []) some_keys refl refl

contains-combine_example :
    Map.contains a (combine difference ((a, tt) ∷ (b, tt) ∷ []) ((b, tt) ∷ [])) ≡ true
unfolding Map.find str_eq
contains-combine_example = contains-combine difference a ((a, tt) ∷ (b, tt) ∷ []) ((b, tt) ∷ [])

smove_loses_member_example :
    ((call 0 (command "SMOVE" (a ∷ b ∷ c ∷ [])) some_keys).0
      ≡ err (runtime_error (bytes "Invalid type [verb: SMOVE]")))
    × (Map.find a (call 0 (command "SMOVE" (a ∷ b ∷ c ∷ [])) some_keys).1 ≡ some (Entry.set []))
    × (Map.find b (call 0 (command "SMOVE" (a ∷ b ∷ c ∷ [])) some_keys).1
        ≡ some (Entry.string (bytes "7")))
unfolding Map.find Map.erase str_eq
smove_loses_member_example =
    smove_loses_member 0 a b c ((c, tt) ∷ []) (Entry.string (bytes "7")) some_keys refl refl refl
      refl refl
