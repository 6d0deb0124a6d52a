-- ===== src/Net/Redis/Spec/Strings.antt =====
-- String keys: what was set is read back, in one piece and in parts.
use afl.Base.{
  ℕ, suc, ◌&&◌, ◌+◌, ◌-◌, ◌^◌, ◌<◌, ◌≡◌, refl, ap, ◌∙◌, some, [], ◌∷◌, length, take, drop, true,
  if◌then◌else◌, ltb, leb, arith, Bool-cases, drop_all, take_nil, ltb, inl, inr,
}
use afl.Base.Int.{ℤ, pos, wrap32, wrap32-eq, ◌+ℤ◌}
use afl.Base.Str.{Str, bytes, str_eq}
use afl.Except.{ok}
use afl.Container.Map
use afl.Text.Char.{str_ucase}
use afl.Data.Value.{string, integer}
use afl.Data.Access.{to_string, to_integer}
use afl.Redis.Store.{Entry, Db, as_string, ◌>>=◌, eat_string, eat_integer, pure, gets, add32, int32}
use afl.Redis.Strings.{strlen, getrange, range_of, from_end}
use afl.Redis.Keys.{exists, exists_loop, type_of}
use afl.Redis.Database.{call, execute}
use afl.Redis.Laws.{get_found, find-insert_self}
use afl.Redis.Spec.{command}
use afl.Redis.Spec.Strings.{call-set, call-get, assigned}
use afl.Net.Handler.{CommandHandler, optional_int, call_string}
use afl.Net.Redis.Key
use afl.Net.Redis.Key.{string_key}
use afl.Net.Redis.StringKey
use afl.Net.Redis.StringKey.{max_size, checked_size}
use afl.Net.Redis.Spec.{database}

call-strlen :
    (roll : ℕ) (k v : Str) (d : Db)
    → Map.find k d ≡ some (Entry.string v)
    → call roll (command "STRLEN" (k ∷ [])) d ≡ (ok (integer (int32 (length v))), d)
unfolding call execute str_ucase str_eq strlen ◌>>=◌ eat_string pure to_string
call-strlen roll k v d h = rw (get_found as_string k d _ v h refl, ◌>>=◌) refl

call-exists :
    (roll : ℕ) (k : Str) (e : Entry) (d : Db)
    → Map.find k d ≡ some e
    → call roll (command "EXISTS" (k ∷ [])) d ≡ (ok (integer (pos 1)), d)
unfolding call execute str_ucase str_eq exists exists_loop ◌>>=◌ eat_string pure to_string gets
    Map.find
call-exists roll k e d h = rw h refl

call-type :
    (roll : ℕ) (k v : Str) (d : Db)
    → Map.find k d ≡ some (Entry.string v)
    → call roll (command "TYPE" (k ∷ [])) d ≡ (ok (string (bytes "string")), d)
unfolding call execute str_ucase str_eq type_of ◌>>=◌ eat_string pure to_string gets Map.find
call-type roll k v d h = rw h refl

int32-eq : (n : ℕ) → n < 2 ^ 31 → int32 n ≡ pos n
int32-eq n h = wrap32-eq (pos n) (h, omega arith)

checked_size-pos : (n : ℕ) → n < 2 ^ 31 → checked_size (pos n) ≡ n
unfolding wrap32
checked_size-pos n h = ground arith

-- What the object of a string key reads from a key that holds the string `v`, of less than 2^31 bytes:
-- the string, its size, that the key exists, and that it is a string.
pub set-read :
    (r : ℕ) (k v : Str) (d : Db)
    → length v < 2 ^ 31
    → let ch = database r in
      let (done, d') = StringKey.set ch k v d in
      (done ≡ ok tt)
      × (StringKey.get ch k d' ≡ (ok v, d'))
      × (StringKey.size ch k d' ≡ (ok (length v), d'))
      × (Key.exists ch k d' ≡ (ok true, d'))
      × (Key.get_type ch k d' ≡ (ok string_key, d'))
unfolding to_string optional_int to_integer str_eq
set-read r k v d h =
    let f : Map.find k (assigned k v d) ≡ some (Entry.string v) = find-insert_self k _ _ in
    rw (call-set r k v d) (
      refl,
      rw (call-get r k v _ f) refl,
      rw (call-strlen r k v _ f, int32-eq (length v) h) (rw (checked_size-pos (length v) h) refl),
      rw (call-exists r k _ _ f) refl,
      rw (call-type r k v _ f) refl,
    )

call-getrange :
    (roll : ℕ) (k v : Str) (a b : ℤ) (d : Db)
    → Map.find k d ≡ some (Entry.string v)
    → call roll (string (bytes "GETRANGE") ∷ string k ∷ integer a ∷ integer b ∷ []) d
      ≡ (ok (string (range_of v a b)), d)
unfolding call execute str_ucase str_eq getrange ◌>>=◌ eat_string eat_integer pure to_string
    to_integer
call-getrange roll k v a b d h = rw (get_found as_string k d _ v h refl, ◌>>=◌) refl

from_end-pos : (size : ℤ) (n : ℕ) → from_end size (pos n) ≡ pos n
from_end-pos size n = ground arith

add32-pos : (n m : ℕ) → n + m < 2 ^ 31 → add32 (pos n) (pos m) ≡ pos (n + m)
unfolding ◌+ℤ◌
add32-pos n m h =
    let e : pos n +ℤ pos m ≡ pos (n + m) = ground arith in
    ap wrap32 e ∙ wrap32-eq (pos (n + m)) (h, omega arith)

range_of-eq :
    (v : Str) (start count : ℕ)
    → length v < 2 ^ 31
    → start < max_size
    → 0 < count
    → count < suc max_size
    → range_of v (int32 start) (int32 (start + count - 1)) ≡ take count (drop start v)
range_of-eq v start count h s p m =
    let last : ℕ = start + count - 1 in
    let stop : add32 (from_end (pos (length v)) (pos last)) (pos 1) ≡ pos (start + count) =
      rw (from_end-pos (pos (length v)) last) (
        add32-pos last 1 (omega arith)
        ∙ let e : last + 1 ≡ start + count = omega arith in rw e refl) in
    rw
      (
        int32-eq (length v) h,
        int32-eq start (omega arith),
        int32-eq last (omega arith),
        stop,
        from_end-pos (pos (length v)) start,
      )
      (elim (Bool-cases (leb (length v) start)) [
        | inl behind ↦
            let gone : drop start v ≡ [] = drop_all start v (ground arith) in
            rw (gone, take_nil count, take_nil (start + count - start)) (ground arith)
        | inr inside ↦ ground arith
      ])

substr_within :
    (r : ℕ) (k v : Str) (start count : ℕ) (d : Db)
    → Map.find k d ≡ some (Entry.string v)
    → length v < 2 ^ 31
    → start < max_size
    → 0 < count
    → count < suc max_size
    → call_string
        (database r)
        (string (bytes "GETRANGE")
          ∷ string k
          ∷ integer (int32 start)
          ∷ integer (int32 (start + count - 1))
          ∷ [])
        d
      ≡ (ok (take count (drop start v)), d)
unfolding to_string
substr_within r k v start count d f h s p m =
    rw (call-getrange r k v _ _ d f, range_of-eq v start count h s p m) refl

substr_result :
    (r : ℕ) (k v : Str) (start count : ℕ) (d : Db)
    → Map.find k d ≡ some (Entry.string v)
    → length v < 2 ^ 31
    → let limited = if ltb max_size count then max_size else count in
      StringKey.substr (database r) k start count d
      ≡ (ok (if ltb start max_size then take limited (drop start v) else []), d)
substr_result r k v start count d f h = elim (Bool-cases (ltb start max_size)) [
  | inl below ↦ elim (Bool-cases (ltb 0 count)) [
    | inl some_bytes ↦ elim (Bool-cases (ltb max_size count)) [
      | inl more ↦
          rw (below, some_bytes, more)
            (substr_within r k v start max_size d f h (ground arith) (omega arith) (omega arith))
      | inr fits ↦
          rw (below, some_bytes, fits)
            (substr_within r k v start count d f h (ground arith) (ground arith) (ground arith))
    ]
    | inr no_bytes ↦ ground arith
  ]
  | inr beyond ↦ rw beyond refl
]

substr_sent :
    {S : Type 0} (ch : CommandHandler S) (s : S) (k : Str) (start count : ℕ)
    → let limited = if ltb max_size count then max_size else count in
      StringKey.substr ch k start count s ≡ (
        if ltb start max_size && ltb 0 count
        then call_string ch
            (string (bytes "GETRANGE")
              ∷ string k
              ∷ integer (pos start)
              ∷ integer (pos (start + limited - 1))
              ∷ [])
            s
        else (ok [], s))
substr_sent ch s k start count = elim (Bool-cases (ltb start max_size && ltb 0 count)) [
  | inl both ↦
      let limited = if ltb max_size count then max_size else count in
      let some_bytes : limited < suc max_size = ground arith in
      rw (both, int32-eq start (ground arith), int32-eq (start + limited - 1) (ground arith)) refl
  | inr none_sent ↦ rw none_sent refl
]

-- `substr` on a key that holds a string of less than 2^31 bytes, for any start and any length: the bytes
-- from the start, as many as asked for but never more than 512 MB, and none where the start lies at
-- 512 MB or behind it. To any command handler, it sends the first and the last position as they are, which
-- the conversion to int32_t does not change.
pub substr-eq :
    {S : Type 0} (ch : CommandHandler S) (s : S) (r : ℕ) (k v : Str) (start count : ℕ) (d : Db)
    → Map.find k d ≡ some (Entry.string v)
    → length v < 2 ^ 31
    → let limited = if ltb max_size count then max_size else count in
      (StringKey.substr (database r) k start count d
        ≡ (ok (if ltb start max_size then take limited (drop start v) else []), d))
      × (StringKey.substr ch k start count s ≡ (
          if ltb start max_size && ltb 0 count
          then call_string ch
              (string (bytes "GETRANGE")
                ∷ string k
                ∷ integer (pos start)
                ∷ integer (pos (start + limited - 1))
                ∷ [])
              s
          else (ok [], s)))
substr-eq ch s r k v start count d f h =
    (substr_result r k v start count d f h, substr_sent ch s k start count)
