-- ===== src/Net/Redis/Spec/Integers.antt =====
-- Integer keys and integer fields as counters.
use afl.Base.{ℕ, ◌≡◌, refl, some, [], ◌∷◌}
use afl.Base.Int.{ℤ, IsInt32, ◌+ℤ◌, wrap32-IsInt32}
use afl.Base.Str.{Str, bytes, str_eq}
use afl.Except.{ok}
use afl.Container.Map
use afl.Text.Char.{str_ucase}
use afl.Text.Number.{format_signed, str_to_integer}
use afl.Text.Number.RoundTrip.{str_to_integer-format_signed, format_signed_cons}
use afl.Data.Value.{string, integer}
use afl.Data.Access.{to_string, to_integer, string_to_integer}
use afl.Redis.Store.{Entry, Db, ◌>>=◌, eat_string, pure, add32}
use afl.Redis.Strings.{set_value}
use afl.Redis.Database.{call, execute}
use afl.Redis.Laws.{find-insert_self}
use afl.Redis.Spec.Strings.{assigned, assign_eq, call-get, call-incrby_eq, number_of-format_signed}
use afl.Net.Handler.{optional_int}
use afl.Net.Redis.IntegerKey
use afl.Net.Redis.Spec.{database}

call-set_integer :
    (roll : ℕ) (k : Str) (n : ℤ) (d : Db)
    → call roll (string (bytes "SET") ∷ string k ∷ integer n ∷ []) d
      ≡ (ok (string (bytes "OK")), assigned k (format_signed n) d)
unfolding call execute str_ucase str_eq set_value ◌>>=◌ eat_string pure to_string
call-set_integer roll k n d = rw (assign_eq k (format_signed n) d, ◌>>=◌) refl

optional_int-format_signed :
    (n : ℤ) → IsInt32 n → optional_int (string (format_signed n)) ≡ ok (some n)
unfolding optional_int to_integer
optional_int-format_signed n h =
    let (c, s, e) = format_signed_cons n in
    let t : str_to_integer (c ∷ s) ≡ some n = rw e at (str_to_integer-format_signed n h) in
    rw (e, string_to_integer, t) refl

get_eq :
    (r : ℕ) (k : Str) (n : ℤ) (d : Db)
    → IsInt32 n
    → Map.find k d ≡ some (Entry.string (format_signed n))
    → IntegerKey.get (database r) k d ≡ (ok n, d)
get_eq r k n d h f =
    rw (call-get r k (format_signed n) d f) (rw (optional_int-format_signed n h) refl)

-- A key that was set to an int32_t `n` counts: after an increment by `a`, the object returns the sum as
-- an int32_t, and reads that same number from then on.
pub set-add_assign :
    (r : ℕ) (k : Str) (n a : ℤ) (d : Db)
    → IsInt32 n
    → let ch = database r in
      let (done, d1) = IntegerKey.set ch k n d in
      let (sum, d2) = IntegerKey.add_assign ch k a d1 in
      (done ≡ ok tt)
      × (IntegerKey.get ch k d1 ≡ (ok n, d1))
      × (sum ≡ ok (add32 n a))
      × (IntegerKey.get ch k d2 ≡ (ok (add32 n a), d2))
unfolding optional_int to_integer
set-add_assign r k n a d h =
    let f : Map.find k (assigned k (format_signed n) d) ≡ some (Entry.string (format_signed n)) =
      find-insert_self k _ _ in
    rw
      (
        call-set_integer r k n d,
        call-incrby_eq r k (format_signed n) n a _ f (number_of-format_signed n h),
      )
      (
        refl,
        get_eq r k n _ h f,
        refl,
        get_eq r k (add32 n a) _ (wrap32-IsInt32 (n +ℤ a)) (find-insert_self k _ _),
      )
