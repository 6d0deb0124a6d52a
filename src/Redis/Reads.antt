-- ===== src/Redis/Reads.antt =====
-- Actions that leave the data as they are, also where they fail.
pub mod Commands
pub mod Call
use afl.Base.{
  ℕ, ◌≡◌, refl, ◌∙◌, Bool, true, false, Option, none, some, List, [], ◌∷◌, if◌then◌else◌, subst,
  Bool-cases,
}
use afl.Base.{All, inl, inr, Option-cases}
use afl.Base.Int.{ℤ}
use afl.Base.Str.{Str, str_eq, str_eq_iff, str_mem, bytes}
use afl.Except.{Result, ok, err}
use afl.Container.Map
use afl.Container.Map.{Map, StrSet}
use afl.Text.Char.{str_ucase}
use afl.Data.Value.{Value, string, null}
use afl.Redis.Store.{
  Entry, Db, Action, pure, lift, fail, ◌>>=◌, when_found, eat_string, eat_integer, is_null, get,
  get_from, typed, gets, when, as_set, store, ◌>>◌, after,
}
use afl.Data.Access.{to_string}
use afl.Redis.Strings.{get_value, getrange, strlen}
use afl.Redis.Hashes.{hexists, hexists_loop, hget, hgetall, hkeys, hlen, hmget, hmget_loop}
use afl.Redis.Keys.{exists, exists_loop, keys, type_of, ping}
use afl.Redis.Lists.{lindex, llen, lrange, get_by_index}
use afl.Redis.Sets.{
  scard, SetOperation, difference, intersection, union, set_operation_loop, set_operation,
  set_command, sismember, smembers, spop, random_element, no_members, remove_if_empty,
}
use afl.Redis.Laws.{get_eq}
use afl.Redis.Database.{commands, dispatch, guarded, call}

pub record Reads {A : Type 0} (m : Action A) : Type 0 where
  pub same : (d : Db) → (m d).1 ≡ d

module _ {A : Type 0} where
  pub Reads-pure : (a : A) → Reads (pure a)
  unfolding pure
  Reads-pure a = record { same = λ d. refl }

  pub Reads-fail : (msg : Str) → Reads (fail {A = A} msg)
  unfolding fail
  Reads-fail msg = record { same = λ d. refl }

  pub Reads-lift : (r : Result A) → Reads (lift r)
  unfolding lift
  Reads-lift r = record { same = λ d. refl }

  pub Reads-gets : (f : Db → A) → Reads (gets f)
  unfolding gets
  Reads-gets f = record { same = λ d. refl }

  pub Reads-if : (b : Bool) (m n : Action A) → Reads m → Reads n → Reads (if b then m else n)
  Reads-if true m n p q = p
  Reads-if false m n p q = q

pub Reads-when_found :
    {T A : Type 0} (o : Option T) (m : Action A) (f : T → Action A)
    → Reads m
    → ((t : T) → Reads (f t))
    → Reads (when_found o m f)
Reads-when_found none m f p k = p
Reads-when_found (some t) m f p k = k t

module _ {A B : Type 0} where
  continue : (r : Result A × Db) (f : A → Action B) → ((a : A) → Reads (f a)) → (after r f).1 ≡ r.1
  continue (ok a, d) f k = (k a).same d
  continue (err e, d) f k = refl

  pub Reads-bind :
      (m : Action A) (f : A → Action B) → Reads m → ((a : A) → Reads (f a)) → Reads (m >>= f)
  unfolding ◌>>=◌
  Reads-bind m f p k = record { same = λ d. continue (m d) f k ∙ p.same d }

pub Reads-typed : {T : Type 0} (o : Option T) → Reads (typed o)
Reads-typed none = Reads-fail _
Reads-typed (some t) = Reads-pure _

pub Reads-get_from :
    {T : Type 0} (cast : Entry → Option T) (o : Option Entry) → Reads (get_from cast o)
Reads-get_from cast none = Reads-pure _
Reads-get_from cast (some e) = Reads-typed (cast e)

pub Reads-get : {T : Type 0} (cast : Entry → Option T) (k : Str) → Reads (get cast k)
unfolding get
Reads-get cast k = record { same = λ d. (Reads-get_from cast (Map.find k d)).same d }

pub Reads-eat_string : (old : Str) (v : Value) → Reads (eat_string old v)
unfolding eat_string
Reads-eat_string old v = Reads-if (is_null v) _ _ (Reads-pure _) (Reads-lift _)

pub Reads-eat_integer : (old : ℤ) (v : Value) → Reads (eat_integer old v)
unfolding eat_integer
Reads-eat_integer old v = Reads-if (is_null v) _ _ (Reads-pure _) (Reads-lift _)

pub ruleset reads_rules = (
  Reads-pure, Reads-fail, Reads-lift, Reads-gets, Reads-if, Reads-when_found, Reads-bind, Reads-get,
  Reads-eat_string, Reads-eat_integer,
)
