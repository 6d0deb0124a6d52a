-- ===== src/Redis/Reads/Call.antt =====
-- The calls of the verbs that only read.
use afl.Base.{ℕ, ◌≡◌, Bool, true, List, [], ◌∷◌, subst, Bool-cases}
use afl.Base.{All, inl, inr}
use afl.Base.Str.{Str, str_eq, str_eq_iff, str_mem, bytes}
use afl.Text.Char.{str_ucase}
use afl.Data.Value.{Value, string}
use afl.Redis.Store.{Db, Action, ◌>>=◌, eat_string}
use afl.Data.Access.{to_string}
use afl.Redis.Sets.{difference, intersection, union}
use afl.Redis.Database.{commands, dispatch, guarded, call}
use afl.Base.{◌&◌}
use afl.Redis.Reads.{Reads, Reads-fail}
use afl.Redis.Reads.Commands.{
  exists-Reads, get_value-Reads, getrange-Reads, hexists-Reads, hget-Reads, hgetall-Reads,
  hkeys-Reads, hlen-Reads, hmget-Reads, keys-Reads, lindex-Reads, llen-Reads, lrange-Reads,
  ping-Reads, scard-Reads, set_command-Reads, sismember-Reads, smembers-Reads, spop-Reads,
  strlen-Reads, type_of-Reads,
}

-- The verbs that only read.
unfoldable pub reading : Str → Bool
reading verb = str_mem verb (
    bytes "EXISTS"
    ∷ bytes "GET"
    ∷ bytes "GETRANGE"
    ∷ bytes "HEXISTS"
    ∷ bytes "HGET"
    ∷ bytes "HGETALL"
    ∷ bytes "HKEYS"
    ∷ bytes "HLEN"
    ∷ bytes "HMGET"
    ∷ bytes "KEYS"
    ∷ bytes "LINDEX"
    ∷ bytes "LLEN"
    ∷ bytes "LRANGE"
    ∷ bytes "SCARD"
    ∷ bytes "SDIFF"
    ∷ bytes "SINTER"
    ∷ bytes "SISMEMBER"
    ∷ bytes "SMEMBERS"
    ∷ bytes "SRANDMEMBER"
    ∷ bytes "STRLEN"
    ∷ bytes "SUNION"
    ∷ bytes "TYPE"
    ∷ bytes "PING"
    ∷ [])

abbrev Quiet : Str × (List Value → Action Value) → Type 0
Quiet (verb, run) = reading verb ≡ true → (vs : List Value) → Reads (run vs)

commands-Quiet : (roll : ℕ) → All Quiet (commands roll)
unfolding reading str_eq
commands-Quiet roll =
    (λ h. absurd (cc))
    & (λ h. absurd (cc))
    & (λ h. absurd (cc))
    & (λ h. absurd (cc))
    & (λ h. exists-Reads)
    & (λ h. get_value-Reads)
    & (λ h. getrange-Reads)
    & (λ h. absurd (cc))
    & (λ h. absurd (cc))
    & (λ h. hexists-Reads)
    & (λ h. hget-Reads)
    & (λ h. hgetall-Reads)
    & (λ h. absurd (cc))
    & (λ h. hkeys-Reads)
    & (λ h. hlen-Reads)
    & (λ h. hmget-Reads)
    & (λ h. absurd (cc))
    & (λ h. absurd (cc))
    & (λ h. absurd (cc))
    & (λ h. absurd (cc))
    & (λ h. keys-Reads)
    & (λ h. lindex-Reads)
    & (λ h. llen-Reads)
    & (λ h. absurd (cc))
    & (λ h. absurd (cc))
    & (λ h. lrange-Reads)
    & (λ h. absurd (cc))
    & (λ h. absurd (cc))
    & (λ h. absurd (cc))
    & (λ h. absurd (cc))
    & (λ h. absurd (cc))
    & (λ h. absurd (cc))
    & (λ h. absurd (cc))
    & (λ h. absurd (cc))
    & (λ h. absurd (cc))
    & (λ h. absurd (cc))
    & (λ h. scard-Reads)
    & (λ h. set_command-Reads difference)
    & (λ h. absurd (cc))
    & (λ h. absurd (cc))
    & (λ h. absurd (cc))
    & (λ h. set_command-Reads intersection)
    & (λ h. absurd (cc))
    & (λ h. sismember-Reads)
    & (λ h. smembers-Reads)
    & (λ h. absurd (cc))
    & (λ h. absurd (cc))
    & (λ h. absurd (cc))
    & (λ h. spop-Reads roll)
    & (λ h. absurd (cc))
    & (λ h. strlen-Reads)
    & (λ h. set_command-Reads union)
    & (λ h. absurd (cc))
    & (λ h. type_of-Reads)
    & (λ h. ping-Reads)
    & tt

dispatch-Reads :
    (table : List (Str × (List Value → Action Value))) (verb : Str) (vs : List Value)
    → All Quiet table
    → reading verb ≡ true
    → Reads (dispatch table verb vs)
dispatch-Reads [] verb vs h r = Reads-fail _
dispatch-Reads ((name, run) ∷ rest) verb vs h r = elim (Bool-cases (str_eq verb name)) [
  | inl e ↦ rw e (h.0 (subst (λ n. reading n ≡ true) ((str_eq_iff verb name).0 e) r) vs)
  | inr e ↦ rw e (dispatch-Reads rest verb vs h.1 r)
]

guarded-Reads : (verb : Str) (m : Action Value) → Reads m → Reads (guarded verb m)
guarded-Reads verb m p = record { same = p.same }

-- A call with a reading verb, in any case of letters, with any arguments, and whether it succeeds or
-- fails, leaves the data as they are.
pub call-reading :
    (roll : ℕ) (verb : Str) (vs : List Value) (d : Db)
    → reading (str_ucase verb) ≡ true
    → (call roll (string verb ∷ vs) d).1 ≡ d
unfolding call ◌>>=◌ to_string eat_string
call-reading roll verb vs d h =
    (guarded-Reads (str_ucase verb) _
        (dispatch-Reads (commands roll) (str_ucase verb) vs (commands-Quiet roll) h)).same
      d
