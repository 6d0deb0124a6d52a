-- ===== src/Redis/Reads/Commands.antt =====
-- The commands that only read leave the data as they are.
use afl.Base.{ℕ, ◌≡◌, refl, false, Option, none, some, List, [], ◌∷◌}
use afl.Base.{inl, inr, Option-cases}
use afl.Base.Str.{Str}
use afl.Container.Map
use afl.Container.Map.{Map, StrSet}
use afl.Data.Value.{Value, string, null}
use afl.Redis.Store.{
  Entry, Db, Action, pure, fail, ◌>>=◌, when_found, get, when, as_set, store, ◌>>◌,
}
use afl.Redis.Strings.{get_value, getrange, strlen}
use afl.Redis.Hashes.{hexists, hexists_loop, hget, hgetall, hkeys, hlen, hmget, hmget_loop}
use afl.Redis.Keys.{exists, exists_loop, keys, type_of, ping}
use afl.Redis.Lists.{lindex, llen, lrange, get_by_index}
use afl.Redis.Sets.{
  scard, SetOperation, set_operation_loop, set_operation, set_command, sismember, smembers, spop,
  random_element, no_members, remove_if_empty,
}
use afl.Redis.Laws.{get_eq}
use afl.Redis.Reads.{Reads, Reads-bind, Reads-eat_string, reads_rules}

pub hexists_loop-Reads :
    (last : Str) (vs : List Value) (h : Map Str) (n : ℕ) → Reads (hexists_loop last vs h n)
unfolding hexists_loop
hexists_loop-Reads last [] h n = search reads_rules
hexists_loop-Reads last (v ∷ vs) h n =
    let rest = λ (next : Str). hexists_loop-Reads next vs in search (reads_rules, rest) depth 20

pub exists_loop-Reads : (last : Str) (vs : List Value) (n : ℕ) → Reads (exists_loop last vs n)
unfolding exists_loop
exists_loop-Reads last [] n = search reads_rules
exists_loop-Reads last (v ∷ vs) n =
    let rest = λ (next : Str). exists_loop-Reads next vs in search (reads_rules, rest) depth 20

pub hmget_loop-Reads : (last : Str) (vs : List Value) (h : Map Str) → Reads (hmget_loop last vs h)
unfolding hmget_loop
hmget_loop-Reads last [] h = search reads_rules
hmget_loop-Reads last (v ∷ vs) h =
    let rest = λ (next : Str). hmget_loop-Reads next vs in search (reads_rules, rest) depth 20

pub set_operation_loop-Reads :
    (op : SetOperation) (last : Str) (vs : List Value) (s : StrSet)
    → Reads (set_operation_loop op last vs s)
unfolding set_operation_loop
set_operation_loop-Reads op last [] s = search reads_rules
set_operation_loop-Reads op last (v ∷ vs) s =
    let rest = λ (next : Str). set_operation_loop-Reads op next vs in
    search (reads_rules, rest) depth 20

pub set_operation-Reads : (op : SetOperation) (vs : List Value) → Reads (set_operation op vs)
unfolding set_operation
set_operation-Reads op [] = search reads_rules
set_operation-Reads op (v ∷ vs) = search (reads_rules, set_operation_loop-Reads) depth 20

ruleset loop_rules =
    (hexists_loop-Reads, exists_loop-Reads, hmget_loop-Reads, set_operation-Reads, reads_rules)

pub get_value-Reads : (vs : List Value) → Reads (get_value vs)
unfolding get_value
get_value-Reads (k ∷ []) = search loop_rules depth 30
get_value-Reads _ = search reads_rules

pub getrange-Reads : (vs : List Value) → Reads (getrange vs)
unfolding getrange
getrange-Reads (k ∷ v ∷ w ∷ []) = search loop_rules depth 30
getrange-Reads _ = search reads_rules

pub strlen-Reads : (vs : List Value) → Reads (strlen vs)
unfolding strlen
strlen-Reads (k ∷ []) = search loop_rules depth 30
strlen-Reads _ = search reads_rules

pub hexists-Reads : (vs : List Value) → Reads (hexists vs)
unfolding hexists
hexists-Reads (k ∷ vs) = search loop_rules depth 30
hexists-Reads _ = search reads_rules

pub hget-Reads : (vs : List Value) → Reads (hget vs)
unfolding hget
hget-Reads (k ∷ v ∷ []) = search loop_rules depth 30
hget-Reads _ = search reads_rules

pub hgetall-Reads : (vs : List Value) → Reads (hgetall vs)
unfolding hgetall
hgetall-Reads (k ∷ []) = search loop_rules depth 30
hgetall-Reads _ = search reads_rules

pub hkeys-Reads : (vs : List Value) → Reads (hkeys vs)
unfolding hkeys
hkeys-Reads (k ∷ []) = search loop_rules depth 30
hkeys-Reads _ = search reads_rules

pub hlen-Reads : (vs : List Value) → Reads (hlen vs)
unfolding hlen
hlen-Reads (k ∷ []) = search loop_rules depth 30
hlen-Reads _ = search reads_rules

pub hmget-Reads : (vs : List Value) → Reads (hmget vs)
unfolding hmget
hmget-Reads (k ∷ vs) = search loop_rules depth 30
hmget-Reads _ = search reads_rules

pub keys-Reads : (vs : List Value) → Reads (keys vs)
unfolding keys
keys-Reads (k ∷ []) = search loop_rules depth 30
keys-Reads _ = search reads_rules

pub type_of-Reads : (vs : List Value) → Reads (type_of vs)
unfolding type_of
type_of-Reads (k ∷ []) = search loop_rules depth 30
type_of-Reads _ = search reads_rules

pub lindex-Reads : (vs : List Value) → Reads (lindex vs)
unfolding lindex
lindex-Reads (k ∷ v ∷ []) = search loop_rules depth 30
lindex-Reads _ = search reads_rules

pub llen-Reads : (vs : List Value) → Reads (llen vs)
unfolding llen
llen-Reads (k ∷ []) = search loop_rules depth 30
llen-Reads _ = search reads_rules

pub lrange-Reads : (vs : List Value) → Reads (lrange vs)
unfolding lrange
lrange-Reads (k ∷ v ∷ w ∷ []) = search loop_rules depth 30
lrange-Reads _ = search reads_rules

pub scard-Reads : (vs : List Value) → Reads (scard vs)
unfolding scard
scard-Reads (k ∷ []) = search loop_rules depth 30
scard-Reads _ = search reads_rules

pub sismember-Reads : (vs : List Value) → Reads (sismember vs)
unfolding sismember
sismember-Reads (k ∷ v ∷ []) = search loop_rules depth 30
sismember-Reads _ = search reads_rules

pub smembers-Reads : (vs : List Value) → Reads (smembers vs)
unfolding smembers
smembers-Reads (k ∷ []) = search loop_rules depth 30
smembers-Reads _ = search reads_rules

pub exists-Reads : (vs : List Value) → Reads (exists vs)
unfolding exists
exists-Reads vs = search loop_rules depth 20

pub ping-Reads : (vs : List Value) → Reads (ping vs)
unfolding ping
ping-Reads vs = search reads_rules

pub set_command-Reads : (op : SetOperation) (vs : List Value) → Reads (set_command op vs)
unfolding set_command
set_command-Reads op [] = search reads_rules
set_command-Reads op (v ∷ vs) = search loop_rules depth 20

-- SRANDMEMBER removes a key only where it found it to be empty, which no random element comes from.
abbrev sample : Str → ℕ → Action Value
sample key roll = get as_set key >>= λ found.
    when_found (random_element roll (no_members found)) (pure null) λ x.
      when false (store key (Entry.set (Map.erase x (no_members found))))
      >> (remove_if_empty key >> pure (string x))

sample-same :
    (key : Str) (roll : ℕ) (d : Db) (o : Option Entry)
    → Map.find key d ≡ o
    → (sample key roll d).1 ≡ d
unfolding ◌>>=◌ pure fail when Map.keys
sample-same key roll d none e = rw (get_eq as_set key d none e, ◌>>=◌) (unfold get_by_index in refl)
sample-same key roll d (some (Entry.set [])) e =
    rw (get_eq as_set key d _ e, ◌>>=◌) (unfold get_by_index in refl)
sample-same key roll d (some (Entry.set (y ∷ ys))) e =
    let g = get_eq as_set key d _ e in
    rw (g, ◌>>=◌)
      (elim (Option-cases (random_element roll (y ∷ ys))) [
        | inl x ↦ rw x refl
        | inr (u, x) ↦ rw x (rw (g, ◌>>=◌) refl)
      ])
sample-same key roll d (some (Entry.string t)) e = rw (get_eq as_set key d _ e, ◌>>=◌) refl
sample-same key roll d (some (Entry.hash h)) e = rw (get_eq as_set key d _ e, ◌>>=◌) refl
sample-same key roll d (some (Entry.list l)) e = rw (get_eq as_set key d _ e, ◌>>=◌) refl

pub spop-Reads : (roll : ℕ) (vs : List Value) → Reads (spop false roll vs)
unfolding spop
spop-Reads roll (k ∷ []) =
    Reads-bind _ _ (Reads-eat_string [] k)
      λ key. record { same = λ d. sample-same key roll d (Map.find key d) refl }
spop-Reads roll _ = search reads_rules
