-- ===== src/Redis/Database.antt =====
-- `InternalDatabase::execute` and `call`: the commands by their verbs.
use afl.Base.{ℕ, true, false, List, [], ◌∷◌, ◌++◌, if◌then◌else◌}
use afl.Base.Str.{Str, bytes, str_eq}
use afl.Except.{Result, ok, err, runtime_error, fault, what}
use afl.Text.Char.{str_ucase}
use afl.Data.Value.{Value}
use afl.Redis.Store.{Action, fail, ◌>>=◌, eat_string, is_null, missing_command, invalid_command}
use afl.Redis.Strings
use afl.Redis.Hashes
use afl.Redis.Lists
use afl.Redis.Sets
use afl.Redis.Sets.{difference, intersection, union}
use afl.Redis.Keys
use afl.Redis.Sort

-- The if/else chain over the verbs, in its order. `roll` is what `std::rand` returns.
abbrev pub commands : ℕ → List (Str × (List Value → Action Value))
commands roll =
    (bytes "APPEND", Strings.append)
    ∷ (bytes "DECR", Strings.decr)
    ∷ (bytes "DECRBY", Strings.decrby)
    ∷ (bytes "DEL", Keys.del)
    ∷ (bytes "EXISTS", Keys.exists)
    ∷ (bytes "GET", Strings.get_value)
    ∷ (bytes "GETRANGE", Strings.getrange)
    ∷ (bytes "GETSET", Strings.getset)
    ∷ (bytes "HDEL", Hashes.hdel)
    ∷ (bytes "HEXISTS", Hashes.hexists)
    ∷ (bytes "HGET", Hashes.hget)
    ∷ (bytes "HGETALL", Hashes.hgetall)
    ∷ (bytes "HINCRBY", Hashes.hincrby)
    ∷ (bytes "HKEYS", Hashes.hkeys)
    ∷ (bytes "HLEN", Hashes.hlen)
    ∷ (bytes "HMGET", Hashes.hmget)
    ∷ (bytes "HMSET", Hashes.hmset)
    ∷ (bytes "HSET", Hashes.hset)
    ∷ (bytes "INCR", Strings.incr)
    ∷ (bytes "INCRBY", Strings.incrby)
    ∷ (bytes "KEYS", Keys.keys)
    ∷ (bytes "LINDEX", Lists.lindex)
    ∷ (bytes "LLEN", Lists.llen)
    ∷ (bytes "LPOP", Lists.lpop)
    ∷ (bytes "LPUSH", Lists.lpush)
    ∷ (bytes "LRANGE", Lists.lrange)
    ∷ (bytes "LREM", Lists.lrem)
    ∷ (bytes "LSET", Lists.lset)
    ∷ (bytes "LTRIM", Lists.ltrim)
    ∷ (bytes "MSET", Strings.mset)
    ∷ (bytes "RENAME", Keys.rename)
    ∷ (bytes "RENAMENX", Keys.renamenx)
    ∷ (bytes "RPOP", Lists.rpop)
    ∷ (bytes "RPOPLPUSH", Lists.rpoplpush)
    ∷ (bytes "RPUSH", Lists.rpush)
    ∷ (bytes "SADD", Sets.sadd)
    ∷ (bytes "SCARD", Sets.scard)
    ∷ (bytes "SDIFF", Sets.set_command difference)
    ∷ (bytes "SDIFFSTORE", Sets.set_store_command difference)
    ∷ (bytes "SET", Strings.set_value)
    ∷ (bytes "SETNX", Strings.setnx)
    ∷ (bytes "SINTER", Sets.set_command intersection)
    ∷ (bytes "SINTERSTORE", Sets.set_store_command intersection)
    ∷ (bytes "SISMEMBER", Sets.sismember)
    ∷ (bytes "SMEMBERS", Sets.smembers)
    ∷ (bytes "SMOVE", Sets.smove)
    ∷ (bytes "SORT", Sort.sort_command)
    ∷ (bytes "SPOP", Sets.spop true roll)
    ∷ (bytes "SRANDMEMBER", Sets.spop false roll)
    ∷ (bytes "SREM", Sets.srem)
    ∷ (bytes "STRLEN", Strings.strlen)
    ∷ (bytes "SUNION", Sets.set_command union)
    ∷ (bytes "SUNIONSTORE", Sets.set_store_command union)
    ∷ (bytes "TYPE", Keys.type_of)
    ∷ (bytes "PING", Keys.ping)
    ∷ []

abbrev pub dispatch : List (Str × (List Value → Action Value)) → Str → List Value → Action Value
dispatch [] verb vs = fail invalid_command
dispatch ((name, run) ∷ rest) verb vs = if str_eq verb name then run vs else dispatch rest verb vs

unfoldable pub execute : ℕ → Str → List Value → Action Value
execute roll verb vs = dispatch (commands roll) verb vs

-- `Format("%s [verb: %s]", e.what(), verb)`, thrown in place of the exception.
abbrev pub with_verb : Str → Result Value → Result Value
with_verb verb (ok v) = ok v
with_verb verb (err fault) = err fault
with_verb verb (err e) = err (runtime_error (what e ++ (bytes " [verb: " ++ (verb ++ bytes "]"))))

abbrev pub guarded : Str → Action Value → Action Value
guarded verb m d = let (r, d') = m d in (with_verb verb r, d')

-- `call`, within its lock: calls follow one another.
unfoldable pub call : ℕ → List Value → Action Value
unfolding execute
call roll [] = fail missing_command
call roll (v ∷ vs) =
    if is_null v
    then fail missing_command
    else do verb ← eat_string [] v; guarded (str_ucase verb) (execute roll (str_ucase verb) vs)
