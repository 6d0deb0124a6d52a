-- ===== src/Redis/Hashes.antt =====
-- The commands on hashes.
use afl.Base.{ℕ, ◌+◌, Bool, true, false, Option, none, some, List, [], ◌∷◌}
use afl.Base.{length, map, if◌then◌else◌}
use afl.Base.Int.{pos}
use afl.Base.Str.{Str, bytes}
use afl.Container.Map
use afl.Container.Map.{Map}
use afl.Text.Number.{format_signed}
use afl.Data.Value.{Value, null, integer, string, vector, items}
use afl.Redis.Store.{
  Entry, Action, pure, fail, ◌>>=◌, ◌>>◌, when_found, eat_string, eat_integer, get, as_hash,
  get_create_hash, store, remove, when, invalid_parameter_count, invalid_type_int, add32, int32,
}
use afl.Redis.Strings.{number_of, string_or_null, is_even}

abbrev pub no_fields : Option (Map Str) → Map Str
no_fields none = []
no_fields (some h) = h

abbrev pub is_empty {ℓ} : {A : Type ℓ} → List A → Bool
is_empty [] = true
is_empty (x ∷ xs) = false

-- The field goes out of the stored hash at once; `n` counts those that were there.
unfoldable pub hdel_loop : Str → Str → List Value → Map Str → ℕ → Action (Map Str × ℕ)
hdel_loop key last [] h n = pure (h, n)
hdel_loop key last (v ∷ vs) h n = do
  field ← eat_string last v
  store key (Entry.hash (Map.erase field h))
  hdel_loop key field vs (Map.erase field h) (if Map.contains field h then n + 1 else n)

unfoldable pub hdel : List Value → Action Value
unfolding hdel_loop
hdel [] = fail invalid_parameter_count
hdel (k ∷ vs) = do
  key ← eat_string [] k
  found ← get as_hash key
  when_found found (pure (integer (pos 0))) λ h. do
    (h', n) ← hdel_loop key [] vs h 0
    when (is_empty h') (remove key)
    pure (integer (pos n))

-- The fields are read into the variable that the key was read into.
unfoldable pub hexists_loop : Str → List Value → Map Str → ℕ → Action ℕ
hexists_loop last [] h n = pure n
hexists_loop last (v ∷ vs) h n = do
  field ← eat_string last v
  hexists_loop field vs h (if Map.contains field h then n + 1 else n)

unfoldable pub hexists : List Value → Action Value
unfolding hexists_loop
hexists [] = fail invalid_parameter_count
hexists (k ∷ vs) = do
  key ← eat_string [] k
  found ← get as_hash key
  when_found found (pure (integer (pos 0)))
      λ h. do n ← hexists_loop key vs h 0; pure (integer (pos n))

unfoldable pub hget : List Value → Action Value
hget (k ∷ f ∷ []) = do
  key ← eat_string [] k
  field ← eat_string [] f
  found ← get as_hash key
  when_found found (pure null) λ h. pure (string_or_null (Map.find field h))
hget _ = fail invalid_parameter_count

abbrev pub pairs : Map Str → List Value
pairs [] = []
pairs ((k, v) ∷ h) = string k ∷ string v ∷ pairs h

unfoldable pub hgetall : List Value → Action Value
hgetall (k ∷ []) = do
  key ← eat_string [] k
  found ← get as_hash key
  pure (vector (items (pairs (no_fields found))))
hgetall _ = fail invalid_parameter_count

-- `m_hash[field]` of a hash makes the field, empty, where it is not there.
abbrev pub field_of : Option Str → Str
field_of none = []
field_of (some s) = s

unfoldable pub hincrby : List Value → Action Value
hincrby (k ∷ f ∷ n ∷ []) = do
  key ← eat_string [] k
  field ← eat_string [] f
  delta ← eat_integer (pos 0) n
  h ← get_create_hash key
  store key (Entry.hash (Map.insert field (field_of (Map.find field h)) h))
  when_found (number_of (field_of (Map.find field h))) (fail invalid_type_int) λ old. do
    store key (Entry.hash (Map.insert field (format_signed (add32 old delta)) h))
    pure (integer (add32 old delta))
hincrby _ = fail invalid_parameter_count

unfoldable pub hkeys : List Value → Action Value
hkeys (k ∷ []) = do
  key ← eat_string [] k
  found ← get as_hash key
  pure (vector (items (map string (Map.keys (no_fields found)))))
hkeys _ = fail invalid_parameter_count

unfoldable pub hlen : List Value → Action Value
hlen (k ∷ []) = do
  key ← eat_string [] k
  found ← get as_hash key
  when_found found (pure (integer (pos 0))) λ h. pure (integer (int32 (Map.size h)))
hlen _ = fail invalid_parameter_count

unfoldable pub hmget_loop : Str → List Value → Map Str → Action (List Value)
hmget_loop last [] h = pure []
hmget_loop last (v ∷ vs) h = do
  field ← eat_string last v
  rest ← hmget_loop field vs h
  pure (string_or_null (Map.find field h) ∷ rest)

unfoldable pub hmget : List Value → Action Value
unfolding hmget_loop
hmget [] = fail invalid_parameter_count
hmget (k ∷ vs) = do
  key ← eat_string [] k
  found ← get as_hash key
  when_found found (pure (vector (items [])))
      λ h. do result ← hmget_loop [] vs h; pure (vector (items result))

unfoldable pub hmset_loop : Str → Str → Str → List Value → Map Str → Action Value
hmset_loop key last_field last_value [] h = pure (string (bytes "OK"))
hmset_loop key last_field last_value (f ∷ []) h = pure (string (bytes "OK"))
hmset_loop key last_field last_value (f ∷ s ∷ rest) h = do
  field ← eat_string last_field f
  value ← eat_string last_value s
  store key (Entry.hash (Map.insert field value h))
  hmset_loop key field value rest (Map.insert field value h)

unfoldable pub hmset : List Value → Action Value
unfolding hmset_loop
hmset [] = fail invalid_parameter_count
hmset (k ∷ vs) =
    if is_even (length vs)
    then (do key ← eat_string [] k; h ← get_create_hash key; hmset_loop key [] [] vs h)
    else fail invalid_parameter_count

unfoldable pub hset : List Value → Action Value
hset (k ∷ f ∷ s ∷ []) = do
  key ← eat_string [] k
  field ← eat_string [] f
  value ← eat_string [] s
  h ← get_create_hash key
  store key (Entry.hash (Map.insert field value h))
  pure (integer (if Map.contains field h then pos 0 else pos 1))
hset _ = fail invalid_parameter_count
