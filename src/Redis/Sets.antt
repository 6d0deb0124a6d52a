-- ===== src/Redis/Sets.antt =====
-- The commands on sets.
use afl.Base.{ℕ, ◌+◌, ◌%◌, Bool, Option, none, some}
use afl.Base.{List, [], ◌∷◌, map, if◌then◌else◌}
use afl.Base.Int.{pos}
use afl.Base.Str.{Str}
use afl.Container.Map
use afl.Container.Map.{StrSet}
use afl.Data.Value.{Value, null, integer, string, vector, items}
use afl.Redis.Store.{
  Entry, Action, pure, fail, ◌>>=◌, ◌>>◌, when_found, eat_string, get, as_set, get_create_set,
  store, remove, when, invalid_parameter_count, int32,
}
use afl.Redis.Hashes.{is_empty}
use afl.Redis.Lists.{get_by_index}

abbrev pub no_members : Option StrSet → StrSet
no_members none = []
no_members (some s) = s

abbrev pub members : StrSet → List Str
members = Map.keys

abbrev pub add : Str → StrSet → StrSet
add x = Map.insert x tt

unfoldable pub sadd_loop : Str → Str → List Value → StrSet → ℕ → Action ℕ
sadd_loop key last [] s n = pure n
sadd_loop key last (v ∷ vs) s n = do
  x ← eat_string last v
  store key (Entry.set (add x s))
  sadd_loop key x vs (add x s) (if Map.contains x s then n else n + 1)

unfoldable pub sadd : List Value → Action Value
unfolding sadd_loop
sadd (k ∷ v ∷ vs) = do
  key ← eat_string [] k
  s ← get_create_set key
  n ← sadd_loop key [] (v ∷ vs) s 0
  pure (integer (pos n))
sadd _ = fail invalid_parameter_count

unfoldable pub scard : List Value → Action Value
scard (k ∷ []) = do
  key ← eat_string [] k
  found ← get as_set key
  when_found found (pure (integer (pos 0))) λ s. pure (integer (int32 (Map.size s)))
scard _ = fail invalid_parameter_count

pub data SetOperation : Type 0 where
  difference intersection union : SetOperation

unfoldable pub subtract : StrSet → StrSet → StrSet
subtract [] s = []
subtract ((x, u) ∷ out) s = if Map.contains x s then subtract out s else (x, u) ∷ subtract out s

unfoldable pub intersect : StrSet → StrSet → StrSet
intersect [] s = []
intersect ((x, u) ∷ out) s = if Map.contains x s then (x, u) ∷ intersect out s else intersect out s

unfoldable pub unite : StrSet → StrSet → StrSet
unite out [] = out
unite out ((x, u) ∷ s) = unite (add x out) s

abbrev pub combine : SetOperation → StrSet → StrSet → StrSet
combine difference = subtract
combine intersection = intersect
combine union = unite

unfoldable pub set_operation_loop : SetOperation → Str → List Value → StrSet → Action StrSet
set_operation_loop op last [] out = pure out
set_operation_loop op last (v ∷ vs) out = do
  key ← eat_string last v
  found ← get as_set key
  set_operation_loop op key vs (combine op out (no_members found))

-- `executeSetOperation` on one key at least.
unfoldable pub set_operation : SetOperation → List Value → Action StrSet
unfolding set_operation_loop
set_operation op [] = pure []
set_operation op (v ∷ vs) = do
  key ← eat_string [] v
  found ← get as_set key
  set_operation_loop op key vs (no_members found)

-- SDIFF, SINTER, SUNION.
unfoldable pub set_command : SetOperation → List Value → Action Value
unfolding set_operation
set_command op [] = fail invalid_parameter_count
set_command op (v ∷ vs) = do
  s ← set_operation op (v ∷ vs)
  pure (vector (items (map string (members s))))

-- SDIFFSTORE, SINTERSTORE, SUNIONSTORE.
unfoldable pub set_store_command : SetOperation → List Value → Action Value
unfolding set_operation
set_store_command op (k ∷ v ∷ vs) = do
  key ← eat_string [] k
  s ← set_operation op (v ∷ vs)
  get_create_set key
  store key (Entry.set s)
  when (is_empty s) (remove key)
  pure (integer (int32 (Map.size s)))
set_store_command op _ = fail invalid_parameter_count

unfoldable pub sismember : List Value → Action Value
sismember (k ∷ v ∷ []) = do
  key ← eat_string [] k
  x ← eat_string [] v
  found ← get as_set key
  pure (integer (if Map.contains x (no_members found) then pos 1 else pos 0))
sismember _ = fail invalid_parameter_count

unfoldable pub smembers : List Value → Action Value
smembers (k ∷ []) = do
  key ← eat_string [] k
  found ← get as_set key
  pure (vector (items (map string (members (no_members found)))))
smembers _ = fail invalid_parameter_count

-- `if (sk->m_set.empty()) m_data.erase(keyArg)`, with `sk` as the changes before have left it.
abbrev pub remove_if_empty : Str → Action (Unit {0})
remove_if_empty key = do found ← get as_set key; when (is_empty (no_members found)) (remove key)

abbrev pub move_member : Str → Str → Str → StrSet → Action Value
move_member key dest x s = do
  store key (Entry.set (Map.erase x s))
  t ← get_create_set dest
  store dest (Entry.set (add x t))
  remove_if_empty key
  pure (integer (pos 1))

unfoldable pub smove : List Value → Action Value
smove (k ∷ d ∷ v ∷ []) = do
  key ← eat_string [] k
  dest ← eat_string [] d
  x ← eat_string [] v
  found ← get as_set key
  when_found found (pure (integer (pos 0)))
      λ s. if Map.contains x s then move_member key dest x s else pure (integer (pos 0))
smove _ = fail invalid_parameter_count

-- `getRandomElement`; `roll` is what `std::rand` returns, and the command says whether to delete the element.
abbrev pub random_element : ℕ → StrSet → Option Str
random_element roll s = get_by_index (members s) (roll % Map.size s)

-- SPOP and SRANDMEMBER.
unfoldable pub spop : Bool → ℕ → List Value → Action Value
spop removing roll (k ∷ []) = do
  key ← eat_string [] k
  found ← get as_set key
  when_found (random_element roll (no_members found)) (pure null) λ x. do
    when removing (store key (Entry.set (Map.erase x (no_members found))))
    remove_if_empty key
    pure (string x)
spop removing roll _ = fail invalid_parameter_count

unfoldable pub srem_loop : Str → Str → List Value → StrSet → ℕ → Action (StrSet × ℕ)
srem_loop key last [] s n = pure (s, n)
srem_loop key last (v ∷ vs) s n = do
  x ← eat_string last v
  store key (Entry.set (Map.erase x s))
  srem_loop key x vs (Map.erase x s) (if Map.contains x s then n + 1 else n)

unfoldable pub srem : List Value → Action Value
unfolding srem_loop
srem (k ∷ v ∷ vs) = do
  key ← eat_string [] k
  found ← get as_set key
  when_found found (pure (integer (pos 0))) λ s. do
    (s', n) ← srem_loop key [] (v ∷ vs) s 0
    when (is_empty s') (remove key)
    pure (integer (pos n))
srem _ = fail invalid_parameter_count
