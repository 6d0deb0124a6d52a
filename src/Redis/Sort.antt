-- ===== src/Redis/Sort.antt =====
-- The SORT command: `executeSortOperation`, `getSortValue` and the predicate `Sorter`.
use afl.Base.{ℕ, zero, suc, ◌+◌, Bool, true, false, Option, none, some}
use afl.Base.{List, [], ◌∷◌, ◌++◌, length, map, take, drop, if◌then◌else◌}
use afl.Base.Int.{ℤ, pos, negsuc, ltb_ℤ, pos_part}
use afl.Base.Str.{Str, bytes, str_eq, str_lt}
use afl.Except
use afl.Except.{Result, ok, err, remote_error, fault}
use afl.Container.Map
use afl.Container.Map.{Map}
use afl.Text.Char.{str_ucase}
use afl.Data.Value.{Value, vector, items}
use afl.Redis.Store.{
  Entry, Db, Action, pure, lift, fail, ◌>>=◌, ◌>>◌, eat_string, eat_integer, get, as_sortable,
  as_string, as_hash, get_create_list, store, remove, invalid_parameter_count, invalid_option,
  invalid_type_int, gets,
}
use afl.Redis.Strings.{number_of, string_or_null}
use afl.Redis.Keys.{find_star}

-- `pattern.find("->")`
unfoldable pub find_arrow : Str → Option ℕ
find_arrow [] = none
find_arrow (c ∷ []) = none
find_arrow (c ∷ e ∷ s) =
    if str_eq (c ∷ e ∷ []) (bytes "->")
    then some 0
    else elim (find_arrow (e ∷ s)) [ none ↦ none | some n ↦ some (suc n) ]

-- `pattern.replace(n, 1, originValue)` at the star, if there is one.
abbrev pub fill_star : Option ℕ → Str → Str → Str
fill_star none pattern origin = pattern
fill_star (some n) pattern origin = take n pattern ++ (origin ++ drop (suc n) pattern)

abbrev pub field_value : Option Entry → Str → Option Str
field_value none field = none
field_value (some e) field = elim (as_hash e) [ none ↦ none | some h ↦ Map.find field h ]

abbrev pub string_value : Option Entry → Option Str
string_value none = none
string_value (some e) = as_string e

-- `getSortValue`; none for false.
unfoldable pub sort_value : Str → Str → Db → Option Str
unfolding find_arrow find_star
sort_value origin pattern d =
    let name = fill_star (find_star pattern) pattern origin in
    if str_eq pattern (bytes "#") then some origin else elim (find_arrow name) [
      | none ↦ string_value (Map.find name d)
      | some n ↦ field_value (Map.find (take n name) d) (drop (n + 2) name)
    ]

abbrev pub or_empty : Option Str → Str
or_empty none = []
or_empty (some s) = s

abbrev pub compare_numbers : Option ℤ → Option ℤ → Result Bool
compare_numbers (some a) (some b) = ok (ltb_ℤ a b)
compare_numbers _ _ = err (remote_error (bytes "<InternalDatabase>") invalid_type_int)

abbrev pub compare_values : Bool → Str → Str → Result Bool
compare_values true a b = ok (str_lt a b)
compare_values false a b = compare_numbers (number_of a) (number_of b)

-- `Sorter::operator()`: the values change places for a descending order.
unfoldable pub sorts_before : Db → Str → Bool → Bool → Str → Str → Result Bool
unfolding sort_value
sorts_before d pattern descending alpha a b =
    let av = or_empty (sort_value a pattern d) in
    let bv = or_empty (sort_value b pattern d) in
    if descending then compare_values alpha bv av else compare_values alpha av bv

-- `std::sort`, which leaves open how elements are placed that compare as equal; here they keep their
-- order. With two elements or more, each is compared.
unfoldable pub insert_sorted : (Str → Str → Result Bool) → Str → List Str → Result (List Str)
insert_sorted before x [] = ok (x ∷ [])
insert_sorted before x (y ∷ ys) = Except.◌>>=◌ (before y x) λ b.
    let rest = insert_sorted before x ys in
    if b then Except.◌>>=◌ rest (λ zs. ok (y ∷ zs)) else ok (x ∷ y ∷ ys)

unfoldable pub sort : (Str → Str → Result Bool) → List Str → Result (List Str)
unfolding insert_sorted
sort before [] = ok []
sort before (x ∷ xs) = Except.◌>>=◌ (sort before xs) (insert_sorted before x)

pub record Options : Type 0 where
  pub pattern : Str
  pub get_patterns : List Str
  pub limit : Bool
  pub offset : ℤ
  pub count : ℤ
  pub descending : Bool
  pub alpha : Bool
  pub storing : Bool
  pub store_key : Str

abbrev pub defaults : Options
defaults = record {
  pattern = bytes "#";
  get_patterns = [];
  limit = false;
  offset = pos 0;
  count = pos 0;
  descending = false;
  alpha = false;
  storing = false;
  store_key = [];
}

-- One option, by its flag: the new settings and the arguments that are left.
unfoldable pub option_by : Str → List Value → Options → Action (Options × List Value)
option_by flag vs o =
    if str_eq flag (bytes "BY")
    then elim vs [
      | [] ↦ fail invalid_parameter_count
      | p ∷ rest ↦ do s ← eat_string o.pattern p; pure (record o { pattern = s }, rest)
    ]
    else if str_eq flag (bytes "LIMIT")
    then elim vs [
      | [] ↦ fail invalid_parameter_count
      | _ ∷ [] ↦ fail invalid_parameter_count
      | a ∷ b ∷ rest ↦ do
        m ← eat_integer o.offset a
        n ← eat_integer o.count b
        pure (record o { limit = true; offset = m; count = n }, rest)
    ]
    else if str_eq flag (bytes "GET")
    then elim vs [
      | [] ↦ fail invalid_parameter_count
      | p ∷ rest ↦ do
        s ← eat_string [] p
        pure (record o { get_patterns = o.get_patterns ++ (s ∷ []) }, rest)
    ]
    else if str_eq flag (bytes "ASC")
    then pure (record o { descending = false }, vs)
    else if str_eq flag (bytes "DESC")
    then pure (record o { descending = true }, vs)
    else if str_eq flag (bytes "ALPHA")
    then pure (record o { alpha = true }, vs)
    else if str_eq flag (bytes "STORE")
    then elim vs [
      | [] ↦ fail invalid_parameter_count
      | p ∷ rest ↦ do
        s ← eat_string o.store_key p
        pure (record o { storing = true; store_key = s }, rest)
    ]
    else fail invalid_option

-- Each round takes a flag at least, so the number of arguments is fuel enough.
unfoldable pub options_loop : ℕ → List Value → Options → Action Options
options_loop fuel [] o = pure o
options_loop zero (v ∷ vs) o = pure o
options_loop (suc fuel) (v ∷ vs) o = do
  flag ← eat_string [] v
  (o', rest) ← option_by (str_ucase flag) vs o
  options_loop fuel rest o'

-- `for (int32_t i = offset; i < size && count > 0; ++i, --count)`: the elements that it visits.
abbrev pub window : List Str → ℤ → ℤ → Result (List Str)
window values (pos n) count = ok (take (pos_part count) (drop n values))
window values (negsuc n) count = if ltb_ℤ (pos 0) count then err fault else ok []

abbrev pub default_get : List Str → List Str
default_get [] = bytes "#" ∷ []
default_get (p ∷ ps) = p ∷ ps

-- The values of one element, or of all of them, by the GET patterns.
abbrev pub row : Db → List Str → Str → List (Option Str)
row d patterns x = map (λ p. sort_value x p d) patterns

abbrev pub rows : Db → List Str → List Str → List (Option Str)
rows d patterns [] = []
rows d patterns (x ∷ xs) = row d patterns x ++ rows d patterns xs

-- The output into a list key, after the slot was cleaned.
abbrev pub store_rows : Options → List Str → Action (Unit {0})
store_rows o [] = remove o.store_key
store_rows o (x ∷ xs) = do
  remove o.store_key
  get_create_list o.store_key
  visited ← lift (if o.limit then window (x ∷ xs) o.offset o.count else ok (x ∷ xs))
  values ← gets (λ d. rows d (default_get o.get_patterns) visited)
  store o.store_key (Entry.list (map or_empty values))

abbrev pub output : Options → List Str → Action (List Value)
output o values = if o.storing then (do store_rows o values; pure []) else (do
  visited ← lift (if o.limit then window values o.offset o.count else ok values)
  result ← gets (λ d. rows d (default_get o.get_patterns) visited)
  pure (map string_or_null result))

unfoldable pub sort_operation : List Str → List Value → Action (List Value)
unfolding options_loop option_by sort sorts_before
sort_operation origin vs = do
  o ← options_loop (length vs) vs defaults
  before ← gets (λ d. sorts_before d o.pattern o.descending o.alpha)
  values ← lift (sort before origin)
  output o values

abbrev pub no_values : Option (List Str) → List Str
no_values none = []
no_values (some l) = l

unfoldable pub sort_command : List Value → Action Value
unfolding sort_operation
sort_command [] = fail invalid_parameter_count
sort_command (k ∷ vs) = do
  key ← eat_string [] k
  found ← get as_sortable key
  result ← sort_operation (no_values found) vs
  pure (vector (items result))
