-- ===== src/Resp/Parser.antt =====
-- afl/io/resp/parser.cpp: the push parser. Bytes come in pieces; a state holds what was read so far.
pub mod Bytes
pub mod Chunks
pub mod Shallow
pub mod Refines
pub mod Pieces
use afl.Base.{ℕ, zero, suc, ◌+◌, ◌-◌, ◌*◌, ◌^◌, Bool, true, false, ◌&&◌, ◌||◌, not}
use afl.Base.{List, [], ◌∷◌, ◌++◌, length, take, drop, if◌then◌else◌, ltb, leb, ◌==◌}
use afl.Base.Int.{ℤ, pos, neg}
use afl.Base.Str.{Str, bytes}
use afl.Except.{Exception, Result, ok, err, file_format, syntax_error, ◌>>=◌}
use afl.Text.Char.{char_is_upper, char_is_lower}
use afl.Data.Value.{Value, null, string, integer, error, vector, Items, nil, push_back}

abbrev pub source_id : Str
source_id = bytes "<Parser>"

-- What `syntaxError` throws.
abbrev pub syntax_failure : Exception
syntax_failure = file_format source_id syntax_error

-- `IntState::Kind`
pub data Kind : Type 0 where
  integer_kind bulk_kind array_kind : Kind

-- `IntState::m_state`
pub data Sign : Type 0 where
  virgin positive positive_digits negative negative_digits : Sign

-- The states of a parser, with their members. An `ArrayState` has a parser of its own, of which the
-- state is kept here: it never accepts the short form. The `m_value` of a number is kept as its
-- magnitude: it is negative in the states `negative` and `negative_digits`.
pub data State : Type 0 where
  root : State
  line : Bool → Str → State
  number : Kind → Sign → ℕ → State
  bulk : ℕ → Str → State
  array : ℕ → Items → State → State
  short : Str → Items → State
  -- `m_pState` is null, and `m_pValue` is the value.
  done : Value → State

-- A state and the data that are left.
abbrev pub Outcome : Type 0
Outcome = Result (State × Str)

-- `RootState::handleData`; `accept_short` is `m_acceptShort`.
unfoldable pub root_byte : Bool → ℕ → Result State
root_byte accept_short c =
    if c == b'+'
    then ok (line true [])
    else if c == b'-'
    then ok (line false [])
    else if c == b':'
    then ok (number integer_kind virgin 0)
    else if c == b'$'
    then ok (number bulk_kind virgin 0)
    else if c == b'*'
    then ok (number array_kind virgin 0)
    else if accept_short && (char_is_upper c || char_is_lower c)
    then ok (short (c ∷ []) nil)
    else err syntax_failure

unfoldable pub root_data : Bool → Str → Outcome
root_data accept_short [] = ok (root, [])
root_data accept_short (c ∷ input) = do st ← root_byte accept_short c; ok (st, input)

abbrev pub line_value : Bool → Str → Value
line_value success s = if success then string s else error source_id s

-- `StringState::handleData`
unfoldable pub line_data : Bool → Str → Str → Outcome
line_data success s [] = ok (line success s, [])
line_data success s (c ∷ input) =
    let skipped = line_data success s input in
    let added = line_data success (s ++ (c ∷ [])) input in
    if c == 13 then skipped else if c == 10 then ok (done (line_value success s), input) else added

abbrev pub is_virgin : Sign → Bool
is_virgin virgin = true
is_virgin _ = false

abbrev pub is_negative : Sign → Bool
is_negative negative = true
is_negative negative_digits = true
is_negative _ = false

abbrev pub has_digits : Sign → Bool
has_digits positive_digits = true
has_digits negative_digits = true
has_digits _ = false

-- A digit in `IntState::handleData`, with its checks against INT_MIN and INT_MAX.
unfoldable pub number_digit : Sign → ℕ → ℕ → Result (Sign × ℕ)
number_digit sign v digit =
    if is_negative sign
    then (if ltb 214748364 v || (not (v == 0) && ltb (2 ^ 31 - 10 * v) digit)
        then err syntax_failure
        else ok (negative_digits, 10 * v + digit))
    else (if ltb 214748364 v || ltb (2147483647 - 10 * v) digit
        then err syntax_failure
        else ok (positive_digits, 10 * v + digit))

-- A byte in `IntState::handleData`, other than the line feed.
unfoldable pub number_byte : Sign → ℕ → ℕ → Result (Sign × ℕ)
unfolding number_digit
number_byte sign v c =
    if c == b'+'
    then (if is_virgin sign then ok (positive, v) else err syntax_failure)
    else if c == b'-'
    then (if is_virgin sign then ok (negative, v) else err syntax_failure)
    else if leb b'0' c && leb c b'9'
    then number_digit sign v (c - b'0')
    else if c == 13
    then ok (sign, v)
    else err syntax_failure

-- A number that was read: a value, or the state that reads as many bytes or elements.
abbrev pub numbered : Kind → Bool → ℕ → State
numbered integer_kind below v = done (integer (if below then neg (pos v) else pos v))
numbered array_kind below v =
    if below && not (v == 0)
    then done null
    else if v == 0
    then done (vector nil)
    else array v nil root
numbered bulk_kind below v = if below && not (v == 0) then done null else bulk v []

-- The line feed in `IntState::handleData`.
unfoldable pub number_end : Kind → Sign → ℕ → Result State
number_end kind sign v =
    if has_digits sign then ok (numbered kind (is_negative sign) v) else err syntax_failure

-- `IntState::handleData`
unfoldable pub number_data : Kind → Sign → ℕ → Str → Outcome
number_data kind sign v [] = ok (number kind sign v, [])
number_data kind sign v (c ∷ input) =
    if c == 10
    then (number_end kind sign v >>= λ st. ok (st, input))
    else (number_byte sign v c >>= λ r. number_data kind r.0 r.1 input)

-- The line break in `BulkState::handleData`.
unfoldable pub bulk_end : Str → Str → Outcome
bulk_end s [] = ok (bulk 0 s, [])
bulk_end s (c ∷ input) =
    let skipped = bulk_end s input in
    if c == 13 then skipped else if c == 10 then ok (done (string s), input) else err syntax_failure

-- `BulkState::handleData`. `splitUpdate` takes as many bytes as there are, up to `m_size`, and takes
-- their number off `m_size`.
unfoldable pub bulk_data : ℕ → Str → Str → Outcome
unfolding bulk_end
bulk_data n s input =
    let left = n - length input in
    if left == 0
    then bulk_end (s ++ take n input) (drop n input)
    else ok (bulk left (s ++ input), [])

-- A byte of `ShortState::handleData` that ends a word.
abbrev pub is_blank : ℕ → Bool
is_blank c = c == 32 || (c == 9 || (c == 13 || c == 10))

abbrev pub flush : Str → Items → Items
flush [] vs = vs
flush (c ∷ s) vs = push_back vs (string (c ∷ s))

-- `ShortState::handleData`
unfoldable pub short_data : Str → Items → Str → Outcome
short_data s vs [] = ok (short s vs, [])
short_data s vs (c ∷ input) =
    let next = short_data [] (flush s vs) input in
    let added = short_data (s ++ (c ∷ [])) vs input in
    if is_blank c then (if c == 10 then ok (done (vector (flush s vs)), input) else next) else added

-- `Parser::handleData` (`handle`), which calls `State::handleData` (`step`) until a value is there or the
-- data are used up, and `ArrayState::handleData` (`array_data`), which calls it for its own parser.
unfoldable mutual
  pub handle : ℕ → Bool → State → Str → Outcome
  handle zero accept_short st input = ok (st, input)
  handle (suc fuel) accept_short (done v) input = ok (done v, input)
  handle (suc fuel) accept_short st [] = ok (st, [])
  handle (suc fuel) accept_short st (c ∷ input) =
      step fuel accept_short st (c ∷ input) >>= λ r. handle fuel accept_short r.0 r.1

  pub step : ℕ → Bool → State → Str → Outcome
  step zero accept_short st input = ok (st, input)
  step (suc fuel) accept_short root input = root_data accept_short input
  step (suc fuel) accept_short (line success s) input = line_data success s input
  step (suc fuel) accept_short (number kind sign v) input = number_data kind sign v input
  step (suc fuel) accept_short (bulk n s) input = bulk_data n s input
  step (suc fuel) accept_short (array n vs p) input = array_data fuel n vs p input
  step (suc fuel) accept_short (short s vs) input = short_data s vs input
  step (suc fuel) accept_short (done v) input = ok (done v, input)

  pub array_data : ℕ → ℕ → Items → State → Str → Outcome
  array_data fuel zero vs p input = ok (done (vector vs), input)
  array_data fuel (suc n) vs p [] = ok (array (suc n) vs p, [])
  array_data zero (suc n) vs p (c ∷ input) = ok (array (suc n) vs p, c ∷ input)
  array_data (suc fuel) (suc n) vs p (c ∷ input) =
      handle fuel false p (c ∷ input) >>= λ r. array_next fuel n vs r.0 r.1

  -- An element that is complete is pushed, and `extract` sets its parser back to the root state.
  pub array_next : ℕ → ℕ → Items → State → Str → Outcome
  array_next zero n vs p input = ok (array (suc n) vs p, input)
  array_next (suc fuel) n vs (done v) input = array_data fuel n (push_back vs v) root input
  array_next (suc fuel) n vs p input = array_data fuel (suc n) vs p input

-- How deep the arrays of a state are nested.
unfoldable pub depth : State → ℕ
depth (array n vs p) = suc (depth p)
depth _ = 0

-- `Parser::handleData`, with fuel for every byte and every nested array.
unfoldable pub handle_data : Bool → State → Str → Outcome
unfolding handle depth
handle_data accept_short st input = handle (4 * length input + 3 * depth st) accept_short st input
