-- ===== src/Json/Parser.antt =====
-- afl/io/json/parser.cpp: a value from the front of a text, and what follows it. The stream is the list of the
-- bytes that are left. `strToFloat`, which calls the C library, with `createFloat` is a parameter.
use afl.Base.{
  ℕ, zero, suc, ◌+◌, ◌-◌, ◌*◌, Bool, true, false, ◌&&◌, ◌||◌, Option, none, some, [], ◌∷◌, ◌++◌,
  length, leb, ltb, ◌==◌, if◌then◌else◌,
}
use afl.Base.Int.{ℤ}
use afl.Base.Str.{Str, bytes, str_eq}
use afl.Except.{Exception, fault, file_format, syntax_error, file_too_short, Result, ok, err, ◌>>=◌}
use afl.Text.Number.{str_to_integer}
use afl.Charset.Unicode.{no_flags}
use afl.Charset.Utf8.{append}
use afl.Data.Value.{
  Value, null, string, integer, boolean, vector, hash, Items, nil, Fields, end, field, push_back,
}

abbrev pub is_whitespace : ℕ → Bool
is_whitespace c = c == 32 || (c == 9 || (c == 13 || c == 10))

unfoldable pub skip_whitespace : Str → Str
skip_whitespace [] = []
skip_whitespace (c ∷ s) = if is_whitespace c then skip_whitespace s else c ∷ s

-- What a value's first byte says.
pub data Start : Type 0 where
  array_start hash_start string_start null_start true_start false_start number_start : Start
  no_start : Start

unfoldable pub start : ℕ → Start
start c =
    if c == b'['
    then array_start
    else if c == b'{'
    then hash_start
    else if c == 34
    then string_start
    else if c == b'n'
    then null_start
    else if c == b't'
    then true_start
    else if c == b'f'
    then false_start
    else if c == b'-' || (leb b'0' c && leb c b'9')
    then number_start
    else no_start

abbrev pub is_number_byte : ℕ → Bool
is_number_byte c =
    c == b'+'
    || (c == b'-' || (c == b'.' || (c == b'e' || (c == b'E' || (leb b'0' c && leb c b'9')))))

-- The characters of a number, and what follows.
unfoldable pub number_text : Str → Str
number_text [] = []
number_text (c ∷ s) = if is_number_byte c then c ∷ number_text s else []

unfoldable pub after_number : Str → Str
after_number [] = []
after_number (c ∷ s) = if is_number_byte c then after_number s else c ∷ s

-- Where `parseString` waits for a byte: at a character, behind a backslash, or in an escape with so many digits
-- to come and this value so far.
pub data Point : Type 0 where
  literal quote : Point
  digits : ℕ → ℕ → Point

-- What it does with the byte.
pub data Next : Type 0 where
  stop invalid : Next
  continue : Point → Str → Next

unfoldable pub hex_value : ℕ → Option ℕ
hex_value c =
    if leb b'0' c && leb c b'9'
    then some (c - b'0')
    else if leb b'A' c && leb c b'F'
    then some (c - b'A' + 10)
    else if leb b'a' c && leb c b'f'
    then some (c - b'a' + 10)
    else none

-- `switch (*ch)`
unfoldable pub unquoted : Str → ℕ → Next
unquoted value c =
    if c == 34
    then continue literal (value ++ 34 ∷ [])
    else if c == 39
    then continue literal (value ++ 39 ∷ [])
    else if c == b'\\'
    then continue literal (value ++ b'\\' ∷ [])
    else if c == b'/'
    then continue literal (value ++ b'/' ∷ [])
    else if c == b'b'
    then continue literal (value ++ 8 ∷ [])
    else if c == b'f'
    then continue literal (value ++ 12 ∷ [])
    else if c == b'n'
    then continue literal (value ++ 10 ∷ [])
    else if c == b'r'
    then continue literal (value ++ 13 ∷ [])
    else if c == b't'
    then continue literal (value ++ 9 ∷ [])
    else if c == b'u'
    then continue (digits 4 0) value
    else invalid

-- The loop of `parseUnicodeEscape`; behind its last digit, the character is appended.
abbrev pub with_digit : ℕ → Str → ℕ → Next
with_digit zero value n = continue literal (append no_flags value n)
with_digit (suc k) value n = continue (digits (suc k) n) value

abbrev pub digit_next : ℕ → ℕ → Str → Option ℕ → Next
digit_next k n value none = invalid
digit_next k n value (some d) = with_digit (k - 1) value (16 * n + d)

unfoldable pub next : Point → Str → ℕ → Next
next literal value c =
    if c == 34
    then stop
    else if c == b'\\'
    then continue quote value
    else if ltb c 0x20
    then invalid
    else continue literal (value ++ c ∷ [])
next quote value c = unquoted value c
next (digits k n) value c = digit_next k n value (hex_value c)

unfoldable pub set_field : Str → Value → Fields → Fields
set_field k v end = field k v end
set_field k v (field j w fs) = if str_eq k j then field j v fs else field j w (set_field k v fs)

abbrev pub is_identifier_byte : ℕ → Bool
is_identifier_byte c =
    leb b'a' c && leb c b'z'
    || (leb b'A' c && leb c b'Z' || (c == b'_' || leb b'0' c && leb c b'9'))

-- The stream's name, for exceptions, and the value of a number that is no int32_t.
module _ (name : Str) (float : Str → Option Value) where
  abbrev pub end_of_file : Exception
  end_of_file = file_format name file_too_short

  abbrev pub syntax_failure : Exception
  syntax_failure = file_format name syntax_error

  -- `parseString`, behind the opening quotation mark.
  unfoldable pub string_from : Point → Str → Str → Result (Str × Str)
  string_from p value [] = err end_of_file
  string_from p value (c ∷ s) = elim (next p value c) [
    | stop ↦ ok (value, s)
    | invalid ↦ err syntax_failure
    | continue q value' ↦ string_from q value' s
  ]

  abbrev pub after_keyword : Value → Str → Result (Value × Str)
  after_keyword v [] = ok (v, [])
  after_keyword v (c ∷ s) = if is_identifier_byte c then err syntax_failure else ok (v, c ∷ s)

  -- `parseKeyword`, which then makes the value.
  unfoldable pub keyword : Value → Str → Str → Result (Value × Str)
  keyword v [] s = after_keyword v s
  keyword v (k ∷ kw) [] = err end_of_file
  keyword v (k ∷ kw) (c ∷ s) =
      let rest = keyword v kw s in if c == k then rest else err syntax_failure

  abbrev pub float_value : Str → Option Value → Result (Value × Str)
  float_value s none = err syntax_failure
  float_value s (some v) = ok (v, s)

  abbrev pub number_value : Str → Str → Option ℤ → Result (Value × Str)
  number_value text rest (some n) = ok (integer n, rest)
  number_value text rest none = float_value rest (float text)

  unfoldable pub number : Str → Result (Value × Str)
  number s = number_value (number_text s) (after_number s) (str_to_integer (number_text s))

  -- `parseChar`, with the byte read.
  abbrev pub expect : ℕ → Str → Result Str
  expect which [] = err end_of_file
  expect which (c ∷ s) = if c == which then ok s else err syntax_failure

  -- `parseChar(',', last)`, with the byte read.
  abbrev pub separator : ℕ → Str → Result (Bool × Str)
  separator last [] = err end_of_file
  separator last (c ∷ s) =
      if c == b',' then ok (true, s) else if c == last then ok (false, s) else err syntax_failure

  -- The loops over elements and members. `parse` is given to them; every round reads more than a byte.
  unfoldable pub elements : (Str → Result (Value × Str)) → ℕ → Items → Str → Result (Items × Str)
  elements parse zero vs s = err fault
  elements parse (suc n) vs s = do
    (v, t) ← parse s
    (more, u) ← separator b']' (skip_whitespace t)
    let rest = elements parse n (push_back vs v) u
    if more then rest else ok (push_back vs v, u)

  unfoldable pub members : (Str → Result (Value × Str)) → ℕ → Fields → Str → Result (Fields × Str)
  members parse zero fs s = err fault
  members parse (suc n) fs s = do
    t ← expect 34 s
    (k, u) ← string_from literal [] t
    x ← expect b':' (skip_whitespace u)
    (v, y) ← parse x
    (more, z) ← separator b'}' (skip_whitespace y)
    let rest = members parse n (set_field k v fs) (skip_whitespace z)
    if more then rest else ok (set_field k v fs, z)

  -- `parseArray` and `parseHash`, behind the opening bracket and white space.
  unfoldable pub array : (Str → Result (Value × Str)) → ℕ → Str → Result (Value × Str)
  array parse n [] = err end_of_file
  array parse n (c ∷ s) =
      if c == b']'
      then ok (vector nil, s)
      else (do (vs, t) ← elements parse n nil (c ∷ s); ok (vector vs, t))

  unfoldable pub object : (Str → Result (Value × Str)) → ℕ → Str → Result (Value × Str)
  object parse n [] = err end_of_file
  object parse n (c ∷ s) =
      if c == b'}'
      then ok (hash end, s)
      else (do (fs, t) ← members parse n end (c ∷ s); ok (hash fs, t))

  unfoldable pub value_of :
      (Str → Result (Value × Str)) → ℕ → Start → ℕ → Str → Result (Value × Str)
  value_of parse n array_start c s = array parse n (skip_whitespace s)
  value_of parse n hash_start c s = object parse n (skip_whitespace s)
  value_of parse n string_start c s = do (v, t) ← string_from literal [] s; ok (string v, t)
  value_of parse n null_start c s = keyword null (bytes "null") (c ∷ s)
  value_of parse n true_start c s = keyword (boolean true) (bytes "true") (c ∷ s)
  value_of parse n false_start c s = keyword (boolean false) (bytes "false") (c ∷ s)
  value_of parse n number_start c s = number (c ∷ s)
  value_of parse n no_start c s = err syntax_failure

  abbrev pub value_at : (Str → Result (Value × Str)) → ℕ → Str → Result (Value × Str)
  value_at parse n [] = err end_of_file
  value_at parse n (c ∷ s) = value_of parse n (start c) c s

  -- `parse`, on fuel for the nesting and for each loop.
  unfoldable pub parse_fuel : ℕ → Str → Result (Value × Str)
  parse_fuel zero s = err fault
  parse_fuel (suc n) s = value_at (parse_fuel n) n (skip_whitespace s)

  unfoldable pub parse : Str → Result (Value × Str)
  parse s = parse_fuel (suc (length s)) s

  abbrev pub at_end : Value × Str → Result Value
  at_end (v, []) = ok v
  at_end (v, c ∷ s) = err syntax_failure

  unfoldable pub parse_complete : Str → Result Value
  parse_complete s = do (v, t) ← parse s; at_end (v, skip_whitespace t)
