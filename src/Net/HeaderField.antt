-- ===== src/Net/HeaderField.antt =====
-- afl/net/headerfield.cpp: a header field, and the parts of its value.
pub mod Scanned
pub mod Quoted
use afl.Base.{
  ℕ, zero, suc, ◌+◌, ◌&&◌, ◌||◌, Bool, true, false, not, Option, none, some, List, [], ◌∷◌, ◌++◌,
  ◌==◌, if◌then◌else◌, length, take, drop,
}
use afl.Base.Str.{Str}
use afl.Text.Char.{case_equal}
use afl.Text.String.{str_trim, find}

pub record HeaderField : Type 0 where
  pub name : Str
  pub value : Str

-- The bits of a parse mode.
pub record Mode : Type 0 where
  pub no_comments : Bool
  pub no_quotes : Bool
  pub no_primary : Bool

abbrev pub no_mode : Mode
no_mode = record { no_comments = false; no_quotes = false; no_primary = false }

pub data ScanState : Type 0 where
  raw dq dqq paren paren_q : ScanState

-- What a byte does: it ends the part, or is left out or kept.
pub data Effect : Type 0 where
  stop : Effect
  skip keep : ScanState → Effect

-- The `switch` in `extractPart`.
unfoldable pub scan_byte : Mode → ScanState → ℕ → Effect
scan_byte m raw c =
    if c == b'"' && not m.no_quotes
    then skip dq
    else if c == b'(' && not m.no_comments
    then skip paren
    else if c == b';'
    then stop
    else keep raw
scan_byte m dq c = if c == b'\\' then skip dqq else if c == b'"' then skip raw else keep dq
scan_byte m dqq c = keep dq
scan_byte m paren c =
    if c == b')' then skip raw else if c == b'\\' then skip paren_q else skip paren
scan_byte m paren_q c = skip paren

abbrev pub put : ℕ → Str × Str → Str × Str
put c (part, rest) = (c ∷ part, rest)

-- The part, and what is behind its semicolon.
unfoldable pub extract_loop : Mode → ScanState → Str → Str × Str
extract_loop m state [] = ([], [])
extract_loop m state (c ∷ s) = elim (scan_byte m state c) [
  | stop ↦ ([], s)
  | skip next ↦ extract_loop m next s
  | keep next ↦ put c (extract_loop m next s)
]

abbrev pub extract_part : Mode → Str → Str × Str
extract_part m s = extract_loop m raw s

unfoldable pub get_primary_value : Mode → HeaderField → Str
get_primary_value m f = str_trim (extract_part m f.value).0

abbrev pub named_at : Str → Option ℕ → HeaderField
named_at part none = record { name = str_trim part; value = [] }
named_at part (some n) = record {
  name = str_trim (take n part);
  value = str_trim (drop (n + 1) part);
}

-- A part as its consumer gets it.
unfoldable pub named : Str → HeaderField
named part = named_at part (find (b'=' ∷ []) part)

-- The loop over the parts, each of which takes a byte at least.
unfoldable pub parts_loop : ℕ → Mode → Str → List HeaderField
parts_loop zero m s = []
parts_loop (suc fuel) m [] = []
parts_loop (suc fuel) m (c ∷ s) =
    let (part, rest) = extract_part m (c ∷ s) in named part ∷ parts_loop fuel m rest

abbrev pub all_parts : Mode → Str → List HeaderField
all_parts m s = parts_loop (length s) m s

-- What the consumer gets, in its order.
unfoldable pub enumerate_secondary_values : Mode → HeaderField → List HeaderField
enumerate_secondary_values m f =
    all_parts m (if m.no_primary then f.value else (extract_part m f.value).1)

-- The consumer in `getSecondaryValue`, which keeps the first value with the name.
unfoldable pub first_value : Str → List HeaderField → Option Str
first_value name [] = none
first_value name (f ∷ fs) = if case_equal f.name name then some f.value else first_value name fs

unfoldable pub get_secondary_value : Mode → Str → HeaderField → Option Str
get_secondary_value m name f = first_value name (enumerate_secondary_values m f)

-- The text behind the `<` up to the first `>`, where both are there.
abbrev pub bracketed : Str → Option ℕ → Option Str
bracketed s none = none
bracketed s (some p) = some (take p s)

abbrev pub after_bracket : Str → Option ℕ → Option Str
after_bracket s none = none
after_bracket s (some n) = bracketed (drop (n + 1) s) (find (b'>' ∷ []) (drop (n + 1) s))

abbrev pub before_comma : Str → Option ℕ → Str
before_comma s none = s
before_comma s (some n) = take n s

abbrev pub address_text : Str → Option Str → Str
address_text s (some t) = t
address_text s none = before_comma s (find (b',' ∷ []) s)

abbrev pub is_found : Option ℕ → Bool
is_found none = false
is_found (some n) = true

-- The final checks.
unfoldable pub checked_address : Str → Option Str
checked_address s =
    if not (is_found (find (b'@' ∷ []) s))
      || (is_found (find (32 ∷ []) s) || is_found (find (9 ∷ []) s))
    then none
    else some s

unfoldable pub get_address_value : HeaderField → Option Str
get_address_value f =
    let s = get_primary_value no_mode f in
    checked_address (str_trim (address_text s (after_bracket s (find (b'<' ∷ []) s))))
