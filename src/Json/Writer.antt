-- ===== src/Json/Writer.antt =====
-- afl/io/json/writer.cpp: a value as JSON, on one line, with line breaks at a length, or indented. What
-- goes to the sink is the result.
use afl.Base.{
  ℕ, zero, suc, ◌+◌, ◌-◌, ◌/◌, ◌%◌, ◌^◌, Bool, true, false, not, ◌&&◌, ◌||◌, [], ◌∷◌, ◌++◌, length,
  leb, ltb, ◌==◌, if◌then◌else◌,
}
use afl.Base.Str.{Str, bytes}
use afl.Text.Number.{format_signed}
use afl.Data.Value.{
  Value, null, string, integer, boolean, error, vector, hash, Items, nil, cons, Fields, end, field,
}

-- The settings `m_lineLength` and `m_indentStep`, then the state.
pub record Writer : Type 0 where
  pub line_length : ℕ
  pub indent_step : ℕ
  pub current_line_length : ℕ
  pub current_indent_level : ℕ
  pub current_allow_newline : Bool

abbrev pub create : ℕ → ℕ → Writer
create line_length indent_step = record {
  line_length = line_length;
  indent_step = indent_step;
  current_line_length = 0;
  current_indent_level = 0;
  current_allow_newline = false;
}

-- The flags of `write`.
pub record Layout : Type 0 where
  pub newline_before : Bool
  pub newline_after : Bool
  pub indent_after : Bool
  pub undent_before : Bool

abbrev pub plain : Layout
plain = record {
  newline_before = false;
  newline_after = false;
  indent_after = false;
  undent_before = false;
}

abbrev pub opening : Layout
opening = record {
  newline_before = false;
  newline_after = true;
  indent_after = true;
  undent_before = false;
}

abbrev pub closing : Layout
closing = record {
  newline_before = true;
  newline_after = false;
  indent_after = false;
  undent_before = true;
}

abbrev pub separating : Layout
separating = record {
  newline_before = false;
  newline_after = true;
  indent_after = false;
  undent_before = false;
}

-- The spaces, which are written in pieces of at most 128.
unfoldable pub spaces : ℕ → Str
spaces zero = []
spaces (suc n) = 32 ∷ spaces n

-- The indentation level at the token.
abbrev pub undented : Layout → Writer → ℕ
undented l w =
    if l.undent_before
    then (w.current_indent_level + 2 ^ 64 - w.indent_step) % 2 ^ 64
    else w.current_indent_level

-- Whether a line ends before the token.
abbrev pub breaks_line : Str → Layout → Writer → Bool
breaks_line s l w =
    (l.newline_before || w.current_allow_newline)
    && (ltb 0 w.indent_step
        || (not (w.line_length == 0)
            && ltb w.line_length ((w.current_line_length + length s) % 2 ^ 64)))

-- `write`: what it sends before the string, and the state after it.
unfoldable pub before : Str → Layout → Writer → Str
before s l w = if breaks_line s l w then 10 ∷ spaces (undented l w) else []

unfoldable pub after : Str → Layout → Writer → Writer
after s l w = record {
  line_length = w.line_length;
  indent_step = w.indent_step;
  current_line_length =
      ((if breaks_line s l w then undented l w else w.current_line_length) + length s) % 2 ^ 64;
  current_indent_level =
      if l.indent_after then (undented l w + w.indent_step) % 2 ^ 64 else undented l w;
  current_allow_newline = l.newline_after;
}

abbrev pub write : Str → Layout → Writer → Str × Writer
write s l w = (before s l w ++ s, after s l w)

-- `Format("%X")` of a digit.
unfoldable pub upper_digit : ℕ → ℕ
upper_digit d = if ltb d 10 then b'0' + d else b'A' + (d - 10)

-- One byte of a string. The last case is `Format("\\u%04X", ch)` of a byte below 32.
unfoldable pub escaped : ℕ → Str
escaped ch =
    if ch == b'\\'
    then b'\\' ∷ b'\\' ∷ []
    else if ch == 34
    then b'\\' ∷ 34 ∷ []
    else if leb 32 ch
    then ch ∷ []
    else if ch == 10
    then b'\\' ∷ b'n' ∷ []
    else if ch == 13
    then b'\\' ∷ b'r' ∷ []
    else if ch == 8
    then b'\\' ∷ b'b' ∷ []
    else if ch == 9
    then b'\\' ∷ b't' ∷ []
    else if ch == 12
    then b'\\' ∷ b'f' ∷ []
    else b'\\' ∷ b'u' ∷ b'0' ∷ b'0' ∷ upper_digit (ch / 16) ∷ upper_digit (ch % 16) ∷ []

unfoldable pub escape_all : Str → Str
escape_all [] = []
escape_all (ch ∷ s) = escaped ch ++ escape_all s

unfoldable pub quoted : Str → Str
quoted s = 34 ∷ (escape_all s ++ (34 ∷ []))

-- One `write` after another.
infixr 5 ◌⟫◌
abbrev pub ◌⟫◌ : (Writer → Str × Writer) → (Writer → Str × Writer) → Writer → Str × Writer
◌⟫◌ f g w = ((f w).0 ++ (g (f w).1).0, (g (f w).1).1)

abbrev pub done : Writer → Str × Writer
done w = ([], w)

-- The comma before all elements but the first.
abbrev pub comma : Bool → Writer → Str × Writer
comma first w = if first then done w else write (bytes ",") separating w

unfoldable mutual
  pub visit : Value → Writer → Str × Writer
  visit null = write (bytes "null") plain
  visit (string s) = write (quoted s) plain
  visit (integer n) = write (format_signed n) plain
  visit (boolean b) = write (if b then bytes "true" else bytes "false") plain
  visit (error source s) = write (bytes "null") plain
  visit (vector vs) = write (bytes "[") opening ⟫ (visit_items true vs ⟫ write (bytes "]") closing)
  visit (hash fs) = write (bytes "{") opening ⟫ (visit_fields true fs ⟫ write (bytes "}") closing)

  pub visit_items : Bool → Items → Writer → Str × Writer
  visit_items first nil = done
  visit_items first (cons v vs) = comma first ⟫ (visit v ⟫ visit_items false vs)

  pub visit_fields : Bool → Fields → Writer → Str × Writer
  visit_fields first end = done
  visit_fields first (field k v fs) =
      comma first
      ⟫ (write (quoted k) plain ⟫ (write (bytes ":") plain ⟫ (visit v ⟫ visit_fields false fs)))
