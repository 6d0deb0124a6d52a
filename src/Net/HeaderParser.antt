-- ===== src/Net/HeaderParser.antt =====
-- afl/net/headerparser.cpp: header lines, as a state machine that reads byte by byte.
pub mod Steps
pub mod RoundTrip
use afl.Base.{ℕ, zero, suc, ◌||◌, Bool, true, false, List, [], ◌∷◌, ◌++◌, ◌==◌, if◌then◌else◌}
use afl.Base.Str.{Str}
use afl.Net.HeaderTable.{HeaderTable, handle_header}
use afl.Net.HeaderField.{HeaderField}

pub data State : Type 0 where
  initial_state key_state value_state newline_state error_state final_state : State

-- The parser, with the headers that its consumer has got. The consumer is a header table.
pub record HeaderParser : Type 0 where
  pub consumer : HeaderTable
  pub has_errors : Bool
  pub has_folding : Bool
  pub key : Str
  pub value : Str
  pub state : State

abbrev pub create : HeaderTable → HeaderParser
create t = record {
  consumer = t;
  has_errors = false;
  has_folding = false;
  key = [];
  value = [];
  state = initial_state;
}

abbrev pub flush : HeaderParser → HeaderParser
flush p = record p { consumer = handle_header p.key p.value p.consumer; key = []; value = [] }

abbrev pub enter : State → HeaderParser → HeaderParser
enter s p = record p { state = s }

abbrev pub mark_error : HeaderParser → HeaderParser
mark_error p = record p { has_errors = true }

abbrev pub clear_key : HeaderParser → HeaderParser
clear_key p = record p { key = [] }

abbrev pub add_key : ℕ → HeaderParser → HeaderParser
add_key c p = record p { key = p.key ++ c ∷ [] }

abbrev pub add_value : ℕ → HeaderParser → HeaderParser
add_value c p = record p { value = p.value ++ c ∷ [] }

-- White space at the front of a value is left out.
abbrev pub add_blank : ℕ → Str → HeaderParser → HeaderParser
add_blank c [] p = p
add_blank c (v ∷ vs) p = add_value c p

-- The cases of the outer `switch`, each on the state.
unfoldable pub newline : State → HeaderParser → HeaderParser
newline initial_state p = enter final_state p
newline key_state p = enter initial_state (clear_key (mark_error p))
newline value_state p = enter newline_state p
newline newline_state p = enter final_state (flush p)
newline error_state p = enter initial_state (clear_key p)
newline final_state p = p

unfoldable pub blank : ℕ → State → HeaderParser → HeaderParser
blank c initial_state p = enter error_state (mark_error (clear_key p))
blank c key_state p = enter error_state (mark_error (clear_key p))
blank c value_state p = add_blank c p.value p
blank c newline_state p = add_blank c p.value (enter value_state (record p { has_folding = true }))
blank c error_state p = p
blank c final_state p = p

unfoldable pub colon : ℕ → State → HeaderParser → HeaderParser
colon c initial_state p = enter error_state (mark_error p)
colon c key_state p = enter value_state p
colon c value_state p = add_value c p
colon c newline_state p = enter error_state (mark_error (flush p))
colon c error_state p = p
colon c final_state p = p

unfoldable pub other : ℕ → State → HeaderParser → HeaderParser
other c initial_state p = enter key_state (add_key c p)
other c key_state p = add_key c p
other c value_state p = add_value c p
other c newline_state p = enter key_state (add_key c (flush p))
other c error_state p = p
other c final_state p = p

unfoldable pub handle_byte : ℕ → HeaderParser → HeaderParser
handle_byte c p =
    if c == 0
    then mark_error p
    else if c == 13
    then p
    else if c == 10
    then newline p.state p
    else if c == 32 || c == 9
    then blank c p.state p
    else if c == b':'
    then colon c p.state p
    else other c p.state p

abbrev pub is_final : State → Bool
is_final final_state = true
is_final s = false

-- `handleData`: the parser and the bytes that it leaves. What it returns is whether it is final then.
unfoldable pub handle_data : HeaderParser → Str → HeaderParser × Str
handle_data p [] = (p, [])
handle_data p (c ∷ s) =
    let rest = handle_data (handle_byte c p) s in if is_final p.state then (p, c ∷ s) else rest
