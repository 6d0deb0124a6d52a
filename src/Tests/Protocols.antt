-- ===== src/Tests/Protocols.antt =====
-- Headers, lines and checksums at a few values.
use afl.Base.{◌&◌, ◌≡◌, refl, arith, true, false, none, some, List, [], ◌∷◌, ◌++◌, ◌%◌, ◌/◌, ◌^◌}
use afl.Base.Str.{Str, bytes, str_eq}
use afl.Net.HeaderTable.{add, write_headers, get, set}
use afl.Net.HeaderField.{HeaderField}
use afl.Text.Char.{case_equal}
use afl.Text.Char.{char_to_upper, char_is_lower}
use afl.Net.HeaderParser
use afl.Net.HeaderParser.{HeaderParser, final_state, handle_byte, newline, blank, colon, other}
use afl.Net.HeaderParser.RoundTrip.{handle_data-write_headers}
use afl.Net.Line.ProtocolHandler
use afl.Net.Line.ProtocolHandler.{
  LineHandler, Connection, add_lines, add_line, content, get_operation, handle_loop, process_line,
  line_front, line_rest, without_cr,
}
use afl.Net.Line.ProtocolHandler.Lines.{deliver, handle_data-add_lines}
use afl.Checksums.Adler32
use afl.Checksums.Adler32.{base, add_loop}
use afl.Checksums.Adler32.Exact.{exact, add-exact}

abbrev host : HeaderField
host = record { name = bytes "Host"; value = bytes "a:b c" }

abbrev empty : HeaderField
empty = record { name = bytes "X"; value = [] }

-- A folded line, and a line without a colon.
folded :
    (HeaderParser.handle_data (HeaderParser.create []) (bytes "A: b\n  c\nbad\n\nrest")).0
    ≡ record {
      consumer = record { name = bytes "A"; value = bytes "b  c" } ∷ [];
      has_errors = true;
      has_folding = true;
      key = [];
      value = [];
      state = final_state;
    }
unfolding HeaderParser.handle_data handle_byte newline blank colon other add
folded = refl

set_value :
    get (bytes "HOST") (set (bytes "host") (bytes "x") (host ∷ []))
    ≡ some (record { name = bytes "Host"; value = bytes "x" })
unfolding get set case_equal char_to_upper char_is_lower
set_value = refl

handle_data-write_headers_example :
    HeaderParser.handle_data
      (HeaderParser.create [])
      (write_headers (host ∷ empty ∷ []) ++ (13 ∷ 10 ∷ bytes "body"))
    ≡ (
      record {
        consumer = host ∷ empty ∷ [];
        has_errors = false;
        has_folding = false;
        key = [];
        value = [];
        state = final_state;
      },
      bytes "body",
    )
handle_data-write_headers_example =
    handle_data-write_headers [] (host ∷ empty ∷ []) (bytes "body") (
      (
        (λ e. cc),
        (refl, (refl, (refl, (refl, tt)))),
        (refl, (refl, (refl, (refl, (refl, tt))))),
        refl,
      )
      & (((λ e. cc), (refl, tt), tt, tt) & tt))

-- A handler that repeats what it gets, until it gets a dot.
abbrev echo : LineHandler (List Str)
echo = record {
  handle_opening = λ h. ((false, bytes "hi" ∷ []), h);
  handle_line = λ l h. ((str_eq l (bytes "."), l ∷ []), l ∷ h);
  handle_connection_close = λ h. h;
}

greeting : (get_operation echo (ProtocolHandler.create [])).0.data_to_send ≡ bytes "hi\r\n"
unfolding get_operation add_lines add_line
greeting = refl

-- Nothing is handled behind the line that ends the conversation, and a carriage return need not be there.
ended :
    (ProtocolHandler.handle_data echo
      (ProtocolHandler.create [])
      (bytes "a\n.\r\nb\r\n")).line_handler
    ≡ bytes "." ∷ bytes "a" ∷ []
unfolding ProtocolHandler.handle_data handle_loop process_line line_front line_rest without_cr
    str_eq
ended = refl

handle_data-add_lines_example :
    ProtocolHandler.handle_data echo
      (ProtocolHandler.create [])
      (content (add_lines none (bytes "a" ∷ bytes "b" ∷ [])))
    ≡ deliver echo (ProtocolHandler.create []) (bytes "a" ∷ bytes "b" ∷ [])
handle_data-add_lines_example =
    handle_data-add_lines echo (ProtocolHandler.create []) (bytes "a" ∷ bytes "b" ∷ []) refl
      ((refl, tt), ((refl, tt), tt))

wikipedia : Adler32.add (bytes "Wikipedia") 1 ≡ 0x11e60398
unfolding Adler32.add add_loop
wikipedia = refl

add-exact_example :
    Adler32.add (bytes "Wi") 1 ≡ exact (1 % 2 ^ 16 % base) (1 / 2 ^ 16 % base) (bytes "Wi")
add-exact_example = add-exact (bytes "Wi") 1 (omega arith) (omega arith, (omega arith, tt))
