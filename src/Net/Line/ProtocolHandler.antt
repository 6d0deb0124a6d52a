-- ===== src/Net/Line/ProtocolHandler.antt =====
-- afl/net/line/protocolhandler.cpp: one side of a connection that exchanges lines. The line handler is a
-- parameter.
pub mod Lines
use afl.Base.{
  ℕ, zero, suc, Bool, true, false, not, ◌&&◌, Option, none, some, List, [], ◌∷◌, ◌++◌, length, ◌==◌,
  if◌then◌else◌,
}
use afl.Base.Str.{Str}

-- A `LineHandler` with its state. What it returns is whether the conversation ends, with the lines that it gave
-- to the `LineSink`.
pub record LineHandler (H : Type 0) : Type 0 where
  pub handle_opening : H → (Bool × List Str) × H
  pub handle_line : Str → H → (Bool × List Str) × H
  pub handle_connection_close : H → H

pub record Connection (H : Type 0) : Type 0 where
  pub line_handler : H
  pub input : Str
  pub opened : Bool
  pub close_requested : Bool
  pub current_output : Option Str
  pub future_output : Option Str

-- What `getOperation` asks for; a time to wait of `none` is `INFINITE_TIMEOUT`.
pub record Operation : Type 0 where
  pub data_to_send : Str
  pub close : Bool
  pub time_to_wait : Option ℕ

abbrev pub create : {H : Type 0} → H → Connection H
create h = record {
  line_handler = h;
  input = [];
  opened = false;
  close_requested = false;
  current_output = none;
  future_output = none;
}

abbrev pub content : Option Str → Str
content none = []
content (some s) = s

-- `handleLine` of the sink.
unfoldable pub add_line : Option Str → Str → Option Str
add_line out line = some (content out ++ (line ++ (13 ∷ 10 ∷ [])))

unfoldable pub add_lines : Option Str → List Str → Option Str
add_lines out [] = out
add_lines out (l ∷ ls) = add_lines (add_line out l) ls

-- The part of the input before its first line feed, and the part from there on.
unfoldable pub line_front : Str → Str
line_front [] = []
line_front (c ∷ s) = if c == 10 then [] else c ∷ line_front s

unfoldable pub line_rest : Str → Str
line_rest [] = []
line_rest (c ∷ s) = if c == 10 then c ∷ s else line_rest s

-- A carriage return at the end is removed.
unfoldable pub without_cr : Str → Str
without_cr [] = []
without_cr (c ∷ []) = if c == 13 then [] else c ∷ []
without_cr (c ∷ d ∷ s) = c ∷ without_cr (d ∷ s)

module _ {H : Type 0} (L : LineHandler H) where
  -- What the handler's answer does to the connection.
  abbrev pub answered : (Bool × List Str) × H → Connection H → Connection H
  answered ((end, lines), h) c = record {
    line_handler = h;
    input = c.input;
    opened = c.opened;
    close_requested = if end then true else c.close_requested;
    current_output = c.current_output;
    future_output = add_lines c.future_output lines;
  }

  abbrev pub with_input : Str → Connection H → Connection H
  with_input s c = record {
    line_handler = c.line_handler;
    input = s;
    opened = c.opened;
    close_requested = c.close_requested;
    current_output = c.current_output;
    future_output = c.future_output;
  }

  -- A line is complete.
  unfoldable pub process_line : Connection H → Connection H
  process_line c = with_input [] (answered (L.handle_line (without_cr c.input) c.line_handler) c)

  -- The rest of a round: where the input was not used up, it stands at a line feed.
  abbrev pub loop_rest : (Connection H → Str → Connection H) → Connection H → Str → Connection H
  loop_rest next c [] = c
  loop_rest next c (b ∷ s) = next (process_line c) s

  unfoldable pub handle_loop : ℕ → Connection H → Str → Connection H
  handle_loop zero c s = c
  handle_loop (suc fuel) c [] = c
  handle_loop (suc fuel) c (b ∷ s) =
      if c.close_requested
      then c
      else loop_rest (handle_loop fuel) (with_input (c.input ++ line_front (b ∷ s)) c)
          (line_rest (b ∷ s))

  -- `handleData`; every round takes at least a byte.
  unfoldable pub handle_data : Connection H → Str → Connection H
  handle_data c s = handle_loop (length s) c s

  abbrev pub open_connection : Connection H → Connection H
  open_connection c = record {
    line_handler = c.line_handler;
    input = c.input;
    opened = true;
    close_requested = c.close_requested;
    current_output = c.current_output;
    future_output = c.future_output;
  }

  -- The opening, if it was not yet.
  abbrev pub after_opening : Connection H → Connection H
  after_opening c =
      if c.opened then c else answered (L.handle_opening c.line_handler) (open_connection c)

  abbrev pub with_outputs : Option Str → Option Str → Connection H → Connection H
  with_outputs current future c = record {
    line_handler = c.line_handler;
    input = c.input;
    opened = c.opened;
    close_requested = c.close_requested;
    current_output = current;
    future_output = future;
  }

  abbrev pub next_operation : Connection H → Option Str → Operation × Connection H
  next_operation c (some s) = (
    record { data_to_send = s; close = false; time_to_wait = none },
    with_outputs (some s) none c,
  )
  next_operation c none = (
    if c.close_requested
        then record { data_to_send = []; close = true; time_to_wait = some 0 }
        else record { data_to_send = []; close = false; time_to_wait = none },
    with_outputs none none c,
  )

  -- `getOperation`; what was being sent has been sent.
  unfoldable pub get_operation : Connection H → Operation × Connection H
  get_operation c =
      let d = after_opening (with_outputs none c.future_output c) in
      next_operation d d.future_output

  unfoldable pub handle_connection_close : Connection H → Connection H
  handle_connection_close c = if c.close_requested then c else record {
    line_handler = L.handle_connection_close c.line_handler;
    input = c.input;
    opened = c.opened;
    close_requested = true;
    current_output = c.current_output;
    future_output = c.future_output;
  }

  unfoldable pub handle_send_timeout : Connection H → Connection H
  handle_send_timeout c = handle_connection_close (with_outputs none none c)
