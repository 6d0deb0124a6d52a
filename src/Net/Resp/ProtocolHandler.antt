-- ===== src/Net/Resp/ProtocolHandler.antt =====
-- afl/net/resp/protocolhandler.cpp: the server's side of a connection. It parses commands, has a handler
-- execute them, and keeps the replies until they are sent.
pub mod Bytes
pub mod Commands
pub mod Replies
use afl.Base.{ℕ, zero, suc, Bool, true, false, Option, none, some, List, [], ◌∷◌, ◌++◌, length}
use afl.Base.Str.{Str}
use afl.Except.{Result, ok, err, what, invalid_operation}
use afl.Data.Value.{Value, vector, Items, values}
use afl.Resp.Writer.{write, write_error}
use afl.Resp.Parser
use afl.Resp.Parser.{State, root, done}
use afl.Net.Handler.{CommandHandler}

-- `m_state`
pub data Phase : Type 0 where
  idle sending failed : Phase

-- `m_state`, `m_data` with the content of each sink, the parser's state, and the state of the handler
-- that `m_ch` refers to. No parser state is kept where an exception left the parser: `m_close` then
-- has the caller close the connection.
pub record Connection (S : Type 0) : Type 0 where
  pub phase : Phase
  pub outputs : List Str
  pub parser : Option State
  pub served : S

-- An `Operation`, without its timeout.
pub record Operation : Type 0 where
  pub data_to_send : Str
  pub close : Bool

abbrev pub is_failed : Phase → Bool
is_failed failed = true
is_failed _ = false

abbrev pub pop_front : List Str → List Str
pop_front [] = []
pop_front (x ∷ out) = out

abbrev pub acknowledge : Phase → List Str → Phase × List Str
acknowledge sending out = (idle, pop_front out)
acknowledge p out = (p, out)

abbrev pub answer : Result Value → Str
answer (ok v) = write v
answer (err e) = write_error (what e)

module _ {S : Type 0} where
  -- The constructor.
  abbrev pub create : S → Connection S
  create s = record { phase = idle; outputs = []; parser = some root; served = s }

  abbrev pub enter : Phase → Connection S → Connection S
  enter p c = record c { phase = p }

  -- What `getOperation` does after it has dropped what was sent.
  abbrev pub next_output : Phase → List Str → Connection S → Operation × Connection S
  next_output idle (x ∷ out) c =
      (record { data_to_send = x; close = false }, record c { phase = sending; outputs = x ∷ out })
  next_output p out c =
      (record { data_to_send = []; close = is_failed p }, record c { phase = p; outputs = out })

  unfoldable pub get_operation : Connection S → Operation × Connection S
  get_operation c = let (p, out) = acknowledge c.phase c.outputs in next_output p out c

  -- `handleSendTimeout`
  abbrev pub handle_send_timeout : Connection S → Connection S
  handle_send_timeout c = enter failed c

  -- `handleNewValue`: the reply, and what the handler did.
  unfoldable pub reply : CommandHandler S → Value → S → Str × S
  reply ch (vector vs) s = let r = ch.call (values vs) s in (answer r.0, r.1)
  reply ch v s = (write_error invalid_operation, s)

  abbrev pub handle_new_value : CommandHandler S → Value → List Str × S → List Str × S
  handle_new_value ch v (out, s) = (out ++ ((reply ch v s).0 ∷ []), (reply ch v s).1)

  -- After the parser: `extract` sets it back where it has a value.
  unfoldable pub take_value : CommandHandler S → State → List Str × S → State × (List Str × S)
  take_value ch (done v) w = (root, handle_new_value ch v w)
  take_value ch st w = (st, w)

  -- The loop of `handleData`, on fuel for every byte: the parser's state or an exception, and the
  -- outputs with what the handler did.
  unfoldable pub data_loop :
      ℕ → CommandHandler S → State → List Str × S → Str → Result State × (List Str × S)
  unfolding take_value
  data_loop zero ch st w input = (ok st, w)
  data_loop (suc fuel) ch st w [] = (ok st, w)
  data_loop (suc fuel) ch st w (c ∷ input) = elim (Parser.handle_data true st (c ∷ input)) [
    | err e ↦ (err e, w)
    | ok (st', rest) ↦ data_loop fuel ch (take_value ch st' w).0 (take_value ch st' w).1 rest
  ]

  -- What the loop leaves, with the `catch` clauses.
  abbrev pub finish_data : Connection S → Result State → List Str × S → Connection S
  finish_data c (ok st) w = record c { outputs = w.0; parser = some st; served = w.1 }
  finish_data c (err e) w = record { phase = failed; outputs = w.0; parser = none; served = w.1 }

  abbrev pub data_from : CommandHandler S → Connection S → Option State → Str → Connection S
  data_from ch c none input = c
  data_from ch c (some st) input =
      let r = data_loop (length input) ch st (c.outputs, c.served) input in finish_data c r.0 r.1

  unfoldable pub handle_data : CommandHandler S → Connection S → Str → Connection S
  unfolding data_loop
  handle_data ch c input = data_from ch c c.parser input
