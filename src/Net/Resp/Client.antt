-- ===== src/Net/Resp/Client.antt =====
-- afl/net/resp/client.cpp: the client's side of a connection. The network stack and its sockets are
-- parameters.
pub mod Served
pub mod Reconnect
use afl.Base.{ℕ, zero, suc, Bool, true, false, Option, none, some, List, [], ◌∷◌}
use afl.Base.Str.{Str, bytes}
use afl.Except.{file_too_short, Exception, remote_error, file_format, Result, ok, err}
use afl.Data.Value.{Value, error, vector, items}
use afl.Resp.Writer.{write}
use afl.Resp.Parser
use afl.Resp.Parser.{State, root, done}
use afl.Resp.Parser.Bytes.{feed}
use afl.Net.Handler.{Calls}

-- `Mode`
pub data Mode : Type 0 where
  never once always : Mode

-- What the client uses of `NetworkStack` and the socket it gets from it: `connect` to its name, a
-- `CommunicationSink` to the socket, and `receive`, which waits for data; none mean that the other side
-- has closed. `X` is the state of all that lies behind.
pub record Network (X : Type 0) : Type 0 where
  pub connect : Calls X (Unit {0})
  pub send : Str → Calls X (Unit {0})
  pub receive : Calls X Str
  -- `m_socket->getName()`
  pub name : Str

pub record Client (X : Type 0) : Type 0 where
  pub mode : Mode
  pub input : Str
  pub parser : State
  pub network : X

-- The parser's state and the data after an exception: the byte that it did not accept has gone.
unfoldable pub abandoned : State → Str → State × Str
abandoned st [] = (st, [])
abandoned st (c ∷ input) = elim (feed false st c) [ err e ↦ (st, input) | ok q ↦ abandoned q input ]

abbrev pub is_never : Mode → Bool
is_never never = true
is_never _ = false

abbrev pub once_done : Mode → Mode
once_done once = never
once_done m = m

-- `isError`, and what is thrown for it.
abbrev pub received : Str → Value → Result Value
received name (error source msg) = err (remote_error name msg)
received name v = ok v

module _ {X : Type 0} (net : Network X) where
  -- What follows where there was no exception.
  abbrev pub unless_thrown :
      {A B : Type 0} → Result A × Client X → (A → Calls (Client X) B) → Result B × Client X
  unless_thrown (ok a, c) f = f a c
  unless_thrown (err e, c) f = (err e, c)

  abbrev pub on_network : {A : Type 0} → Calls X A → Calls (Client X) A
  on_network f c = ((f c.network).0, record c { network = (f c.network).1 })

  -- `sendCommand`
  unfoldable pub send_command : List Value → Calls (Client X) (Unit {0})
  send_command command = on_network (net.send (write (vector (items command))))

  -- What the parser makes of `m_input`: a value, or nothing yet.
  abbrev pub parsed_input : Client X → Result (State × Str) → Result (Option Value) × Client X
  parsed_input c (ok (done v, rest)) = (ok (some v), record c { input = rest; parser = root })
  parsed_input c (ok (st, rest)) = (ok none, record c { input = rest; parser = st })
  parsed_input c (err e) =
      let (st, rest) = abandoned c.parser c.input in (err e, record c { input = rest; parser = st })

  unfoldable pub parse_input : Calls (Client X) (Option Value)
  unfolding abandoned
  parse_input c = parsed_input c (Parser.handle_data false c.parser c.input)

  abbrev pub take_input : Str → Calls (Client X) (Unit {0})
  take_input [] c = (err (file_format net.name file_too_short), c)
  take_input (x ∷ data') c = (ok tt, record c { input = x ∷ data' })

  abbrev pub fill_input : Str → Calls (Client X) (Unit {0})
  fill_input [] c = unless_thrown (on_network net.receive c) take_input
  fill_input (x ∷ input) c = (ok tt, c)

  -- `readResponse`, on fuel for the rounds of its loop; nothing where more rounds are needed.
  unfoldable pub read_response : ℕ → Client X → Option (Result Value × Client X)
  unfolding parse_input
  read_response zero c = none
  read_response (suc fuel) c =
      let r = unless_thrown (fill_input c.input c) (λ u. parse_input) in
      elim r.0 [
        | err e ↦ some (err e, r.1)
        | ok none ↦ read_response fuel r.1
        | ok (some v) ↦ some (received net.name v, r.1)
      ]

  -- The loop of `reconnect`, after `i` more rounds may follow.
  unfoldable pub attempts : ℕ → Calls X (Unit {0})
  attempts zero x = net.connect x
  attempts (suc i) x = elim (net.connect x).0 [
    | err e ↦ attempts i (net.connect x).1
    | ok u ↦ (ok u, (net.connect x).1)
  ]

  abbrev pub reconnect : Calls (Client X) (Unit {0})
  reconnect = on_network (attempts 14)

  -- A second try, unless the mode is `Never`.
  abbrev pub try_again : Bool → Exception → List Value → Calls (Client X) (Unit {0})
  try_again true e command c = (err e, c)
  try_again false e command c = unless_thrown (reconnect c) λ u. send_command command

  abbrev pub sent : List Value → Result (Unit {0}) × Client X → Result (Unit {0}) × Client X
  sent command (ok u, c) = (ok u, c)
  sent command (err e, c) = try_again (is_never c.mode) e command c

  -- The end of `call`.
  abbrev pub return_value : Result Value × Client X → Result Value × Client X
  return_value (ok v, c) = (ok v, record c { mode = once_done c.mode })
  return_value (err e, c) = (err e, c)

  abbrev pub finished : Option (Result Value × Client X) → Option (Result Value × Client X)
  finished none = none
  finished (some r) = some (return_value r)

  -- The response after the command was sent again.
  abbrev pub read_again : ℕ → Result (Unit {0}) × Client X → Option (Result Value × Client X)
  read_again fuel (ok u, c) = finished (read_response fuel c)
  read_again fuel (err e, c) = some (err e, c)

  -- The response, and the `catch` clauses around it.
  abbrev pub responded :
      ℕ → List Value → Option (Result Value × Client X) → Option (Result Value × Client X)
  responded fuel command none = none
  responded fuel command (some (ok v, c)) = finished (some (ok v, c))
  responded fuel command (some (err (remote_error source msg), c)) =
      some (err (remote_error source msg), c)
  responded fuel command (some (err e, c)) =
      read_again fuel (try_again (is_never c.mode) e command c)

  abbrev pub after_send :
      ℕ → List Value → Result (Unit {0}) × Client X → Option (Result Value × Client X)
  after_send fuel command (ok u, c) = responded fuel command (read_response fuel c)
  after_send fuel command (err e, c) = some (err e, c)

  -- `call`, on fuel for the rounds of each `readResponse`.
  unfoldable pub call : ℕ → List Value → Client X → Option (Result Value × Client X)
  unfolding send_command read_response attempts
  call fuel command c = after_send fuel command (sent command (send_command command c))
