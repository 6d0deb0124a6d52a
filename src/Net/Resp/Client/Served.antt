-- ===== src/Net/Resp/Client/Served.antt =====
-- A client that is connected to the server's side, over a network that delivers everything.
use afl.Base.{ℕ, suc, false, List, [], ◌∷◌, ◌++◌, ◌≡◌, refl, sym, ◌∙◌, ap, some, append-nil}
use afl.Base.Str.{Str}
use afl.Except.{Result, ok, err, remote_error, what}
use afl.Data.Value.{Value, null, string, integer, boolean, error, vector, hash, items, values}
use afl.Resp.Writer.{write, write_string, write_error, header, first_line}
use afl.Resp.Parser
use afl.Resp.Parser.{root, done}
use afl.Resp.RoundTrip.{parsed, parsed_items, IsSized, handle_data-write}
use afl.Net.Handler.{CommandHandler}
use afl.Net.Resp.ProtocolHandler.{
  Phase, idle, sending, Connection, get_operation, handle_data, reply, answer, create,
}
use afl.Net.Resp.ProtocolHandler.Commands.{handle_data-write_all}
use afl.Net.Resp.Client.{
  Mode, once_done, Network, Client, received, responded, call, send_command, read_response,
  parse_input,
}

module _ {S : Type 0} (ch : CommandHandler S) (name : Str) where
  -- What is sent reaches the server's side at once, `receive` gives the next reply, and a new connection
  -- meets a new `ProtocolHandler`.
  abbrev pub wire : Network (Connection S)
  wire = record {
    connect = λ x. (ok tt, create x.served);
    send = λ bytes' x. (ok tt, handle_data ch x bytes');
    receive = λ x. (ok (get_operation x).0.data_to_send, (get_operation x).1);
    name = name;
  }

-- Nothing waits to be sent by the server.
pub data IsQuiet : Phase → List Str → Type 0 where
  nothing_yet : IsQuiet idle []
  one_sent : (x : Str) → IsQuiet sending (x ∷ [])

-- Both sides between two commands.
abbrev pub linked : {S : Type 0} → Mode → Phase → List Str → S → Client (Connection S)
linked mode p out s = record {
  mode = mode;
  input = [];
  parser = root;
  network = record { phase = p; outputs = out; parser = some root; served = s };
}

-- What the client returns for what the handler did.
abbrev pub returned : Str → Result Value → Result Value
returned name (ok v) = received name (parsed v)
returned name (err e) = err (remote_error name (first_line (what e)))

-- The value on the wire.
abbrev pub replied : Result Value → Value
replied (ok v) = v
replied (err e) = error [] (what e)

-- What the handler does for a command that went over the wire.
abbrev pub executed : {S : Type 0} → CommandHandler S → List Value → S → Result Value × S
executed ch command = ch.call (values (parsed_items (items command)))

-- A client that may reconnect once no longer may after a call that returned.
abbrev pub mode_after : Result Value → Mode → Mode
mode_after (ok v) m = once_done m
mode_after (err e) m = m

write_cons : (v : Value) → (c : ℕ) × (s : Str) × (write v ≡ c ∷ s)
unfolding write write_string write_error header
write_cons null = (_, _, refl)
write_cons (string s) = (_, _, refl)
write_cons (integer n) = (_, _, refl)
write_cons (boolean b) = (_, _, refl)
write_cons (error source s) = (_, _, refl)
write_cons (vector vs) = (_, _, refl)
write_cons (hash fs) = (_, _, refl)

answer-write : (r : Result Value) → answer r ≡ write (replied r)
unfolding write
answer-write (ok v) = refl
answer-write (err e) = refl

module _ {S : Type 0} (ch : CommandHandler S) (name : Str) where
  -- The server's side after a command.
  serve_one :
      (p : Phase) (out : List Str) (s : S) (command : List Value)
      → IsSized (vector (items command))
      → let r = executed ch command s in
        handle_data ch
          (record { phase = p; outputs = out; parser = some root; served = s })
          (write (vector (items command)))
        ≡ record { phase = p; outputs = out ++ (answer r.0 ∷ []); parser = some root; served = r.1 }
  unfolding reply
  serve_one p out s command h =
      let c : Connection S = record { phase = p; outputs = out; parser = some root; served = s } in
      ap (handle_data ch c) (sym (append-nil (write (vector (items command)))))
      ∙ handle_data-write_all ch c (command ∷ []) refl (h, tt)

  -- The reply reaches the client.
  receive_one :
      (p : Phase) (out : List Str) (x : Str) (s : S)
      → IsQuiet p out
      → get_operation
          (record { phase = p; outputs = out ++ (x ∷ []); parser = some root; served = s })
        ≡ (
          record { data_to_send = x; close = false },
          record { phase = sending; outputs = x ∷ []; parser = some root; served = s },
        )
  unfolding get_operation
  receive_one _ _ x s nothing_yet = refl
  receive_one _ _ x s (one_sent y) = refl

  read_one :
      (fuel : ℕ) (mode : Mode) (p : Phase) (out : List Str) (v : Value) (s : S)
      → IsQuiet p out
      → IsSized v
      → read_response (wire ch name) (suc fuel) (linked mode p (out ++ (write v ∷ [])) s)
        ≡ some (received name (parsed v), linked mode sending (write v ∷ []) s)
  unfolding read_response parse_input
  read_one fuel mode p out v s q h =
      let (c, rest, e) = write_cons v in
      let done_parsing : Parser.handle_data false root (c ∷ rest) ≡ ok (done (parsed v), []) =
        ap (Parser.handle_data false root) (sym e ∙ sym (append-nil (write v)))
        ∙ handle_data-write false v [] h in
      rw (read_response, receive_one p out (write v) s q, e, done_parsing)
        (rw (receive_one p out (write v) s q, e) (rw done_parsing refl))

  respond :
      (fuel : ℕ) (mode : Mode) (command : List Value) (r : Result Value) (x : Connection S)
      → responded (wire ch name) (suc fuel) command (
          some (
            received name (parsed (replied r)),
            record { mode = mode; input = []; parser = root; network = x },
          ))
        ≡ some (
          returned name r,
          record {
            mode = mode_after (returned name r) mode;
            input = [];
            parser = root;
            network = x;
          },
        )
  unfolding parsed
  respond fuel mode command (err e) x = refl
  respond fuel mode command (ok null) x = refl
  respond fuel mode command (ok (string s)) x = refl
  respond fuel mode command (ok (integer n)) x = refl
  respond fuel mode command (ok (boolean b)) x = refl
  respond fuel mode command (ok (error source s)) x = refl
  respond fuel mode command (ok (vector vs)) x = refl
  respond fuel mode command (ok (hash fs)) x = refl

  -- A client and a server that have nothing left from before: `call` sends the command, the handler
  -- executes it, with its arguments as strings, and the client returns what the reply reads as. For an
  -- exception of the handler it throws the first line of its text as a remote error; likewise for an
  -- error value. One round of the client's loop is enough, nothing is sent twice, and both sides are
  -- ready for the next command. The sizes in command and reply fit an int32_t.
  pub call-served :
      (fuel : ℕ) (mode : Mode) (p : Phase) (out : List Str) (s : S) (command : List Value)
      → IsQuiet p out
      → IsSized (vector (items command))
      → IsSized (replied (executed ch command s).0)
      → let (r, s') = executed ch command s in
        call (wire ch name) (suc fuel) command (linked mode p out s)
        ≡ some
            (returned name r, linked (mode_after (returned name r) mode) sending (answer r ∷ []) s')
  unfolding call send_command
  call-served fuel mode p out s command q h h' =
      let r = executed ch command s in
      rw (serve_one p out s command h, answer-write r.0)
        (rw (read_one fuel mode p out (replied r.0) r.1 q h') (respond fuel mode command r.0 _))
