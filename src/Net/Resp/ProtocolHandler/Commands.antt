-- ===== src/Net/Resp/ProtocolHandler/Commands.antt =====
-- What the server's side of a connection does with whole commands, and with pieces of them.
use afl.Base.{
  true, false, Option, none, some, List, [], ◌∷◌, ◌++◌, ◌≡◌, refl, sym, ◌∙◌, ap, inl, inr, length,
  arith,
}
use afl.Base.Str.{Str}
use afl.Except.{Result, ok, err, Result-cases, OnOk}
use afl.Data.Value.{Value, vector, items, values}
use afl.Resp.Writer.{write}
use afl.Resp.Parser.{State, root}
use afl.Resp.Parser.Bytes.{feed, is_done, IsValid}
use afl.Resp.Parser.Refines.{handle_data-feed_all}
use afl.Resp.RoundTrip.{parsed, parsed_items, IsSized, handle_data-write}
use afl.Net.Handler.{CommandHandler}
use afl.Net.Resp.ProtocolHandler.{
  Connection, handle_data, data_from, finish_data, take_value, handle_new_value, answer, reply,
}
use afl.Net.Resp.ProtocolHandler.Bytes.{serve, serve-feed_all, data_loop-serve, serve-IsValid}

-- A connection whose parser waits in the state `st`.
pub record IsOpen {S : Type 0} (c : Connection S) (st : State) : Type 0 where
  pub parsing : c.parser ≡ some st
  pub live : is_done st ≡ false
  pub valid : IsValid st

module _ {S : Type 0} (ch : CommandHandler S) where
  -- What follows, unless there was an exception.
  abbrev pub serve_more : Result State → List Str × S → Str → Result State × (List Str × S)
  serve_more (err e) w ys = (err e, w)
  serve_more (ok q) w ys = serve ch q w ys

  serve-append :
      (st : State) (w : List Str × S) (xs ys : Str)
      → serve ch st w (xs ++ ys) ≡ serve_more (serve ch st w xs).0 (serve ch st w xs).1 ys
  unfolding serve
  serve-append st w [] ys = refl
  serve-append st w (c ∷ xs) ys = elim (Result-cases (feed true st c)) [
    | inr (e, f) ↦ rw (f, serve) refl
    | inl (q, f) ↦ rw (f, serve) (serve-append (take_value ch q w).0 (take_value ch q w).1 xs ys)
  ]

  handle_data-serve :
      (c : Connection S) (st : State) (input : Str)
      → IsOpen c st
      → handle_data ch c input
        ≡ finish_data c
            (serve ch st (c.outputs, c.served) input).0
            (serve ch st (c.outputs, c.served) input).1
  unfolding handle_data
  handle_data-serve c st input h =
      ap (λ o. data_from ch c o input) h.parsing
      ∙ rw
          (data_loop-serve ch (length input) st (c.outputs, c.served) input (omega arith) h.live
            h.valid)
          refl

  -- The commands executed by the handler itself, one after another, with the replies behind those that
  -- are there already. What comes over the wire is all strings.
  abbrev pub execute_all : List (List Value) → List Str × S → List Str × S
  execute_all [] w = w
  execute_all (command ∷ commands) w =
      let r = ch.call (values (parsed_items (items command))) w.1 in
      execute_all commands (w.0 ++ (answer r.0 ∷ []), r.1)

  abbrev pub write_all : List (List Value) → Str
  write_all [] = []
  write_all (command ∷ commands) = write (vector (items command)) ++ write_all commands

  abbrev pub AreSized : List (List Value) → Type 0
  AreSized [] = Unit {0}
  AreSized (command ∷ commands) = IsSized (vector (items command)) × AreSized commands

  serve-write :
      (v : Value) (w : List Str × S) (rest : Str)
      → IsSized v
      → serve ch root w (write v ++ rest) ≡ serve ch root (handle_new_value ch (parsed v) w) rest
  unfolding take_value
  serve-write v w rest h =
      serve-feed_all ch root w (write v ++ rest) refl
      ∙ rw
          (
            sym (handle_data-feed_all true root (write v ++ rest) tt),
            handle_data-write true v rest h,
          )
          refl

  serve-write_all :
      (commands : List (List Value)) (w : List Str × S)
      → AreSized commands
      → serve ch root w (write_all commands) ≡ (ok root, execute_all commands w)
  unfolding serve parsed reply
  serve-write_all [] w h = refl
  serve-write_all (command ∷ commands) w h =
      serve-write (vector (items command)) w (write_all commands) h.0
      ∙ serve-write_all commands _ h.1

  -- A connection between two values that is given commands, as the writer writes them, one after another in
  -- one piece of data, has the handler execute them in their order. It keeps one reply for each, in that
  -- order, behind those that wait already, and is between two values again. Each vector has a size, and
  -- each string a length, that an int32_t holds.
  pub handle_data-write_all :
      (c : Connection S) (commands : List (List Value))
      → c.parser ≡ some root
      → AreSized commands
      → let w = execute_all commands (c.outputs, c.served) in
        handle_data ch c (write_all commands)
        ≡ record c { outputs = w.0; parser = some root; served = w.1 }
  handle_data-write_all c commands h sized =
      handle_data-serve c root (write_all commands)
        (record { parsing = h; live = refl; valid = tt })
      ∙ rw (serve-write_all commands (c.outputs, c.served) sized) refl

  -- The next piece of data, unless an exception has ended the connection.
  abbrev pub continue : Connection S → Option State → Str → Connection S
  continue c none ys = c
  continue c (some st) ys = handle_data ch c ys

  finish_data_twice :
      (c : Connection S) (q : State) (w : List Str × S) (r : Result State) (x : List Str × S)
      → finish_data (finish_data c (ok q) w) r x ≡ finish_data c r x
  finish_data_twice c q w (ok st) x = refl
  finish_data_twice c q w (err e) x = refl

  continue-serve :
      (c : Connection S) (r : Result State) (w : List Str × S) (ys : Str)
      → OnOk (λ q. (is_done q ≡ false) × IsValid q) r
      → finish_data c (serve_more r w ys).0 (serve_more r w ys).1
        ≡ continue (finish_data c r w) (finish_data c r w).parser ys
  continue-serve c (err e) w ys h = refl
  continue-serve c (ok q) w ys h = sym (
      handle_data-serve (finish_data c (ok q) w) q ys
        (record { parsing = refl; live = h.0; valid = h.1 })
      ∙ finish_data_twice c q w (serve ch q w ys).0 (serve ch q w ys).1)

  -- It does not matter where the data of a connection are cut: two pieces lead to what both at once lead
  -- to, the same replies, handler and parser state. Where the first piece has an error, the connection
  -- fails, and what was executed until then is the same, too.
  pub handle_data-pieces :
      (c : Connection S) (st : State) (xs ys : Str)
      → IsOpen c st
      → let c' = handle_data ch c xs in handle_data ch c (xs ++ ys) ≡ continue c' c'.parser ys
  handle_data-pieces c st xs ys h =
      let r = serve ch st (c.outputs, c.served) xs in
      handle_data-serve c st (xs ++ ys) h
      ∙ rw (serve-append st (c.outputs, c.served) xs ys) (
          continue-serve c r.0 r.1 ys (serve-IsValid ch st _ xs h.live h.valid)
          ∙ sym (ap (λ x. continue x x.parser ys) (handle_data-serve c st xs h)))
