-- ===== src/Tests/Net.antt =====
-- The client objects and both sides of a connection at a few values.
use afl.Base.{ℕ, ◌≡◌, refl, arith, List, [], ◌∷◌, ◌++◌, some, true}
use afl.Base.Int.{pos}
use afl.Base.Str.{Str, bytes, str_eq}
use afl.Except.{ok}
use afl.Container.Map
use afl.Container.Map.{StrSet}
use afl.Data.Value.{Value, string, integer, items, values, count}
use afl.Redis.Store.{Entry, Db, actions, get}
use afl.Redis.Database
use afl.Redis.Database.{execute}
use afl.Redis.Strings.{get_value}
use afl.Text.Char.{str_ucase}
use afl.Data.Access.{to_string}
use afl.Resp.Parser.{State, root, bulk, done}
use afl.Resp.Parser
use afl.Resp.RoundTrip.{IsSized, parsed}
use afl.Net.Handler.{CommandHandler, call_string}
use afl.Net.Redis.Key
use afl.Net.Redis.Key.{string_key}
use afl.Net.Redis.StringKey
use afl.Net.Redis.Spec.{database}
use afl.Net.Redis.Spec.Strings.{set-read, substr-eq}
use afl.Net.Resp.ProtocolHandler.{Connection, create, handle_data, idle, sending, answer}
use afl.Net.Resp.ProtocolHandler.Commands.{
  handle_data-write_all, handle_data-pieces, continue, write_all, execute_all,
}
use afl.Net.Resp.ProtocolHandler.Replies.{operations, operations-unsent, sends}
use afl.Net.Resp.Client.{once, always, call}
use afl.Net.Resp.Client.Served.{
  wire, linked, nothing_yet, returned, mode_after, executed, call-served,
}
use afl.Net.Resp.Client.Reconnect.{
  Reconnects, reconnect-Reconnects, call-cut_reply, script, waiting,
}

abbrev k : Str
k = bytes "k"

abbrev x : Str
x = bytes "x"

abbrev stored : Db
stored = (k, Entry.string (bytes "abcdef")) ∷ []

abbrev a_set : Db
a_set = (k, Entry.set ((x, tt) ∷ [])) ∷ []

abbrev db : CommandHandler Db
db = database 3

set-read_example :
    ((StringKey.set db k x a_set).0 ≡ ok tt)
    × (StringKey.get db k (StringKey.set db k x a_set).1 ≡ (ok x, (StringKey.set db k x a_set).1))
    × (StringKey.size db k (StringKey.set db k x a_set).1 ≡ (ok 1, (StringKey.set db k x a_set).1))
    × (Key.exists db k (StringKey.set db k x a_set).1 ≡ (ok true, (StringKey.set db k x a_set).1))
    × (Key.get_type db k (StringKey.set db k x a_set).1
        ≡ (ok string_key, (StringKey.set db k x a_set).1))
set-read_example = set-read 3 k x a_set (omega arith)

substr-eq_example :
    (StringKey.substr db k 2 3 stored ≡ (ok (bytes "cde"), stored))
    × (StringKey.substr db k 2 3 a_set
        ≡ call_string db
            (string (bytes "GETRANGE") ∷ string k ∷ integer (pos 2) ∷ integer (pos 4) ∷ [])
            a_set)
unfolding Map.find str_eq
substr-eq_example = substr-eq db a_set 3 k (bytes "abcdef") 2 3 stored refl (omega arith)

abbrev get_command : List Value
get_command = string (bytes "GET") ∷ string k ∷ []

handle_data-write_all_example :
    handle_data db (create stored) (write_all db (get_command ∷ get_command ∷ []))
    ≡ record (create stored) {
      outputs = (execute_all db (get_command ∷ get_command ∷ []) ([], stored)).0;
      parser = some root;
      served = (execute_all db (get_command ∷ get_command ∷ []) ([], stored)).1;
    }
unfolding IsSized items count
handle_data-write_all_example =
    handle_data-write_all db (create stored) (get_command ∷ get_command ∷ []) refl (
      (omega arith, (omega arith, (omega arith, tt))),
      ((omega arith, (omega arith, (omega arith, tt))), tt),
    )

abbrev cut : Connection Db
cut = handle_data db (create stored) (bytes "GE")

handle_data-pieces_example :
    handle_data db (create stored) (bytes "GE" ++ (bytes "T k" ++ (10 ∷ [])))
    ≡ continue db cut cut.parser (bytes "T k" ++ (10 ∷ []))
handle_data-pieces_example =
    handle_data-pieces db (create stored) root (bytes "GE") (bytes "T k" ++ (10 ∷ []))
      (record { parsing = refl; live = refl; valid = tt })

abbrev busy : Connection Db
busy = record (create stored) { phase = sending; outputs = x ∷ k ∷ x ∷ [] }

operations-unsent_example :
    operations 3 busy ≡ (sends (k ∷ x ∷ []), record busy { phase = idle; outputs = [] })
operations-unsent_example = operations-unsent busy refl

call-served_example :
    call (wire db (bytes "host")) 1 get_command (linked once idle [] stored)
    ≡ some (
      returned (bytes "host") (executed db get_command stored).0,
      linked
          (mode_after (returned (bytes "host") (executed db get_command stored).0) once)
          sending
          (answer (executed db get_command stored).0 ∷ [])
          (executed db get_command stored).1,
    )
unfolding IsSized items count parsed values Database.call execute str_ucase str_eq get_value actions
    to_string Map.find get
call-served_example =
    call-served db (bytes "host") 0 once idle [] stored get_command nothing_yet
      (omega arith, (omega arith, (omega arith, tt))) (omega arith)

reconnect-Reconnects_example :
    (n : ℕ) × Reconnects (script (bytes "host")) (waiting always root []) n
reconnect-Reconnects_example = reconnect-Reconnects (script (bytes "host")) (waiting always root [])

-- "$5", two of the five bytes, the close, and a new reply that says OK.
call-cut_reply_example :
    call (script (bytes "host")) 2 get_command (
      waiting always root
        ((bytes "$5" ++ (10 ∷ bytes "ab")) ∷ [] ∷ (bytes "+OK" ++ (13 ∷ 10 ∷ [])) ∷ []))
    ≡ some (
      ok (string (bytes "ab+OK")),
      record { mode = always; input = []; parser = root; network = [] },
    )
unfolding Parser.handle_data Parser.root_data Parser.root_byte Parser.number_data Parser.number_byte
    Parser.number_end Parser.bulk_data
call-cut_reply_example =
    call-cut_reply (bytes "host") b'$' b'+' (b'5' ∷ 10 ∷ bytes "ab") (bytes "OK" ++ (13 ∷ 10 ∷ []))
      get_command (bulk 3 (bytes "ab")) (string (bytes "ab+OK")) [] refl refl refl
