-- ===== src/Tests/Resp.antt =====
-- The wire format at a few values.
use afl.Base.{◌≡◌, refl, ◌++◌, true, false, arith}
use afl.Base.Int.{pos}
use afl.Base.Str.{Str, bytes}
use afl.Except.{ok, ◌>>=◌}
use afl.Text.Number.{format_signed, format_unsigned, format_loop}
use afl.Data.Value.{
  Value, integer, boolean, vector, count, count_fields, nil, cons, hash, field, end,
}
use afl.Resp.Writer.{crlf, write}
use afl.Resp.Parser.{State, root, bulk, array, done, handle_data}
use afl.Resp.Parser.Bytes.{feed_all}
use afl.Resp.Parser.Refines.{handle_data-feed_all}
use afl.Resp.Parser.Pieces.{handle_data-append}
use afl.Resp.RoundTrip.{parsed, IsSized, handle_data-write}

-- Two elements are to come, the first of which has three bytes to come.
abbrev in_array : State
in_array = array 2 nil (bulk 3 (bytes "a"))

abbrev piece : Str
piece = bytes "bcd" ++ crlf

abbrev piece_after : Str
piece_after = bytes ":12" ++ crlf ++ bytes "+"

handle_data-feed_all_example : handle_data true in_array piece ≡ feed_all true in_array piece
handle_data-feed_all_example = handle_data-feed_all true in_array piece (omega arith, refl, tt)

handle_data-append_example :
    handle_data false in_array (piece ++ piece_after)
    ≡ (handle_data false in_array piece >>= λ r. handle_data false r.0 (r.1 ++ piece_after))
handle_data-append_example =
    handle_data-append false in_array piece piece_after (omega arith, refl, tt)

abbrev reply : Value
reply = vector (cons (integer (pos 7)) (cons (hash (field (bytes "k") (boolean true) end)) nil))

handle_data-write_example :
    handle_data true root (write reply ++ bytes "+") ≡ ok (done (parsed reply), bytes "+")
unfolding IsSized count count_fields format_signed format_unsigned format_loop
handle_data-write_example =
    handle_data-write true reply (bytes "+")
      (omega arith, (omega arith, ((omega arith, (omega arith, tt, tt)), tt)))
