-- ===== src/Resp/Writer.antt =====
-- afl/io/resp/writer.cpp: a value as the bytes that go to the sink.
use afl.Base.{ℕ, ◌*◌, [], ◌∷◌, ◌++◌, if◌then◌else◌, ◌==◌, ◌||◌}
use afl.Base.Str.{Str, bytes}
use afl.Base.{length}
use afl.Text.Number.{format_signed, format_unsigned}
use afl.Data.Value.{
  Value, null, string, integer, boolean, error, vector, hash, Items, nil, cons, Fields, end, field,
  count, count_fields,
}

abbrev pub crlf : Str
crlf = 13 ∷ 10 ∷ []

-- `sendSuccess`
unfoldable pub send_success : Str → Str
send_success s = b'+' ∷ s ++ crlf

-- `Format("$%d\r\n", n)`, and the same with another letter.
unfoldable pub header : ℕ → ℕ → Str
header letter n = letter ∷ format_unsigned n ++ crlf

unfoldable pub write_string : Str → Str
unfolding header
write_string s = header b'$' (length s) ++ (s ++ crlf)

-- What stands before the first line break.
unfoldable pub first_line : Str → Str
first_line [] = []
first_line (c ∷ s) = if c == 13 || c == 10 then [] else c ∷ first_line s

unfoldable pub write_error : Str → Str
unfolding first_line
write_error s = b'-' ∷ first_line s ++ crlf

unfoldable mutual
  pub write : Value → Str
  write null = bytes "$-1" ++ crlf
  write (string s) = write_string s
  write (integer n) = write_string (format_signed n)
  write (boolean b) = write_string (if b then bytes "1" else bytes "0")
  write (error source s) = write_error s
  write (vector vs) = header b'*' (count vs) ++ write_items vs
  write (hash fs) = header b'*' (2 * count_fields fs) ++ write_fields fs

  pub write_items : Items → Str
  write_items nil = []
  write_items (cons v vs) = write v ++ write_items vs

  pub write_fields : Fields → Str
  write_fields end = []
  write_fields (field k v fs) = write_string k ++ (write v ++ write_fields fs)
