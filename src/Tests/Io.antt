-- ===== src/Tests/Io.antt =====
-- A limited stream on a text.
use afl.Base.{ℕ, ◌+◌, length, take, drop, length-take, arith}
use afl.Base.Str.{Str, bytes}
use afl.Except.{ok, err}
use afl.Io.Limited.{Parent, IsBounded, Limited, refused, open_part, read, write, set_pos}
use afl.Io.Limited.Position.{IsWithin, position-IsWithin}

abbrev text : Str
text = bytes "0123456789"

-- A stream that cannot be written; its state is the position.
abbrev text_stream : Parent ℕ
text_stream = record {
  read = λ n p. (ok (take n (drop p text)), p + length (take n (drop p text)));
  write = λ s p. (err refused, p);
  set_pos = λ n p. (ok tt, n);
  get_pos = λ p. (ok p, p);
}

text_stream-IsBounded : IsBounded text_stream
text_stream-IsBounded = record {
  read_bound = λ n p. omega (arith, length-take n (drop p text));
  write_bound = λ s p. tt;
}

abbrev part : Limited ℕ
part = record { parent = 4; origin = 3; limit = 5; position = 1 }

position-IsWithin_example :
    IsWithin (open_part text_stream 0 3 5).1
    × IsWithin (read text_stream 100 part).1
    × IsWithin (write text_stream (bytes "abc") part).1
    × IsWithin (set_pos text_stream 6 part).1
position-IsWithin_example =
    position-IsWithin text_stream text_stream-IsBounded 0 3 5 100 6 (bytes "abc") part (omega arith)
      (omega arith, λ h. omega arith)
