-- ===== src/Tests/Streams.antt =====
-- The internal stream at a few values.
use afl.Base.{◌≡◌, refl, arith, true, ℕ, [], ◌∷◌, length}
use afl.Base.Str.{bytes}
use afl.Except.{ok}
use afl.Io.ConstMemoryStream
use afl.Io.ConstMemoryStream.Reads.{reads}
use afl.Io.InternalStream.{
  InternalStream, create, write, read, set_pos, subrange, stored, copy_at, ensure_size, filled_up,
  append_n, repeated, fresh,
}
use afl.Io.InternalStream.Written.{after_write, write-overwritten}

-- What unwritten memory holds here.
abbrev some_bytes : ℕ → ℕ
some_bytes at = 170

-- A stream whose position lies behind its content.
abbrev gapped : InternalStream
gapped = record { name = bytes "x"; content = bytes "ab"; position = 4; allow_write = true }

gapped_content :
    (write some_bytes (bytes "xyz") gapped).1.content ≡ 97 ∷ 98 ∷ 0 ∷ 0 ∷ 120 ∷ 121 ∷ 122 ∷ []
unfolding write stored copy_at ensure_size filled_up append_n repeated fresh
gapped_content = refl

-- A read behind the content gives nothing.
read_behind : (read 3 (set_pos 9 gapped).1).0 ≡ []
unfolding read set_pos subrange
read_behind = refl

-- A new stream is empty, and may be written.
created_content : (write some_bytes (bytes "a") create).1.content ≡ 97 ∷ []
unfolding write stored copy_at ensure_size filled_up append_n repeated fresh
created_content = refl

write-overwritten_example :
    write some_bytes (bytes "xyz") gapped
    ≡ (ok (length (bytes "xyz")), after_write some_bytes (bytes "xyz") gapped)
write-overwritten_example = write-overwritten some_bytes (bytes "xyz") gapped refl (omega arith)

read_pieces : (reads (2 ∷ 5 ∷ 1 ∷ []) (ConstMemoryStream.create (bytes "abcd"))).0 ≡ bytes "abcd"
unfolding reads ConstMemoryStream.read subrange
read_pieces = refl
