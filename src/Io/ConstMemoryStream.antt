-- ===== src/Io/ConstMemoryStream.antt =====
-- afl/io/constmemorystream.cpp: a stream that reads memory.
pub mod Reads
use afl.Base.{
  ℕ, ◌+◌, ◌%◌, ◌^◌, ◌≤◌, ◌<◌, ◌≡◌, refl, ap, ◌∙◌, sym, List, [], ◌++◌, length, take, drop,
  if◌then◌else◌, ◌==◌, arith,
}
use Prim.Native.Nat.{min}
use afl.Base.Str.{Str, bytes}
use afl.Except.{Result, ok, err, file_problem}
use afl.Io.InternalStream.{cannot_write, range_error, subrange}

pub record ConstMemoryStream : Type 0 where
  pub mem : Str
  pub pos : ℕ

abbrev pub create : Str → ConstMemoryStream
create mem = record { mem = mem; pos = 0 }

abbrev pub get_name : Str
get_name = bytes "<memory>"

-- The bytes that the stream gives into a room of `n` bytes.
unfoldable pub read : ℕ → ConstMemoryStream → Str × ConstMemoryStream
read n st =
    let got = subrange st.pos n st.mem in
    (got, record { mem = st.mem; pos = (st.pos + length got) % 2 ^ 64 })

abbrev pub write : Str → ConstMemoryStream → Result ℕ × ConstMemoryStream
write s st = (err (file_problem get_name cannot_write), st)

unfoldable pub set_pos : ℕ → ConstMemoryStream → Result (Unit {0}) × ConstMemoryStream
set_pos pos st =
    if pos % 2 ^ 64 == pos
    then (ok tt, record { mem = st.mem; pos = pos % 2 ^ 64 })
    else (err (file_problem get_name range_error), st)

abbrev pub get_pos : ConstMemoryStream → ℕ
get_pos st = st.pos

abbrev pub get_size : ConstMemoryStream → ℕ
get_size st = length st.mem

abbrev pub create_child : ConstMemoryStream → ConstMemoryStream
create_child st = create st.mem
