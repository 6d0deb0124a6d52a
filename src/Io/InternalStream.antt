-- ===== src/Io/InternalStream.antt =====
-- afl/io/internalstream.cpp: a stream in memory. What new memory holds before it is written is a
-- parameter.
pub mod Written
use afl.Base.{
  ℕ, zero, suc, ◌+◌, ◌-◌, ◌%◌, ◌^◌, Bool, true, false, not, List, [], ◌∷◌, ◌++◌, length, take, drop,
  if◌then◌else◌, ltb, ◌==◌,
}
use Prim.Native.Nat.{min}
use afl.Base.Str.{Str, bytes}
use afl.Except.{Exception, file_problem, Result, ok, err}

pub record InternalStream : Type 0 where
  pub name : Str
  pub content : Str
  pub position : ℕ
  pub allow_write : Bool

abbrev pub create : InternalStream
create = record { name = bytes "<internal>"; content = []; position = 0; allow_write = true }

abbrev pub cannot_write : Str
cannot_write = bytes "Cannot write"

abbrev pub range_error : Str
range_error = bytes "Range error"

abbrev pub failed : InternalStream → Str → Exception
failed st msg = file_problem st.name msg

abbrev pub moved_to : InternalStream → ℕ → InternalStream
moved_to st n = record {
  name = st.name;
  content = st.content;
  position = n % 2 ^ 64;
  allow_write = st.allow_write;
}

-- `Memory::subrange`
unfoldable pub subrange : ℕ → ℕ → Str → Str
subrange pos len xs = take len (drop pos xs)

-- `subrange(pos).copyFrom(s)`, seen from the whole memory.
unfoldable pub copy_at : ℕ → Str → Str → Str
copy_at zero [] xs = xs
copy_at zero (b ∷ s) [] = []
copy_at zero (b ∷ s) (x ∷ xs) = b ∷ copy_at zero s xs
copy_at (suc n) s [] = []
copy_at (suc n) s (x ∷ xs) = x ∷ copy_at n s xs

unfoldable pub repeated : ℕ → ℕ → Str
repeated zero b = []
repeated (suc n) b = b ∷ repeated n b

-- `GrowableMemory::appendN`
unfoldable pub append_n : ℕ → ℕ → Str → Str
append_n what count xs = xs ++ repeated count what

-- The bytes that the stream gives into a room of `n` bytes.
unfoldable pub read : ℕ → InternalStream → Str × InternalStream
read n st =
    let got = subrange st.position n st.content in (got, moved_to st (st.position + length got))

unfoldable pub set_pos : ℕ → InternalStream → Result (Unit {0}) × InternalStream
set_pos pos st =
    if pos % 2 ^ 64 == pos then (ok tt, moved_to st pos) else (err (failed st range_error), st)

abbrev pub get_pos : InternalStream → ℕ
get_pos st = st.position

abbrev pub get_size : InternalStream → ℕ
get_size st = length st.content

abbrev pub get_name : InternalStream → Str
get_name st = st.name

abbrev pub get_content : InternalStream → Str
get_content st = st.content

abbrev pub set_name : Str → InternalStream → InternalStream
set_name name st = record {
  name = name;
  content = st.content;
  position = st.position;
  allow_write = st.allow_write;
}

abbrev pub set_write_permission : Bool → InternalStream → InternalStream
set_write_permission allow st = record {
  name = st.name;
  content = st.content;
  position = st.position;
  allow_write = allow;
}

-- What stands at a position of new memory that was not written yet.
module _ (unwritten : ℕ → ℕ) where
  -- The bytes of new memory from a position on.
  unfoldable pub fresh : ℕ → ℕ → Str
  fresh at zero = []
  fresh at (suc n) = unwritten at ∷ fresh (suc at) n

  -- `GrowableMemory::ensureSize`
  unfoldable pub ensure_size : ℕ → Str → Str
  ensure_size n xs = if ltb (length xs) n then xs ++ fresh (length xs) (n - length xs) else xs

  -- `appendN` up to the position, where the data ends before it.
  unfoldable pub filled_up : ℕ → Str → Str
  filled_up pos xs = if ltb (length xs) pos then append_n 0 (pos - length xs) xs else xs

  -- Memory of the size `end`, and the bytes copied into it.
  unfoldable pub stored : Str → ℕ → InternalStream → Result ℕ × InternalStream
  stored s end st =
      let room = ensure_size end (filled_up st.position st.content) in
      let amount = min (length (subrange st.position (length s) room)) (length s) in
      (
        ok amount,
        record {
          name = st.name;
          content = copy_at st.position s room;
          position = (st.position + amount) % 2 ^ 64;
          allow_write = st.allow_write;
        },
      )

  unfoldable pub write : Str → InternalStream → Result ℕ × InternalStream
  write s st =
      let end = (st.position + length s) % 2 ^ 64 in
      if not st.allow_write
      then (err (failed st cannot_write), st)
      else if ltb end st.position
      then (err (failed st range_error), st)
      else stored s end st
