-- ===== src/Io/Limited.antt =====
-- afl/io/limitedstream.cpp: a part of another stream. The other stream is a parameter.
pub mod Position
use afl.Base.{
  ℕ, ◌+◌, ◌-◌, ◌*◌, ◌%◌, ◌^◌, ◌≤◌, Bool, true, false, not, ◌&&◌, List, [], ◌∷◌, length, take,
  if◌then◌else◌, ltb, ◌==◌,
}
use afl.Base.Str.{Str, bytes}
use afl.Except.{Exception, Result, ok, err, file_problem, invalid_operation, OnOk}

-- What `LimitedStream` calls of its parent. `read` gives the bytes that were read into the room that
-- there is, `write` the number of bytes that were written.
pub record Parent (P : Type 0) : Type 0 where
  pub read : ℕ → P → Result Str × P
  pub write : Str → P → Result ℕ × P
  pub set_pos : ℕ → P → Result (Unit {0}) × P
  pub get_pos : P → Result ℕ × P

-- What afl/io/stream.hpp says of `read` and `write`: they process at most the bytes that they are given.
pub record IsBounded {P : Type 0} (S : Parent P) : Type 0 where
  pub read_bound : (n : ℕ) (p : P) → OnOk (λ s. length s ≤ n) (S.read n p).0
  pub write_bound : (s : Str) (p : P) → OnOk (λ n. n ≤ length s) (S.write s p).0

pub record Limited (P : Type 0) : Type 0 where
  pub parent : P
  pub origin : ℕ
  pub limit : ℕ
  pub position : ℕ

-- `nil`, a FileSize_t of -1.
abbrev pub no_limit : ℕ
no_limit = 2 ^ 64 - 1

-- Subtraction of FileSize_t values.
abbrev pub sub64 : ℕ → ℕ → ℕ
sub64 a b = (a + 2 ^ 64 - b) % 2 ^ 64

abbrev pub refused : Exception
refused = file_problem [] invalid_operation

module _ {P : Type 0} where
  abbrev pub has_position : Limited P → Bool
  has_position st = not (st.origin == no_limit)

  abbrev pub has_length : Limited P → Bool
  has_length st = not (st.limit == no_limit)

  abbrev pub with_parent : Limited P → P → Limited P
  with_parent st p = record {
    parent = p;
    origin = st.origin;
    limit = st.limit;
    position = st.position;
  }

  abbrev pub at_position : Limited P → P → ℕ → Limited P
  at_position st p n = record {
    parent = p;
    origin = st.origin;
    limit = st.limit;
    position = n % 2 ^ 64;
  }

  -- The size to which `read` and `write` trim their argument.
  abbrev pub trimmed : Limited P → ℕ → ℕ
  trimmed st n =
      if has_length st && ltb (sub64 st.limit st.position) n then sub64 st.limit st.position else n

  module _ (S : Parent P) where
    abbrev pub moved : Limited P → ℕ → Result (Unit {0}) × P → Result (Unit {0}) × Limited P
    moved st pos (ok u, p) = (ok u, at_position st p pos)
    moved st pos (err e, p) = (err e, with_parent st p)

    -- `setPos`
    unfoldable pub set_pos : ℕ → Limited P → Result (Unit {0}) × Limited P
    set_pos pos st =
        if not (has_position st)
        then (err refused, st)
        else if has_length st && ltb st.limit pos
        then (err refused, st)
        else moved st pos (S.set_pos ((st.origin + pos) % 2 ^ 64) st.parent)

    abbrev pub fixed : Limited P → Result ℕ × P → Result (Unit {0}) × Limited P
    fixed st (err e, p) = (err e, with_parent st p)
    fixed st (ok pos, p) =
        if ltb pos st.origin
        then set_pos 0 (with_parent st p)
        else if ltb st.limit (sub64 pos st.origin)
        then set_pos st.limit (with_parent st p)
        else (ok tt, at_position st p (sub64 pos st.origin))

    -- `fixupPosition`
    unfoldable pub fixup_position : ℕ → Limited P → Result (Unit {0}) × Limited P
    unfolding set_pos
    fixup_position n st =
        if not (has_length st)
        then (ok tt, st)
        else if has_position st
        then fixed st (S.get_pos st.parent)
        else (ok tt, at_position st st.parent (st.position + n))

    -- `throw;` after `fixupPosition`, which may throw itself.
    abbrev pub rethrow :
        {A : Type 0} → Exception → Result (Unit {0}) × Limited P → Result A × Limited P
    rethrow e (ok u, st) = (err e, st)
    rethrow e (err f, st) = (err f, st)

    abbrev pub after_read : Limited P → ℕ → Result Str × P → Result Str × Limited P
    after_read st n (ok s, p) = (ok s, at_position st p (st.position + length s))
    after_read st n (err e, p) = rethrow e (fixup_position n (with_parent st p))

    unfoldable pub read : ℕ → Limited P → Result Str × Limited P
    unfolding fixup_position
    read n st = after_read st (trimmed st n) (S.read (trimmed st n) st.parent)

    abbrev pub after_write : Limited P → ℕ → Result ℕ × P → Result ℕ × Limited P
    after_write st n (ok k, p) = (ok k, at_position st p (st.position + k))
    after_write st n (err e, p) = rethrow e (fixup_position n (with_parent st p))

    unfoldable pub write : Str → Limited P → Result ℕ × Limited P
    unfolding fixup_position
    write s st =
        after_write st (length (take (trimmed st (length s)) s))
          (S.write (take (trimmed st (length s)) s) st.parent)

    -- The constructor.
    unfoldable pub open_part : P → ℕ → ℕ → Result (Unit {0}) × Limited P
    unfolding set_pos
    open_part p origin limit =
        let st : Limited P = record { parent = p; origin = origin; limit = limit; position = 0 } in
        if has_position st then set_pos 0 st else (ok tt, st)
