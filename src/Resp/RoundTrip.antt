-- ===== src/Resp/RoundTrip.antt =====
-- What afl/io/resp/writer.cpp writes, afl/io/resp/parser.cpp reads.
pub mod Pieces
use afl.Base.{
  ℕ, zero, suc, ◌+◌, ◌-◌, ◌*◌, ◌^◌, ◌<◌, ◌≤◌, ◌==◌, ◌||◌, Bool, true, false, if◌then◌else◌,
  Bool-cases, [], ◌∷◌, ◌++◌, ◌≡◌, refl, sym, ◌∙◌, ap, inl, inr, arith, All, length, append-nil,
  append_assoc,
}
use afl.Base.Int.{ℤ, pos, negsuc}
use afl.Base.Str.{Str, bytes}
use afl.Except.{Result, ok, err, ◌>>=◌}
use afl.Text.Number.{read_digits, format_unsigned, format_signed}
use afl.Text.Number.RoundTrip.{IsDigit, format_unsigned-All, read_digits-format_unsigned}
use afl.Text.Char.{char_is_digit}
use afl.Data.Value.{
  append_items, append_items-push_back, append_items-nil, Value, null, string, integer, boolean,
  error, vector, hash, Items, nil, cons, Fields, end, field, count, count_fields, push_back,
}
use afl.Resp.Writer.{
  crlf, header, write_string, first_line, write_error, write, write_items, write_fields,
}
use afl.Resp.Parser.{
  State, root, line, number, bulk, array, done, Outcome, Kind, Sign, virgin, root_byte,
  positive_digits, number_digit, number_end, bulk_kind, array_kind, integer_kind, line_value,
  is_negative, has_digits, numbered, number_byte, source_id, handle_data,
}
use afl.Resp.Parser.Bytes.{feed, feed_all, feed_all-cons, pushed, within}
use afl.Resp.Parser.Chunks.{feed_all-array}
use afl.Resp.Parser.Refines.{handle_data-feed_all}
use afl.Resp.RoundTrip.Pieces.{
  feed_all-count, feed_all-bulk, feed_all-line, numbered-waiting, feed_all-element, waiting,
}

-- What a value becomes: numbers and truth values come back as strings, a hash as a vector that
-- alternates its names and values, and an error as its first line.
unfoldable mutual
  pub parsed : Value → Value
  parsed null = null
  parsed (string s) = string s
  parsed (integer n) = string (format_signed n)
  parsed (boolean b) = string (if b then bytes "1" else bytes "0")
  parsed (error source s) = error source_id (first_line s)
  parsed (vector vs) = vector (parsed_items vs)
  parsed (hash fs) = vector (parsed_fields fs)

  pub parsed_items : Items → Items
  parsed_items nil = nil
  parsed_items (cons v vs) = cons (parsed v) (parsed_items vs)

  pub parsed_fields : Fields → Items
  parsed_fields end = nil
  parsed_fields (field k v fs) = cons (string k) (cons (parsed v) (parsed_fields fs))

-- Strings, vectors and hashes have sizes that an int32_t holds.
unfoldable mutual
  pub IsSized : Value → Type 0
  IsSized (string s) = length s < 2 ^ 31
  IsSized (integer n) = length (format_signed n) < 2 ^ 31
  IsSized (vector vs) = (count vs < 2 ^ 31) × AreSized vs
  IsSized (hash fs) = (2 * count_fields fs < 2 ^ 31) × AreSizedFields fs
  IsSized _ = Unit {0}

  pub AreSized : Items → Type 0
  AreSized nil = Unit {0}
  AreSized (cons v vs) = IsSized v × AreSized vs

  pub AreSizedFields : Fields → Type 0
  AreSizedFields end = Unit {0}
  AreSizedFields (field k v fs) = (length k < 2 ^ 31) × IsSized v × AreSizedFields fs

-- The bytes of a header, with what stands behind it.
header-append :
    (letter n : ℕ) (more rest : Str)
    → (header letter n ++ more) ++ rest ≡ letter ∷ (format_unsigned n ++ 13 ∷ 10 ∷ (more ++ rest))
unfolding header
header-append letter n more rest = ap (◌∷◌ letter) (
    append_assoc (format_unsigned n ++ crlf) more rest
    ∙ append_assoc (format_unsigned n) crlf (more ++ rest))

-- The letter of a bulk string, of an array and of an error.
root-letters :
    (a : Bool) (rest : Str)
    → (feed_all a root (b'$' ∷ rest) ≡ feed_all a (number bulk_kind virgin 0) rest)
      × (feed_all a root (b'*' ∷ rest) ≡ feed_all a (number array_kind virgin 0) rest)
      × (feed_all a root (b'-' ∷ rest) ≡ feed_all a (line false []) rest)
unfolding feed_all root_byte
root-letters a rest = (refl, refl, refl)

feed_all-string :
    (a : Bool) (s rest : Str)
    → length s < 2 ^ 31
    → feed_all a root (write_string s ++ rest) ≡ ok (done (string s), rest)
unfolding write_string
feed_all-string a s rest b =
    rw
      (
        header-append b'$' (length s) (s ++ crlf) rest,
        (root-letters a (format_unsigned (length s) ++ 13 ∷ 10 ∷ ((s ++ crlf) ++ rest))).0,
        feed_all-count a bulk_kind (length s) ((s ++ crlf) ++ rest) b,
        append_assoc s crlf rest,
      )
      (feed_all-bulk a s [] rest)

feed_all-vector :
    (a : Bool) (n : ℕ) (more rest : Str)
    → n < 2 ^ 31
    → feed_all a root ((header b'*' n ++ more) ++ rest) ≡ feed_all a (waiting n nil) (more ++ rest)
feed_all-vector a n more rest b =
    rw
      (
        header-append b'*' n more rest,
        (root-letters a (format_unsigned n ++ 13 ∷ 10 ∷ (more ++ rest))).1,
        feed_all-count a array_kind n (more ++ rest) b,
        numbered-waiting n,
      )
      refl

feed_all-null :
    (a : Bool) (rest : Str) → feed_all a root (write null ++ rest) ≡ ok (done null, rest)
unfolding feed_all root_byte number_byte number_end number_digit write
feed_all-null a rest = refl

feed_all-error :
    (a : Bool) (s rest : Str)
    → feed_all a root (write_error s ++ rest) ≡ ok (done (error source_id (first_line s)), rest)
unfolding write_error
feed_all-error a s rest =
    rw (append_assoc (first_line s) crlf rest)
      ((root-letters a (first_line s ++ 13 ∷ 10 ∷ rest)).2 ∙ feed_all-line a false s [] rest)

feed_all-done : (a : Bool) (v : Value) (rest : Str) → feed_all a (done v) rest ≡ ok (done v, rest)
unfolding feed_all
feed_all-done a v rest = refl

mutual
  unfolding write parsed IsSized append_items count count_fields

  feed_all-write :
      (a : Bool) (v : Value) (rest : Str)
      → IsSized v
      → feed_all a root (write v ++ rest) ≡ ok (done (parsed v), rest)
  feed_all-write a null rest h = feed_all-null a rest
  feed_all-write a (string s) rest h = feed_all-string a s rest h
  feed_all-write a (integer n) rest h = feed_all-string a (format_signed n) rest h
  feed_all-write a (boolean true) rest h = feed_all-string a (bytes "1") rest (omega arith)
  feed_all-write a (boolean false) rest h = feed_all-string a (bytes "0") rest (omega arith)
  feed_all-write a (error source s) rest h = feed_all-error a s rest
  feed_all-write a (vector vs) rest h =
      feed_all-vector a (count vs) (write_items vs) rest h.0 ∙ feed_all-items a vs nil rest h.1
  feed_all-write a (hash fs) rest h =
      feed_all-vector a (2 * count_fields fs) (write_fields fs) rest h.0
      ∙ feed_all-fields a fs nil rest h.1

  feed_all-items :
      (a : Bool) (vs ws : Items) (rest : Str)
      → AreSized vs
      → feed_all a (waiting (count vs) ws) (write_items vs ++ rest)
        ≡ ok (done (vector (append_items ws (parsed_items vs))), rest)
  feed_all-items a nil ws rest h = rw (append_items-nil ws) (feed_all-done a (vector ws) rest)
  feed_all-items a (cons v vs) ws rest h = rw (append_assoc (write v) (write_items vs) rest) (
      feed_all-element a (count vs) ws (parsed v) _ _
        (feed_all-write false v (write_items vs ++ rest) h.0)
      ∙ feed_all-items a vs (push_back ws (parsed v)) rest h.1
      ∙ ap (λ x. ok (done (vector x), rest))
          (append_items-push_back ws (parsed v) (parsed_items vs)))

  feed_all-fields :
      (a : Bool) (fs : Fields) (ws : Items) (rest : Str)
      → AreSizedFields fs
      → feed_all a (waiting (2 * count_fields fs) ws) (write_fields fs ++ rest)
        ≡ ok (done (vector (append_items ws (parsed_fields fs))), rest)
  feed_all-fields a end ws rest h = rw (append_items-nil ws) (feed_all-done a (vector ws) rest)
  feed_all-fields a (field k v fs) ws rest h =
      let e : 2 * suc (count_fields fs) ≡ suc (suc (2 * count_fields fs)) = omega arith in
      let more = write_fields fs ++ rest in
      let items = parsed_fields fs in
      rw
        (
          e,
          append_assoc (write_string k) (write v ++ write_fields fs) rest,
          append_assoc (write v) (write_fields fs) rest,
        )
        (feed_all-element a (suc (2 * count_fields fs)) ws (string k) _ _
            (feed_all-string false k (write v ++ more) h.0)
          ∙ feed_all-element a (2 * count_fields fs) (push_back ws (string k)) (parsed v) _ _
              (feed_all-write false v more h.1)
          ∙ feed_all-fields a fs (push_back (push_back ws (string k)) (parsed v)) rest h.2
          ∙ ap (λ x. ok (done (vector x), rest))
              (append_items-push_back (push_back ws (string k)) (parsed v) items
                ∙ append_items-push_back ws (string k) (cons (parsed v) items)))

-- What the writer writes for a value whose sizes an int32_t holds, the parser reads completely, and
-- leaves the bytes that follow: it gives the value, with numbers and truth values as strings, a hash as
-- the vector of its names and values in turn, and an error as its first line from the parser.
pub handle_data-write :
    (a : Bool) (v : Value) (rest : Str)
    → IsSized v
    → handle_data a root (write v ++ rest) ≡ ok (done (parsed v), rest)
handle_data-write a v rest h =
    handle_data-feed_all a root (write v ++ rest) tt ∙ feed_all-write a v rest h
