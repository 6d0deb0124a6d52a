-- ===== src/Net/HeaderParser/Steps.antt =====
-- What single bytes and the lines of a well-formed header do to a `HeaderParser`.
use afl.Base.{
  ℕ, ◌≡◌, ◌≢◌, refl, ap, ◌∙◌, Bool, true, false, not, ◌||◌, [], ◌∷◌, ◌++◌, ◌==◌, All, append-nil,
  append_assoc, arith,
}
use afl.Base.Str.{Str}
use afl.Net.HeaderTable.{HeaderTable, handle_header}
use afl.Net.HeaderField.{HeaderField}
use afl.Net.HeaderParser.{
  HeaderParser, State, initial_state, key_state, value_state, newline_state, final_state, newline,
  blank, colon, other, handle_byte, handle_data,
}

abbrev pub is_value_byte : ℕ → Bool
is_value_byte c = not (c == 0 || (c == 13 || c == 10))

abbrev pub is_name_byte : ℕ → Bool
is_name_byte c = not (c == 0 || (c == 13 || (c == 10 || (c == 32 || (c == 9 || c == b':')))))

abbrev pub BeginsWell : Str → Type 0
BeginsWell [] = Unit {0}
BeginsWell (c ∷ s) = (c == 32 || c == 9) ≡ false

-- A field with a name, without bytes that mean something else in a header, and with a value that does not begin
-- with white space.
abbrev pub IsPlain : HeaderField → Type 0
IsPlain f =
    (f.name ≢ [])
    × All (λ c. is_name_byte c ≡ true) f.name
    × All (λ c. is_value_byte c ≡ true) f.value
    × BeginsWell f.value

abbrev pub at : HeaderTable → Bool → Bool → Str → Str → State → HeaderParser
at t e f k v s = record {
  consumer = t;
  has_errors = e;
  has_folding = f;
  key = k;
  value = v;
  state = s;
}

module _ (t : HeaderTable) (e f : Bool) where
  step_key :
      (k : Str) (c : ℕ) (s : Str)
      → is_name_byte c ≡ true
      → handle_data (at t e f k [] key_state) (c ∷ s)
        ≡ handle_data (at t e f (k ++ c ∷ []) [] key_state) s
  unfolding handle_data
  step_key k c s h = ap (λ p. handle_data p s) (unfold handle_byte other in ground arith)

  step_value :
      (k : Str) (a : ℕ) (v : Str) (c : ℕ) (s : Str)
      → is_value_byte c ≡ true
      → handle_data (at t e f k (a ∷ v) value_state) (c ∷ s)
        ≡ handle_data (at t e f k (a ∷ (v ++ c ∷ [])) value_state) s
  unfolding handle_data
  step_value k a v c s h =
      ap (λ p. handle_data p s) (unfold handle_byte blank colon other in ground arith)

  key-bytes :
      (k n s : Str)
      → All (λ c. is_name_byte c ≡ true) n
      → handle_data (at t e f k [] key_state) (n ++ s)
        ≡ handle_data (at t e f (k ++ n) [] key_state) s
  key-bytes k [] s h = rw append-nil refl
  key-bytes k (c ∷ n) s h =
      step_key k c (n ++ s) h.0
      ∙ key-bytes (k ++ c ∷ []) n s h.1
      ∙ ap (λ u. handle_data (at t e f u [] key_state) s) (append_assoc k (c ∷ []) n)

  value-bytes :
      (k : Str) (a : ℕ) (v w s : Str)
      → All (λ c. is_value_byte c ≡ true) w
      → handle_data (at t e f k (a ∷ v) value_state) (w ++ s)
        ≡ handle_data (at t e f k ((a ∷ v) ++ w) value_state) s
  value-bytes k a v [] s h = rw append-nil refl
  value-bytes k a v (c ∷ w) s h =
      step_value k a v c (w ++ s) h.0
      ∙ value-bytes k a (v ++ c ∷ []) w s h.1
      ∙ ap (λ u. handle_data (at t e f k (a ∷ u) value_state) s) (append_assoc v (c ∷ []) w)

  colon_space :
      (k s : Str)
      → handle_data (at t e f k [] key_state) (b':' ∷ 32 ∷ s)
        ≡ handle_data (at t e f k [] value_state) s
  unfolding handle_data handle_byte colon blank
  colon_space k s = refl

  line_end :
      (k v s : Str)
      → handle_data (at t e f k v value_state) (13 ∷ 10 ∷ s)
        ≡ handle_data (at t e f k v newline_state) s
  unfolding handle_data handle_byte newline
  line_end k v s = refl

  step_first :
      (k : Str) (c : ℕ) (s : Str)
      → is_value_byte c ≡ true
      → (c == 32 || c == 9) ≡ false
      → handle_data (at t e f k [] value_state) (c ∷ s)
        ≡ handle_data (at t e f k (c ∷ []) value_state) s
  unfolding handle_data
  step_first k c s h b =
      ap (λ p. handle_data p s) (unfold handle_byte blank colon other in ground arith)

  value-line :
      (k v s : Str)
      → All (λ c. is_value_byte c ≡ true) v
      → BeginsWell v
      → handle_data (at t e f k [] key_state) (b':' ∷ 32 ∷ (v ++ (13 ∷ 10 ∷ s)))
        ≡ handle_data (at t e f k v newline_state) s
  value-line k [] s h b = colon_space k (13 ∷ 10 ∷ s) ∙ line_end k [] s
  value-line k (c ∷ v) s h b =
      colon_space k (c ∷ (v ++ (13 ∷ 10 ∷ s)))
      ∙ step_first k c (v ++ (13 ∷ 10 ∷ s)) h.0 b
      ∙ value-bytes k c [] v (13 ∷ 10 ∷ s) h.1
      ∙ line_end k (c ∷ v) s

-- The first byte of a name behind a field, and as the first of all.
pub step_next :
    (t : HeaderTable) (e f : Bool) (k v : Str) (c : ℕ) (s : Str)
    → is_name_byte c ≡ true
    → handle_data (at t e f k v newline_state) (c ∷ s)
      ≡ handle_data (at (handle_header k v t) e f (c ∷ []) [] key_state) s
unfolding handle_data
step_next t e f k v c s h = ap (λ p. handle_data p s) (unfold handle_byte other in ground arith)

pub step_initial :
    (t : HeaderTable) (e f : Bool) (c : ℕ) (s : Str)
    → is_name_byte c ≡ true
    → handle_data (at t e f [] [] initial_state) (c ∷ s)
      ≡ handle_data (at t e f (c ∷ []) [] key_state) s
unfolding handle_data
step_initial t e f c s h = ap (λ p. handle_data p s) (unfold handle_byte other in ground arith)

pub final_rest :
    (t : HeaderTable) (e f : Bool) (k v s : Str)
    → handle_data (at t e f k v final_state) s ≡ (at t e f k v final_state, s)
unfolding handle_data
final_rest t e f k v [] = refl
final_rest t e f k v (c ∷ s) = refl

-- What stands behind the first byte of a field.
pub field-line :
    (t : HeaderTable) (e f : Bool) (c : ℕ) (n v s : Str)
    → All (λ c. is_name_byte c ≡ true) n
    → All (λ c. is_value_byte c ≡ true) v
    → BeginsWell v
    → handle_data (at t e f (c ∷ []) [] key_state) (n ++ (b':' ∷ 32 ∷ (v ++ (13 ∷ 10 ∷ s))))
      ≡ handle_data (at t e f (c ∷ n) v newline_state) s
field-line t e f c n v s h g b =
    key-bytes t e f (c ∷ []) n (b':' ∷ 32 ∷ (v ++ (13 ∷ 10 ∷ s))) h
    ∙ value-line t e f (c ∷ n) v s g b
