-- ===== src/Resp/Parser/Shallow.antt =====
-- What a first byte and the bytes of a number lead to.
use afl.Base.{
  ℕ, ◌-◌, ◌≤◌, Bool, true, false, ◌==◌, [], ◌∷◌, ◌≡◌, refl, sym, ◌∙◌, inl, inr, length, arith,
  Bool-cases, not, ◌&&◌, ◌||◌,
}
use afl.Base.Str.{Str}
use afl.Except.{ok, err, ◌>>=◌, OnOk, OnOk-bind, OnOk-then, OnOk-if, bind_assoc, bind_cong}
use afl.Text.Char.{char_is_upper, char_is_lower}
use afl.Data.Value.{nil}
use afl.Resp.Parser.{
  State, root, line, number, short, Outcome, Kind, Sign, virgin, root_byte, root_data, number_data,
  number_byte, number_end, numbered, has_digits, is_negative, integer_kind, bulk_kind, array_kind,
  depth,
}
use afl.Resp.Parser.Bytes.{feed, feed_all, feed_all-cons, IsValid}

-- The states that a byte of a number, or a first byte, can lead to.
abbrev pub Shallow : State → Type 0
Shallow st = IsValid st × (depth st ≤ 1)

abbrev pub Fits : ℕ → State × Str → Type 0
Fits n (st, input) = Shallow st × (length input ≤ n)

pub Fits-mono : (m n : ℕ) (r : Outcome) → m ≤ n → OnOk (Fits m) r → OnOk (Fits n) r
Fits-mono m n (ok (st, input)) h f = (f.0, omega (arith, f.1))
Fits-mono m n (err e) h f = tt

numbered-Shallow : (kind : Kind) (below : Bool) (v : ℕ) → Shallow (numbered kind below v)
unfolding depth
numbered-Shallow integer_kind below v = (tt, omega arith)
numbered-Shallow bulk_kind below v = elim (Bool-cases (below && not (v == 0))) [
  | inl e ↦ rw e (tt, omega arith)
  | inr e ↦ rw e (tt, omega arith)
]
numbered-Shallow array_kind below v = elim (Bool-cases (below && not (v == 0))) [
  | inl e ↦ rw e (tt, omega arith)
  | inr e ↦ rw e (elim (Bool-cases (v == 0)) [
    | inl z ↦ rw z (tt, omega arith)
    | inr z ↦ rw z ((ground arith, refl, tt), omega arith)
  ])
]

pub number_end-Shallow : (kind : Kind) (sign : Sign) (v : ℕ) → OnOk Shallow (number_end kind sign v)
unfolding number_end
number_end-Shallow kind sign v =
    OnOk-if Shallow (has_digits sign) _ _ (numbered-Shallow kind (is_negative sign) v) tt

plain : (st : State) → Shallow st → OnOk Shallow (ok st)
plain st h = h

pub root_byte-Shallow : (a : Bool) (c : ℕ) → OnOk Shallow (root_byte a c)
unfolding root_byte depth
root_byte-Shallow a c = OnOk-if Shallow (c == b'+') _ _ (plain (line true []) (tt, omega arith)) (
    OnOk-if Shallow (c == b'-') _ _ (plain (line false []) (tt, omega arith)) (
      OnOk-if Shallow (c == b':') _ _ (plain (number integer_kind virgin 0) (tt, omega arith)) (
        OnOk-if Shallow (c == b'$') _ _ (plain (number bulk_kind virgin 0) (tt, omega arith)) (
          OnOk-if Shallow (c == b'*') _ _ (plain (number array_kind virgin 0) (tt, omega arith)) (
            OnOk-if Shallow (a && (char_is_upper c || char_is_lower c)) _ _
              (plain (short (c ∷ []) nil) (tt, omega arith)) tt)))))

pub number_data-Fits :
    (kind : Kind) (sign : Sign) (v : ℕ) (input : Str)
    → OnOk (Fits (length input - 1)) (number_data kind sign v input)
unfolding number_data depth
number_data-Fits kind sign v [] = ((tt, omega arith), omega arith)
number_data-Fits kind sign v (c ∷ input) = elim (Bool-cases (c == 10)) [
  | inl e ↦ rw e (
      OnOk-then Shallow _ (number_end kind sign v) _ (number_end-Shallow kind sign v)
        λ st h. (h, omega arith))
  | inr e ↦ rw e (
      OnOk-bind _ (number_byte sign v c) _
        λ r. Fits-mono _ _ _ (omega arith) (number_data-Fits kind r.0 r.1 input))
]

pub root_data-Fits :
    (a : Bool) (c : ℕ) (input : Str) → OnOk (Fits (length input)) (root_data a (c ∷ input))
unfolding root_data
root_data-Fits a c input =
    OnOk-then Shallow _ (root_byte a c) _ (root_byte-Shallow a c) λ st h. (h, omega arith)

pub number_data-feed_all :
    (a : Bool) (kind : Kind) (sign : Sign) (v : ℕ) (input : Str)
    → (number_data kind sign v input >>= λ r. feed_all a r.0 r.1)
      ≡ feed_all a (number kind sign v) input
unfolding number_data feed
number_data-feed_all a kind sign v [] = refl
number_data-feed_all a kind sign v (c ∷ input) =
    rw (feed_all-cons a (number kind sign v) c input refl) (elim (Bool-cases (c == 10)) [
      | inl e ↦ rw e (bind_assoc (number_end kind sign v) _ _)
      | inr e ↦ rw e (
          bind_assoc (number_byte sign v c) _ _
          ∙ bind_cong (number_byte sign v c) _ _ (λ r. number_data-feed_all a kind r.0 r.1 input)
          ∙ sym (bind_assoc (number_byte sign v c) _ _))
    ])

pub root_data-feed_all :
    (a : Bool) (c : ℕ) (input : Str)
    → (root_data a (c ∷ input) >>= λ r. feed_all a r.0 r.1) ≡ feed_all a root (c ∷ input)
unfolding root_data feed
root_data-feed_all a c input =
    rw (feed_all-cons a root c input refl) (bind_assoc (root_byte a c) _ _)
