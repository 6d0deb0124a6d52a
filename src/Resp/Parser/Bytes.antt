-- ===== src/Resp/Parser/Bytes.antt =====
-- The parser byte by byte: what it means for bytes to come one at a time.
use afl.Base.{
  ℕ, zero, suc, ◌<◌, ◌≤◌, Bool, true, false, if◌then◌else◌, ◌==◌, [], ◌∷◌, ◌++◌, ◌≡◌, refl, sym,
  ◌∙◌, ◌⊎◌, inl, inr, length, arith,
}
use afl.Base.Str.{Str}
use afl.Except.{Result, ok, err, ◌>>=◌, OnOk, OnOk-bind, bind_assoc, bind_cong}
use afl.Data.Value.{Value, string, vector, Items, push_back}
use afl.Resp.Parser.{
  State, root, line, number, bulk, array, short, done, Outcome, root_byte, line_value, number_byte,
  number_end, syntax_failure, is_blank, flush,
}

-- After an element: the array is complete with its last one.
abbrev pub pushed : ℕ → Items → Value → State
pushed zero vs v = done (vector vs)
pushed (suc zero) vs v = done (vector (push_back vs v))
pushed (suc (suc n)) vs v = array (suc n) (push_back vs v) root

abbrev pub within : ℕ → Items → State → State
within n vs (done v) = pushed n vs v
within n vs p = array n vs p

-- One byte.
unfoldable pub feed : Bool → State → ℕ → Result State
feed accept_short root c = root_byte accept_short c
feed accept_short (line success s) c = ok (
    if c == 13
    then line success s
    else if c == 10
    then done (line_value success s)
    else line success (s ++ (c ∷ [])))
feed accept_short (number kind sign v) c =
    if c == 10
    then number_end kind sign v
    else (number_byte sign v c >>= λ r. ok (number kind r.0 r.1))
feed accept_short (bulk zero s) c =
    if c == 13 then ok (bulk 0 s) else if c == 10 then ok (done (string s)) else err syntax_failure
feed accept_short (bulk (suc n) s) c = ok (bulk n (s ++ (c ∷ [])))
feed accept_short (array n vs p) c = let rest = feed false p c in rest >>= λ q. ok (within n vs q)
feed accept_short (short s vs) c = ok (
    if is_blank c
    then (if c == 10 then done (vector (flush s vs)) else short [] (flush s vs))
    else short (s ++ (c ∷ [])) vs)
feed accept_short (done v) c = ok (done v)

-- Bytes until a value is complete, and those that are left.
unfoldable pub feed_all : Bool → State → Str → Outcome
unfolding feed
feed_all accept_short (done v) input = ok (done v, input)
feed_all accept_short st [] = ok (st, [])
feed_all accept_short st (c ∷ input) = feed accept_short st c >>= λ q. feed_all accept_short q input

abbrev pub is_done : State → Bool
is_done (done v) = true
is_done _ = false

-- An array waits for at least one element, and has not read all of it.
abbrev pub IsValid : State → Type 0
IsValid (array n vs p) = (0 < n) × (is_done p ≡ false) × IsValid p
IsValid _ = Unit {0}

pub feed_all-empty : (a : Bool) (st : State) → feed_all a st [] ≡ ok (st, [])
unfolding feed_all
feed_all-empty a root = refl
feed_all-empty a (line success s) = refl
feed_all-empty a (number kind sign v) = refl
feed_all-empty a (bulk n s) = refl
feed_all-empty a (array n vs p) = refl
feed_all-empty a (short s vs) = refl
feed_all-empty a (done v) = refl

pub feed_all-cons :
    (a : Bool) (st : State) (c : ℕ) (input : Str)
    → is_done st ≡ false
    → feed_all a st (c ∷ input) ≡ (feed a st c >>= λ q. feed_all a q input)
unfolding feed_all
feed_all-cons a root c input h = refl
feed_all-cons a (line success s) c input h = refl
feed_all-cons a (number kind sign v) c input h = refl
feed_all-cons a (bulk n s) c input h = refl
feed_all-cons a (array n vs p) c input h = refl
feed_all-cons a (short s vs) c input h = refl
feed_all-cons a (done v) c input h = cc

pub is_done-cases : (st : State) → (is_done st ≡ false) ⊎ ((v : Value) × (st ≡ done v))
is_done-cases (done v) = inr (v, refl)
is_done-cases root = inl refl
is_done-cases (line success s) = inl refl
is_done-cases (number kind sign v) = inl refl
is_done-cases (bulk n s) = inl refl
is_done-cases (array n vs p) = inl refl
is_done-cases (short s vs) = inl refl

-- Where a parser stops, its state is complete, or the input is used up.
abbrev pub Stopped : State × Str → Type 0
Stopped (st, input) = (is_done st ≡ true) ⊎ (input ≡ [])

weaken :
    (n : ℕ) (r : Outcome)
    → OnOk (λ x. Stopped x × (length x.1 ≤ n)) r
    → OnOk (λ x. Stopped x × (length x.1 ≤ suc n)) r
weaken n (ok x) h = (h.0, omega (arith, h.1))
weaken n (err e) h = tt

-- How far the parser gets with `input`: it stops, and has used a byte where it was not done.
pub feed_all-Stopped :
    (a : Bool) (st : State) (input : Str)
    → OnOk (λ r. Stopped r × (length r.1 ≤ length input)) (feed_all a st input)
feed_all-Stopped a st [] = rw (feed_all-empty a st) (inr refl, omega arith)
feed_all-Stopped a st (c ∷ input) = elim (is_done-cases st) [
  | inl live ↦
      rw (feed_all-cons a st c input live)
        (OnOk-bind _ (feed a st c) _ λ q. weaken _ _ (feed_all-Stopped a q input))
  | inr (v, e) ↦ rw e (unfold feed_all in (inl refl, omega arith))
]

pub feed_all-shorter :
    (a : Bool) (st : State) (c : ℕ) (input : Str)
    → is_done st ≡ false
    → OnOk (λ r. Stopped r × (length r.1 ≤ length input)) (feed_all a st (c ∷ input))
feed_all-shorter a st c input h =
    rw (feed_all-cons a st c input h) (OnOk-bind _ (feed a st c) _ λ q. feed_all-Stopped a q input)

pub feed_all-append :
    (a : Bool) (st : State) (xs ys : Str)
    → feed_all a st (xs ++ ys) ≡ (feed_all a st xs >>= λ r. feed_all a r.0 (r.1 ++ ys))
feed_all-append a st [] ys = rw (feed_all-empty a st) refl
feed_all-append a st (c ∷ xs) ys = elim (is_done-cases st) [
  | inl live ↦
      rw (feed_all-cons a st c xs live, feed_all-cons a st c (xs ++ ys) live)
        (bind_cong (feed a st c) _ _ (λ q. feed_all-append a q xs ys)
          ∙ sym (bind_assoc (feed a st c) _ _))
  | inr (v, e) ↦ rw e (unfold feed_all in refl)
]
