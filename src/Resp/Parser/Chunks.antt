-- ===== src/Resp/Parser/Chunks.antt =====
-- The loops of the states, byte by byte.
use afl.Base.{
  ℕ, zero, suc, ◌-◌, Bool, false, [], ◌∷◌, ◌++◌, ◌≡◌, refl, sym, ◌∙◌, inl, inr, length, take, arith,
  append-nil, append_assoc,
}
use afl.Base.Str.{Str}
use afl.Except.{ok, ◌>>=◌, bind_assoc, bind_cong}
use afl.Data.Value.{Items}
use afl.Resp.Parser.{
  State, root, line, number, bulk, array, short, done, Outcome, line_data, bulk_end, bulk_data,
  short_data, flush,
}
use afl.Resp.Parser.Bytes.{
  feed, feed_all, feed_all-empty, feed_all-cons, within, is_done, is_done-cases,
}

pub line_data-feed_all :
    (a success : Bool) (s input : Str)
    → line_data success s input ≡ feed_all a (line success s) input
unfolding line_data feed_all
line_data-feed_all a success s [] = refl
line_data-feed_all a success s (c ∷ input) = ground (
  arith,
  line_data-feed_all a success s input,
  line_data-feed_all a success (s ++ (c ∷ [])) input,
)

bulk_end-feed_all : (a : Bool) (s input : Str) → bulk_end s input ≡ feed_all a (bulk 0 s) input
unfolding bulk_end feed_all
bulk_end-feed_all a s [] = refl
bulk_end-feed_all a s (c ∷ input) = ground (arith, bulk_end-feed_all a s input)

pub bulk_data-feed_all :
    (a : Bool) (n : ℕ) (s input : Str) → bulk_data n s input ≡ feed_all a (bulk n s) input
unfolding bulk_data feed
bulk_data-feed_all a zero s input = rw (append-nil s) (ground (arith, bulk_end-feed_all a s input))
bulk_data-feed_all a (suc n) s [] =
    rw (append-nil s, feed_all-empty a (bulk (suc n) s)) (ground arith)
bulk_data-feed_all a (suc n) s (c ∷ input) =
    let e : suc n - suc (length input) ≡ n - length input = omega arith in
    rw (e, feed_all-cons a (bulk (suc n) s) c input refl)
      (rw (append_assoc s (c ∷ []) (take n input), append_assoc s (c ∷ []) input) at
        (bulk_data-feed_all a n (s ++ (c ∷ [])) input))

pub short_data-feed_all :
    (a : Bool) (s : Str) (vs : Items) (input : Str)
    → short_data s vs input ≡ feed_all a (short s vs) input
unfolding short_data feed_all
short_data-feed_all a s vs [] = refl
short_data-feed_all a s vs (c ∷ input) = ground (
  arith,
  short_data-feed_all a [] (flush s vs) input,
  short_data-feed_all a (s ++ (c ∷ [])) vs input,
)

pub within-live :
    (n : ℕ) (vs : Items) (p : State) → is_done p ≡ false → within n vs p ≡ array n vs p
within-live n vs root h = refl
within-live n vs (line success s) h = refl
within-live n vs (number kind sign v) h = refl
within-live n vs (bulk k s) h = refl
within-live n vs (array k ws p) h = refl
within-live n vs (short s ws) h = refl
within-live n vs (done v) h = cc

-- What is done with the outcome of an element's parser.
abbrev pub resume : Bool → ℕ → Items → State × Str → Outcome
resume a n vs (p, input) = feed_all a (within n vs p) input

feed-array :
    (a : Bool) (n : ℕ) (vs : Items) (p : State) (c : ℕ)
    → feed a (array n vs p) c ≡ (feed false p c >>= λ q. ok (within n vs q))
unfolding feed
feed-array a n vs p c = refl

-- An array reads the bytes that its element's parser reads, and goes on with what is left.
pub feed_all-array :
    (a : Bool) (n : ℕ) (vs : Items) (p : State) (input : Str)
    → is_done p ≡ false
    → feed_all a (array n vs p) input ≡ (feed_all false p input >>= resume a n vs)
feed_all-array a n vs p [] h = rw (feed_all-empty false p, within-live n vs p h) refl
feed_all-array a n vs p (c ∷ input) h =
    rw
      (
        feed_all-cons a (array n vs p) c input refl,
        feed-array a n vs p c,
        feed_all-cons false p c input h,
      )
      (bind_assoc (feed false p c) _ _
        ∙ bind_cong (feed false p c) _ _ (λ q. elim (is_done-cases q) [
          | inl live ↦ rw (within-live n vs q live) (feed_all-array a n vs q input live)
          | inr (v, e) ↦ rw e (unfold feed_all in refl)
        ])
        ∙ sym (bind_assoc (feed false p c) _ _))
