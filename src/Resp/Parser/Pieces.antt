-- ===== src/Resp/Parser/Pieces.antt =====
-- A value may come in pieces, cut anywhere.
use afl.Base.{ℕ, zero, suc, ◌==◌, Bool, false, [], ◌∷◌, ◌++◌, ◌≡◌, refl, sym, ◌∙◌, inl, inr, arith}
use afl.Base.Str.{Str}
use afl.Except.{Result, ok, err, ◌>>=◌, OnOk, OnOk-then, OnOk-bind, OnOk-if, bind-OnOk}
use afl.Data.Value.{Value, Items}
use afl.Resp.Parser.{State, root, line, number, bulk, array, short, done, number_byte, handle_data}
use afl.Resp.Parser.Bytes.{
  feed, feed_all, feed_all-empty, feed_all-cons, feed_all-append, is_done-cases, IsValid, pushed,
}
use afl.Resp.Parser.Chunks.{within-live}
use afl.Resp.Parser.Shallow.{Shallow, root_byte-Shallow, number_end-Shallow}
use afl.Resp.Parser.Refines.{handle_data-feed_all}

pushed-IsValid : (n : ℕ) (vs : Items) (v : Value) → IsValid (pushed n vs v)
pushed-IsValid zero vs v = tt
pushed-IsValid (suc zero) vs v = tt
pushed-IsValid (suc (suc n)) vs v = (omega arith, refl, tt)

valid : (r : Result State) → OnOk Shallow r → OnOk IsValid r
valid (ok st) h = h.0
valid (err e) h = tt

pub feed-IsValid : (a : Bool) (st : State) (c : ℕ) → IsValid st → OnOk IsValid (feed a st c)
unfolding feed
feed-IsValid a root c v = valid _ (root_byte-Shallow a c)
feed-IsValid a (line success s) c v = ground arith
feed-IsValid a (number kind sign n) c v =
    OnOk-if IsValid (c == 10) _ _ (valid _ (number_end-Shallow kind sign n))
      (OnOk-bind IsValid (number_byte sign n c) _ λ r. tt)
feed-IsValid a (bulk zero s) c v = ground arith
feed-IsValid a (bulk (suc n) s) c v = tt
feed-IsValid a (array n vs p) c v =
    OnOk-then IsValid IsValid (feed false p c) _ (feed-IsValid false p c v.2) λ q w.
      elim (is_done-cases q) [
        | inl live ↦ rw (within-live n vs q live) (v.0, live, w)
        | inr (x, e) ↦ rw e (pushed-IsValid n vs x)
      ]
feed-IsValid a (short s vs) c v = ground arith
feed-IsValid a (done w) c v = tt

pub feed_all-IsValid :
    (a : Bool) (st : State) (input : Str)
    → IsValid st
    → OnOk (λ r. IsValid r.0) (feed_all a st input)
feed_all-IsValid a st [] v = rw (feed_all-empty a st) v
feed_all-IsValid a st (c ∷ input) v = elim (is_done-cases st) [
  | inl live ↦ rw (feed_all-cons a st c input live) (
      OnOk-then IsValid _ (feed a st c) _ (feed-IsValid a st c v)
        λ q w. feed_all-IsValid a q input w)
  | inr (x, e) ↦ rw e (unfold feed_all in tt)
]

-- A parser, in a state whose arrays wait for at least one element, that is given a piece and then
-- another, after what it left of the first, gets to where it gets with both in one piece: the same
-- value or state, the same bytes left, or the same exception.
pub handle_data-append :
    (a : Bool) (st : State) (xs ys : Str)
    → IsValid st
    → handle_data a st (xs ++ ys) ≡ (handle_data a st xs >>= λ r. handle_data a r.0 (r.1 ++ ys))
handle_data-append a st xs ys v =
    rw (handle_data-feed_all a st (xs ++ ys) v, handle_data-feed_all a st xs v)
      (feed_all-append a st xs ys
        ∙ bind-OnOk (λ r. IsValid r.0) (feed_all a st xs) _ _ (feed_all-IsValid a st xs v)
            (λ r w. sym (handle_data-feed_all a r.0 (r.1 ++ ys) w)))
