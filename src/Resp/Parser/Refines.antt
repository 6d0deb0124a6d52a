-- ===== src/Resp/Parser/Refines.antt =====
-- The parser on pieces does what it does byte by byte.
use afl.Base.{
  ℕ, zero, suc, ◌+◌, ◌*◌, ◌≤◌, Bool, false, [], ◌∷◌, ◌≡◌, refl, sym, ◌∙◌, inl, inr, length, arith,
}
use afl.Base.Str.{Str}
use afl.Except.{ok, err, ◌>>=◌, OnOk, bind-OnOk}
use afl.Data.Value.{Value, Items, push_back}
use afl.Resp.Parser.{
  State, root, line, number, bulk, array, short, done, Outcome, root_data, number_data, handle,
  step, array_data, array_next, depth, handle_data,
}
use afl.Resp.Parser.Bytes.{
  feed_all, feed_all-empty, feed_all-Stopped, feed_all-shorter, pushed, is_done, is_done-cases,
  IsValid, Stopped,
}
use afl.Resp.Parser.Chunks.{
  line_data-feed_all, bulk_data-feed_all, short_data-feed_all, within-live, feed_all-array,
}
use afl.Resp.Parser.Shallow.{
  Fits, Fits-mono, number_data-Fits, root_data-Fits, number_data-feed_all, root_data-feed_all,
}

handle-Stopped :
    (f : ℕ) (a : Bool) (st : State) (input : Str)
    → Stopped (st, input)
    → handle f a st input ≡ ok (st, input)
unfolding handle
handle-Stopped zero a st input h = refl
handle-Stopped (suc f) a (done v) input h = refl
handle-Stopped (suc f) a root [] h = refl
handle-Stopped (suc f) a (line success s) [] h = refl
handle-Stopped (suc f) a (number kind sign v) [] h = refl
handle-Stopped (suc f) a (bulk n s) [] h = refl
handle-Stopped (suc f) a (array n vs p) [] h = refl
handle-Stopped (suc f) a (short s vs) [] h = refl
handle-Stopped (suc f) a root (c ∷ input) h = ground arith
handle-Stopped (suc f) a (line success s) (c ∷ input) h = ground arith
handle-Stopped (suc f) a (number kind sign v) (c ∷ input) h = ground arith
handle-Stopped (suc f) a (bulk n s) (c ∷ input) h = ground arith
handle-Stopped (suc f) a (array n vs p) (c ∷ input) h = ground arith
handle-Stopped (suc f) a (short s vs) (c ∷ input) h = ground arith

bind_ok : (r : Outcome) → (r >>= λ x. ok (x.0, x.1)) ≡ r
bind_ok (ok x) = refl
bind_ok (err e) = refl

feed_all-handle :
    (f : ℕ) (a : Bool) (st : State) (input : Str)
    → (feed_all a st input >>= λ r. handle f a r.0 r.1) ≡ feed_all a st input
feed_all-handle f a st input =
    bind-OnOk _ (feed_all a st input) _ _ (feed_all-Stopped a st input)
      (λ r h. handle-Stopped f a r.0 r.1 h.0)
    ∙ bind_ok (feed_all a st input)

-- With the fuel that the input and the depth call for, `handle` does what the bytes do one by one.
abbrev Refined : ℕ → Type 0
Refined f =
    (a : Bool) (st : State) (input : Str)
    → IsValid st
    → 4 * length input + 3 * depth st ≤ f
    → handle f a st input ≡ feed_all a st input

array_next-empty :
    (f n : ℕ) (vs : Items) (q : State)
    → is_done q ≡ false
    → array_next f n vs q [] ≡ ok (array (suc n) vs q, [])
unfolding array_next
array_next-empty zero n vs q h = refl
array_next-empty (suc f) n vs root h = refl
array_next-empty (suc f) n vs (line success s) h = refl
array_next-empty (suc f) n vs (number kind sign v) h = refl
array_next-empty (suc f) n vs (bulk k s) h = refl
array_next-empty (suc f) n vs (array k ws p) h = refl
array_next-empty (suc f) n vs (short s ws) h = refl
array_next-empty (suc f) n vs (done v) h = cc

used_up : (q : State) (input : Str) → Stopped (q, input) → is_done q ≡ false → input ≡ []
used_up q input (inl d) h = absurd (cc)
used_up q input (inr e) h = e

-- After an element, the rest of the array.
element :
    (f k : ℕ) (a : Bool) (vs : Items) (w : Value) (rest : Str)
    → ((m : ℕ)
        → array_data f (suc m) (push_back vs w) root rest
          ≡ feed_all a (array (suc m) (push_back vs w) root) rest)
    → array_data f k (push_back vs w) root rest ≡ feed_all a (pushed (suc k) vs w) rest
unfolding array_data feed_all
element zero zero a vs w rest h = refl
element (suc f) zero a vs w rest h = refl
element f (suc m) a vs w rest h = h m

array_data-feed_all :
    (f : ℕ) (a : Bool) (n : ℕ) (vs : Items) (p : State) (input : Str)
    → ((g : ℕ) → g ≤ f → Refined g)
    → is_done p ≡ false
    → IsValid p
    → 4 * length input + 3 * depth p + 1 ≤ f
    → array_data f (suc n) vs p input ≡ feed_all a (array (suc n) vs p) input
unfolding array_data array_next
array_data-feed_all zero a n vs p input r h v b = absurd (omega arith)
array_data-feed_all (suc f) a n vs p [] r h v b = sym (feed_all-empty a (array (suc n) vs p))
array_data-feed_all (suc zero) a n vs p (c ∷ input) r h v b = absurd (omega arith)
array_data-feed_all (suc (suc f)) a n vs p (c ∷ input) r h v b =
    rw
      (
        r (suc f) (omega arith) false p (c ∷ input) v (omega arith),
        feed_all-array a (suc n) vs p (c ∷ input) h,
      )
      (bind-OnOk _ (feed_all false p (c ∷ input)) _ _ (feed_all-shorter false p c input h) λ x s.
        elim (is_done-cases x.0) [
          | inl live ↦
              rw
                (
                  used_up x.0 x.1 s.0 live,
                  array_next-empty (suc f) n vs x.0 live,
                  within-live (suc n) vs x.0 live,
                )
                (sym (feed_all-empty a (array (suc n) vs x.0)))
          | inr (w, e) ↦ rw e (
              element f n a vs w x.1 (λ m.
                array_data-feed_all f a m (push_back vs w) root x.1 (λ g l. r g (omega arith)) refl
                  tt (unfold depth in omega (arith, s.1, b))))
        ])

handle-step :
    (f : ℕ) (a : Bool) (st : State) (c : ℕ) (input : Str)
    → is_done st ≡ false
    → handle (suc f) a st (c ∷ input) ≡ (step f a st (c ∷ input) >>= λ r. handle f a r.0 r.1)
unfolding handle
handle-step f a root c input h = refl
handle-step f a (line success s) c input h = refl
handle-step f a (number kind sign v) c input h = refl
handle-step f a (bulk k s) c input h = refl
handle-step f a (array k ws p) c input h = refl
handle-step f a (short s ws) c input h = refl
handle-step f a (done v) c input h = cc

-- Where a step leaves a shallow state and fewer bytes, the fuel is enough for the rest.
continue :
    (f : ℕ) (a : Bool) (r : Outcome) (n : ℕ)
    → Refined f
    → OnOk (Fits n) r
    → 4 * n + 3 ≤ f
    → (r >>= λ x. handle f a x.0 x.1) ≡ (r >>= λ x. feed_all a x.0 x.1)
continue f a r n k h b =
    bind-OnOk (Fits n) r _ _ h λ x y. k a x.0 x.1 y.0.0 (omega (arith, y.0.1, y.1))

step-feed_all :
    (f : ℕ) (a : Bool) (st : State) (c : ℕ) (input : Str)
    → ((g : ℕ) → g ≤ f → Refined g)
    → IsValid st
    → is_done st ≡ false
    → 4 * suc (length input) + 3 * depth st ≤ suc f
    → (step f a st (c ∷ input) >>= λ r. handle f a r.0 r.1) ≡ feed_all a st (c ∷ input)
unfolding step
step-feed_all zero a st c input k v h b = absurd (omega arith)
step-feed_all (suc f) a root c input k v h b =
    continue (suc f) a (root_data a (c ∷ input)) (length input) (k (suc f) (omega arith))
      (root_data-Fits a c input) (omega arith)
    ∙ root_data-feed_all a c input
step-feed_all (suc f) a (number kind sign n) c input k v h b =
    continue (suc f) a (number_data kind sign n (c ∷ input)) (length input)
      (k (suc f) (omega arith))
      (Fits-mono _ _ _ (omega arith) (number_data-Fits kind sign n (c ∷ input))) (omega arith)
    ∙ number_data-feed_all a kind sign n (c ∷ input)
step-feed_all (suc f) a (line success s) c input k v h b =
    rw (line_data-feed_all a success s (c ∷ input))
      (feed_all-handle (suc f) a (line success s) (c ∷ input))
step-feed_all (suc f) a (bulk n s) c input k v h b =
    rw (bulk_data-feed_all a n s (c ∷ input)) (feed_all-handle (suc f) a (bulk n s) (c ∷ input))
step-feed_all (suc f) a (short s vs) c input k v h b =
    rw (short_data-feed_all a s vs (c ∷ input)) (feed_all-handle (suc f) a (short s vs) (c ∷ input))
step-feed_all (suc f) a (array zero vs p) c input k v h b = absurd (omega (arith, v.0))
step-feed_all (suc f) a (array (suc n) vs p) c input k v h b =
    rw
      (array_data-feed_all f a n vs p (c ∷ input) (λ g l. k g (omega arith)) v.1 v.2
        (unfold depth in omega (arith, b)))
      (feed_all-handle (suc f) a (array (suc n) vs p) (c ∷ input))
step-feed_all (suc f) a (done w) c input k v h b = cc

handle-feed_all :
    (f : ℕ) (a : Bool) (st : State) (input : Str)
    → ((g : ℕ) → suc g ≤ f → Refined g)
    → IsValid st
    → 4 * length input + 3 * depth st ≤ f
    → handle f a st input ≡ feed_all a st input
handle-feed_all zero a st [] k v b =
    handle-Stopped zero a st [] (inr refl) ∙ sym (feed_all-empty a st)
handle-feed_all zero a st (c ∷ input) k v b = absurd (omega arith)
handle-feed_all (suc f) a st [] k v b =
    handle-Stopped (suc f) a st [] (inr refl) ∙ sym (feed_all-empty a st)
handle-feed_all (suc f) a st (c ∷ input) k v b = elim (is_done-cases st) [
  | inl live ↦
      handle-step f a st c input live
      ∙ step-feed_all f a st c input (λ g l. k g (omega arith)) v live b
  | inr (w, e) ↦ rw e (unfold handle feed_all in refl)
]

refined : (f g : ℕ) → g ≤ f → Refined g
refined zero g l a st input v b = handle-feed_all g a st input (λ i j. absurd (omega arith)) v b
refined (suc f) g l a st input v b =
    handle-feed_all g a st input (λ i j. refined f i (omega arith)) v b

-- `Parser::handleData` on a piece of any length, in a state whose arrays wait for at least one element,
-- does what the bytes of the piece do one by one until a value is complete: the same state, the same
-- bytes left, or the same exception. The fuel is enough.
pub handle_data-feed_all :
    (a : Bool) (st : State) (input : Str)
    → IsValid st
    → handle_data a st input ≡ feed_all a st input
unfolding handle_data
handle_data-feed_all a st input v =
    refined (4 * length input + 3 * depth st) (4 * length input + 3 * depth st) (omega arith) a st
      input v (omega arith)
