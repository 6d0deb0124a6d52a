-- ===== src/Io/InternalStream/Written.antt =====
-- What a write to an internal stream leaves, and that it reads back.
use afl.Base.{
  ℕ, zero, suc, ◌+◌, ◌-◌, ◌%◌, ◌^◌, ◌≤◌, ◌<◌, ◌≡◌, refl, sym, ap, ◌∙◌, true, false, [], ◌∷◌, ◌++◌,
  length, take, drop, length-append, length-take, length-drop, take_exact, drop_exact, drop_all,
  append-nil, arith, Bool-cases, inl, inr, ltb, ◌==◌,
}
use Prim.Native.Nat.{min}
use afl.Base.Str.{Str}
use afl.Except.{ok}
use afl.Io.InternalStream.{
  InternalStream, repeated, append_n, copy_at, fresh, ensure_size, filled_up, stored, write, read,
  subrange, set_pos,
}

never : {A : Type 0} → 1 ≤ 0 → A
never h = elim h [ ]

length-repeated : (n b : ℕ) → length (repeated n b) ≡ n
unfolding repeated
length-repeated zero b = refl
length-repeated (suc n) b = omega (arith, length-repeated n b)

-- Bytes that end before a position do not count behind it.
drop_short : (n : ℕ) (xs ys : Str) → length ys ≤ n - length xs → drop n (xs ++ ys) ≡ drop n xs
drop_short zero [] ys h = drop_all zero ys (omega arith)
drop_short zero (x ∷ xs) [] h = append-nil (x ∷ xs)
drop_short zero (x ∷ xs) (y ∷ ys) h = never (omega arith)
drop_short (suc n) [] ys h = drop_all (suc n) ys (omega arith)
drop_short (suc n) (x ∷ xs) ys h = drop_short n xs ys (omega arith)

drop_twice :
    (n k : ℕ) (xs ys : Str)
    → length ys ≤ n + k - length xs
    → drop k (drop n (xs ++ ys)) ≡ drop k (drop n xs)
drop_twice zero k xs ys h = drop_short k xs ys (omega arith)
drop_twice (suc n) k [] ys h =
    drop_all k (drop (suc n) ys) (omega (arith, length-drop (suc n) ys))
    ∙ sym (drop_all k [] (omega arith))
drop_twice (suc n) k (x ∷ xs) ys h = drop_twice n k xs ys (omega arith)

take_padded :
    (n : ℕ) (xs ps ys : Str)
    → length ps ≡ n - length xs
    → take n ((xs ++ ps) ++ ys) ≡ take n xs ++ ps
take_padded zero [] [] ys e = refl
take_padded zero [] (p ∷ ps) ys e = never (omega arith)
take_padded zero (x ∷ xs) [] ys e = refl
take_padded zero (x ∷ xs) (p ∷ ps) ys e = never (omega arith)
take_padded (suc n) [] ps ys e = take_exact (suc n) ps ys (omega arith)
take_padded (suc n) (x ∷ xs) ps ys e = ap (◌∷◌ x) (take_padded n xs ps ys (omega arith))

-- Copying into memory that is large enough replaces what stood there.
copy_at_lem :
    (n : ℕ) (s xs : Str)
    → n + length s ≤ length xs
    → copy_at n s xs ≡ take n xs ++ (s ++ drop (length s) (drop n xs))
unfolding copy_at
copy_at_lem zero [] xs h = refl
copy_at_lem zero (b ∷ s) [] h = never (omega arith)
copy_at_lem zero (b ∷ s) (x ∷ xs) h = ap (◌∷◌ b) (copy_at_lem zero s xs (omega arith))
copy_at_lem (suc n) s [] h = never (omega arith)
copy_at_lem (suc n) s (x ∷ xs) h = ap (◌∷◌ x) (copy_at_lem n s xs (omega arith))

-- A file's bytes after `s` was written at a position: what stood before it, zeros up to the position, the
-- bytes, and what stood behind them.
abbrev pub overwritten : ℕ → Str → Str → Str
overwritten pos s xs =
    (take pos xs ++ repeated (pos - length xs) 0) ++ (s ++ drop (length s) (drop pos xs))

filled_up_lem : (u : ℕ → ℕ) (n : ℕ) (xs : Str) → filled_up u n xs ≡ xs ++ repeated (n - length xs) 0
unfolding filled_up append_n repeated
filled_up_lem u n xs = elim (Bool-cases (ltb (length xs) n)) [
  | inl e ↦ rw e refl
  | inr e ↦ rw e (let z : n - length xs ≡ 0 = ground arith in rw z (sym (append-nil xs)))
]

module _ (u : ℕ → ℕ) where
  length-fresh : (at n : ℕ) → length (fresh u at n) ≡ n
  unfolding fresh
  length-fresh at zero = refl
  length-fresh at (suc n) = omega (arith, length-fresh (suc at) n)

  ensure_size_lem :
      (n : ℕ) (xs : Str) → ensure_size u n xs ≡ xs ++ fresh u (length xs) (n - length xs)
  unfolding ensure_size fresh
  ensure_size_lem n xs = elim (Bool-cases (ltb (length xs) n)) [
    | inl e ↦ rw e refl
    | inr e ↦ rw e (let z : n - length xs ≡ 0 = ground arith in rw z (sym (append-nil xs)))
  ]

  -- What new memory holds does not count: a write stores its bytes at the position and zeros before it.
  pub stored_lem :
      (s : Str) (st : InternalStream)
      → copy_at st.position s
          (ensure_size u (st.position + length s) (filled_up u st.position st.content))
        ≡ overwritten st.position s st.content
  stored_lem s st =
      let xs = st.content in
      let n = st.position in
      let ps = repeated (n - length xs) 0 in
      let fs = fresh u (length (xs ++ ps)) (n + length s - length (xs ++ ps)) in
      let lp : length ps ≡ n - length xs = length-repeated (n - length xs) 0 in
      let lf : length fs ≡ n + length s - length (xs ++ ps) =
        length-fresh (length (xs ++ ps)) (n + length s - length (xs ++ ps)) in
      let la : length (xs ++ ps) ≡ length xs + length ps = length-append xs ps in
      let lb : length ((xs ++ ps) ++ fs) ≡ length (xs ++ ps) + length fs =
        length-append (xs ++ ps) fs in
      rw (filled_up_lem u n xs) (
        rw (ensure_size_lem (n + length s) (xs ++ ps)) (
          copy_at_lem n s ((xs ++ ps) ++ fs) (omega arith)
          ∙ ap (λ t. t ++ (s ++ drop (length s) (drop n ((xs ++ ps) ++ fs))))
              (take_padded n xs ps fs lp)
          ∙ ap (λ t. (take n xs ++ ps) ++ (s ++ t))
              (drop_twice n (length s) (xs ++ ps) fs (omega arith)
                ∙ drop_twice n (length s) xs ps (omega arith))))

  -- Where there is room, a write stores all of its bytes.
  room :
      (s : Str) (st : InternalStream)
      → length (
          subrange st.position
            (length s)
            (ensure_size u (st.position + length s) (filled_up u st.position st.content)))
        ≡ length s
  unfolding subrange
  room s st =
      let xs = st.content in
      let n = st.position in
      let ps = repeated (n - length xs) 0 in
      let ys = xs ++ ps in
      let fs = fresh u (length ys) (n + length s - length ys) in
      let la : length ys ≡ length xs + length ps = length-append xs ps in
      let lf : length fs ≡ n + length s - length ys =
        length-fresh (length ys) (n + length s - length ys) in
      let lb : length (ys ++ fs) ≡ length ys + length fs = length-append ys fs in
      let ld : length (drop n (ys ++ fs)) ≡ length (ys ++ fs) - n = length-drop n (ys ++ fs) in
      let lt : length (take (length s) (drop n (ys ++ fs)))
          ≡ min (length s) (length (drop n (ys ++ fs))) =
        length-take (length s) (drop n (ys ++ fs)) in
      rw (filled_up_lem u n xs) (rw (ensure_size_lem (n + length s) ys) (omega arith))

  abbrev pub after_write : Str → InternalStream → InternalStream
  after_write s st = record {
    name = st.name;
    content = overwritten st.position s st.content;
    position = st.position + length s;
    allow_write = st.allow_write;
  }

  -- A write to a stream that may be written, up to a position that has 64 bits, writes all its bytes: the
  -- content before the position stays, zeros fill a gap before it, the bytes follow, then what stood behind
  -- them; the position moves behind them. What new memory held does not matter.
  pub write-overwritten :
      (s : Str) (st : InternalStream)
      → st.allow_write ≡ true
      → st.position + length s < 2 ^ 64
      → write u s st ≡ (ok (length s), after_write s st)
  unfolding write stored
  write-overwritten s st a h =
      let e : (st.position + length s) % 2 ^ 64 ≡ st.position + length s = omega arith in
      let f : ltb (st.position + length s) st.position ≡ false = ground arith in
      let m : min (length s) (length s) ≡ length s = omega arith in
      rw a (
        rw e (
          rw f (
            rw (room s st) (
              rw m (
                rw e (
                  ap
                    (λ t. (
                      ok (length s),
                      record {
                        name = st.name;
                        content = t;
                        position = st.position + length s;
                        allow_write = true;
                      },
                    ))
                    (stored_lem s st)))))))

  padded_length :
      (st : InternalStream)
      → length (take st.position st.content ++ repeated (st.position - length st.content) 0)
        ≡ st.position
  padded_length st =
      let ps = repeated (st.position - length st.content) 0 in
      let a = length-append (take st.position st.content) ps in
      let b = length-take st.position st.content in
      let c = length-repeated (st.position - length st.content) 0 in omega (arith, a, b, c)

  -- Where a stream may be written and the position behind the bytes has 64 bits, the bytes that were written are read back from where they were written, by
  -- a read of as many bytes.
  pub read-write :
      (s : Str) (st : InternalStream)
      → st.allow_write ≡ true
      → st.position + length s < 2 ^ 64
      → (read (length s) (set_pos st.position (write u s st).1).1).0 ≡ s
  unfolding read set_pos subrange
  read-write s st a h =
      let e : st.position % 2 ^ 64 ≡ st.position = omega arith in
      let d : (st.position == st.position) ≡ true = ground arith in
      let back =
        drop_exact st.position
          (take st.position st.content ++ repeated (st.position - length st.content) 0)
          (s ++ drop (length s) (drop st.position st.content)) (padded_length st) in
      rw (write-overwritten s st a h)
        (rw e (rw d (ap (take (length s)) back ∙ take_exact (length s) s _ refl)))
