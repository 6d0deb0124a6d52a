-- ===== src/Io/Limited/Position.antt =====
-- The position of a limited stream stays within its limit.
use afl.Base.{
  ℕ, ◌+◌, ◌-◌, ◌^◌, ◌≤◌, ◌<◌, ◌≡◌, Bool, true, false, not, ◌&&◌, ltb, length, take, length-take,
  arith, Bool-cases, inl, inr, if◌then◌else◌,
}
use afl.Base.Str.{Str}
use afl.Except.{Exception, Result, ok, err, OnOk}
use afl.Io.Limited.{
  Parent, IsBounded, Limited, has_length, has_position, with_parent, trimmed, set_pos, moved, fixed,
  fixup_position, rethrow, after_read, read, after_write, write, sub64, open_part,
}

-- Where there is a limit, the position does not lie behind it.
abbrev pub IsWithin : {P : Type 0} → Limited P → Type 0
IsWithin st = (st.limit < 2 ^ 64) × (has_length st ≡ true → st.position ≤ st.limit)

module _ {P : Type 0} (S : Parent P) where
  moved-IsWithin :
      (st : Limited P) (pos : ℕ) (r : Result (Unit {0}) × P)
      → (has_length st ≡ true → pos ≤ st.limit)
      → IsWithin st
      → IsWithin (moved S st pos r).1
  moved-IsWithin st pos (ok u, p) b w = (w.0, λ h. omega (arith, b h))
  moved-IsWithin st pos (err e, p) b w = w

  either_way :
      (b : Bool) (x y : Result (Unit {0}) × Limited P)
      → IsWithin x.1
      → IsWithin y.1
      → IsWithin (if b then x else y).1
  either_way true x y v w = v
  either_way false x y v w = w

  -- What a refused limit test says.
  inside :
      (st : Limited P) (pos : ℕ)
      → (has_length st && ltb st.limit pos) ≡ false
      → has_length st ≡ true
      → pos ≤ st.limit
  inside st pos e h = ground (arith, h)

  set_pos-IsWithin : (pos : ℕ) (st : Limited P) → IsWithin st → IsWithin (set_pos S pos st).1
  unfolding set_pos
  set_pos-IsWithin pos st w = elim (Bool-cases (not (has_position st))) [
    | inl e ↦ rw e w
    | inr e ↦ rw e (elim (Bool-cases (has_length st && ltb st.limit pos)) [
      | inl f ↦ rw f w
      | inr f ↦ rw f (moved-IsWithin st pos _ (inside st pos f) w)
    ])
  ]

  fixed-IsWithin : (st : Limited P) (r : Result ℕ × P) → IsWithin st → IsWithin (fixed S st r).1
  fixed-IsWithin st (err e, p) w = w
  fixed-IsWithin st (ok pos, p) w = elim (Bool-cases (ltb pos st.origin)) [
    | inl e ↦ rw e (set_pos-IsWithin 0 (with_parent st p) w)
    | inr e ↦ rw e (elim (Bool-cases (ltb st.limit (sub64 pos st.origin))) [
      | inl f ↦ rw f (set_pos-IsWithin st.limit (with_parent st p) w)
      | inr f ↦ rw f (w.0, λ h. ground arith)
    ])
  ]

  fixup_position-IsWithin :
      (n : ℕ) (st : Limited P)
      → (has_length st ≡ true → st.position + n ≤ st.limit)
      → IsWithin st
      → IsWithin (fixup_position S n st).1
  unfolding fixup_position
  fixup_position-IsWithin n st b w = elim (Bool-cases (not (has_length st))) [
    | inl e ↦ rw e w
    | inr e ↦ rw e (elim (Bool-cases (has_position st)) [
      | inl f ↦ rw f (fixed-IsWithin st (S.get_pos st.parent) w)
      | inr f ↦ rw f (w.0, λ h. omega (arith, b h))
    ])
  ]

  rethrow-IsWithin :
      (A : Type 0) (e : Exception) (r : Result (Unit {0}) × Limited P)
      → IsWithin r.1
      → IsWithin (rethrow S {A = A} e r).1
  rethrow-IsWithin A e (ok u, st) w = w
  rethrow-IsWithin A e (err f, st) w = w

  trimmed-fits :
      (st : Limited P) (n : ℕ)
      → IsWithin st
      → has_length st ≡ true
      → st.position + trimmed st n ≤ st.limit
  trimmed-fits st n w h =
      let l = w.0 in
      let b = w.1 h in
      let e : sub64 st.limit st.position ≡ st.limit - st.position = omega arith in
      rw (h, e) (ground (arith, b))

  after_read-IsWithin :
      (st : Limited P) (n : ℕ) (r : Result Str × P)
      → (has_length st ≡ true → st.position + n ≤ st.limit)
      → OnOk (λ s. length s ≤ n) r.0
      → IsWithin st
      → IsWithin (after_read S st n r).1
  after_read-IsWithin st n (ok s, p) b k w = (w.0, λ h. omega (arith, b h))
  after_read-IsWithin st n (err e, p) b k w =
      rethrow-IsWithin _ e _ (fixup_position-IsWithin n (with_parent st p) b w)

  after_write-IsWithin :
      (st : Limited P) (n : ℕ) (r : Result ℕ × P)
      → (has_length st ≡ true → st.position + n ≤ st.limit)
      → OnOk (λ k. k ≤ n) r.0
      → IsWithin st
      → IsWithin (after_write S st n r).1
  after_write-IsWithin st n (ok s, p) b k w = (w.0, λ h. omega (arith, b h))
  after_write-IsWithin st n (err e, p) b k w =
      rethrow-IsWithin _ e _ (fixup_position-IsWithin n (with_parent st p) b w)

  module _ (bounded : IsBounded S) where
    read-IsWithin : (n : ℕ) (st : Limited P) → IsWithin st → IsWithin (read S n st).1
    unfolding read
    read-IsWithin n st w =
        after_read-IsWithin st (trimmed st n) (S.read (trimmed st n) st.parent)
          (trimmed-fits st n w) (bounded.read_bound (trimmed st n) st.parent) w

    write-IsWithin : (s : Str) (st : Limited P) → IsWithin st → IsWithin (write S s st).1
    unfolding write
    write-IsWithin s st w =
        let part = take (trimmed st (length s)) s in
        after_write-IsWithin st (length part) (S.write part st.parent)
          (λ h.
            omega (arith, trimmed-fits st (length s) w h, length-take (trimmed st (length s)) s))
          (bounded.write_bound part st.parent) w

    open_part-IsWithin :
        (p : P) (origin limit : ℕ) → limit < 2 ^ 64 → IsWithin (open_part S p origin limit).1
    unfolding open_part
    open_part-IsWithin p origin limit l =
        let st : Limited P = record { parent = p; origin = origin; limit = limit; position = 0 } in
        either_way (has_position st) _ _ (set_pos-IsWithin 0 st (l, λ h. omega arith))
          (l, λ h. omega arith)

    -- On a parent that processes at most the bytes it is given, and with a limit of 64 bits: a limited
    -- stream starts with its position inside its limit, and every read, write and change of the
    -- position keeps it there, also where the parent fails and the position is taken from the parent
    -- or estimated.
    pub position-IsWithin :
        (p : P) (origin limit n pos : ℕ) (s : Str) (st : Limited P)
        → limit < 2 ^ 64
        → IsWithin st
        → IsWithin (open_part S p origin limit).1
          × IsWithin (read S n st).1
          × IsWithin (write S s st).1
          × IsWithin (set_pos S pos st).1
    position-IsWithin p origin limit n pos s st l w = (
      open_part-IsWithin p origin limit l,
      read-IsWithin n st w,
      write-IsWithin s st w,
      set_pos-IsWithin pos st w,
    )
