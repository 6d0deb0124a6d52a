-- ===== src/Net/Resp/ProtocolHandler/Bytes.antt =====
-- The loop of `handleData`, seen byte by byte.
use afl.Base.{ℕ, zero, suc, ◌≤◌, true, false, List, [], ◌∷◌, ◌≡◌, refl, inl, inr, length, arith}
use afl.Base.Str.{Str}
use afl.Except.{Result, ok, err, OnOk, Result-cases}
use afl.Resp.Parser.{State, root, line, number, bulk, array, short, done, Outcome}
use afl.Resp.Parser.Bytes.{
  feed, feed_all, feed_all-empty, feed_all-cons, feed_all-shorter, is_done, is_done-cases, IsValid,
}
use afl.Resp.Parser.Pieces.{feed-IsValid, feed_all-IsValid}
use afl.Resp.Parser.Refines.{handle_data-feed_all}
use afl.Net.Handler.{CommandHandler}
use afl.Net.Resp.ProtocolHandler.{take_value, data_loop}

module _ {S : Type 0} (ch : CommandHandler S) where
  -- What comes of a connection's bytes one at a time.
  unfoldable pub serve : State → List Str × S → Str → Result State × (List Str × S)
  serve st w [] = (ok st, w)
  serve st w (c ∷ input) = elim (feed true st c) [
    | err e ↦ (err e, w)
    | ok q ↦ serve (take_value ch q w).0 (take_value ch q w).1 input
  ]

  take_value-live :
      (st : State) (w : List Str × S) → is_done st ≡ false → take_value ch st w ≡ (st, w)
  unfolding take_value
  take_value-live root w h = refl
  take_value-live (line success s) w h = refl
  take_value-live (number kind sign v) w h = refl
  take_value-live (bulk n s) w h = refl
  take_value-live (array n vs p) w h = refl
  take_value-live (short s vs) w h = refl
  take_value-live (done v) w h = cc

  pub take_value-IsValid :
      (st : State) (w : List Str × S)
      → IsValid st
      → (is_done (take_value ch st w).0 ≡ false) × IsValid (take_value ch st w).0
  unfolding take_value
  take_value-IsValid root w h = (refl, h)
  take_value-IsValid (line success s) w h = (refl, h)
  take_value-IsValid (number kind sign v) w h = (refl, h)
  take_value-IsValid (bulk n s) w h = (refl, h)
  take_value-IsValid (array n vs p) w h = (refl, h)
  take_value-IsValid (short s vs) w h = (refl, h)
  take_value-IsValid (done v) w h = (refl, tt)

  -- The rest, after a call of the parser.
  abbrev pub serve_rest : List Str × S → Outcome → Result State × (List Str × S)
  serve_rest w (err e) = (err e, w)
  serve_rest w (ok (st, rest)) = serve (take_value ch st w).0 (take_value ch st w).1 rest

  pub serve-feed_all :
      (st : State) (w : List Str × S) (input : Str)
      → is_done st ≡ false
      → serve st w input ≡ serve_rest w (feed_all true st input)
  unfolding serve feed_all
  serve-feed_all st w [] live = rw (feed_all-empty true st) (rw (take_value-live st w live) refl)
  serve-feed_all st w (c ∷ input) live =
      rw (feed_all-cons true st c input live) (elim (Result-cases (feed true st c)) [
        | inr (e, f) ↦ rw (f, serve) refl
        | inl (q, f) ↦
            rw (f, serve)
              (elim (is_done-cases q) [
                | inl still ↦ rw (take_value-live q w still) (serve-feed_all q w input still)
                | inr (v, g) ↦ rw g refl
              ])
      ])

  pub data_loop-serve :
      (n : ℕ) (st : State) (w : List Str × S) (input : Str)
      → length input ≤ n
      → is_done st ≡ false
      → IsValid st
      → data_loop n ch st w input ≡ serve st w input
  unfolding data_loop serve
  data_loop-serve zero st w [] h live v = refl
  data_loop-serve zero st w (c ∷ input) h live v = elim h [ ]
  data_loop-serve (suc n) st w [] h live v = refl
  data_loop-serve (suc n) st w (c ∷ input) h live v =
      rw
        (
          data_loop,
          handle_data-feed_all true st (c ∷ input) v,
          serve-feed_all st w (c ∷ input) live,
        )
        (elim (Result-cases (feed_all true st (c ∷ input))) [
          | inr (e, f) ↦ rw (f, data_loop) refl
          | inl ((st', rest), f) ↦
              let used = rw f at (feed_all-shorter true st c input live) in
              let valid = rw f at (feed_all-IsValid true st (c ∷ input) v) in
              let next = take_value-IsValid st' w valid in
              rw (f, data_loop)
                (data_loop-serve n (take_value ch st' w).0 (take_value ch st' w).1 rest
                  (omega (arith, used.1)) next.0 next.1)
        ])

  pub serve-IsValid :
      (st : State) (w : List Str × S) (input : Str)
      → is_done st ≡ false
      → IsValid st
      → OnOk (λ q. (is_done q ≡ false) × IsValid q) (serve st w input).0
  unfolding serve
  serve-IsValid st w [] live v = (live, v)
  serve-IsValid st w (c ∷ input) live v = elim (Result-cases (feed true st c)) [
    | inr (e, f) ↦ rw (f, serve) tt
    | inl (q, f) ↦
        let next = take_value-IsValid q w (rw f at (feed-IsValid true st c v)) in
        rw (f, serve)
          (serve-IsValid (take_value ch q w).0 (take_value ch q w).1 input next.0 next.1)
  ]
