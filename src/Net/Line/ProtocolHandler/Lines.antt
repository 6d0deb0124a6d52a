-- ===== src/Net/Line/ProtocolHandler/Lines.antt =====
-- The lines that arrive, however the data are cut into pieces.
use afl.Base.{
  ℕ, zero, suc, ◌≤◌, ◌≡◌, refl, sym, ap, ◌∙◌, Bool, true, false, Option, none, List, [], ◌∷◌, ◌++◌,
  length, ◌==◌, if◌then◌else◌, All, append_assoc, append-nil, arith, Bool-cases, inl, inr,
}
use afl.Base.Str.{Str}
use afl.Net.Line.ProtocolHandler.{
  LineHandler, Connection, line_front, line_rest, without_cr, answered, with_input, process_line,
  handle_loop, handle_data, loop_rest, content, add_line, add_lines,
}

abbrev line_text : List Str → Str
line_text [] = []
line_text (l ∷ ls) = l ++ (13 ∷ 10 ∷ line_text ls)

add_lines-line_text :
    (out : Option Str) (ls : List Str) → content (add_lines out ls) ≡ content out ++ line_text ls
unfolding add_lines add_line
add_lines-line_text out [] = sym (append-nil (content out))
add_lines-line_text out (l ∷ ls) =
    add_lines-line_text (add_line out l) ls
    ∙ append_assoc (content out) (l ++ 13 ∷ 10 ∷ []) (line_text ls)
    ∙ ap (◌++◌ (content out)) (append_assoc l (13 ∷ 10 ∷ []) (line_text ls))

without_cr-append : (l : Str) → without_cr (l ++ 13 ∷ []) ≡ l
unfolding without_cr
without_cr-append [] = refl
without_cr-append (c ∷ []) = refl
without_cr-append (c ∷ d ∷ l) = ap (◌∷◌ c) (without_cr-append (d ∷ l))

line_rest-length : (s : Str) → length (line_rest s) ≤ length s
unfolding line_rest
line_rest-length [] = omega arith
line_rest-length (c ∷ s) = ground (arith, line_rest-length s)

module _ {H : Type 0} (L : LineHandler H) where
  -- The same byte by byte.
  abbrev byte : ℕ → Connection H → Connection H
  byte b c = if b == 10 then process_line L c else with_input L (c.input ++ b ∷ []) c

  feed : Connection H → Str → Connection H
  feed c [] = c
  feed c (b ∷ s) = let rest = feed (byte b c) s in if c.close_requested then c else rest

  feed-closed : (c : Connection H) (s : Str) → c.close_requested ≡ true → feed c s ≡ c
  unfolding feed
  feed-closed c [] e = refl
  feed-closed c (b ∷ s) e = rw e refl

  choose : {b : Bool} (c d : Connection H) → b ≡ false → (if b then c else d) ≡ d
  choose c d e = ap (λ b. if b then c else d) e

  feed-open :
      (c : Connection H) (b : ℕ) (s : Str)
      → c.close_requested ≡ false
      → feed c (b ∷ s) ≡ feed (byte b c) s
  unfolding feed
  feed-open c b s e = choose c (feed (byte b c) s) e

  feed-append : (c : Connection H) (s t : Str) → feed c (s ++ t) ≡ feed (feed c s) t
  unfolding feed
  feed-append c [] t = refl
  feed-append c (b ∷ s) t = elim (Bool-cases c.close_requested) [
    | inl e ↦
        feed-closed c ((b ∷ s) ++ t) e
        ∙ sym (ap (λ d. feed d t) (feed-closed c (b ∷ s) e) ∙ feed-closed c t e)
    | inr e ↦
        feed-open c b (s ++ t) e
        ∙ feed-append (byte b c) s t
        ∙ ap (λ d. feed d t) (sym (feed-open c b s e))
  ]

  -- What the loop does with the line feed that it looks at.
  abbrev at_rest : Connection H → Str → Connection H
  at_rest c [] = c
  at_rest c (x ∷ rest) = feed (process_line L c) rest

  feed-line :
      (c : Connection H) (s : Str)
      → c.close_requested ≡ false
      → feed c s ≡ at_rest (with_input L (c.input ++ line_front s) c) (line_rest s)
  unfolding feed line_front line_rest
  feed-line c [] e = ap (λ i. with_input L i c) (sym (append-nil c.input))
  feed-line c (b ∷ s) e = elim (Bool-cases (b == 10)) [
    | inl n ↦
        feed-open c b s e
        ∙ rw n (ap (λ i. feed (process_line L (with_input L i c)) s) (sym (append-nil c.input)))
    | inr n ↦
        feed-open c b s e
        ∙ rw n (
            feed-line (with_input L (c.input ++ b ∷ []) c) s e
            ∙ ap (λ i. at_rest (with_input L i c) (line_rest s))
                (append_assoc c.input (b ∷ []) (line_front s)))
  ]

  loop_rest-feed :
      (next : Connection H → Str → Connection H) (n : ℕ) (c : Connection H) (r : Str)
      → ((d : Connection H) (s : Str) → length s ≤ n → next d s ≡ feed d s)
      → length r ≤ suc n
      → loop_rest L next c r ≡ at_rest c r
  loop_rest-feed next n c [] ih h = refl
  loop_rest-feed next n c (b ∷ s) ih h = ih (process_line L c) s (omega arith)

  handle_loop-feed :
      (fuel : ℕ) (c : Connection H) (s : Str) → length s ≤ fuel → handle_loop L fuel c s ≡ feed c s
  unfolding handle_loop feed
  handle_loop-feed zero c [] h = refl
  handle_loop-feed zero c (b ∷ s) h = elim h [ ]
  handle_loop-feed (suc fuel) c [] h = refl
  handle_loop-feed (suc fuel) c (b ∷ s) h =
      let d = with_input L (c.input ++ line_front (b ∷ s)) c in
      let r = loop_rest L (handle_loop L fuel) d (line_rest (b ∷ s)) in
      elim (Bool-cases c.close_requested) [
        | inl e ↦ ap (λ x. if x then c else r) e ∙ sym (feed-closed c (b ∷ s) e)
        | inr e ↦
            choose c r e
            ∙ loop_rest-feed (handle_loop L fuel) fuel d (line_rest (b ∷ s))
                (λ d s k. handle_loop-feed fuel d s k) (omega (arith, line_rest-length (b ∷ s)))
            ∙ sym (feed-line c (b ∷ s) e)
      ]

  -- It does not matter where the data are cut into pieces.
  pub handle_data-append :
      (c : Connection H) (s t : Str)
      → handle_data L c (s ++ t) ≡ handle_data L (handle_data L c s) t
  unfolding handle_data
  handle_data-append c s t =
      handle_loop-feed (length (s ++ t)) c (s ++ t) (omega arith)
      ∙ feed-append c s t
      ∙ sym (
          handle_loop-feed (length t) (handle_loop L (length s) c s) t (omega arith)
          ∙ ap (λ d. feed d t) (handle_loop-feed (length s) c s (omega arith)))

  -- The handler gets a line, unless the conversation has ended.
  abbrev pub deliver : Connection H → List Str → Connection H
  deliver c [] = c
  deliver c (l ∷ ls) =
      if c.close_requested
      then c
      else deliver (with_input L [] (answered L (L.handle_line l c.line_handler) c)) ls

  other_byte :
      (c : Connection H) (b : ℕ) → (b == 10) ≡ false → byte b c ≡ with_input L (c.input ++ b ∷ []) c
  other_byte c b e = rw e refl

  feed-bytes :
      (c : Connection H) (l s : Str)
      → c.close_requested ≡ false
      → All (λ b. (b == 10) ≡ false) l
      → feed c (l ++ s) ≡ feed (with_input L (c.input ++ l) c) s
  feed-bytes c [] s e h = ap (λ i. feed (with_input L i c) s) (sym (append-nil c.input))
  feed-bytes c (b ∷ l) s e h =
      feed-open c b (l ++ s) e
      ∙ ap (λ d. feed d (l ++ s)) (other_byte c b h.0)
      ∙ feed-bytes (with_input L (c.input ++ b ∷ []) c) l s e h.1
      ∙ ap (λ i. feed (with_input L i c) s) (append_assoc c.input (b ∷ []) l)

  feed-line_end :
      (c : Connection H) (l s : Str)
      → c.input ≡ []
      → c.close_requested ≡ false
      → feed (with_input L (c.input ++ l) c) (13 ∷ 10 ∷ s)
        ≡ feed (with_input L [] (answered L (L.handle_line l c.line_handler) c)) s
  unfolding process_line
  feed-line_end c l s i e =
      let d = with_input L (c.input ++ l) c in
      feed-open d 13 (10 ∷ s) e
      ∙ feed-open (with_input L ((c.input ++ l) ++ 13 ∷ []) c) 10 s e
      ∙ ap (λ x. feed (with_input L [] (answered L (L.handle_line x c.line_handler) c)) s)
          (ap (λ x. without_cr ((x ++ l) ++ 13 ∷ [])) i ∙ without_cr-append l)

  feed-text :
      (c : Connection H) (ls : List Str)
      → c.input ≡ []
      → All (λ l. All (λ b. (b == 10) ≡ false) l) ls
      → feed c (line_text ls) ≡ deliver c ls
  feed-text c [] i h = unfold feed in refl
  feed-text c (l ∷ ls) i h = elim (Bool-cases c.close_requested) [
    | inl e ↦ feed-closed c (line_text (l ∷ ls)) e ∙ rw e refl
    | inr e ↦
        feed-bytes c l (13 ∷ 10 ∷ line_text ls) e h.0
        ∙ feed-line_end c l (line_text ls) i e
        ∙ feed-text (with_input L [] (answered L (L.handle_line l c.line_handler) c)) ls refl h.1
        ∙ sym (choose c _ e)
  ]

  -- The lines that one side gave to its sink reach the handler of the other side, one after another, until it
  -- ends the conversation, where no part of a line was waiting and no line has a line feed inside; a line may
  -- itself end in a carriage return.
  pub handle_data-add_lines :
      (c : Connection H) (ls : List Str)
      → c.input ≡ []
      → All (λ l. All (λ b. (b == 10) ≡ false) l) ls
      → handle_data L c (content (add_lines none ls)) ≡ deliver c ls
  unfolding handle_data
  handle_data-add_lines c ls i h =
      ap (handle_data L c) (add_lines-line_text none ls)
      ∙ handle_loop-feed (length (line_text ls)) c (line_text ls) (omega arith)
      ∙ feed-text c ls i h
