-- ===== src/Json/Pieces.antt =====
-- What the parser makes of the texts of values, given what it makes of those inside.
use afl.Base.{
  ℕ, zero, suc, ◌<◌, ◌≡◌, refl, sym, ap, ◌∙◌, false, Option, [], ◌∷◌, ◌++◌, length, length-append,
  append_assoc, arith,
}
use afl.Base.Int.{ℤ, IsInt32}
use afl.Base.Str.{Str, bytes}
use afl.Except.{ok, ◌>>=◌}
use afl.Text.Number.{format_signed}
use afl.Data.Value.{Value, string, integer, vector, hash, Items, nil, Fields, end}
use afl.Json.Writer.{Writer, Layout, plain, opening, before, after, quoted, escape_all, visit}
use afl.Json.Parser.{
  skip_whitespace, is_whitespace, elements, members, array, object, value_of, parse_fuel, start,
  string_from, literal, after_keyword, number,
}
use afl.Json.Scanned.{IsDelimited, start-format_signed, number-format_signed, string-escape_all}
use afl.Json.Texts.{visit-Begins, bracket-append, behind_member, from_colon}
use afl.Json.Loops.{
  skip_token, parse_token, parse-skip, after_keyword_lem, elements-skip, array-elements,
  object-members,
}

-- A member's text is longer than the value's with what follows.
pub member-length :
    (k : Str) (v : Value) (fs : Fields) (w : Writer) (rest : Str)
    → let w3 = after (bytes ":") plain (after (quoted k) plain w) in
      let r = behind_member fs (visit v w3).1 rest in
      let t =
        before (quoted k) plain w
        ++ (34 ∷ (escape_all k ++ (34 ∷ from_colon v fs (after (quoted k) plain w) rest))) in
      (length ((visit v w3).0 ++ r) < length t) × (length r < length t)
member-length k v fs w rest =
    let w2 = after (quoted k) plain w in
    let w3 = after (bytes ":") plain w2 in
    let r = behind_member fs (visit v w3).1 rest in
    let l1 =
      length-append (before (quoted k) plain w)
        (34 ∷ (escape_all k ++ (34 ∷ from_colon v fs w2 rest))) in
    let l2 = length-append (escape_all k) (34 ∷ from_colon v fs w2 rest) in
    let l3 = length-append (before (bytes ":") plain w2 ++ bytes ":") ((visit v w3).0 ++ r) in
    let l4 = length-append (visit v w3).0 r in
    (omega (arith, l1, l2, l3), omega (arith, l1, l2, l3, l4))

module _ (name : Str) (float : Str → Option Value) where
  pub parse-plain :
      (n : ℕ) (x rest : Str) (w : Writer) (c : ℕ) (t : Str)
      → x ≡ c ∷ t
      → is_whitespace c ≡ false
      → parse_fuel name float (suc n) ((before x plain w ++ x) ++ rest)
        ≡ value_of name float (parse_fuel name float n) n (start c) c (t ++ rest)
  parse-plain n x rest w c t e h =
      ap (parse_fuel name float (suc n))
        (append_assoc (before x plain w) x rest ∙ ap (λ u. before x plain w ++ (u ++ rest)) e)
      ∙ parse_token name float n x plain w c (t ++ rest) h

  pub parse-vector :
      (n : ℕ) (vs : Items) (w : Writer) (more : Str) (us : Items) (rest : Str)
      → array name float (parse_fuel name float n) n (skip_whitespace (more ++ rest))
        ≡ ok (vector us, rest)
      → parse_fuel name float
          (suc n)
          (((before (bytes "[") opening w ++ bytes "[") ++ more) ++ rest)
        ≡ ok (vector us, rest)
  unfolding value_of start
  parse-vector n vs w more us rest e =
      ap (parse_fuel name float (suc n)) (bracket-append (bytes "[") opening w more rest)
      ∙ parse_token name float n (bytes "[") opening w b'[' (more ++ rest) refl
      ∙ e

  pub parse-hash :
      (n : ℕ) (w : Writer) (more : Str) (fs : Fields) (rest : Str)
      → object name float (parse_fuel name float n) n (skip_whitespace (more ++ rest))
        ≡ ok (hash fs, rest)
      → parse_fuel name float
          (suc n)
          (((before (bytes "{") opening w ++ bytes "{") ++ more) ++ rest)
        ≡ ok (hash fs, rest)
  unfolding value_of start
  parse-hash n w more fs rest e =
      ap (parse_fuel name float (suc n)) (bracket-append (bytes "{") opening w more rest)
      ∙ parse_token name float n (bytes "{") opening w b'{' (more ++ rest) refl
      ∙ e

  pub parse-string :
      (n : ℕ) (s : Str) (w : Writer) (rest : Str)
      → parse_fuel name float (suc n) ((before (quoted s) plain w ++ quoted s) ++ rest)
        ≡ ok (string s, rest)
  unfolding quoted value_of start
  parse-string n s w rest =
      parse-plain n (quoted s) rest w 34 _ refl refl
      ∙ ap (λ t. string_from name float literal [] t >>= λ (r : Str × Str). ok (string r.0, r.1))
          (append_assoc (escape_all s) (34 ∷ []) rest)
      ∙ ap (λ r. r >>= λ (r : Str × Str). ok (string r.0, r.1))
          (string-escape_all name float [] s rest)

  pub parse-integer :
      (n : ℕ) (k : ℤ) (w : Writer) (rest : Str)
      → IsInt32 k
      → IsDelimited rest
      → parse_fuel name float
          (suc n)
          ((before (format_signed k) plain w ++ format_signed k) ++ rest)
        ≡ ok (integer k, rest)
  unfolding value_of
  parse-integer n k w rest h d =
      let (c, s, e, b, i, j) = start-format_signed k in
      parse-plain n (format_signed k) rest w c s e i
      ∙ rw b (
          ap (λ t. number name float (t ++ rest)) (sym e)
          ∙ number-format_signed name float k rest h d)

  pub parse-keyword :
      (n : ℕ) (x rest : Str) (w : Writer) (c : ℕ) (t : Str) (v : Value)
      → x ≡ c ∷ t
      → is_whitespace c ≡ false
      → value_of name float (parse_fuel name float n) n (start c) c (t ++ rest)
        ≡ after_keyword name float v rest
      → IsDelimited rest
      → parse_fuel name float (suc n) ((before x plain w ++ x) ++ rest) ≡ ok (v, rest)
  parse-keyword n x rest w c t v e h k d =
      parse-plain n x rest w c t e h ∙ k ∙ after_keyword_lem name float v rest d

  -- What is left for the text behind a bracket.
  pub fits :
      (x : Str) (l : Layout) (w : Writer) (c : ℕ) (more rest : Str) (n : ℕ)
      → length (((before x l w ++ (c ∷ [])) ++ more) ++ rest) < suc n
      → length (more ++ rest) < n
  fits x l w c more rest n h =
      let l1 = length-append ((before x l w ++ (c ∷ [])) ++ more) rest in
      let l2 = length-append (before x l w ++ (c ∷ [])) more in
      let l3 = length-append (before x l w) (c ∷ []) in
      let l4 = length-append more rest in omega (arith, l1, l2, l3, l4, h)

  pub array-empty :
      (n : ℕ) (s rest : Str)
      → skip_whitespace s ≡ b']' ∷ rest
      → array name float (parse_fuel name float n) n (skip_whitespace s) ≡ ok (vector nil, rest)
  unfolding array
  array-empty n s rest e = rw e refl

  pub object-empty :
      (n : ℕ) (s rest : Str)
      → skip_whitespace s ≡ b'}' ∷ rest
      → object name float (parse_fuel name float n) n (skip_whitespace s) ≡ ok (hash end, rest)
  unfolding object
  object-empty n s rest e = rw e refl

  -- An array that begins with a value.
  pub array-visit :
      (n : ℕ) (v : Value) (w : Writer) (r s : Str) (us : Items) (rest : Str)
      → s ≡ (visit v w).0 ++ r
      → elements name float (parse_fuel name float n) n nil ((visit v w).0 ++ r) ≡ ok (us, rest)
      → array name float (parse_fuel name float n) n (skip_whitespace s) ≡ ok (vector us, rest)
  unfolding elements
  array-visit zero v w r s us rest e p = cc
  array-visit (suc n) v w r s us rest e p =
      let (x, l, c, t, b, i, j) = visit-Begins v w r in
      let k : skip_whitespace ((visit v w).0 ++ r) ≡ c ∷ t =
        ap skip_whitespace b ∙ skip_token x l w c t i in
      ap (λ u. array name float (parse_fuel name float (suc n)) (suc n) (skip_whitespace u)) e
      ∙ ap (array name float (parse_fuel name float (suc n)) (suc n)) k
      ∙ array-elements name float (parse_fuel name float (suc n)) (suc n) c t us rest j (
          ap (elements name float (parse_fuel name float (suc n)) (suc n) nil) (sym k)
          ∙ elements-skip name float (parse_fuel name float (suc n)) (suc n) nil
              ((visit v w).0 ++ r) (parse-skip name float n ((visit v w).0 ++ r))
          ∙ p)

  pub object-visit :
      (n : ℕ) (x : Str) (w : Writer) (s t : Str) (fs : Fields) (rest : Str)
      → s ≡ before x plain w ++ (34 ∷ t)
      → members name float (parse_fuel name float n) n end (34 ∷ t) ≡ ok (fs, rest)
      → object name float (parse_fuel name float n) n (skip_whitespace s) ≡ ok (hash fs, rest)
  object-visit n x w s t fs rest e p =
      ap (object name float (parse_fuel name float n) n)
        (ap skip_whitespace e ∙ skip_token x plain w 34 t refl)
      ∙ object-members name float (parse_fuel name float n) n t fs rest p
