-- ===== src/Json/Loops.antt =====
-- One round of the parser's loops, and its first step, where the text is known.
use afl.Base.{ℕ, zero, suc, ◌≡◌, refl, ◌∙◌, false, Option, [], ◌∷◌, ◌++◌, ◌==◌}
use afl.Base.Str.{Str}
use afl.Except.{Result, ok}
use afl.Data.Value.{Value, vector, hash, Items, nil, Fields, end, push_back}
use afl.Json.Writer.{Writer, Layout, before, escape_all}
use afl.Json.Parser.{
  skip_whitespace, is_whitespace, after_keyword, elements, members, array, object, value_of,
  parse_fuel, start, set_field,
}
use afl.Json.Scanned.{skip-before, skip_idem, string-escape_all, IsDelimited}

-- A token is what is left of a text without the white space in front.
pub skip_token :
    (x : Str) (l : Layout) (w : Writer) (c : ℕ) (s : Str)
    → is_whitespace c ≡ false
    → skip_whitespace (before x l w ++ (c ∷ s)) ≡ c ∷ s
skip_token x l w c s h = skip-before x l w (c ∷ s) ∙ unfold skip_whitespace in rw h refl

module _ (name : Str) (float : Str → Option Value) where
  pub parse_token :
      (n : ℕ) (x : Str) (l : Layout) (w : Writer) (c : ℕ) (s : Str)
      → is_whitespace c ≡ false
      → parse_fuel name float (suc n) (before x l w ++ (c ∷ s))
        ≡ value_of name float (parse_fuel name float n) n (start c) c s
  unfolding parse_fuel
  parse_token n x l w c s h = rw (skip_token x l w c s h) refl

  pub parse-skip :
      (n : ℕ) (s : Str)
      → parse_fuel name float (suc n) (skip_whitespace s) ≡ parse_fuel name float (suc n) s
  unfolding parse_fuel
  parse-skip n s = rw (skip_idem s) refl

  pub after_keyword_lem :
      (v : Value) (s : Str) → IsDelimited s → after_keyword name float v s ≡ ok (v, s)
  after_keyword_lem v [] d = refl
  after_keyword_lem v (c ∷ s) d = rw d.1 refl

  module _ (parse : Str → Result (Value × Str)) where
    pub elements-last :
        (n : ℕ) (vs : Items) (v : Value) (s t u : Str)
        → parse s ≡ ok (v, t)
        → skip_whitespace t ≡ b']' ∷ u
        → elements name float parse (suc n) vs s ≡ ok (push_back vs v, u)
    unfolding elements
    elements-last n vs v s t u p e = rw (p, e) refl

    pub elements-more :
        (n : ℕ) (vs : Items) (v : Value) (s t u : Str)
        → parse s ≡ ok (v, t)
        → skip_whitespace t ≡ b',' ∷ u
        → elements name float parse (suc n) vs s ≡ elements name float parse n (push_back vs v) u
    unfolding elements
    elements-more n vs v s t u p e = rw (p, e) refl

    pub elements-skip :
        (n : ℕ) (vs : Items) (s : Str)
        → parse (skip_whitespace s) ≡ parse s
        → elements name float parse n vs (skip_whitespace s) ≡ elements name float parse n vs s
    unfolding elements
    elements-skip zero vs s e = refl
    elements-skip (suc n) vs s e = rw e refl

    pub members-last :
        (n : ℕ) (fs : Fields) (k : Str) (v : Value) (s x t u : Str)
        → skip_whitespace s ≡ b':' ∷ x
        → parse x ≡ ok (v, t)
        → skip_whitespace t ≡ b'}' ∷ u
        → members name float parse (suc n) fs (34 ∷ (escape_all k ++ (34 ∷ s)))
          ≡ ok (set_field k v fs, u)
    unfolding members
    members-last n fs k v s x t u c p e = rw (string-escape_all name float [] k s, c, p, e) refl

    pub members-more :
        (n : ℕ) (fs : Fields) (k : Str) (v : Value) (s x t u : Str)
        → skip_whitespace s ≡ b':' ∷ x
        → parse x ≡ ok (v, t)
        → skip_whitespace t ≡ b',' ∷ u
        → members name float parse (suc n) fs (34 ∷ (escape_all k ++ (34 ∷ s)))
          ≡ members name float parse n (set_field k v fs) (skip_whitespace u)
    unfolding members
    members-more n fs k v s x t u c p e = rw (string-escape_all name float [] k s, c, p, e) refl

    pub array-elements :
        (n c : ℕ) (s : Str) (vs : Items) (t : Str)
        → (c == b']') ≡ false
        → elements name float parse n nil (c ∷ s) ≡ ok (vs, t)
        → array name float parse n (c ∷ s) ≡ ok (vector vs, t)
    unfolding array
    array-elements n c s vs t h e = rw (h, e) refl

    pub object-members :
        (n : ℕ) (s : Str) (fs : Fields) (t : Str)
        → members name float parse n end (34 ∷ s) ≡ ok (fs, t)
        → object name float parse n (34 ∷ s) ≡ ok (hash fs, t)
    unfolding object
    object-members n s fs t e = rw e refl
