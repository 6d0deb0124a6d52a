-- ===== src/Json/Ends.antt =====
-- The JSON parser ends on every text: its fuel, one more than there are bytes, is enough.
use afl.Base.{
  ℕ, zero, suc, ◌≤◌, ◌<◌, ◌≡◌, ◌≢◌, refl, Bool, true, false, Option, none, some, [], ◌∷◌, length,
  ◌==◌, if◌then◌else◌, arith, Bool-cases, inl, inr,
}
use afl.Base.Int.{ℤ}
use afl.Base.Str.{Str, bytes}
use afl.Except.{fault, file_format, Result, ok, err, ◌>>=◌}
use afl.Text.Number.{str_to_integer}
use afl.Data.Value.{Value, null, boolean, Items, nil, Fields, end, push_back}
use afl.Json.Parser.{
  skip_whitespace, is_number_byte, is_identifier_byte, number_text, after_number, Point, literal,
  Next, stop, invalid, continue, next, string_from, after_keyword, keyword, float_value,
  number_value, number, expect, separator, elements, members, array, object, value_of, value_at,
  parse_fuel, parse, Start, start, array_start, hash_start, string_start, null_start, true_start,
  false_start, number_start, no_start, set_field, syntax_failure,
}
use afl.Json.Scanned.{skip-length}

-- A result that leaves fewer than `k` bytes, or an exception of the parser's own.
abbrev pub Leaves : {A : Type 0} → ℕ → Result (A × Str) → Type 0
Leaves k (ok (a, t)) = length t < k
Leaves k (err e) = e ≢ fault

Leaves-bind :
    {A B : Type 0} (j k : ℕ) (r : Result (A × Str)) (f : A × Str → Result (B × Str))
    → Leaves k r
    → ((a : A) (t : Str) → length t < k → Leaves j (f (a, t)))
    → Leaves j (r >>= f)
Leaves-bind j k (ok (a, t)) f h g = g a t h
Leaves-bind j k (err e) f h g = h

Leaves-more : {A : Type 0} (j k : ℕ) (r : Result (A × Str)) → j ≤ k → Leaves j r → Leaves k r
Leaves-more j k (ok (a, t)) l h = omega arith
Leaves-more j k (err e) l h = h

either_way :
    {A : Type 0} (k : ℕ) (b : Bool) (r s : Result (A × Str))
    → Leaves k r
    → Leaves k s
    → Leaves k (if b then r else s)
either_way k true r s h g = h
either_way k false r s h g = g

-- Exceptions of the parser are no faults.
own_exception : (name msg : Str) → file_format name msg ≢ fault
own_exception name msg e = cc

after_number-length : (s : Str) → length (after_number s) ≤ length s
unfolding after_number
after_number-length [] = omega arith
after_number-length (c ∷ s) = ground (arith, after_number-length s)

start-number : (c : ℕ) → start c ≡ number_start → is_number_byte c ≡ true
unfolding start
start-number c e = ground arith

module _ (name : Str) (float : Str → Option Value) where
  next-Leaves :
      (p : Point) (value : Str) (c : ℕ) (s : Str)
      → ((q : Point) (value' : Str) → Leaves (suc (length s)) (string_from name float q value' s))
      → (x : Next) → next p value c ≡ x
      → Leaves (suc (length s)) (string_from name float p value (c ∷ s))
  unfolding string_from
  next-Leaves p value c s h stop e = rw (e, string_from) (omega arith)
  next-Leaves p value c s h invalid e = rw (e, string_from) (own_exception name _)
  next-Leaves p value c s h (continue q value') e = rw (e, string_from) (h q value')

  string_from-Leaves :
      (p : Point) (value s : Str) → Leaves (suc (length s)) (string_from name float p value s)
  unfolding string_from
  string_from-Leaves p value [] = own_exception name _
  string_from-Leaves p value (c ∷ s) =
      Leaves-more (suc (length s)) (suc (suc (length s))) (string_from name float p value (c ∷ s))
        (omega arith)
        (next-Leaves p value c s (λ q value'. string_from-Leaves q value' s) (next p value c) refl)

  after_keyword-Leaves :
      (v : Value) (s : Str) → Leaves (suc (length s)) (after_keyword name float v s)
  after_keyword-Leaves v [] = omega arith
  after_keyword-Leaves v (c ∷ s) =
      either_way _ (is_identifier_byte c) (err (syntax_failure name float)) (ok (v, c ∷ s))
        (own_exception name _) (omega arith)

  keyword-Leaves : (v : Value) (kw s : Str) → Leaves (suc (length s)) (keyword name float v kw s)
  unfolding keyword
  keyword-Leaves v [] s = after_keyword-Leaves v s
  keyword-Leaves v (k ∷ kw) [] = own_exception name _
  keyword-Leaves v (k ∷ kw) (c ∷ s) =
      either_way _ (c == k) (keyword name float v kw s) (err (syntax_failure name float))
        (Leaves-more (suc (length s)) (suc (suc (length s))) (keyword name float v kw s)
          (omega arith) (keyword-Leaves v kw s))
        (own_exception name _)

  -- A keyword takes its first byte.
  keyword-first :
      (v : Value) (k : ℕ) (kw : Str) (c : ℕ) (s : Str)
      → Leaves (suc (length s)) (keyword name float v (k ∷ kw) (c ∷ s))
  unfolding keyword
  keyword-first v k kw c s =
      either_way _ (c == k) (keyword name float v kw s) (err (syntax_failure name float))
        (keyword-Leaves v kw s) (own_exception name _)

  number-Leaves :
      (c : ℕ) (s : Str)
      → is_number_byte c ≡ true
      → Leaves (suc (length s)) (number name float (c ∷ s))
  unfolding number after_number
  number-Leaves c s h =
      rw h (value_end (number_text (c ∷ s)) (str_to_integer (number_text (c ∷ s))))
    where
      float_end :
          (o : Option Value) → Leaves (suc (length s)) (float_value name float (after_number s) o)
      float_end none = own_exception name _
      float_end (some v) = omega (arith, after_number-length s)

      value_end :
          (text : Str) (o : Option ℤ)
          → Leaves (suc (length s)) (number_value name float text (after_number s) o)
      value_end text (some n) = omega (arith, after_number-length s)
      value_end text none = float_end (float text)

  separator-Leaves : (last : ℕ) (s : Str) → Leaves (suc (length s)) (separator name float last s)
  separator-Leaves last [] = own_exception name _
  separator-Leaves last (c ∷ s) = either_way _ (c == b',') _ _ (omega arith) (
      either_way _ (c == last) (ok (false, s)) (err (syntax_failure name float)) (omega arith)
        (own_exception name _))

  expect-bind :
      {B : Type 0} (which : ℕ) (s : Str) (j : ℕ) (f : Str → Result (B × Str))
      → ((t : Str) → length t < length s → Leaves j (f t))
      → Leaves j (expect name float which s >>= f)
  expect-bind which [] j f h = own_exception name _
  expect-bind which (c ∷ s) j f h = elim (Bool-cases (c == which)) [
    | inl e ↦ rw e (h s (omega arith))
    | inr e ↦ rw e (own_exception name _)
  ]

  -- The parser that the loops are given, on texts of less than `m` bytes.
  module _ (parse : Str → Result (Value × Str)) (m : ℕ)
      (ends : (s : Str) → length s < m → Leaves (length s) (parse s)) where
    elements-Leaves :
        (n : ℕ) (vs : Items) (s : Str)
        → length s < n
        → length s < m
        → Leaves (length s) (elements name float parse n vs s)
    unfolding elements
    elements-Leaves zero vs s h k = absurd (omega arith)
    elements-Leaves (suc n) vs s h k =
        Leaves-bind (length s) (length s) (parse s) _ (ends s k) (λ v t b.
          Leaves-bind (length s) (suc (length (skip_whitespace t)))
            (separator name float b']' (skip_whitespace t)) _
            (separator-Leaves b']' (skip_whitespace t))
            (λ more u d.
              let l = skip-length t in
              either_way (length s) more _ _
                (Leaves-more (length u) (length s) _ (omega arith)
                  (elements-Leaves n (push_back vs v) u (omega arith) (omega arith)))
                (omega arith)))

    members-Leaves :
        (n : ℕ) (fs : Fields) (s : Str)
        → length s < n
        → length s < m
        → Leaves (length s) (members name float parse n fs s)
    unfolding members
    members-Leaves zero fs s h k = absurd (omega arith)
    members-Leaves (suc n) fs s h k = expect-bind 34 s (length s) _ (λ t b.
        Leaves-bind (length s) (suc (length t)) (string_from name float literal [] t) _
          (string_from-Leaves literal [] t)
          (λ key u d.
            let l1 = skip-length u in
            expect-bind b':' (skip_whitespace u) (length s) _ (λ x i.
              Leaves-bind (length s) (length x) (parse x) _ (ends x (omega arith)) (λ v y j.
                Leaves-bind (length s) (suc (length (skip_whitespace y)))
                  (separator name float b'}' (skip_whitespace y)) _
                  (separator-Leaves b'}' (skip_whitespace y))
                  (λ more z o.
                    let l2 = skip-length y in
                    let l3 = skip-length z in
                    either_way (length s) more _ _
                      (Leaves-more (length (skip_whitespace z)) (length s) _ (omega arith) (
                        members-Leaves n (set_field key v fs) (skip_whitespace z) (omega arith)
                          (omega arith)))
                      (omega arith))))))

    array-Leaves :
        (n : ℕ) (s : Str)
        → length s < n
        → length s < m
        → Leaves (suc (length s)) (array name float parse n s)
    unfolding array
    array-Leaves n [] h k = own_exception name _
    array-Leaves n (c ∷ s) h k = either_way _ (c == b']') _ _ (omega arith) (
        Leaves-bind _ _ (elements name float parse n nil (c ∷ s)) _
          (elements-Leaves n nil (c ∷ s) h k) (λ vs t b. omega arith))

    object-Leaves :
        (n : ℕ) (s : Str)
        → length s < n
        → length s < m
        → Leaves (suc (length s)) (object name float parse n s)
    unfolding object
    object-Leaves n [] h k = own_exception name _
    object-Leaves n (c ∷ s) h k = either_way _ (c == b'}') _ _ (omega arith) (
        Leaves-bind _ _ (members name float parse n end (c ∷ s)) _
          (members-Leaves n end (c ∷ s) h k) (λ fs t b. omega arith))

    value_of-Leaves :
        (n : ℕ) (k : Start) (c : ℕ) (s : Str)
        → length s < n
        → length s < m
        → start c ≡ k
        → Leaves (suc (length s)) (value_of name float parse n k c s)
    unfolding value_of
    value_of-Leaves n array_start c s h b e =
        let l = skip-length s in
        Leaves-more _ _ (array name float parse n (skip_whitespace s)) (omega arith)
          (array-Leaves n (skip_whitespace s) (omega arith) (omega arith))
    value_of-Leaves n hash_start c s h b e =
        let l = skip-length s in
        Leaves-more _ _ (object name float parse n (skip_whitespace s)) (omega arith)
          (object-Leaves n (skip_whitespace s) (omega arith) (omega arith))
    value_of-Leaves n string_start c s h b e =
        Leaves-bind _ _ (string_from name float literal [] s) _ (string_from-Leaves literal [] s)
          (λ v t d. d)
    value_of-Leaves n null_start c s h b e = keyword-first null b'n' (bytes "ull") c s
    value_of-Leaves n true_start c s h b e = keyword-first (boolean true) b't' (bytes "rue") c s
    value_of-Leaves n false_start c s h b e = keyword-first (boolean false) b'f' (bytes "alse") c s
    value_of-Leaves n number_start c s h b e = number-Leaves c s (start-number c e)
    value_of-Leaves n no_start c s h b e = own_exception name _

  value_at-Leaves :
      (n : ℕ) (s t : Str)
      → length t ≤ length s
      → length s < suc n
      → ((u : Str) → length u < n → Leaves (length u) (parse_fuel name float n u))
      → Leaves (length s) (value_at name float (parse_fuel name float n) n t)
  value_at-Leaves n s [] h b ih = own_exception name _
  value_at-Leaves n s (c ∷ t) h b ih =
      Leaves-more (suc (length t)) (length s)
        (value_of name float (parse_fuel name float n) n (start c) c t) h
        (value_of-Leaves (parse_fuel name float n) n ih n (start c) c t (omega arith) (omega arith)
          refl)

  parse_fuel-Leaves :
      (n : ℕ) (s : Str) → length s < n → Leaves (length s) (parse_fuel name float n s)
  unfolding parse_fuel
  parse_fuel-Leaves zero s h = absurd (omega arith)
  parse_fuel-Leaves (suc n) s h =
      value_at-Leaves n s (skip_whitespace s) (skip-length s) h (λ t b. parse_fuel-Leaves n t b)

  -- `parse` ends with a value, of which it has read at least a byte, or with an exception of its own: its loops
  -- and its recursion do not run out of fuel on any text.
  pub parse-Leaves : (s : Str) → Leaves (length s) (parse name float s)
  unfolding parse
  parse-Leaves s = parse_fuel-Leaves (suc (length s)) s (omega arith)
