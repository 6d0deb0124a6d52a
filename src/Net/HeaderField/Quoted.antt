-- ===== src/Net/HeaderField/Quoted.antt =====
-- Named values that were put in quotes are read back.
use afl.Base.{
  ℕ, zero, suc, ◌+◌, ◌≤◌, ◌≡◌, refl, ap, ◌∙◌, true, false, some, List, [], ◌∷◌, ◌++◌, if◌then◌else◌,
  length, take, drop, All, arith, append-nil, length-append, take_exact,
}
use afl.Base.Str.{Str}
use afl.Text.Char.{char_is_space}
use afl.Text.String.{str_trim}
use afl.Text.String.Trim.{str_trim-space}
use afl.Text.String.Split.{find-byte}
use afl.Net.HeaderField.{
  HeaderField, Mode, extract_part, named, named_at, parts_loop, all_parts, get_primary_value,
  enumerate_secondary_values, first_value, get_secondary_value,
}
use afl.Net.HeaderField.Scanned.{
  named_text, fields_text, is_plain_byte, IsNamed, joined, after_semicolon, plain-bytes, fields-end,
  part-named,
}

space : char_is_space 32 ≡ true
unfolding char_is_space
space = refl

drop_byte : (n v : Str) → drop (suc (length n)) (n ++ (b'=' ∷ v)) ≡ v
drop_byte [] v = refl
drop_byte (c ∷ n) v = drop_byte n v

named-part : (f : HeaderField) → IsNamed f → named (32 ∷ (f.name ++ (b'=' ∷ f.value))) ≡ f
unfolding named
named-part f h =
    ap (named_at (32 ∷ (f.name ++ (b'=' ∷ f.value))))
      (find-byte b'=' (32 ∷ f.name) f.value (refl, h.1))
    ∙ fields f.name f.value h.2 h.3
  where
    fields :
        (n v : Str)
        → str_trim n ≡ n
        → str_trim v ≡ v
        → named_at (32 ∷ (n ++ (b'=' ∷ v))) (some (length (32 ∷ n)))
          ≡ record { name = n; value = v }
    fields n v h k =
        let e1 : take (suc (length n)) (32 ∷ (n ++ (b'=' ∷ v))) ≡ 32 ∷ n =
          ap (λ x. 32 ∷ x) (take_exact (length n) n (b'=' ∷ v) refl) in
        let e2 : length (32 ∷ n) + 1 ≡ suc (suc (length n)) = omega arith in
        let e3 : drop (suc (length n)) (n ++ (b'=' ∷ v)) ≡ v = drop_byte n v in
        rw (e1, e2, e3, str_trim-space 32 n space, h, k) refl

module _ (m : Mode) (q : m.no_quotes ≡ false) where
  parts-named :
      (fuel : ℕ) (fs : List HeaderField)
      → length fs ≤ fuel
      → All IsNamed fs
      → parts_loop fuel m (after_semicolon fs) ≡ fs
  unfolding parts_loop
  parts-named zero [] h a = refl
  parts-named zero (f ∷ fs) h a = elim h [ ]
  parts-named (suc fuel) [] h a = refl
  parts-named (suc fuel) (f ∷ fs) h a = rw (part-named m f fs q a.0.0) (
      ap (λ x. x ∷ parts_loop fuel m (after_semicolon fs)) (named-part f a.0)
      ∙ ap (λ x. f ∷ x) (parts-named fuel fs (omega arith) a.1))

  parts-length : (fs : List HeaderField) → length fs ≤ length (after_semicolon fs)
  parts-length [] = omega arith
  parts-length (f ∷ fs) =
      let e = length-append (named_text f) (fields_text fs) in
      let k = text-length fs in omega (arith, e, k)
    where
      text-length : (fs : List HeaderField) → length fs ≤ length (fields_text fs)
      text-length [] = omega arith
      text-length (f ∷ fs) =
          let e = length-append (named_text f) (fields_text fs) in
          let k = text-length fs in omega (arith, e, k)

  primary :
      (p : Str) (fs : List HeaderField)
      → All (λ c. is_plain_byte c ≡ true) p
      → extract_part m (p ++ fields_text fs) ≡ (p, after_semicolon fs)
  primary p fs h =
      plain-bytes m p (fields_text fs) h
      ∙ ap (joined p) (fields-end m fs)
      ∙ ap (λ x. (x, after_semicolon fs)) (append-nil p)

  -- Of a value with a primary part and named values in quotes, the primary value is the former, trimmed, and
  -- the secondary values are the latter, in their order. A value is found by its name, without regard to case.
  -- Quotes are interpreted, and the field has a primary value; this and the names have no quote, parenthesis or
  -- semicolon, the names no equals sign, and no name or value begins or ends with white space.
  pub secondary_values-fields_text :
      (n p name : Str) (fs : List HeaderField)
      → m.no_primary ≡ false
      → All (λ c. is_plain_byte c ≡ true) p
      → All IsNamed fs
      → (get_primary_value m (record { name = n; value = p ++ fields_text fs }) ≡ str_trim p)
        × (enumerate_secondary_values m (record { name = n; value = p ++ fields_text fs }) ≡ fs)
        × (get_secondary_value m name (record { name = n; value = p ++ fields_text fs })
            ≡ first_value name fs)
  unfolding get_primary_value enumerate_secondary_values get_secondary_value
  secondary_values-fields_text n p name fs r h a =
      let e : enumerate_secondary_values m (record { name = n; value = p ++ fields_text fs }) ≡ fs =
        ap
          (λ b.
            all_parts m
              (if b then p ++ fields_text fs else (extract_part m (p ++ fields_text fs)).1))
          r
        ∙ ap (λ x. all_parts m x.1) (primary p fs h)
        ∙ parts-named (length (after_semicolon fs)) fs (parts-length fs) a in
      (ap (λ x. str_trim x.0) (primary p fs h), e, ap (first_value name) e)
