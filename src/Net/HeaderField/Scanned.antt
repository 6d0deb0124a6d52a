-- ===== src/Net/HeaderField/Scanned.antt =====
-- What `extractPart` makes of text that was put in quotes.
use afl.Base.{
  ℕ, ◌≡◌, refl, ap, ◌∙◌, ◌||◌, Bool, true, false, not, List, [], ◌∷◌, ◌++◌, ◌==◌, if◌then◌else◌,
  All, arith, Bool-cases, inl, inr, append-nil, append_assoc,
}
use afl.Base.Str.{Str}
use afl.Text.String.{str_trim}
use afl.Net.HeaderField.{
  HeaderField, Mode, ScanState, stop, skip, keep, raw, dq, scan_byte, extract_loop, put,
}

-- Quotes and backslashes get a backslash in front.
abbrev pub escaped : Str → Str
escaped [] = []
escaped (c ∷ s) = if c == b'"' || c == b'\\' then b'\\' ∷ c ∷ escaped s else c ∷ escaped s

abbrev pub named_text : HeaderField → Str
named_text f = f.name ++ (b'=' ∷ b'"' ∷ (escaped f.value ++ (b'"' ∷ [])))

abbrev pub fields_text : List HeaderField → Str
fields_text [] = []
fields_text (f ∷ fs) = b';' ∷ 32 ∷ (named_text f ++ fields_text fs)

abbrev pub is_plain_byte : ℕ → Bool
is_plain_byte c = not (c == b'"' || (c == b'(' || c == b';'))

-- Both are as trimming leaves them, and the name has no byte that means something else in a value; the value may
-- be any.
abbrev pub IsNamed : HeaderField → Type 0
IsNamed f =
    All (λ c. is_plain_byte c ≡ true) f.name
    × All (λ c. (b'=' == c) ≡ false) f.name
    × (str_trim f.name ≡ f.name)
    × (str_trim f.value ≡ f.value)

abbrev pub joined : Str → Str × Str → Str × Str
joined l (part, rest) = (l ++ part, rest)

-- What the parts are read from, behind the first semicolon.
abbrev pub after_semicolon : List HeaderField → Str
after_semicolon [] = []
after_semicolon (f ∷ fs) = 32 ∷ (named_text f ++ fields_text fs)

scan_byte-plain : (m : Mode) (c : ℕ) → is_plain_byte c ≡ true → scan_byte m raw c ≡ keep raw
unfolding scan_byte
scan_byte-plain m c h = ground arith

scan_byte-inside :
    (m : Mode) (c : ℕ) → (c == b'"' || c == b'\\') ≡ false → scan_byte m dq c ≡ keep dq
unfolding scan_byte
scan_byte-inside m c h = ground arith

scan_byte-quote : (m : Mode) → m.no_quotes ≡ false → scan_byte m raw b'"' ≡ skip dq
unfolding scan_byte
scan_byte-quote m q = rw q refl

scan_byte-backslash :
    (m : Mode) (c : ℕ) (s : Str) → extract_loop m dq (b'\\' ∷ c ∷ s) ≡ put c (extract_loop m dq s)
unfolding extract_loop scan_byte
scan_byte-backslash m c s = refl

module _ (m : Mode) where
  step :
      (st : ScanState) (c : ℕ) (s : Str) (t : ScanState)
      → scan_byte m st c ≡ keep t
      → extract_loop m st (c ∷ s) ≡ put c (extract_loop m t s)
  unfolding extract_loop
  step st c s t h =
      ap
        (λ e. elim e [
          | stop ↦ ([], s)
          | skip next ↦ extract_loop m next s
          | keep next ↦ put c (extract_loop m next s)
        ])
        h

  step_over :
      (st : ScanState) (c : ℕ) (s : Str) (t : ScanState)
      → scan_byte m st c ≡ skip t
      → extract_loop m st (c ∷ s) ≡ extract_loop m t s
  unfolding extract_loop
  step_over st c s t h =
      ap
        (λ e. elim e [
          | stop ↦ ([], s)
          | skip next ↦ extract_loop m next s
          | keep next ↦ put c (extract_loop m next s)
        ])
        h

  pub plain-bytes :
      (l s : Str)
      → All (λ c. is_plain_byte c ≡ true) l
      → extract_loop m raw (l ++ s) ≡ joined l (extract_loop m raw s)
  plain-bytes [] s h = refl
  plain-bytes (c ∷ l) s h =
      step raw c (l ++ s) raw (scan_byte-plain m c h.0) ∙ ap (put c) (plain-bytes l s h.1)

  escaped-bytes :
      (v s : Str) → extract_loop m dq (escaped v ++ (b'"' ∷ s)) ≡ joined v (extract_loop m raw s)
  escaped-bytes [] s = unfold extract_loop scan_byte in refl
  escaped-bytes (c ∷ v) s = elim (Bool-cases (c == b'"' || c == b'\\')) [
    | inl e ↦
        rw e (scan_byte-backslash m c (escaped v ++ (b'"' ∷ s)) ∙ ap (put c) (escaped-bytes v s))
    | inr e ↦ rw e (
        step dq c (escaped v ++ (b'"' ∷ s)) dq (scan_byte-inside m c e)
        ∙ ap (put c) (escaped-bytes v s))
  ]

  pub fields-end :
      (fs : List HeaderField) → extract_loop m raw (fields_text fs) ≡ ([], after_semicolon fs)
  unfolding extract_loop scan_byte
  fields-end [] = refl
  fields-end (f ∷ fs) = refl

  quote_mark :
      (s : Str)
      → m.no_quotes ≡ false
      → extract_loop m raw (b'=' ∷ b'"' ∷ s) ≡ put b'=' (extract_loop m dq s)
  quote_mark s q =
      step raw b'=' (b'"' ∷ s) raw (scan_byte-plain m b'=' refl)
      ∙ ap (put b'=') (step_over raw b'"' s dq (scan_byte-quote m q))

  pub part-named :
      (f : HeaderField) (fs : List HeaderField)
      → m.no_quotes ≡ false
      → All (λ c. is_plain_byte c ≡ true) f.name
      → extract_loop m raw (after_semicolon (f ∷ fs))
        ≡ (32 ∷ (f.name ++ (b'=' ∷ f.value)), after_semicolon fs)
  part-named f fs q h =
      let s = fields_text fs in
      ap (λ x. extract_loop m raw (32 ∷ x)) (flat f s)
      ∙ plain-bytes (32 ∷ f.name) (b'=' ∷ b'"' ∷ (escaped f.value ++ (b'"' ∷ s))) (refl, h)
      ∙ ap (joined (32 ∷ f.name)) (
          quote_mark (escaped f.value ++ (b'"' ∷ s)) q
          ∙ ap (put b'=') (escaped-bytes f.value s ∙ ap (joined f.value) (fields-end fs)))
      ∙ ap (λ v. (32 ∷ (f.name ++ (b'=' ∷ v)), after_semicolon fs)) (append-nil f.value)
    where
      flat :
          (f : HeaderField) (s : Str)
          → named_text f ++ s ≡ f.name ++ (b'=' ∷ b'"' ∷ (escaped f.value ++ (b'"' ∷ s)))
      flat f s = simp append_assoc
