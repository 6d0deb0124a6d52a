-- ===== src/Net/HeaderParser/RoundTrip.antt =====
-- What `HeaderTable::writeHeaders` writes, `HeaderParser::handleData` reads.
use afl.Base.{
  ℕ, ◌≡◌, ◌≢◌, refl, sym, ap, ◌∙◌, Bool, true, false, [], ◌∷◌, ◌++◌, All, append-nil, append_assoc,
  Bool-cases, inl, inr,
}
use afl.Base.Str.{Str}
use afl.Net.HeaderTable.{HeaderTable, add, handle_header, write_headers}
use afl.Net.HeaderField.{HeaderField}
use afl.Net.HeaderParser.{
  HeaderParser, newline_state, final_state, create, newline, handle_byte, handle_data, is_final,
}
use afl.Net.HeaderParser.Steps.{
  is_name_byte, IsPlain, at, step_next, step_initial, final_rest, field-line,
}

-- The text of a field with what follows.
text-append :
    (h : HeaderField) (fs : HeaderTable) (s : Str)
    → write_headers (h ∷ fs) ++ s
      ≡ h.name ++ (b':' ∷ 32 ∷ (h.value ++ (13 ∷ 10 ∷ (write_headers fs ++ s))))
unfolding write_headers
text-append h fs s = simp append_assoc

appended :
    (t : HeaderTable) (h : HeaderField) (fs : HeaderTable) (n : Str)
    → h.name ≡ n
    → handle_header n h.value t ++ fs ≡ t ++ (h ∷ fs)
unfolding add
appended t h fs n e =
    append_assoc t (record { name = n; value = h.value } ∷ []) fs
    ∙ ap (λ x. t ++ (record { name = x; value = h.value } ∷ fs)) (sym e)

field_name :
    (n : Str)
    → n ≢ []
    → All (λ c. is_name_byte c ≡ true) n
    → (c : ℕ) × (m : Str) × (n ≡ c ∷ m)
      × (is_name_byte c ≡ true)
      × All (λ c. is_name_byte c ≡ true) m
field_name [] ne h = absurd (ne refl)
field_name (c ∷ m) ne h = (c, m, refl, h.0, h.1)

-- A field that is read, and those behind it.
pending :
    (fs t : HeaderTable) (e f : Bool) (k v rest : Str)
    → All IsPlain fs
    → handle_data (at t e f k v newline_state) (write_headers fs ++ (13 ∷ 10 ∷ rest))
      ≡ (at (handle_header k v t ++ fs) e f [] [] final_state, rest)
unfolding write_headers
pending [] t e f k v rest p =
    rw append-nil
      (unfold handle_data handle_byte newline in final_rest (handle_header k v t) e f [] [] rest)
pending (h ∷ fs) t e f k v rest p =
    let (c, m, n, b, bs) = field_name h.name p.0.0 p.0.1 in
    let s = write_headers fs ++ (13 ∷ 10 ∷ rest) in
    let u = b':' ∷ 32 ∷ (h.value ++ (13 ∷ 10 ∷ s)) in
    ap (handle_data (at t e f k v newline_state))
      (text-append h fs (13 ∷ 10 ∷ rest) ∙ ap (λ x. x ++ u) n)
    ∙ step_next t e f k v c (m ++ u) b
    ∙ field-line (handle_header k v t) e f c m h.value s bs p.0.2 p.0.3
    ∙ pending fs (handle_header k v t) e f (c ∷ m) h.value rest p.1
    ∙ ap (λ x. (at x e f [] [] final_state, rest)) (appended (handle_header k v t) h fs (c ∷ m) n)

-- The parser gives its consumer the fields that were written, in their order and without an error, is final at
-- the empty line behind them, and leaves what follows. Each field has a name, without white space, line ends, a
-- colon or a NUL; its value has no line end and no NUL, and does not begin with white space.
pub handle_data-write_headers :
    (t fs : HeaderTable) (rest : Str)
    → All IsPlain fs
    → handle_data (create t) (write_headers fs ++ (13 ∷ 10 ∷ rest)) ≡ (
      record {
        consumer = t ++ fs;
        has_errors = false;
        has_folding = false;
        key = [];
        value = [];
        state = final_state;
      },
      rest,
    )
unfolding write_headers
handle_data-write_headers t [] rest p =
    rw append-nil (unfold handle_data handle_byte newline in final_rest t false false [] [] rest)
handle_data-write_headers t (h ∷ fs) rest p =
    let (c, m, n, b, bs) = field_name h.name p.0.0 p.0.1 in
    let s = write_headers fs ++ (13 ∷ 10 ∷ rest) in
    let u = b':' ∷ 32 ∷ (h.value ++ (13 ∷ 10 ∷ s)) in
    ap (handle_data (create t)) (text-append h fs (13 ∷ 10 ∷ rest) ∙ ap (λ x. x ++ u) n)
    ∙ step_initial t false false c (m ++ u) b
    ∙ field-line t false false c m h.value s bs p.0.2 p.0.3
    ∙ pending fs t false false (c ∷ m) h.value rest p.1
    ∙ ap (λ x. (at x false false [] [] final_state, rest)) (appended t h fs (c ∷ m) n)

-- It does not matter where the header is cut into pieces.
pub handle_data-append :
    (p : HeaderParser) (s u : Str)
    → handle_data p (s ++ u) ≡ handle_data (handle_data p s).0 ((handle_data p s).1 ++ u)
unfolding handle_data
handle_data-append p [] u = refl
handle_data-append p (c ∷ s) u = elim (Bool-cases (is_final p.state)) [
  | inl e ↦ rw e (rw e refl)
  | inr e ↦ rw e (handle_data-append (handle_byte c p) s u)
]
