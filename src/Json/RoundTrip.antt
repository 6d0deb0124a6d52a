-- ===== src/Json/RoundTrip.antt =====
-- What afl/io/json/writer.cpp writes, afl/io/json/parser.cpp reads.
use afl.Base.{
  ℕ, zero, suc, ◌<◌, ◌≡◌, refl, ap, ◌∙◌, true, false, Option, ◌∷◌, ◌++◌, length, length-append,
  arith,
}
use afl.Base.Int.{IsInt32}
use afl.Base.Str.{Str, bytes}
use afl.Except.{ok}
use afl.Data.Value.{
  Value, null, string, integer, boolean, error, vector, hash, Items, nil, cons, Fields, end, field,
  push_back, append_items, append_items-push_back,
}
use afl.Json.Writer.{
  Writer, plain, opening, closing, separating, before, after, quoted, escape_all, visit,
  visit_items, visit_fields,
}
use afl.Json.Parser.{
  skip_whitespace, elements, members, value_of, parse_fuel, parse, start, set_field, keyword,
}
use afl.Json.Scanned.{IsDelimited}
use afl.Json.Texts.{
  inside_vector, inside_hash, behind_element, behind_member, from_colon, behind_element-cons,
  behind_member-field, behind_element-nil, behind_member-end, behind_element-IsDelimited,
  behind_member-IsDelimited, skip-from_colon, push_back-append_items, inside_vector-append,
  inside_hash-append,
}
use afl.Json.Pieces.{
  member-length, parse-vector, parse-hash, parse-string, parse-integer, parse-keyword, fits,
  array-empty, object-empty, array-visit, object-visit,
}
use afl.Json.Loops.{skip_token, elements-last, elements-more, members-last, members-more}

-- What a value becomes: an error becomes null, and of fields with the same name the first place and the last
-- value remain.
unfoldable mutual
  pub read_back : Value → Value
  read_back (error source s) = null
  read_back (vector vs) = vector (read_items vs)
  read_back (hash fs) = hash (merged fs end)
  read_back null = null
  read_back (string s) = string s
  read_back (integer n) = integer n
  read_back (boolean b) = boolean b

  pub read_items : Items → Items
  read_items nil = nil
  read_items (cons v vs) = cons (read_back v) (read_items vs)

  pub merged : Fields → Fields → Fields
  merged end fs = fs
  merged (field k v more) fs = merged more (set_field k (read_back v) fs)

-- All numbers are of type int32_t.
unfoldable mutual
  pub IsWritable : Value → Type 0
  IsWritable (integer n) = IsInt32 n
  IsWritable (vector vs) = AreWritable vs
  IsWritable (hash fs) = AreWritableFields fs
  IsWritable _ = Unit {0}

  pub AreWritable : Items → Type 0
  AreWritable nil = Unit {0}
  AreWritable (cons v vs) = IsWritable v × AreWritable vs

  pub AreWritableFields : Fields → Type 0
  AreWritableFields end = Unit {0}
  AreWritableFields (field k v fs) = IsWritable v × AreWritableFields fs

module _ (name : Str) (float : Str → Option Value) where
  mutual
    unfolding append_items visit visit_items visit_fields read_back IsWritable value_of start
        keyword

    parse-visit :
        (v : Value) (w : Writer) (n : ℕ) (rest : Str)
        → IsWritable v
        → IsDelimited rest
        → length ((visit v w).0 ++ rest) < n
        → parse_fuel name float n ((visit v w).0 ++ rest) ≡ ok (read_back v, rest)
    parse-visit v w zero rest h d b = absurd (omega arith)
    parse-visit null w (suc n) rest h d b =
        parse-keyword name float n (bytes "null") rest w b'n' (bytes "ull") null refl refl refl d
    parse-visit (error source s) w (suc n) rest h d b =
        parse-keyword name float n (bytes "null") rest w b'n' (bytes "ull") null refl refl refl d
    parse-visit (boolean true) w (suc n) rest h d b =
        parse-keyword name float n (bytes "true") rest w b't' (bytes "rue") (boolean true) refl refl
          refl d
    parse-visit (boolean false) w (suc n) rest h d b =
        parse-keyword name float n (bytes "false") rest w b'f' (bytes "alse") (boolean false) refl
          refl refl d
    parse-visit (string s) w (suc n) rest h d b = parse-string name float n s w rest
    parse-visit (integer k) w (suc n) rest h d b = parse-integer name float n k w rest h d
    parse-visit (vector nil) w (suc n) rest h d b =
        let w1 = after (bytes "[") opening w in
        parse-vector name float n nil w (inside_vector nil w1) nil rest (
          array-empty name float n (inside_vector nil w1 ++ rest) rest (
            ap skip_whitespace (behind_element-nil w1 rest)
            ∙ skip_token (bytes "]") closing w1 b']' rest refl))
    parse-visit (vector (cons v vs)) w (suc n) rest h d b =
        let w1 = after (bytes "[") opening w in
        let more = inside_vector (cons v vs) w1 in
        let e = inside_vector-append v vs w1 rest in
        let l = fits name float (bytes "[") opening w b'[' more rest n b in
        let le = ap length e in
        let la = length-append (visit v w1).0 (behind_element vs (visit v w1).1 rest) in
        parse-vector name float n (cons v vs) w more (cons (read_back v) (read_items vs)) rest (
          array-visit name float n v w1 (behind_element vs (visit v w1).1 rest) (more ++ rest) _
            rest e
            (parse-elements vs (visit v w1).1 n n nil (read_back v)
              ((visit v w1).0 ++ behind_element vs (visit v w1).1 rest) rest h.1 (omega arith)
              (omega arith)
              (parse-visit v w1 n (behind_element vs (visit v w1).1 rest) h.0
                (behind_element-IsDelimited vs (visit v w1).1 rest) (omega arith))))
    parse-visit (hash end) w (suc n) rest h d b =
        let w1 = after (bytes "{") opening w in
        parse-hash name float n w (inside_hash end w1) end rest (
          object-empty name float n (inside_hash end w1 ++ rest) rest (
            ap skip_whitespace (behind_member-end w1 rest)
            ∙ skip_token (bytes "}") closing w1 b'}' rest refl))
    parse-visit (hash (field k v fs)) w (suc n) rest h d b =
        let w1 = after (bytes "{") opening w in
        let w2 = after (quoted k) plain w1 in
        let w3 = after (bytes ":") plain w2 in
        let more = inside_hash (field k v fs) w1 in
        let e = inside_hash-append k v fs w1 rest in
        let l = fits name float (bytes "{") opening w b'{' more rest n b in
        let r = behind_member fs (visit v w3).1 rest in
        let t = member-length k v fs w1 rest in
        let le = ap length e in
        parse-hash name float n w more (merged fs (set_field k (read_back v) end)) rest (
          object-visit name float n (quoted k) w1 (more ++ rest)
            (escape_all k ++ (34 ∷ from_colon v fs w2 rest)) _ rest e
            (parse-members fs (visit v w3).1 n n end k (read_back v) (from_colon v fs w2 rest)
              ((visit v w3).0 ++ r) rest h.1 (omega arith) (omega arith)
              (skip-from_colon v fs w2 rest)
              (parse-visit v w3 n r h.0 (behind_member-IsDelimited fs (visit v w3).1 rest)
                (omega arith))))

    parse-elements :
        (vs : Items) (w : Writer) (m n : ℕ) (acc : Items) (v : Value) (s rest : Str)
        → AreWritable vs
        → length (behind_element vs w rest) < n
        → length (behind_element vs w rest) < m
        → parse_fuel name float m s ≡ ok (v, behind_element vs w rest)
        → elements name float (parse_fuel name float m) n acc s
          ≡ ok (append_items acc (cons v (read_items vs)), rest)
    parse-elements vs w m zero acc v s rest h a b p = absurd (omega arith)
    parse-elements nil w m (suc n) acc v s rest h a b p =
        elements-last name float (parse_fuel name float m) n acc v s _ rest p (
          ap skip_whitespace (behind_element-nil w rest)
          ∙ skip_token (bytes "]") closing w b']' rest refl)
        ∙ ap (λ t. ok (t, rest)) (push_back-append_items acc v)
    parse-elements (cons u us) w m (suc n) acc v s rest h a b p =
        let w1 = after (bytes ",") separating w in
        let r = behind_element us (visit u w1).1 rest in
        let e = behind_element-cons u us w rest in
        let l = ap length e in
        let l1 = length-append (before (bytes ",") separating w) (b',' ∷ ((visit u w1).0 ++ r)) in
        let l2 = length-append (visit u w1).0 r in
        elements-more name float (parse_fuel name float m) n acc v s _ ((visit u w1).0 ++ r) p
          (ap skip_whitespace e ∙ skip_token (bytes ",") separating w b',' _ refl)
        ∙ parse-elements us (visit u w1).1 m n (push_back acc v) (read_back u) ((visit u w1).0 ++ r)
            rest h.1 (omega arith) (omega arith)
            (parse-visit u w1 m r h.0 (behind_element-IsDelimited us (visit u w1).1 rest)
              (omega arith))
        ∙ ap (λ t. ok (t, rest)) (append_items-push_back acc v (cons (read_back u) (read_items us)))

    parse-members :
        (fs : Fields) (w : Writer) (m n : ℕ) (acc : Fields) (k : Str) (v : Value) (s x rest : Str)
        → AreWritableFields fs
        → length (behind_member fs w rest) < n
        → length (behind_member fs w rest) < m
        → skip_whitespace s ≡ b':' ∷ x
        → parse_fuel name float m x ≡ ok (v, behind_member fs w rest)
        → members name float (parse_fuel name float m) n acc (34 ∷ (escape_all k ++ (34 ∷ s)))
          ≡ ok (merged fs (set_field k v acc), rest)
    parse-members fs w m zero acc k v s x rest h a b c p = absurd (omega arith)
    parse-members end w m (suc n) acc k v s x rest h a b c p =
        members-last name float (parse_fuel name float m) n acc k v s x _ rest c p (
          ap skip_whitespace (behind_member-end w rest)
          ∙ skip_token (bytes "}") closing w b'}' rest refl)
    parse-members (field j u fs) w m (suc n) acc k v s x rest h a b c p =
        let w1 = after (bytes ",") separating w in
        let w2 = after (quoted j) plain w1 in
        let w3 = after (bytes ":") plain w2 in
        let r = behind_member fs (visit u w3).1 rest in
        let t = escape_all j ++ (34 ∷ from_colon u fs w2 rest) in
        let e = behind_member-field j u fs w rest in
        let l = ap length e in
        let l1 =
          length-append (before (bytes ",") separating w)
            (b',' ∷ (before (quoted j) plain w1 ++ (34 ∷ t))) in
        let l2 = member-length j u fs w1 rest in
        members-more name float (parse_fuel name float m) n acc k v s x _
          (before (quoted j) plain w1 ++ (34 ∷ t)) c p
          (ap skip_whitespace e ∙ skip_token (bytes ",") separating w b',' _ refl)
        ∙ ap (members name float (parse_fuel name float m) n (set_field k v acc))
            (skip_token (quoted j) plain w1 34 t refl)
        ∙ parse-members fs (visit u w3).1 m n (set_field k v acc) j (read_back u)
            (from_colon u fs w2 rest) ((visit u w3).0 ++ r) rest h.1 (omega arith) (omega arith)
            (skip-from_colon u fs w2 rest)
            (parse-visit u w3 m r h.0 (behind_member-IsDelimited fs (visit u w3).1 rest)
              (omega arith))

  -- `parse` reads back every value that the writer wrote with any line length and indentation, and leaves what
  -- follows, if this is nothing that could continue a number or a keyword: strings with any bytes, numbers of
  -- type int32_t, arrays and objects. Errors become null, and of members with the same name the last counts.
  pub parse-visit_lem :
      (v : Value) (w : Writer) (rest : Str)
      → IsWritable v
      → IsDelimited rest
      → parse name float ((visit v w).0 ++ rest) ≡ ok (read_back v, rest)
  unfolding parse
  parse-visit_lem v w rest h d =
      parse-visit v w (suc (length ((visit v w).0 ++ rest))) rest h d (omega arith)
