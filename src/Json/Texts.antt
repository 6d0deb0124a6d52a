-- ===== src/Json/Texts.antt =====
-- The texts of nested values, token by token.
use afl.Base.{ℕ, ◌≡◌, refl, sym, ap, ◌∙◌, true, false, ◌∷◌, ◌++◌, append_assoc, ◌==◌}
use afl.Base.Str.{Str, bytes}
use afl.Text.Number.{format_signed}
use afl.Data.Value.{
  Value, null, string, integer, boolean, error, vector, hash, Items, nil, cons, Fields, end, field,
  push_back, append_items, append_items-push_back, append_items-nil,
}
use afl.Json.Writer.{
  Writer, Layout, plain, opening, closing, separating, before, after, quoted, escape_all, visit,
  visit_items, visit_fields,
}
use afl.Json.Parser.{skip_whitespace, is_whitespace}
use afl.Json.Scanned.{IsDelimited, before-IsDelimited, start-format_signed}
use afl.Json.Loops.{skip_token}

-- What stands behind an opening bracket.
abbrev pub inside_vector : Items → Writer → Str
inside_vector vs w =
    (visit_items true vs w).0 ++ (before (bytes "]") closing (visit_items true vs w).1 ++ bytes "]")

abbrev pub inside_hash : Fields → Writer → Str
inside_hash fs w =
    (visit_fields true fs w).0
    ++ (before (bytes "}") closing (visit_fields true fs w).1 ++ bytes "}")

pub bracket-append :
    (x : Str) (l : Layout) (w : Writer) (more rest : Str)
    → ((before x l w ++ x) ++ more) ++ rest ≡ before x l w ++ (x ++ (more ++ rest))
bracket-append x l w more rest =
    append_assoc (before x l w ++ x) more rest ∙ append_assoc (before x l w) x (more ++ rest)

-- A text begins with white space and a byte that neither is white space nor ends an array.
abbrev pub Begins : Str → Writer → Type 0
Begins s w =
    (x : Str) × (l : Layout) × (c : ℕ) × (t : Str) × (s ≡ before x l w ++ (c ∷ t))
    × (is_whitespace c ≡ false)
    × ((c == b']') ≡ false)

pub visit-Begins : (v : Value) (w : Writer) (rest : Str) → Begins ((visit v w).0 ++ rest) w
unfolding visit quoted
visit-Begins null w rest = (
  bytes "null",
  plain,
  _,
  _,
  append_assoc (before (bytes "null") plain w) (bytes "null") rest,
  refl,
  refl,
)
visit-Begins (error source s) w rest = (
  bytes "null",
  plain,
  _,
  _,
  append_assoc (before (bytes "null") plain w) (bytes "null") rest,
  refl,
  refl,
)
visit-Begins (string s) w rest =
    (quoted s, plain, _, _, append_assoc (before (quoted s) plain w) (quoted s) rest, refl, refl)
visit-Begins (integer n) w rest =
    let (c, s, e, k, h, j) = start-format_signed n in
    (
      format_signed n,
      plain,
      c,
      s ++ rest,
      append_assoc (before (format_signed n) plain w) (format_signed n) rest
          ∙ ap (λ t. before (format_signed n) plain w ++ (t ++ rest)) e,
      h,
      j,
    )
visit-Begins (boolean true) w rest = (
  bytes "true",
  plain,
  _,
  _,
  append_assoc (before (bytes "true") plain w) (bytes "true") rest,
  refl,
  refl,
)
visit-Begins (boolean false) w rest = (
  bytes "false",
  plain,
  _,
  _,
  append_assoc (before (bytes "false") plain w) (bytes "false") rest,
  refl,
  refl,
)
visit-Begins (vector vs) w rest =
    let more = inside_vector vs (after (bytes "[") opening w) in
    (
      bytes "[",
      opening,
      b'[',
      more ++ rest,
      bracket-append (bytes "[") opening w more rest,
      refl,
      refl,
    )
visit-Begins (hash fs) w rest =
    let more = inside_hash fs (after (bytes "{") opening w) in
    (
      bytes "{",
      opening,
      b'{',
      more ++ rest,
      bracket-append (bytes "{") opening w more rest,
      refl,
      refl,
    )

-- What follows an element, and what follows a member.
abbrev pub behind_element : Items → Writer → Str → Str
behind_element vs w rest =
    (visit_items false vs w).0
    ++ ((before (bytes "]") closing (visit_items false vs w).1 ++ bytes "]") ++ rest)

abbrev pub behind_member : Fields → Writer → Str → Str
behind_member fs w rest =
    (visit_fields false fs w).0
    ++ ((before (bytes "}") closing (visit_fields false fs w).1 ++ bytes "}") ++ rest)

-- A member from its colon on, with the writer that the colon leaves.
abbrev pub from_colon : Value → Fields → Writer → Str → Str
from_colon v fs w rest =
    (before (bytes ":") plain w ++ bytes ":")
    ++ ((visit v (after (bytes ":") plain w)).0
        ++ behind_member fs (visit v (after (bytes ":") plain w)).1 rest)

pub behind_element-cons :
    (v : Value) (vs : Items) (w : Writer) (rest : Str)
    → behind_element (cons v vs) w rest
      ≡ before (bytes ",") separating w
        ++ (b','
            ∷ ((visit v (after (bytes ",") separating w)).0
                ++ behind_element vs (visit v (after (bytes ",") separating w)).1 rest))
unfolding visit_items
behind_element-cons v vs w rest = simp append_assoc

pub behind_member-field :
    (k : Str) (v : Value) (fs : Fields) (w : Writer) (rest : Str)
    → behind_member (field k v fs) w rest
      ≡ before (bytes ",") separating w
        ++ (b','
            ∷ (before (quoted k) plain (after (bytes ",") separating w)
                ++ (34
                    ∷ (escape_all k
                        ++ (34
                            ∷ from_colon v fs
                                (after (quoted k) plain (after (bytes ",") separating w))
                                rest)))))
unfolding visit_fields quoted
behind_member-field k v fs w rest = simp append_assoc

pub behind_element-nil :
    (w : Writer) (rest : Str)
    → behind_element nil w rest ≡ before (bytes "]") closing w ++ (b']' ∷ rest)
unfolding visit_items
behind_element-nil w rest = append_assoc (before (bytes "]") closing w) (bytes "]") rest

pub behind_member-end :
    (w : Writer) (rest : Str)
    → behind_member end w rest ≡ before (bytes "}") closing w ++ (b'}' ∷ rest)
unfolding visit_fields
behind_member-end w rest = append_assoc (before (bytes "}") closing w) (bytes "}") rest

pub behind_element-IsDelimited :
    (vs : Items) (w : Writer) (rest : Str) → IsDelimited (behind_element vs w rest)
behind_element-IsDelimited nil w rest =
    rw (behind_element-nil w rest) (before-IsDelimited (bytes "]") closing w b']' rest (refl, refl))
behind_element-IsDelimited (cons v vs) w rest =
    rw (behind_element-cons v vs w rest)
      (before-IsDelimited (bytes ",") separating w b',' _ (refl, refl))

pub behind_member-IsDelimited :
    (fs : Fields) (w : Writer) (rest : Str) → IsDelimited (behind_member fs w rest)
behind_member-IsDelimited end w rest =
    rw (behind_member-end w rest) (before-IsDelimited (bytes "}") closing w b'}' rest (refl, refl))
behind_member-IsDelimited (field k v fs) w rest =
    rw (behind_member-field k v fs w rest)
      (before-IsDelimited (bytes ",") separating w b',' _ (refl, refl))

pub skip-from_colon :
    (v : Value) (fs : Fields) (w : Writer) (rest : Str)
    → skip_whitespace (from_colon v fs w rest)
      ≡ b':'
        ∷ ((visit v (after (bytes ":") plain w)).0
            ++ behind_member fs (visit v (after (bytes ":") plain w)).1 rest)
skip-from_colon v fs w rest =
    ap skip_whitespace (append_assoc (before (bytes ":") plain w) (bytes ":") _)
    ∙ skip_token (bytes ":") plain w b':' _ refl

pub push_back-append_items :
    (vs : Items) (v : Value) → push_back vs v ≡ append_items vs (cons v nil)
push_back-append_items vs v =
    sym (append_items-nil (push_back vs v)) ∙ append_items-push_back vs v nil

-- The text behind an opening bracket, with what follows.
pub inside_vector-append :
    (v : Value) (vs : Items) (w : Writer) (rest : Str)
    → inside_vector (cons v vs) w ++ rest ≡ (visit v w).0 ++ behind_element vs (visit v w).1 rest
unfolding visit_items
inside_vector-append v vs w rest = simp append_assoc

pub inside_hash-append :
    (k : Str) (v : Value) (fs : Fields) (w : Writer) (rest : Str)
    → inside_hash (field k v fs) w ++ rest
      ≡ before (quoted k) plain w
        ++ (34 ∷ (escape_all k ++ (34 ∷ from_colon v fs (after (quoted k) plain w) rest)))
unfolding visit_fields quoted
inside_hash-append k v fs w rest = simp append_assoc
