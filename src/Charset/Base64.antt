-- ===== src/Charset/Base64.antt =====
-- afl/charset/base64.cpp.
pub mod RoundTrip
use afl.Base.{
  ℕ, zero, suc, ◌+◌, ◌*◌, ◌/◌, ◌%◌, ◌^◌, Option, none, some, List, [], ◌∷◌, ◌++◌, get_elem?,
  if◌then◌else◌, ◌==◌, ◌≡◌, refl,
}
use afl.Base.Str.{Str, bytes}

-- `g_base64Alphabet`
abbrev pub alphabet : Str
alphabet = bytes "ABCDEFGHIJKLMNOPQRSTUVWXYZabcdefghijklmnopqrstuvwxyz0123456789+/"

-- Where `memchr` finds a byte, counted from `i`; 0 where it does not find it.
unfoldable pub index_from : ℕ → Str → ℕ → ℕ
index_from i [] c = 0
index_from i (x ∷ s) c = let rest = index_from (suc i) s c in if c == x then i else rest

unfoldable pub b64_value : ℕ → ℕ
unfolding index_from
b64_value c = index_from 0 alphabet c

-- `g_base64Alphabet[n & 63]`; the index is always inside the array.
unfoldable pub letter : ℕ → ℕ
letter n = elim (get_elem? alphabet (n % 64)) [ none ↦ 0 | some c ↦ c ]

unfoldable pub encode : Str → Str
unfolding letter
encode [] = []
encode (a ∷ []) =
    let value = 65536 * a in letter (value / 2 ^ 18) ∷ letter (value / 2 ^ 12) ∷ b'=' ∷ b'=' ∷ []
encode (a ∷ b ∷ []) =
    let value = 65536 * a + 256 * b in
    letter (value / 2 ^ 18) ∷ letter (value / 2 ^ 12) ∷ letter (value / 2 ^ 6) ∷ b'=' ∷ []
encode (a ∷ b ∷ c ∷ input) =
    let value = 65536 * a + 256 * b + c in
    letter (value / 2 ^ 18)
    ∷ letter (value / 2 ^ 12)
    ∷ letter (value / 2 ^ 6)
    ∷ letter value
    ∷ encode input

-- A byte in front of a text that has no equal sign at its end.
abbrev pub in_front : ℕ → Str → Str
in_front c [] = if c == b'=' then [] else c ∷ []
in_front c (d ∷ s) = c ∷ d ∷ s

-- `while (in.size() > 0 && *in.at(in.size()-1) == '=')`: trailing equal signs go.
unfoldable pub trim_end : Str → Str
trim_end [] = []
trim_end (c ∷ s) = in_front c (trim_end s)

-- The loop of `decode`, a group of four at a time; the last group may be shorter.
unfoldable pub decode_groups : Str → Str
unfolding b64_value
decode_groups [] = []
decode_groups (p ∷ []) = []
decode_groups (p ∷ q ∷ []) =
    let value = b64_value p * 2 ^ 18 + b64_value q * 2 ^ 12 in (value / 2 ^ 16) % 256 ∷ []
decode_groups (p ∷ q ∷ r ∷ []) =
    let value = b64_value p * 2 ^ 18 + b64_value q * 2 ^ 12 in
    let value' = value + b64_value r * 2 ^ 6 in (value / 2 ^ 16) % 256 ∷ (value' / 2 ^ 8) % 256 ∷ []
decode_groups (p ∷ q ∷ r ∷ t ∷ input) =
    let value = b64_value p * 2 ^ 18 + b64_value q * 2 ^ 12 in
    let value' = value + b64_value r * 2 ^ 6 in
    let value'' = value' + b64_value t in
    (value / 2 ^ 16) % 256 ∷ (value' / 2 ^ 8) % 256 ∷ value'' % 256 ∷ decode_groups input

unfoldable pub decode : Str → Str
unfolding trim_end decode_groups
decode input = decode_groups (trim_end input)

sample : encode (bytes "Hello") ≡ bytes "SGVsbG8="
unfolding encode letter
sample = refl

sample_back : decode (bytes "SGVsbG8=") ≡ bytes "Hello"
unfolding decode trim_end decode_groups b64_value index_from
sample_back = refl
