-- ===== src/Charset/Utf8/Positions.antt =====
-- Positions by characters and by bytes, and parts of a text.
use Prim.Native.Nat.{min}
use afl.Base.{
  ℕ, zero, suc, ◌-◌, ◌≤◌, ◌≡◌, refl, true, false, List, [], ◌∷◌, ◌++◌, length, length-append, All,
  append_assoc, append-nil, leb, ltb, arith, take_exact, Bool-cases, inl, inr,
}
use afl.Base.Str.{Str}
use afl.Charset.Unicode.{Flags}
use afl.Charset.Utf8Reader.{eat, count, has_more}
use afl.Charset.Utf8.{
  encoded, skip, substr, char_at, byte_loop, byte_to_char_pos, eat_loop, char_to_byte_pos,
}
use afl.Charset.Utf8.RoundTrip.{IsReadable, eat-encoded, encoded_cons}
use afl.Charset.Utf8.Progress.{eat-shorter, eat_nothing, count_nothing, count-eat}

eat_loop_nothing : (f : Flags) (n : ℕ) → eat_loop f n [] ≡ []
unfolding eat_loop
eat_loop_nothing f zero = refl
eat_loop_nothing f (suc n) = rw (eat_nothing f) (eat_loop_nothing f n)

eat_loop-shorter : (f : Flags) (n : ℕ) (s : Str) → length (eat_loop f n s) ≤ length s
unfolding eat_loop
eat_loop-shorter f zero s = omega arith
eat_loop-shorter f (suc n) [] = rw (eat_nothing f) (eat_loop-shorter f n [])
eat_loop-shorter f (suc n) (c ∷ s) =
    omega (arith, eat-shorter f c s, eat_loop-shorter f n (eat f (c ∷ s)).1)

byte_loop-eat_loop :
    (fuel : ℕ) (f : Flags) (n total : ℕ) (s : Str)
    → length s ≤ fuel
    → length s ≤ total
    → byte_loop fuel f total (total - length (eat_loop f n s)) s ≡ min n (count f s)
unfolding byte_loop eat_loop
byte_loop-eat_loop zero f n total [] h k = rw (count_nothing f) (omega arith)
byte_loop-eat_loop zero f n total (c ∷ s) h k = elim h [ ]
byte_loop-eat_loop (suc fuel) f zero total s h k =
    let t : ltb (total - length s) (total - length s) ≡ false = ground arith in rw t (omega arith)
byte_loop-eat_loop (suc fuel) f (suc n) total [] h k =
    let t : ltb (total - 0) (total - 0) ≡ false = ground arith in
    rw (eat_nothing f, eat_loop_nothing f n, count_nothing f, t) (omega arith)
byte_loop-eat_loop (suc fuel) f (suc n) total (c ∷ s) h k =
    let s' = (eat f (c ∷ s)).1 in
    let a = eat-shorter f c s in
    let b = eat_loop-shorter f n s' in
    let t : ltb (total - suc (length s)) (total - length (eat_loop f n s')) ≡ true = ground arith in
    let ih = byte_loop-eat_loop fuel f n total s' (omega arith) (omega arith) in
    rw (t, (count-eat f c s).0) (omega (arith, ih))

-- Where nothing is left after `n` characters, there are no more.
count-le : (f : Flags) (n : ℕ) (s : Str) → length (eat_loop f n s) ≤ 0 → count f s ≤ n
unfolding eat_loop
count-le f zero [] h = rw (count_nothing f) (omega arith)
count-le f zero (c ∷ s) h = elim h [ ]
count-le f (suc n) [] h = rw (count_nothing f) (omega arith)
count-le f (suc n) (c ∷ s) h = omega (arith, (count-eat f c s).0, count-le f n (eat f (c ∷ s)).1 h)

count-length : (f : Flags) (s : Str) → count f s ≤ length s
count-length f [] = rw (count_nothing f) (omega arith)
count-length f (c ∷ s) = (count-eat f c s).2

-- For every byte string, the byte position of a character is turned back into the character's position, which
-- is at most the number of characters.
pub byte_to_char_pos-char_to_byte_pos :
    (f : Flags) (text : Str) (n : ℕ)
    → byte_to_char_pos f text (char_to_byte_pos f text n) ≡ min n (count f text)
unfolding byte_to_char_pos char_to_byte_pos
byte_to_char_pos-char_to_byte_pos f text n = elim (Bool-cases (leb (length text) n)) [
  | inl e ↦
      let t : leb (length text) (length text) ≡ true = ground arith in
      rw (e, t) (ground (arith, count-length f text))
  | inr e ↦ rw e (elim (Bool-cases (leb (length text) (length text - length (eat_loop f n text)))) [
    | inl t ↦ rw t (omega (arith, count-le f n text (ground (arith, eat_loop-shorter f n text))))
    | inr t ↦
        rw t (byte_loop-eat_loop (length text) f n (length text) text (omega arith) (omega arith))
  ])
]

-- A text of characters.
unfoldable pub text : Flags → List ℕ → Str
text f [] = []
text f (ch ∷ chs) = encoded f ch ++ text f chs

eat-text :
    (f : Flags) (ch : ℕ) (s : Str)
    → IsReadable f ch
    → (eat f (encoded f ch ++ s) ≡ (ch, s)) × (has_more (encoded f ch ++ s) ≡ true)
eat-text f ch s r = (eat-encoded f ch s r, let (c, t, e) = encoded_cons f ch in rw e refl)

skip-text :
    (f : Flags) (chs : List ℕ) (s : Str)
    → All (IsReadable f) chs
    → skip f (length chs) (text f chs ++ s) ≡ (0, s)
unfolding skip text
skip-text f [] s r = refl
skip-text f (ch ∷ chs) s r =
    let (e, m) = eat-text f ch (text f chs ++ s) r.0 in
    rw (append_assoc (encoded f ch) (text f chs) s, m, e) (skip-text f chs s r.1)

text-length : (f : Flags) (chs : List ℕ) → length chs ≤ length (text f chs)
unfolding text
text-length f [] = omega arith
text-length f (ch ∷ chs) =
    let (c, t, e) = encoded_cons f ch in
    rw e (omega (arith, text-length f chs, length-append t (text f chs)))

nothing-of : (s : Str) → length s ≤ 0 → s ≡ []
nothing-of [] h = refl
nothing-of (c ∷ s) h = elim h [ ]

-- In a text of readable characters, `substr` takes characters by their positions.
pub substr-text :
    (f : Flags) (ps qs rs : List ℕ)
    → All (IsReadable f) ps
    → All (IsReadable f) qs
    → substr f (text f ps ++ (text f qs ++ text f rs)) (length ps) (length qs) ≡ text f qs
unfolding substr
substr-text f ps qs rs ra rb =
    let tail = text f qs ++ text f rs in
    let l = length-append (text f qs) (text f rs) in
    rw (skip-text f ps tail ra) (elim (Bool-cases (leb (length tail) (length qs))) [
      | inl e ↦
          let n : text f rs ≡ [] = nothing-of (text f rs) (ground (arith, l, text-length f qs)) in
          rw (e, n) (append-nil (text f qs))
      | inr e ↦
          let k : length tail - length (text f rs) ≡ length (text f qs) = omega arith in
          rw (e, skip-text f qs (text f rs) rb, k)
            (take_exact (length (text f qs)) (text f qs) (text f rs) refl)
    ])

-- `charAt` gives the character at a position.
pub char_at-text :
    (f : Flags) (ps : List ℕ) (ch : ℕ) (rs : List ℕ)
    → All (IsReadable f) ps
    → IsReadable f ch
    → char_at f (text f ps ++ (encoded f ch ++ text f rs)) (length ps) ≡ ch
unfolding char_at
char_at-text f ps ch rs ra r =
    let (e, m) = eat-text f ch (text f rs) r in
    rw (skip-text f ps (encoded f ch ++ text f rs) ra, m, e) refl
