-- ===== src/Text/String/Words.antt =====
-- The words of a string.
use afl.Base.{ℕ, zero, suc, ◌≡◌, ◌≢◌, refl, ap, ◌∙◌, false, List, [], ◌∷◌, ◌++◌, All}
use afl.Base.Str.{Str}
use afl.Text.Char.{char_is_space}
use afl.Text.String.{str_ltrim, skip_word, skip_words, until_space, str_nth_word}

-- Words, each with a space behind it.
abbrev pub words_text : List Str → Str
words_text [] = []
words_text (w ∷ ws) = w ++ (32 ∷ words_text ws)

abbrev pub IsWord : Str → Type 0
IsWord w = (w ≢ []) × All (λ c. char_is_space c ≡ false) w

abbrev pub nth : List Str → ℕ → Str
nth [] i = []
nth (w ∷ ws) zero = w
nth (w ∷ ws) (suc i) = nth ws i

at_word : (ws : List Str) → All IsWord ws → str_ltrim (words_text ws) ≡ words_text ws
unfolding str_ltrim
at_word [] h = refl
at_word ([] ∷ ws) h = absurd (h.0.0 refl)
at_word ((c ∷ w) ∷ ws) h = rw h.0.1.0 refl

skip_word-append :
    (w s : Str) → All (λ c. char_is_space c ≡ false) w → skip_word (w ++ (32 ∷ s)) ≡ 32 ∷ s
unfolding skip_word char_is_space
skip_word-append [] s h = refl
skip_word-append (c ∷ w) s h = rw h.0 (skip_word-append w s h.1)

until_space-append :
    (w s : Str) → All (λ c. char_is_space c ≡ false) w → until_space (w ++ (32 ∷ s)) ≡ w
unfolding until_space char_is_space
until_space-append [] s h = refl
until_space-append (c ∷ w) s h = rw h.0 (ap (λ x. c ∷ x) (until_space-append w s h.1))

skip-word :
    (w : Str) (ws : List Str)
    → IsWord w
    → All IsWord ws
    → str_ltrim (skip_word (words_text (w ∷ ws))) ≡ words_text ws
skip-word w ws h k =
    ap str_ltrim (skip_word-append w (words_text ws) h.1)
    ∙ (unfold str_ltrim char_is_space in at_word ws k)

no_word : str_ltrim (skip_word []) ≡ []
unfolding str_ltrim skip_word
no_word = refl

skip_words-words_text :
    (i : ℕ) (ws : List Str) → All IsWord ws → until_space (skip_words i (words_text ws)) ≡ nth ws i
unfolding skip_words
skip_words-words_text zero [] h = unfold until_space in refl
skip_words-words_text zero (w ∷ ws) h = until_space-append w (words_text ws) h.0.1
skip_words-words_text (suc i) [] h =
    ap (λ s. until_space (skip_words i s)) no_word ∙ skip_words-words_text i [] tt
skip_words-words_text (suc i) (w ∷ ws) h =
    ap (λ s. until_space (skip_words i s)) (skip-word w ws h.0 h.1) ∙ skip_words-words_text i ws h.1

-- A word of a text is the one that stands at the number, and there are none behind the last one.
pub str_nth_word-words_text :
    (ws : List Str) (i : ℕ) → All IsWord ws → str_nth_word (words_text ws) i ≡ nth ws i
unfolding str_nth_word
str_nth_word-words_text ws i h =
    ap (λ s. until_space (skip_words i s)) (at_word ws h) ∙ skip_words-words_text i ws h
