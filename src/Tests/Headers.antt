-- ===== src/Tests/Headers.antt =====
-- Header fields and strings at a few values.
use afl.Base.{◌≡◌, refl, true, none, some, [], ◌∷◌, ◌++◌}
use afl.Base.Str.{Str, bytes}
use afl.Text.Char.{char_is_space, char_to_upper, char_is_lower, char_to_lower, char_is_upper}
use afl.Text.String.{
  str_trim, str_ltrim, str_rtrim, find, starts_with, str_ucfirst, ucfirst_loop, str_remove,
  str_nth_word_rest, skip_words, skip_word,
}
use afl.Net.HeaderField.{
  HeaderField, no_mode, get_address_value, get_primary_value, get_secondary_value,
  enumerate_secondary_values, checked_address, first_value, extract_loop, scan_byte,
}
use afl.Net.HeaderField.Scanned.{fields_text}
use afl.Net.HeaderField.Quoted.{secondary_values-fields_text}

abbrev from : Str → HeaderField
from s = record { name = bytes "From"; value = s }

addresses :
    (get_address_value (from (bytes "add@ress (Na (me)")) ≡ some (bytes "add@ress"))
    × (get_address_value (from (bytes "Na, me <add@ress>")) ≡ some (bytes "add@ress"))
    × (get_address_value (from (bytes "a@b, c@d")) ≡ some (bytes "a@b"))
    × (get_address_value (from (bytes "<a b@c>")) ≡ none)
unfolding get_address_value get_primary_value extract_loop scan_byte str_trim str_ltrim str_rtrim
    char_is_space find starts_with checked_address
addresses = (refl, refl, refl, refl)

capitals : str_ucfirst (bytes "content-TYPE x") ≡ bytes "Content-Type X"
unfolding str_ucfirst ucfirst_loop char_is_space char_to_upper char_is_lower char_to_lower
    char_is_upper
capitals = refl

removed : str_remove (bytes "a::b") (bytes "::") ≡ (true, bytes "b")
unfolding str_remove find starts_with
removed = refl

from_word : str_nth_word_rest (bytes " a  b c") 1 ≡ bytes "b c"
unfolding str_nth_word_rest skip_words skip_word str_ltrim char_is_space
from_word = refl

abbrev charset : HeaderField
charset = record { name = bytes "Charset"; value = bytes "a;\"b\\" }

abbrev typed : HeaderField
typed = record {
  name = bytes "Content-Type";
  value = bytes "text/plain" ++ fields_text (charset ∷ []);
}

secondary_values-fields_text_example :
    (get_primary_value no_mode typed ≡ str_trim (bytes "text/plain"))
    × (enumerate_secondary_values no_mode typed ≡ charset ∷ [])
    × (get_secondary_value no_mode (bytes "charset") typed
        ≡ first_value (bytes "charset") (charset ∷ []))
unfolding str_trim str_ltrim str_rtrim char_is_space
secondary_values-fields_text_example =
    secondary_values-fields_text no_mode refl (bytes "Content-Type") (bytes "text/plain")
      (bytes "charset") (charset ∷ []) refl
      (refl, (refl, (refl, (refl, (refl, (refl, (refl, (refl, (refl, (refl, tt))))))))))
      (
        (
          (refl, (refl, (refl, (refl, (refl, (refl, (refl, tt))))))),
          (refl, (refl, (refl, (refl, (refl, (refl, (refl, tt))))))),
          refl,
          refl,
        ),
        tt,
      )
