-- ===== src/Tests/Json.antt =====
-- The JSON parser and writer at a few values.
use afl.Base.{◌≡◌, refl, arith, [], ◌∷◌, ◌++◌, Option, none, length, true}
use afl.Base.Int.{negsuc}
use afl.Base.Str.{Str, bytes, str_eq}
use afl.Except.{ok, err, file_format, syntax_error, file_too_short}
use afl.Data.Value.{
  Value, null, string, integer, boolean, vector, hash, nil, cons, end, field, push_back,
}
use afl.Json.Writer.{create, visit, before, after, quoted, escape_all, escaped, upper_digit, spaces}
use afl.Text.Number.{
  format_signed, format_unsigned, format_loop, str_to_integer, strtol, read_digits, read_sign,
  skip_while, c_str, isspace, post_validate,
}
use afl.Charset.Utf8.{append, encoded}
use afl.Json.Parser.{
  parse, parse_complete, parse_fuel, skip_whitespace, value_of, start, array, elements, object,
  members, keyword, number, number_text, after_number, string_from, next, unquoted, hex_value,
  set_field,
}
use afl.Json.RoundTrip.{IsWritable, read_back, parse-visit_lem}
use afl.Json.Ends.{Leaves, parse-Leaves}

-- No number is a floating-point number here.
abbrev no_float : Str → Option Value
no_float s = none

abbrev point : Value
point = hash (
    field (bytes "x") (integer (negsuc 2))
      (field (bytes "y") (vector (cons (string (34 ∷ 10 ∷ 1 ∷ [])) (cons (boolean true) nil))) end))

one_line : (visit point (create 0 0)).0 ≡ bytes "{\"x\":-3,\"y\":[\"\\\"\\n\\u0001\",true]}"
unfolding visit before after quoted escape_all escaped upper_digit spaces format_signed
    format_unsigned format_loop
one_line = refl

-- A line break before each element of what does not fit into four columns, and none in an empty array.
broken : (visit (vector (cons (vector nil) (cons null nil))) (create 4 0)).0 ≡ bytes "[[],\nnull\n]"
unfolding visit before after quoted escape_all escaped upper_digit spaces format_signed
    format_unsigned format_loop
broken = refl

-- White space, a name that stands twice, and escapes.
spaced :
    parse_complete
      (bytes "s")
      no_float
      (bytes " { \"a\" : [ 1 , null ] , \"a\" : \"\\u0041\\/\" } ")
    ≡ ok (hash (field (bytes "a") (string (bytes "A/")) end))
unfolding parse_complete parse parse_fuel skip_whitespace value_of start array elements object
    members keyword number number_text after_number string_from next unquoted hex_value set_field
    push_back str_eq str_to_integer strtol read_digits read_sign skip_while c_str isspace
    post_validate append encoded
spaced = refl

trailing :
    parse_complete (bytes "s") no_float (bytes "true 2")
    ≡ err (file_format (bytes "s") syntax_error)
unfolding parse_complete parse parse_fuel skip_whitespace value_of start array elements object
    members keyword number number_text after_number string_from next unquoted hex_value set_field
    push_back str_eq str_to_integer strtol read_digits read_sign skip_while c_str isspace
    post_validate append encoded
trailing = refl

cut :
    parse_complete (bytes "s") no_float (bytes "[false,")
    ≡ err (file_format (bytes "s") file_too_short)
unfolding parse_complete parse parse_fuel skip_whitespace value_of start array elements object
    members keyword number number_text after_number string_from next unquoted hex_value set_field
    push_back str_eq str_to_integer strtol read_digits read_sign skip_while c_str isspace
    post_validate append encoded
cut = refl

parse-visit_lem_example :
    parse (bytes "s") no_float ((visit point (create 0 2)).0 ++ bytes ";")
    ≡ ok (read_back point, bytes ";")
unfolding IsWritable
parse-visit_lem_example =
    parse-visit_lem (bytes "s") no_float point (create 0 2) (bytes ";")
      (omega arith, ((tt, (tt, tt)), tt)) (refl, refl)

parse-Leaves_example : Leaves (length (bytes "[[")) (parse (bytes "s") no_float (bytes "[["))
parse-Leaves_example = parse-Leaves (bytes "s") no_float (bytes "[[")
