-- ===== src/Tests/Numbers.antt =====
-- Numbers as text.
use afl.Base.{◌≡◌, some, arith}
use afl.Base.Int.{negsuc}
use afl.Text.Number.{format_signed, str_to_integer}
use afl.Text.Number.RoundTrip.{str_to_integer-format_signed}

str_to_integer-format_signed_example : str_to_integer (format_signed (negsuc 41)) ≡ some (negsuc 41)
str_to_integer-format_signed_example = str_to_integer-format_signed (negsuc 41) (omega arith)
