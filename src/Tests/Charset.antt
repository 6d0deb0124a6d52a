-- ===== src/Tests/Charset.antt =====
-- The encodings at a few texts.
use afl.Base.{◌≡◌, refl, arith}
use afl.Base.Str.{bytes}
use afl.Charset.Base64.{encode, decode}
use afl.Charset.Base64.RoundTrip.{decode-encode}
use afl.Charset.Url
use afl.Charset.QuotedPrintable
use afl.Charset.Url.{unescaped}
use afl.Text.Hex.{get_hex_digit_value}
use afl.Charset.Url.{url_decode-encode}

decode-encode_example : decode (encode (bytes "Hello")) ≡ bytes "Hello"
decode-encode_example =
    decode-encode (bytes "Hello")
      (omega arith, (omega arith, (omega arith, (omega arith, (omega arith, tt)))))

url_decode-encode_example : Url.decode (Url.encode (bytes "a b%")) ≡ bytes "a b%"
url_decode-encode_example =
    url_decode-encode (bytes "a b%") (omega arith, (omega arith, (omega arith, (omega arith, tt))))

-- What is no pair of digits stands for itself.
quoted : QuotedPrintable.decode (bytes "=41=4g=") ≡ bytes "A=4g="
unfolding QuotedPrintable.decode get_hex_digit_value
quoted = refl
