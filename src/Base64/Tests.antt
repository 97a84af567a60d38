-- ===== src/Base64/Tests.antt =====
-- Runs of the Base64 routines, and their theorems at inputs.
use argon.Base.{◌++◌, ◌↔◌, ◌≤◌, ◌<◌, length, arith, ◌≡◌, refl, some, none, codes}
use argon.Base64.Chars.{b64_char_to_byte-byte_to_char_iff, b64_char_to_byte_high}
use argon.Base64.Length.{length-to_base64, to_base64-none_iff}
use argon.Base64.RoundTrip.{dollar_stops, from_base64-to_base64}
use argon.Base64.{
  b64len, b64_byte_to_char, b64_char_to_byte, char_to_int, to_base64_tail, to_loop, to_base64,
  from_base64,
}

some_salt : to_base64 20 (codes "somesalt") ≡ some (codes "c29tZXNhbHQ", 11)
unfolding to_base64 to_loop to_base64_tail b64_byte_to_char
some_salt = refl

decodes : from_base64 8 (codes "c29tZXNhbHQ$") ≡ some (codes "somesalt", 8, codes "$")
unfolding from_base64 b64_char_to_byte char_to_int
decodes = refl

too_small : from_base64 7 (codes "c29tZXNhbHQ$") ≡ none
unfolding from_base64 b64_char_to_byte char_to_int
too_small = refl

loose_bits : from_base64 8 (codes "c29tZXNhbHR$") ≡ none
unfolding from_base64 b64_char_to_byte char_to_int
loose_bits = refl

b64_char_to_byte-byte_to_char_iff_example :
    (b64_char_to_byte (char_to_int 97) ≡ 26) ↔ (b64_byte_to_char 26 ≡ 97)
b64_char_to_byte-byte_to_char_iff_example =
    b64_char_to_byte-byte_to_char_iff 97 26 (omega arith) (omega arith)

b64_char_to_byte_high_example : b64_char_to_byte (char_to_int 0xe9) ≡ 63
b64_char_to_byte_high_example = b64_char_to_byte_high 0xe9 (omega arith) (omega arith)

length-to_base64_example :
    (length (codes "c29tZXNhbHQ") ≡ 11) × (11 ≡ b64len (length (codes "somesalt"))) × (11 < 20)
length-to_base64_example = length-to_base64 (codes "somesalt") 20 (omega arith) some_salt

to_base64-none_iff_example :
    (to_base64 11 (codes "somesalt") ≡ none) ↔ (11 ≤ length (to_loop (codes "somesalt") 0 0))
to_base64-none_iff_example = to_base64-none_iff (codes "somesalt") 11 (omega arith)

from_base64-to_base64_example :
    from_base64 8 (codes "c29tZXNhbHQ" ++ codes "$")
    ≡ some (codes "somesalt", length (codes "somesalt"), codes "$")
from_base64-to_base64_example =
    from_base64-to_base64 (codes "somesalt") (codes "$") 8 20 (omega arith) dollar_stops
      (omega arith) some_salt
