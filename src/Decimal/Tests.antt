-- ===== src/Decimal/Tests.antt =====
-- Runs of the decimal routines, and their theorems at inputs.
use argon.Base.{◌≡◌, ◌↔◌, ◌≤◌, refl, some, none, codes, length}
use argon.Base.{◌++◌, ulong_max}
use argon.Decimal.{print_loop, print_ulong, numlen, decimal_loop, decimal_finish}
use argon.Decimal.{decode_decimal}
use argon.Decimal.Print.{length-print_ulong}
use argon.Decimal.Decode.{NoDigit, decode_decimal-eq_iff}

reads : decode_decimal (codes "65536,t=2") ≡ some (65536, codes ",t=2")
unfolding decode_decimal decimal_loop decimal_finish
reads = refl

largest : decode_decimal (codes "18446744073709551615$") ≡ some (ulong_max, codes "$")
unfolding decode_decimal decimal_loop decimal_finish
largest = refl

overflow : decode_decimal (codes "18446744073709551616$") ≡ none
unfolding decode_decimal decimal_loop decimal_finish
overflow = refl

leading_zero : decode_decimal (codes "01") ≡ none
unfolding decode_decimal decimal_loop decimal_finish
leading_zero = refl

prints : print_ulong 19 ≡ codes "19"
unfolding print_ulong print_loop
prints = refl

decode_decimal-eq_iff_example :
    (decode_decimal (codes "19$") ≡ some (19, codes "$"))
    ↔ ((codes "19$" ≡ print_ulong 19 ++ codes "$") × (19 ≤ ulong_max) × NoDigit (codes "$"))
decode_decimal-eq_iff_example = decode_decimal-eq_iff (codes "19$") 19 (codes "$")

length-print_ulong_example : length (print_ulong 1234) ≡ numlen 1234
length-print_ulong_example = length-print_ulong 1234
