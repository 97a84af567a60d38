-- ===== src/Base64.antt =====
-- The Base64 section of argon2/src/encoding.c: the constant-time comparisons, the two character
-- maps, `to_base64`, `from_base64` and `b64len`. Bytes and characters are numbers below 256, and
-- `unsigned` has 32 bits. A string is the list of its characters before the terminating zero.
pub mod Chars
pub mod Length
pub mod RoundTrip
pub mod Tests
use argon.Base.{
  ℕ, suc, ◌+◌, ◌-◌, ◌*◌, ◌/◌, ◌%◌, ◌^◌, ◌≡◌, Bool, Option, none, some, List, [], ◌∷◌, ◌++◌,
}
use argon.Base.{bit_and, bit_or, bit_xor, Bytes, length, ltb, leb, ◌==◌, if◌then◌else◌}
use argon.Base.{u8, u32, u64, sub32}

-- The macros `GT`, `GE`, `LT`, `LE` and `EQ`: 0xff for true, 0 for false.
gt_mask : ℕ → ℕ → ℕ
gt_mask x y = bit_and (sub32 y x / 2 ^ 8) 0xff

ge_mask : ℕ → ℕ → ℕ
unfolding gt_mask
ge_mask x y = bit_xor (gt_mask y x) 0xff

lt_mask : ℕ → ℕ → ℕ
unfolding gt_mask
lt_mask x y = gt_mask y x

le_mask : ℕ → ℕ → ℕ
unfolding ge_mask
le_mask x y = ge_mask y x

eq_mask : ℕ → ℕ → ℕ
eq_mask x y = bit_xor (bit_and (sub32 0 (bit_xor x y) / 2 ^ 8) 0xff) 0xff

unfoldable pub b64_byte_to_char : ℕ → ℕ
unfolding ge_mask lt_mask eq_mask
b64_byte_to_char x =
    bit_or
      (bit_or
        (bit_or
          (bit_or (bit_and (lt_mask x 26) (u32 (x + b'A')))
            (bit_and (bit_and (ge_mask x 26) (lt_mask x 52)) (u32 (x + (b'a' - 26)))))
          (bit_and (bit_and (ge_mask x 52) (lt_mask x 62)) (sub32 x (52 - b'0'))))
        (bit_and (eq_mask x 62) b'+'))
      (bit_and (eq_mask x 63) b'/')

-- An `int` is its 32-bit pattern. `char` is signed, as it is where the library is built by default.
unfoldable pub char_to_int : ℕ → ℕ
char_to_int b = if ltb b 128 then b else b + (2 ^ 32 - 256)

unfoldable pub b64_char_to_byte : ℕ → ℕ
unfolding ge_mask le_mask eq_mask
b64_char_to_byte c =
    let x =
      bit_or
        (bit_or
          (bit_or
            (bit_or (bit_and (bit_and (ge_mask c b'A') (le_mask c b'Z')) (sub32 c b'A'))
              (bit_and (bit_and (ge_mask c b'a') (le_mask c b'z')) (sub32 c (b'a' - 26))))
            (bit_and (bit_and (ge_mask c b'0') (le_mask c b'9')) (u32 (c + (52 - b'0')))))
          (bit_and (eq_mask c b'+') 62))
        (bit_and (eq_mask c b'/') 63) in
    bit_or x (bit_and (eq_mask x 0) (bit_xor (eq_mask c b'A') 0xff))

-- What `switch (len % 3)` of `b64len` adds for the bytes of an unfinished group.
unfoldable pub b64_tail : ℕ → ℕ
b64_tail r = if r == 2 then 3 else if r == 1 then 2 else 0

unfoldable pub b64len : ℕ → ℕ
b64len len = u64 (u64 (len / 3 * 4) + b64_tail (len % 3))

-- `while (acc_len >= 6)`: the characters written and the bits left.
unfoldable pub emit : ℕ → ℕ → Bytes × ℕ
emit acc (suc (suc (suc (suc (suc (suc n)))))) =
    let (chars, left) = emit acc n in (b64_byte_to_char (bit_and (acc / 2 ^ n) 0x3f) ∷ chars, left)
emit acc n = ([], n)

-- The loop over the source bytes, and the last character for the bits that are left.
unfoldable pub to_loop : Bytes → ℕ → ℕ → Bytes
unfolding emit
to_loop [] acc acc_len =
    if ltb 0 acc_len
    then b64_byte_to_char (bit_and (u32 (acc * 2 ^ (6 - acc_len))) 0x3f) ∷ []
    else []
to_loop (b ∷ src) acc acc_len =
    let acc' = u32 (u32 (acc * 2 ^ 8) + b) in
    let (chars, left) = emit acc' (acc_len + 8) in chars ++ to_loop src acc' left

-- What `switch (src_len % 3)` of `to_base64` adds.
unfoldable pub to_base64_tail : ℕ → ℕ
to_base64_tail r = if r == 2 then 3 else if r == 1 then 2 else 0

-- `none` is `(size_t)-1`; else the characters written before the zero, and their announced number.
unfoldable pub to_base64 : ℕ → Bytes → Option (Bytes × ℕ)
to_base64 dst_len src =
    let olen = u64 (u64 (length src / 3 * 4) + to_base64_tail (length src % 3)) in
    if leb dst_len olen then none else some (to_loop src 0 0, olen)

-- What `from_base64` does behind its loop: the result is the bytes, their number and the rest.
unfoldable pub from_finish : ℕ → ℕ → ℕ → Bytes → Bytes → Option (Bytes × ℕ × Bytes)
from_finish acc acc_len len buf src =
    if ltb 4 acc_len
    then none
    else if bit_and acc (u32 (2 ^ acc_len) - 1) == 0
    then some (buf, len, src)
    else none

-- The loop of `from_base64`; `cap` is the capacity `*dst_len`. At the terminating zero it stops,
-- since that is no Base64 character.
unfoldable pub from_loop : ℕ → Bytes → ℕ → ℕ → ℕ → Bytes → Option (Bytes × ℕ × Bytes)
unfolding from_finish
from_loop cap [] acc acc_len len buf = from_finish acc acc_len len buf []
from_loop cap (c ∷ src) acc acc_len len buf =
    let d = b64_char_to_byte (char_to_int c) in
    let acc' = u32 (u32 (acc * 2 ^ 6) + d) in
    let more = from_loop cap src acc' (acc_len + 6) len buf in
    let left = acc_len + 6 - 8 in
    let store =
      from_loop cap src acc' left (len + 1) (buf ++ bit_and (acc' / 2 ^ left) 0xff ∷ []) in
    if d == 0xff
    then from_finish acc acc_len len buf (c ∷ src)
    else if ltb (acc_len + 6) 8
    then more
    else if leb cap len
    then none
    else store

unfoldable pub from_base64 : ℕ → Bytes → Option (Bytes × ℕ × Bytes)
unfolding from_loop
from_base64 cap src = from_loop cap src 0 0 0 []
