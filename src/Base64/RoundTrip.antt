-- ===== src/Base64/RoundTrip.antt =====
-- Decoding what was encoded gives the bytes back.
use argon.Base.{ℕ, ◌+◌, ◌-◌, ◌*◌, ◌/◌, ◌%◌, ◌^◌, ◌≤◌, ◌<◌, ◌≡◌, ◌∙◌, refl, arith}
use argon.Base.{Option, some, [], ◌∷◌, ◌++◌, append_assoc, append-nil, length}
use argon.Base.{bit_and, bit_and_mask, Bytes, IsBytes, le→ltb, u32}
use native.Mathlib.Nat.{add-zero, zero-add}
use argon.Base64.{b64_byte_to_char, b64_char_to_byte, char_to_int, to_loop, to_base64, from_finish}
use argon.Base64.{from_loop, from_base64}
use argon.Base64.Chars.{byte_to_char_lem}

-- What follows holds no further digit.
abbrev pub Stops : Bytes → Type 0
Stops [] = Unit
Stops (c ∷ rest) = b64_char_to_byte (char_to_int c) ≡ 255

pub dollar_stops : b64_char_to_byte (char_to_int b'$') ≡ 255
unfolding b64_char_to_byte char_to_int
dollar_stops = refl

from_loop_stop :
    (cap : ℕ) (rest : Bytes) (a j len : ℕ) (buf : Bytes)
    → Stops rest
    → from_loop cap rest a j len buf ≡ from_finish a j len buf rest
unfolding from_loop
from_loop_stop cap [] a j len buf h = refl
from_loop_stop cap (c ∷ rest) a j len buf h = rw h

-- One digit, where no byte is complete.
from_loop_more :
    (cap d : ℕ) (rest : Bytes) (a j len : ℕ) (buf : Bytes)
    → d < 64
    → j + 6 < 8
    → from_loop cap (b64_byte_to_char d ∷ rest) a j len buf
      ≡ from_loop cap rest (u32 (u32 (a * 2 ^ 6) + d)) (j + 6) len buf
unfolding from_loop
from_loop_more cap d rest a j len buf h lt = rw ((byte_to_char_lem d h).0) (ground arith)

-- One digit that completes a byte.
from_loop_store :
    (cap d : ℕ) (rest : Bytes) (a j len : ℕ) (buf : Bytes)
    → d < 64
    → 8 ≤ j + 6
    → len < cap
    → from_loop cap (b64_byte_to_char d ∷ rest) a j len buf
      ≡ from_loop cap rest
          (u32 (u32 (a * 2 ^ 6) + d))
          (j + 6 - 8)
          (len + 1)
          (buf ++ bit_and (u32 (u32 (a * 2 ^ 6) + d) / 2 ^ (j + 6 - 8)) 0xff ∷ [])
unfolding from_loop
from_loop_store cap d rest a j len buf h le room = rw ((byte_to_char_lem d h).0) (ground arith)

-- The decoder behind its loop, with no bit left that counts.
from_finish_zero :
    (j a len : ℕ) (buf rest : Bytes)
    → j ≤ 4
    → bit_and a (u32 (2 ^ j) - 1) ≡ 0
    → from_finish a j len buf rest ≡ some (buf, len, rest)
unfolding from_finish
from_finish_zero j a len buf rest le e = rw e (rw (le→ltb 4 j le))

abbrev digit : ℕ → ℕ
digit x = bit_and x 0x3f

digit-lt : (x : ℕ) → digit x < 64
digit-lt x = omega (arith, bit_and_mask 6 x)

-- What the decoder holds after one more digit.
abbrev shifted : ℕ → ℕ → ℕ
shifted a x = u32 (u32 (a * 2 ^ 6) + digit x)

result_eq :
    (buf bs rest : Bytes) {v w m n : ℕ}
    → v ≡ w
    → m ≡ n
    → ◌≡◌ {A = Option (Bytes × ℕ × Bytes)}
        (some (buf ++ v ∷ bs, m, rest))
        (some (buf ++ w ∷ bs, n, rest))
result_eq buf bs rest p q = cc

-- One or two bytes were completed: they stand before what the rest of the loop adds.
stored_eq :
    (buf bs rest : Bytes) {v v' w w' m n : ℕ}
    → v ≡ w
    → v' ≡ w'
    → m ≡ n
    → ◌≡◌ {A = Option (Bytes × ℕ × Bytes)}
        (some ((buf ++ v ∷ []) ++ v' ∷ bs, m, rest))
        (some (buf ++ w ∷ w' ∷ bs, n, rest))
stored_eq buf bs rest p p' q = rw (append_assoc, p, p', q)

stored_two_eq :
    (buf bs rest : Bytes) {v v' w w' m n : ℕ}
    → v ≡ w
    → v' ≡ w'
    → m ≡ n
    → ◌≡◌ {A = Option (Bytes × ℕ × Bytes)}
        (some (((buf ++ v ∷ []) ++ v' ∷ []) ++ bs, m, rest))
        (some (buf ++ w ∷ w' ∷ bs, n, rest))
stored_two_eq buf bs rest p p' q = simp append_assoc (rw (p, p', q))

module _ (cap : ℕ) (rest : Bytes) (stops : Stops rest) where
  mutual
    unfolding to_loop

    -- Both sides stand between bytes.
    aligned :
        (bs : Bytes) (acc a len : ℕ) (buf : Bytes)
        → IsBytes bs
        → len + length bs ≤ cap
        → from_loop cap (to_loop bs acc 0 ++ rest) a 0 len buf
          ≡ some (buf ++ bs, len + length bs, rest)
    aligned [] acc a len buf h room =
        from_loop_stop cap rest a 0 len buf stops
        ∙ (from_finish_zero 0 a len buf rest (omega arith) (omega (arith, bit_and_mask 0 a))
            ∙ rw (append-nil, add-zero))
    aligned (b ∷ bs) acc a len buf h room =
        let acc' = u32 (u32 (acc * 2 ^ 8) + b) in
        let x = acc' / 2 ^ 2 in
        from_loop_more cap (digit x) _ a 0 len buf (digit-lt x) (omega arith)
        ∙ (two_left bs acc' (shifted a x) len buf h.1 (omega arith)
            ∙ result_eq buf bs rest (omega (arith, bit_and_mask 6 x)) (omega arith))

    -- The encoder has two bits to write, the decoder six bits of the byte.
    two_left :
        (bs : Bytes) (acc a len : ℕ) (buf : Bytes)
        → IsBytes bs
        → len + 1 + length bs ≤ cap
        → from_loop cap (to_loop bs acc 2 ++ rest) a 6 len buf
          ≡ some (buf ++ (4 * (a % 64) + acc % 4) ∷ bs, len + 1 + length bs, rest)
    two_left [] acc a len buf h room =
        let x = u32 (acc * 2 ^ 4) in
        let a' = shifted a x in
        from_loop_store cap (digit x) rest a 6 len buf (digit-lt x) (omega arith) (omega arith)
        ∙ (from_loop_stop cap rest a' 4 (len + 1) _ stops
            ∙ (from_finish_zero 4 a' (len + 1) _ rest (omega arith)
                  (omega (arith, bit_and_mask 6 x, bit_and_mask 4 a'))
                ∙ result_eq buf [] rest
                    (omega (arith, bit_and_mask 6 x, bit_and_mask 8 (a' / 2 ^ 4))) (omega arith)))
    two_left (b ∷ bs) acc a len buf h room =
        let acc' = u32 (u32 (acc * 2 ^ 8) + b) in
        let x = acc' / 2 ^ 4 in
        let a' = shifted a x in
        from_loop_store cap (digit x) _ a 6 len buf (digit-lt x) (omega arith) (omega arith)
        ∙ (four_left bs acc' a' (len + 1) _ h.1 (omega arith)
            ∙ stored_eq buf bs rest (omega (arith, bit_and_mask 6 x, bit_and_mask 8 (a' / 2 ^ 4)))
                (omega (arith, bit_and_mask 6 x)) (omega arith))

    -- The encoder and the decoder have four bits of the byte each.
    four_left :
        (bs : Bytes) (acc a len : ℕ) (buf : Bytes)
        → IsBytes bs
        → len + 1 + length bs ≤ cap
        → from_loop cap (to_loop bs acc 4 ++ rest) a 4 len buf
          ≡ some (buf ++ (16 * (a % 16) + acc % 16) ∷ bs, len + 1 + length bs, rest)
    four_left [] acc a len buf h room =
        let x = u32 (acc * 2 ^ 2) in
        let a' = shifted a x in
        from_loop_store cap (digit x) rest a 4 len buf (digit-lt x) (omega arith) (omega arith)
        ∙ (from_loop_stop cap rest a' 2 (len + 1) _ stops
            ∙ (from_finish_zero 2 a' (len + 1) _ rest (omega arith)
                  (omega (arith, bit_and_mask 6 x, bit_and_mask 2 a'))
                ∙ result_eq buf [] rest
                    (omega (arith, bit_and_mask 6 x, bit_and_mask 8 (a' / 2 ^ 2))) (omega arith)))
    four_left (b ∷ bs) acc a len buf h room =
        let acc' = u32 (u32 (acc * 2 ^ 8) + b) in
        let x = acc' / 2 ^ 6 in
        let y = acc' / 2 ^ 0 in
        let a' = shifted a x in
        let a'' = shifted a' y in
        from_loop_store cap (digit x) _ a 4 len buf (digit-lt x) (omega arith) (omega arith)
        ∙ (from_loop_store cap (digit y) _ a' 2 (len + 1) _ (digit-lt y) (omega arith) (omega arith)
            ∙ (aligned bs acc' a'' (len + 1 + 1) _ h.1 (omega arith)
                ∙ stored_two_eq buf bs rest
                    (omega (arith, bit_and_mask 6 x, bit_and_mask 8 (a' / 2 ^ 2)))
                    (omega
                      (arith, bit_and_mask 6 x, bit_and_mask 6 y, bit_and_mask 8 (a'' / 2 ^ 0)))
                    (omega arith)))

to_base64_chars :
    (bs : Bytes) (dst_len : ℕ) {chars : Bytes} {n : ℕ}
    → to_base64 dst_len bs ≡ some (chars, n)
    → chars ≡ to_loop bs 0 0
unfolding to_base64
to_base64_chars bs dst_len e = ground arith

pub from_base64-to_loop :
    (bs rest : Bytes) (max_len : ℕ)
    → IsBytes bs
    → Stops rest
    → length bs ≤ max_len
    → from_base64 max_len (to_loop bs 0 0 ++ rest) ≡ some (bs, length bs, rest)
unfolding from_base64
from_base64-to_loop bs rest max_len h stops room =
    aligned max_len rest stops bs 0 0 0 [] h (omega arith) ∙ rw (zero-add (length bs))

-- Decoding gives back the bytes that were encoded, their number, and what follows in the text, where
-- that begins with no digit and the buffer holds the bytes.
pub from_base64-to_base64 :
    (bs rest : Bytes) (max_len dst_len : ℕ) {chars : Bytes} {n : ℕ}
    → IsBytes bs
    → Stops rest
    → length bs ≤ max_len
    → to_base64 dst_len bs ≡ some (chars, n)
    → from_base64 max_len (chars ++ rest) ≡ some (bs, length bs, rest)
from_base64-to_base64 bs rest max_len dst_len h stops room e =
    rw (to_base64_chars bs dst_len e) (from_base64-to_loop bs rest max_len h stops room)
