-- ===== src/Base64/Chars.antt =====
-- The two character maps are inverse to one another on the 64 digits.
use argon.Base.{ℕ, ◌≤◌, ◌<◌, ◌≡◌, ◌≢◌, ◌⊎◌, ◌↔◌, refl, arith, Bool, true, ◌&&◌, ◌||◌, not}
use argon.Base.{ltb, ◌==◌, all_below, all_below_sound}
use argon.Base64.{b64_byte_to_char, b64_char_to_byte, char_to_int}

abbrev digit_test : ℕ → Bool
digit_test x =
    b64_char_to_byte (char_to_int (b64_byte_to_char x)) == x
    && ltb (b64_byte_to_char x) 128
    && not (b64_byte_to_char x == 0)

digit_table : all_below 64 digit_test ≡ true
unfolding all_below b64_byte_to_char b64_char_to_byte char_to_int
digit_table = refl

-- The character of a digit is read back as the digit, and is ASCII and not the terminating zero.
pub byte_to_char_lem :
    (x : ℕ)
    → x < 64
    → (b64_char_to_byte (char_to_int (b64_byte_to_char x)) ≡ x)
      × (b64_byte_to_char x < 128)
      × (b64_byte_to_char x ≢ 0)
byte_to_char_lem x h = let t = all_below_sound 64 digit_test x digit_table h in ground arith

abbrev char_test : ℕ → Bool
char_test c =
    b64_char_to_byte (char_to_int c) == 255
    || (ltb (b64_char_to_byte (char_to_int c)) 64
        && ltb c 128
        && b64_byte_to_char (b64_char_to_byte (char_to_int c)) == c)
    || (ltb 127 c && b64_char_to_byte (char_to_int c) == 63)

char_table : all_below 256 char_test ≡ true
unfolding all_below b64_byte_to_char b64_char_to_byte char_to_int
char_table = refl

-- Every byte is no digit, or the ASCII character of its digit, or is read as 63 and not ASCII.
pub char_cases :
    (c : ℕ)
    → c < 256
    → (b64_char_to_byte (char_to_int c) ≡ 255)
      ⊎ ((b64_char_to_byte (char_to_int c) < 64)
          × (c < 128)
          × (b64_byte_to_char (b64_char_to_byte (char_to_int c)) ≡ c))
      ⊎ ((128 ≤ c) × (b64_char_to_byte (char_to_int c) ≡ 63))
char_cases c h = let t = all_below_sound 256 char_test c char_table h in ground arith

-- On ASCII the two maps are inverse: a character `c` below 128 is read as the digit `x` below 64
-- exactly when `x` is written as `c`.
pub b64_char_to_byte-byte_to_char_iff :
    (c x : ℕ) → c < 128 → x < 64 → (b64_char_to_byte (char_to_int c) ≡ x) ↔ (b64_byte_to_char x ≡ c)
b64_char_to_byte-byte_to_char_iff c x hc hx =
    (λ e. ground (arith, char_cases c (omega arith)), λ e. rw e at ((byte_to_char_lem x hx).0))

abbrev high_test : ℕ → Bool
high_test c = ltb c 128 || b64_char_to_byte (char_to_int c) == 63

high_table : all_below 256 high_test ≡ true
unfolding all_below b64_byte_to_char b64_char_to_byte char_to_int
high_table = refl

-- A byte from 128 to 255, which is no Base64 character, is not refused: it is read like '/', as 63.
pub b64_char_to_byte_high : (c : ℕ) → 128 ≤ c → c < 256 → b64_char_to_byte (char_to_int c) ≡ 63
b64_char_to_byte_high c lo hi =
    let t = all_below_sound 256 high_test c high_table hi in ground arith
