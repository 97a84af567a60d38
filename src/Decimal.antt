-- ===== src/Decimal.antt =====
-- Decimal numbers in argon2/src/encoding.c: `decode_decimal`, `numlen`, and the C library's
-- `sprintf(tmp, "%lu", x)`. `unsigned long` has 64 bits.
pub mod Print
pub mod Decode
pub mod Tests
use argon.Base.{ℕ, zero, suc, ◌+◌, ◌-◌, ◌*◌, ◌/◌, ◌%◌, Bool, true, false, not, ◌&&◌, ◌||◌}
use argon.Base.{Option, none, some, [], ◌∷◌, Bytes, length, ltb, ◌==◌, if◌then◌else◌}
use argon.Base.{u64, ulong_max}

-- The digits of `n` in front of `out`; a round for each digit.
unfoldable pub print_loop : ℕ → ℕ → Bytes → Bytes
print_loop zero n out = out
print_loop (suc fuel) n out =
    let more = print_loop fuel (n / 10) ((b'0' + n % 10) ∷ out) in
    if ltb n 10 then (b'0' + n) ∷ out else more

-- What `%lu` prints.
unfoldable pub print_ulong : ℕ → Bytes
print_ulong n = print_loop (suc n) n []

unfoldable pub numlen_loop : ℕ → ℕ → ℕ → ℕ
numlen_loop zero num len = len
numlen_loop (suc fuel) num len =
    let more = numlen_loop fuel (num / 10) (len + 1) in if ltb num 10 then len else more

unfoldable pub numlen : ℕ → ℕ
numlen num = numlen_loop (suc num) num 1

abbrev pub is_digit : ℕ → Bool
is_digit c = not (ltb c b'0' || ltb b'9' c)

-- The loop of `decode_decimal`: the value and what is left, or `none` on overflow.
unfoldable pub decimal_loop : Bytes → ℕ → Option (ℕ × Bytes)
decimal_loop [] acc = some (acc, [])
decimal_loop (c ∷ str) acc =
    let d = c - b'0' in
    let acc' = u64 (acc * 10) in
    let rest = decimal_loop str (u64 (acc' + d)) in
    if ltb c b'0' || ltb b'9' c
    then some (acc, c ∷ str)
    else if ltb (ulong_max / 10) acc
    then none
    else if ltb (ulong_max - acc') d
    then none
    else rest

-- The tests behind the loop: `str == orig`, and `*orig == '0' && str != orig + 1`.
unfoldable pub decimal_finish : Bytes → ℕ → Bytes → Option (ℕ × Bytes)
decimal_finish [] acc str = none
decimal_finish (c ∷ orig) acc str =
    if length str == suc (length orig) || (c == b'0' && not (length str == length orig))
    then none
    else some (acc, str)

abbrev pub finish_with : Bytes → Option (ℕ × Bytes) → Option (ℕ × Bytes)
finish_with orig none = none
finish_with orig (some (acc, str)) = decimal_finish orig acc str

unfoldable pub decode_decimal : Bytes → Option (ℕ × Bytes)
decode_decimal str = finish_with str (decimal_loop str 0)
