-- ===== src/Base64/Length.antt =====
-- The number of characters that `to_base64` writes, and which they are.
use argon.Base.{ℕ, ◌+◌, ◌*◌, ◌/◌, ◌%◌, ◌^◌, ◌≤◌, ◌<◌, ◌≡◌, ◌↔◌, refl, arith}
use argon.Base.{some, none, [], ◌∷◌, length}
use argon.Base.{Bytes, leb, u32, u64, if◌then◌else◌}
use argon.Base64.{to_loop, to_base64, b64len, b64_tail, to_base64_tail}

mutual
  unfolding to_loop

  -- Six bits to a character, the last one filled up.
  pub length-to_loop : (bs : Bytes) (acc : ℕ) → length (to_loop bs acc 0) ≡ (8 * length bs + 5) / 6
  length-to_loop [] acc = refl
  length-to_loop (b ∷ bs) acc = omega (arith, length-to_loop_two bs (u32 (u32 (acc * 2 ^ 8) + b)))

  length-to_loop_two : (bs : Bytes) (acc : ℕ) → length (to_loop bs acc 2) ≡ (8 * length bs + 7) / 6
  length-to_loop_two [] acc = refl
  length-to_loop_two (b ∷ bs) acc =
      omega (arith, length-to_loop_four bs (u32 (u32 (acc * 2 ^ 8) + b)))

  length-to_loop_four : (bs : Bytes) (acc : ℕ) → length (to_loop bs acc 4) ≡ (8 * length bs + 9) / 6
  length-to_loop_four [] acc = refl
  length-to_loop_four (b ∷ bs) acc = omega (arith, length-to_loop bs (u32 (u32 (acc * 2 ^ 8) + b)))

b64_tail_lem : (n : ℕ) → n / 3 * 4 + b64_tail (n % 3) ≡ (8 * n + 5) / 6
unfolding b64_tail
b64_tail_lem n = ground arith

-- The announced length, where it fits 64 bits.
announced : (n : ℕ) → n < 2 ^ 60 → u64 (u64 (n / 3 * 4) + b64_tail (n % 3)) ≡ (8 * n + 5) / 6
announced n h = omega (arith, b64_tail_lem n)

pub b64len_lem : (n : ℕ) → n < 2 ^ 60 → b64len n ≡ (8 * n + 5) / 6
unfolding b64len
b64len_lem n h = announced n h

pub to_base64_lem :
    (bs : Bytes) (dst_len : ℕ)
    → to_base64 dst_len bs ≡ (
        if leb dst_len (b64len (length bs))
        then none
        else some (to_loop bs 0 0, b64len (length bs)))
unfolding to_base64 b64len to_base64_tail b64_tail
to_base64_lem bs dst_len = refl

-- With room for the characters that `b64len` foretells and a zero, `to_base64` succeeds.
pub to_base64_fits :
    (bs : Bytes) (dst_len : ℕ)
    → b64len (length bs) < dst_len
    → to_base64 dst_len bs ≡ some (to_loop bs 0 0, b64len (length bs))
to_base64_fits bs dst_len h = ground (arith, to_base64_lem bs dst_len)

-- For an input of fewer than 2 ^ 60 bytes, the characters that `to_base64` writes are as many as it
-- announces and as `b64len` foretells, and leave room for the terminating zero.
pub length-to_base64 :
    (bs : Bytes) (dst_len : ℕ) {chars : Bytes} {n : ℕ}
    → length bs < 2 ^ 60
    → to_base64 dst_len bs ≡ some (chars, n)
    → (length chars ≡ n) × (n ≡ b64len (length bs)) × (n < dst_len)
length-to_base64 bs dst_len h e =
    ground (arith, to_base64_lem bs dst_len, length-to_loop bs 0, b64len_lem (length bs) h)

-- For an input of fewer than 2 ^ 60 bytes, `to_base64` fails exactly where the buffer has no room for
-- the characters that its loop writes for that input and for the terminating zero.
pub to_base64-none_iff :
    (bs : Bytes) (dst_len : ℕ)
    → length bs < 2 ^ 60
    → (to_base64 dst_len bs ≡ none) ↔ (dst_len ≤ length (to_loop bs 0 0))
to_base64-none_iff bs dst_len h =
    ground (arith, to_base64_lem bs dst_len, length-to_loop bs 0, b64len_lem (length bs) h)
