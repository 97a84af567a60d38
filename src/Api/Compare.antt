-- ===== src/Api/Compare.antt =====
-- `argon2_compare` tells equal buffers apart from different ones.
use argon.Base.{
  ℕ, zero, suc, ◌/◌, ◌^◌, ◌<◌, ◌≡◌, ◌↔◌, ◌∙◌, refl, sym, ap, arith, bit_or, bit_xor, bit_and, [],
  ◌∷◌, Bytes, length, sub32,
}
use argon.Base.{
  eq_of_bit_xor, zeros_of_bit_or, bit_xor_self, bit_and_mask, bit_xor-lt, bit_or-lt, IsBytes,
}
use argon.Api.{compare_loop, argon2_compare}

loop-zero :
    (n : ℕ) (b1 b2 : Bytes) (d : ℕ)
    → length b1 ≡ n
    → length b2 ≡ n
    → compare_loop n b1 b2 d ≡ 0
    → (d ≡ 0) × (b1 ≡ b2)
unfolding compare_loop
loop-zero zero [] [] d p q e = (e, refl)
loop-zero (suc n) [] b2 d p q e = absurd (omega arith)
loop-zero zero (x ∷ b1) b2 d p q e = absurd (omega arith)
loop-zero zero [] (y ∷ b2) d p q e = absurd (omega arith)
loop-zero (suc n) (x ∷ b1) [] d p q e = absurd (omega arith)
loop-zero (suc n) (x ∷ b1) (y ∷ b2) d p q e =
    let (z, same) = loop-zero n b1 b2 (bit_or d (bit_xor x y)) (omega arith) (omega arith) e in
    let (d_zero, xy) = zeros_of_bit_or d (bit_xor x y) z in
    (d_zero, rw (eq_of_bit_xor x y xy) (rw same refl))

loop-same : (n : ℕ) (b : Bytes) → length b ≡ n → compare_loop n b b 0 ≡ 0
unfolding compare_loop
loop-same zero b p = refl
loop-same (suc n) [] p = absurd (omega arith)
loop-same (suc n) (x ∷ b) p = rw (bit_xor_self x) (loop-same n b (omega arith))

loop-lt :
    (n : ℕ) (b1 b2 : Bytes) (d : ℕ)
    → length b1 ≡ n
    → length b2 ≡ n
    → IsBytes b1
    → IsBytes b2
    → d < 256
    → compare_loop n b1 b2 d < 256
unfolding compare_loop
loop-lt zero b1 b2 d p q h k l = l
loop-lt (suc n) [] b2 d p q h k l = absurd (omega arith)
loop-lt (suc n) (x ∷ b1) [] d p q h k l = absurd (omega arith)
loop-lt (suc n) (x ∷ b1) (y ∷ b2) d p q h k l =
    loop-lt n b1 b2 (bit_or d (bit_xor x y)) (omega arith) (omega arith) h.1 k.1
      (bit_or-lt 8 d (bit_xor x y) l (bit_xor-lt 8 x y h.0 k.0))

-- The word that is made of `d`.
sign : ℕ → ℕ
sign d = sub32 (bit_and (sub32 d 1 / 2 ^ 8) 1) 1

sign_lem : (d : ℕ) → d < 256 → (sign d ≡ 0) ↔ (d ≡ 0)
unfolding sign
sign_lem d h =
    let low = bit_and_mask 1 (sub32 d 1 / 2 ^ 8) in
    (λ e. omega (arith, low), λ e. omega (arith, low))

-- For two buffers of `len` bytes `argon2_compare` returns 0 exactly when they are equal.
pub argon2_compare-zero_iff :
    (b1 b2 : Bytes) (len : ℕ)
    → length b1 ≡ len
    → length b2 ≡ len
    → IsBytes b1
    → IsBytes b2
    → (argon2_compare b1 b2 len ≡ 0) ↔ (b1 ≡ b2)
unfolding argon2_compare sign
argon2_compare-zero_iff b1 b2 len p q h k =
    let word = sign_lem (compare_loop len b1 b2 0) (loop-lt len b1 b2 0 p q h k (omega arith)) in
    (
      λ e. (loop-zero len b1 b2 0 p q (word.0 e)).1,
      λ e. word.1 (sym (ap (λ (b : Bytes). compare_loop len b1 b 0) e) ∙ loop-same len b1 p),
    )
