-- ===== src/Simd/Shuffle.antt =====
-- What the shuffles of the instruction set do to the elements of 128 bits, and the rotations made of
-- them in argon2/src/blake2/blamka-round-opt.h.
use argon.Base.{
  ℕ, zero, suc, ◌+◌, ◌*◌, ◌-◌, ◌/◌, ◌%◌, ◌^◌, ◌<◌, ◌≡◌, ◌∙◌, sym, ap, arith, bit_or, bit_xor,
  bit_or_step, u64, get_or, List, [], ◌∷◌, Bytes,
}
use Prim.Native.Nat.{bit_or-bitwise}
use argon.Words.{rotr64}
use argon.Simd.{r16, r24}
use argon.Simd.Lanes.{by_63, rotr64_lem}

-- One of four by two bits of a control byte.
abbrev pub picked : List ℕ → ℕ → ℕ
picked xs control = get_or xs (control % 4) 0

-- 32-bit elements of 128 bits in a new order.
abbrev pub shuffled_32 : ℕ → ℕ → ℕ → ℕ × ℕ
shuffled_32 lo hi imm =
    let xs = lo % 2 ^ 32 ∷ lo / 2 ^ 32 ∷ hi % 2 ^ 32 ∷ hi / 2 ^ 32 ∷ [] in
    (
      picked xs imm + 2 ^ 32 * picked xs (imm / 4),
      picked xs (imm / 16) + 2 ^ 32 * picked xs (imm / 64),
    )

-- The bytes of 128 bits.
abbrev pub bytes_of : ℕ → ℕ → Bytes
bytes_of lo hi =
    lo % 256
    ∷ lo / 256 % 256
    ∷ lo / 65536 % 256
    ∷ lo / 16777216 % 256
    ∷ lo / 4294967296 % 256
    ∷ lo / 1099511627776 % 256
    ∷ lo / 281474976710656 % 256
    ∷ lo / 72057594037927936 % 256
    ∷ hi % 256
    ∷ hi / 256 % 256
    ∷ hi / 65536 % 256
    ∷ hi / 16777216 % 256
    ∷ hi / 4294967296 % 256
    ∷ hi / 1099511627776 % 256
    ∷ hi / 281474976710656 % 256
    ∷ hi / 72057594037927936 % 256
    ∷ []

-- The byte that byte `k` of a mask asks for. A byte from 128 on asks for 0.
abbrev pub asked : Bytes → Bytes → ℕ → ℕ
asked xs mask k = get_or xs (get_or mask k 0 % 16) 0 * (1 - get_or mask k 0 / 128)

-- Eight bytes in a new order, from byte `k` of the mask on.
abbrev pub shuffled_8 : Bytes → Bytes → ℕ → ℕ
shuffled_8 xs mask k =
    asked xs mask k
    + 256 * asked xs mask (k + 1)
    + 65536 * asked xs mask (k + 2)
    + 16777216 * asked xs mask (k + 3)
    + 4294967296 * asked xs mask (k + 4)
    + 1099511627776 * asked xs mask (k + 5)
    + 281474976710656 * asked xs mask (k + 6)
    + 72057594037927936 * asked xs mask (k + 7)

product_swap : (b q : ℕ) → b * (2 * q) ≡ 2 * (b * q)
product_swap b q = omega arith

-- Where the digits do not meet, or is the sum.
or-plus_shifted : (k a b : ℕ) → a < 2 ^ k → bit_or a (b * 2 ^ k) ≡ a + b * 2 ^ k
or-plus_shifted zero zero b h = omega (arith, bit_or-bitwise 0 (b * 2 ^ 0))
or-plus_shifted zero (suc a) b h = absurd (omega arith)
or-plus_shifted (suc k) a b h =
    let c = b * 2 ^ k in
    let power : 2 ^ suc k ≡ 2 * 2 ^ k = omega arith in
    let double : b * 2 ^ suc k ≡ 2 * c = ap (λ (x : ℕ). b * x) power ∙ product_swap b (2 ^ k) in
    let half : 2 * c / 2 ≡ c = omega arith in
    let ih : bit_or (a / 2) c ≡ a / 2 + c = or-plus_shifted k (a / 2) b (omega arith) in
    rw double (omega (arith, ih, rw half at (bit_or_step a (2 * c))))

rotation_sum :
    (w c k : ℕ)
    → w / 2 ^ c < 2 ^ k
    → u64 (w * 2 ^ k) ≡ (w % 2 ^ c) * 2 ^ k
    → bit_or (w / 2 ^ c) (u64 (w * 2 ^ k)) ≡ w / 2 ^ c + (w % 2 ^ c) * 2 ^ k
rotation_sum w c k h e = rw e (or-plus_shifted k (w / 2 ^ c) (w % 2 ^ c) h)

rotr64-32 : (w : ℕ) → w < 2 ^ 64 → rotr64 w 32 ≡ w / 2 ^ 32 + w % 2 ^ 32 * 2 ^ 32
unfolding rotr64
rotr64-32 w h = rotation_sum w 32 32 (omega arith) (omega arith)

rotr64-24 : (w : ℕ) → w < 2 ^ 64 → rotr64 w 24 ≡ w / 2 ^ 24 + w % 2 ^ 24 * 2 ^ 40
unfolding rotr64
rotr64-24 w h = rotation_sum w 24 40 (omega arith) (omega arith)

rotr64-16 : (w : ℕ) → w < 2 ^ 64 → rotr64 w 16 ≡ w / 2 ^ 16 + w % 2 ^ 16 * 2 ^ 48
unfolding rotr64
rotr64-16 w h = rotation_sum w 16 48 (omega arith) (omega arith)

pub turn_32 :
    (lo hi : ℕ)
    → lo < 2 ^ 64
    → hi < 2 ^ 64
    → let r = shuffled_32 lo hi (177) in (r.0 ≡ rotr64 lo 32) × (r.1 ≡ rotr64 hi 32)
turn_32 lo hi p q = (sym (rotr64-32 lo p ∙ omega arith), sym (rotr64-32 hi q ∙ omega arith))

pub turn_24 :
    (lo hi : ℕ)
    → lo < 2 ^ 64
    → hi < 2 ^ 64
    → (shuffled_8 (bytes_of lo hi) r24 0 ≡ rotr64 lo 24)
      × (shuffled_8 (bytes_of lo hi) r24 8 ≡ rotr64 hi 24)
turn_24 lo hi p q = (sym (rotr64-24 lo p ∙ omega arith), sym (rotr64-24 hi q ∙ omega arith))

pub turn_16 :
    (lo hi : ℕ)
    → lo < 2 ^ 64
    → hi < 2 ^ 64
    → (shuffled_8 (bytes_of lo hi) r16 0 ≡ rotr64 lo 16)
      × (shuffled_8 (bytes_of lo hi) r16 8 ≡ rotr64 hi 16)
turn_16 lo hi p q = (sym (rotr64-16 lo p ∙ omega arith), sym (rotr64-16 hi q ∙ omega arith))

pub turn_63 : (w : ℕ) → w < 2 ^ 64 → bit_xor (w / 2 ^ 63) (u64 (w + w)) ≡ rotr64 w 63
turn_63 w h =
    let double : u64 (w * 2 ^ (64 - 63)) ≡ u64 (w + w) = omega arith in
    sym (rotr64_lem w 63 by_63 h ∙ ap (bit_xor (w / 2 ^ 63)) double)
