-- ===== src/Simd/Lanes.antt =====
-- Each of the two words of a register goes through the scalar function.
use argon.Base.{
  ℕ, zero, suc, ◌+◌, ◌*◌, ◌-◌, ◌/◌, ◌%◌, ◌^◌, ◌<◌, ◌≡◌, ◌∙◌, refl, ap, arith, bit_xor, bit_or,
  bit_or_step, differ_mod, bit_xor_step, bit_xor-lt, bit_or-lt, u64,
}
use Prim.Native.Nat.{bit_or-bitwise, bit_xor-bitwise}
use argon.Words.{rotr64}
use argon.Block.{f_blamka}
use argon.Simd.{M128, Intrinsics, AreDocumented, roti_epi64, f_blamka_opt, Half, half_step}

product_swap : (b q : ℕ) → b * (2 * q) ≡ 2 * (b * q)
product_swap b q = omega arith

-- Where the digits do not meet, exclusive or and or are the same.
or-xor_shifted : (k a b : ℕ) → a < 2 ^ k → bit_or a (b * 2 ^ k) ≡ bit_xor a (b * 2 ^ k)
or-xor_shifted zero zero b h =
    omega (arith, bit_or-bitwise 0 (b * 2 ^ 0), bit_xor-bitwise 0 (b * 2 ^ 0))
or-xor_shifted zero (suc a) b h = absurd (omega arith)
or-xor_shifted (suc k) a b h =
    let c = b * 2 ^ k in
    let power : 2 ^ suc k ≡ 2 * 2 ^ k = omega arith in
    let double : b * 2 ^ suc k ≡ 2 * c = ap (λ (x : ℕ). b * x) power ∙ product_swap b (2 ^ k) in
    let half : 2 * c / 2 ≡ c = omega arith in
    let ih : bit_or (a / 2) c ≡ bit_xor (a / 2) c = or-xor_shifted k (a / 2) b (omega arith) in
    rw double (
      omega (
        arith,
        ih,
        rw half at (bit_or_step a (2 * c)),
        rw half at (bit_xor_step a (2 * c)),
        differ_mod a (2 * c),
      ))

-- The rotation by the four distances of the round.
rotation :
    (w c k : ℕ)
    → w / 2 ^ c < 2 ^ k
    → u64 (w * 2 ^ k) ≡ (w % 2 ^ c) * 2 ^ k
    → bit_or (w / 2 ^ c) (u64 (w * 2 ^ k)) ≡ bit_xor (w / 2 ^ c) (u64 (w * 2 ^ k))
rotation w c k h e = rw e (or-xor_shifted k (w / 2 ^ c) (w % 2 ^ c) h)

pub data IsDistance : ℕ → Type 0 where
  by_32 : IsDistance 32
  by_24 : IsDistance 24
  by_16 : IsDistance 16
  by_63 : IsDistance 63

pub rotr64_lem :
    (w c : ℕ)
    → IsDistance c
    → w < 2 ^ 64
    → rotr64 w c ≡ bit_xor (w / 2 ^ c) (u64 (w * 2 ^ (64 - c)))
unfolding rotr64
rotr64_lem w _ by_32 h = rotation w 32 32 (omega arith) (omega arith)
rotr64_lem w _ by_24 h = rotation w 24 40 (omega arith) (omega arith)
rotr64_lem w _ by_16 h = rotation w 16 48 (omega arith) (omega arith)
rotr64_lem w _ by_63 h = rotation w 63 1 (omega arith) (omega arith)

twice : (w z : ℕ) → u64 (w + u64 (z + z)) ≡ u64 (w + u64 (2 * u64 z))
twice w z = omega arith

pair : ℕ → ℕ → M128
pair x y = (x, y)

ap2_pair : {x x' y y' : ℕ} → x ≡ x' → y ≡ y' → pair x y ≡ pair x' y'
ap2_pair e e' = rw e (rw e' refl)

f_blamka_opt_lem :
    (s : Intrinsics) (x y : M128)
    → AreDocumented s
    → f_blamka_opt s x y ≡ (f_blamka x.0 y.0, f_blamka x.1 y.1)
unfolding f_blamka_opt f_blamka pair
f_blamka_opt_lem s x y h =
    let z : M128 = ((x.0 % 2 ^ 32) * (y.0 % 2 ^ 32), (x.1 % 2 ^ 32) * (y.1 % 2 ^ 32)) in
    rw (f_blamka_opt, h.mul_eq x y)
      (rw (h.add_eq x y) (
        rw (h.add_eq z z) (
          rw (h.add_eq (u64 (x.0 + y.0), u64 (x.1 + y.1)) (u64 (z.0 + z.0), u64 (z.1 + z.1)))
            (ap2_pair (twice (u64 (x.0 + y.0)) z.0) (twice (u64 (x.1 + y.1)) z.1)))))

pub roti_epi64_lem :
    (s : Intrinsics) (x : M128) (c : ℕ)
    → AreDocumented s
    → IsDistance c
    → x.0 < 2 ^ 64
    → x.1 < 2 ^ 64
    → roti_epi64 s x c ≡ (rotr64 x.0 c, rotr64 x.1 c)
unfolding roti_epi64
roti_epi64_lem s x c h d lo hi =
    rw (roti_epi64, h.srli_eq x c)
      (rw (h.slli_eq x (64 - c)) (
        rw
          (h.xor_eq (x.0 / 2 ^ c, x.1 / 2 ^ c) (u64 (x.0 * 2 ^ (64 - c)), u64 (x.1 * 2 ^ (64 - c))))
          (rw (rotr64_lem x.0 c d lo) (rw (rotr64_lem x.1 c d hi) refl))))

-- One word of each of the four registers of a half.
pub record Lane : Type 0 where
  pub a : ℕ
  pub b : ℕ
  pub c : ℕ
  pub d : ℕ

abbrev pub lanes : Lane → Lane → Half
lanes x y = record { a = (x.a, y.a); b = (x.b, y.b); c = (x.c, y.c); d = (x.d, y.d) }

pub record InRange (x : Lane) : Type 0 where
  pub a_word : x.a < 2 ^ 64
  pub b_word : x.b < 2 ^ 64
  pub c_word : x.c < 2 ^ 64
  pub d_word : x.d < 2 ^ 64

-- Half of `G`, by its two rotations.
unfoldable pub scalar : ℕ → ℕ → Lane → Lane
scalar p q x =
    let a = f_blamka x.a x.b in
    let d = rotr64 (bit_xor x.d a) p in
    let c = f_blamka x.c d in
    let b = rotr64 (bit_xor x.b c) q in record { a = a; b = b; c = c; d = d }

pub f_blamka-lt : (x y : ℕ) → f_blamka x y < 2 ^ 64
unfolding f_blamka
f_blamka-lt x y = omega arith

pub rotr64-lt : (w c : ℕ) → IsDistance c → w < 2 ^ 64 → rotr64 w c < 2 ^ 64
unfolding rotr64
rotr64-lt w c d h =
    bit_or-lt 64 (w / 2 ^ c) (u64 (w * 2 ^ (64 - c))) (quotient w c d h) (omega arith)
  where
    quotient : (w c : ℕ) → IsDistance c → w < 2 ^ 64 → w / 2 ^ c < 2 ^ 64
    quotient w _ by_32 h = omega arith
    quotient w _ by_24 h = omega arith
    quotient w _ by_16 h = omega arith
    quotient w _ by_63 h = omega arith

pub scalar-InRange :
    (p q : ℕ) (x : Lane) → IsDistance p → IsDistance q → InRange x → InRange (scalar p q x)
unfolding scalar
scalar-InRange p q x dp dq h =
    let a = f_blamka x.a x.b in
    let d = rotr64 (bit_xor x.d a) p in
    let c = f_blamka x.c d in
    record {
      a_word = f_blamka-lt x.a x.b;
      b_word = rotr64-lt (bit_xor x.b c) q dq (bit_xor-lt 64 x.b c h.b_word (f_blamka-lt x.c d));
      c_word = f_blamka-lt x.c d;
      d_word = rotr64-lt (bit_xor x.d a) p dp (bit_xor-lt 64 x.d a h.d_word (f_blamka-lt x.a x.b));
    }

-- The rotation of both words of a register.
abbrev pub IsRotation : (M128 → ℕ → M128) → Type 0
IsRotation roti =
    (x : M128) (c : ℕ)
    → IsDistance c
    → x.0 < 2 ^ 64
    → x.1 < 2 ^ 64
    → roti x c ≡ (rotr64 x.0 c, rotr64 x.1 c)

pub half_step-lanes :
    (s : Intrinsics) (roti : M128 → ℕ → M128) (p q : ℕ) (x y : Lane)
    → AreDocumented s
    → IsRotation roti
    → IsDistance p
    → IsDistance q
    → InRange x
    → InRange y
    → half_step s roti p q (lanes x y) ≡ lanes (scalar p q x) (scalar p q y)
unfolding half_step scalar
half_step-lanes s roti p q x y doc rotates dp dq h k =
    let a = f_blamka x.a x.b in
    let a' = f_blamka y.a y.b in
    let d = rotr64 (bit_xor x.d a) p in
    let d' = rotr64 (bit_xor y.d a') p in
    let c = f_blamka x.c d in
    let c' = f_blamka y.c d' in
    rw (half_step, f_blamka_opt_lem s (x.a, y.a) (x.b, y.b) doc)
      (rw (doc.xor_eq (x.d, y.d) (a, a')) (
        rw
          (rotates (bit_xor x.d a, bit_xor y.d a') p dp
            (bit_xor-lt 64 x.d a h.d_word (f_blamka-lt x.a x.b))
            (bit_xor-lt 64 y.d a' k.d_word (f_blamka-lt y.a y.b)))
          (rw (f_blamka_opt_lem s (x.c, y.c) (d, d') doc) (
            rw (doc.xor_eq (x.b, y.b) (c, c')) (
              rw
                (rotates (bit_xor x.b c, bit_xor y.b c') q dq
                  (bit_xor-lt 64 x.b c h.b_word (f_blamka-lt x.c d))
                  (bit_xor-lt 64 y.b c' k.b_word (f_blamka-lt y.c d')))
                refl)))))
