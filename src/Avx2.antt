-- ===== src/Avx2.antt =====
-- The rounds of argon2/src/blake2/blamka-round-opt.h on registers of 256 bits, in their AVX2 form. The
-- intrinsics of the compiler are parameters.
pub mod Rotate
pub mod Lanes256
pub mod Round256
pub mod Halves
pub mod Tests
use argon.Base.{
  ℕ, zero, suc, ◌+◌, ◌*◌, ◌-◌, ◌/◌, ◌%◌, ◌^◌, ◌≡◌, List, [], ◌∷◌, Bytes, bit_xor, u64, get_or,
}
use argon.Simd.Shuffle.{picked, shuffled_32, bytes_of, shuffled_8}

-- A register, by its four words of 64 bits, the lowest first.
abbrev pub M256 : Type 0
M256 = ℕ × ℕ × ℕ × ℕ

-- The intrinsics that the macros use.
pub record Intrinsics256 : Type 0 where
  pub add_epi64 : M256 → M256 → M256
  pub mul_epu32 : M256 → M256 → M256
  pub xor_si256 : M256 → M256 → M256
  pub srli_epi64 : M256 → ℕ → M256
  pub shuffle_epi32 : M256 → ℕ → M256
  pub shuffle_epi8 : M256 → Bytes → M256
  pub permute4x64_epi64 : M256 → ℕ → M256
  pub blend_epi32 : M256 → M256 → ℕ → M256

-- A word by 32-bit elements of two, as two bits of a control byte say.
abbrev chosen : ℕ → ℕ → ℕ → ℕ
chosen zero x y = x
chosen (suc bit) x y = y

abbrev pub blended : ℕ → ℕ → ℕ → ℕ
blended x y imm =
    chosen (imm % 2) (x % 2 ^ 32) (y % 2 ^ 32)
    + 2 ^ 32 * chosen (imm / 2 % 2) (x / 2 ^ 32) (y / 2 ^ 32)

-- What the documentation of the instruction set says of them.
pub record AreDocumented256 (s : Intrinsics256) : Type 0 where
  pub add_eq :
      (x y : M256)
      → s.add_epi64 x y ≡ (u64 (x.0 + y.0), u64 (x.1 + y.1), u64 (x.2 + y.2), u64 (x.3 + y.3))
  pub mul_eq :
      (x y : M256)
      → s.mul_epu32 x y ≡ (
        (x.0 % 2 ^ 32) * (y.0 % 2 ^ 32),
        (x.1 % 2 ^ 32) * (y.1 % 2 ^ 32),
        (x.2 % 2 ^ 32) * (y.2 % 2 ^ 32),
        (x.3 % 2 ^ 32) * (y.3 % 2 ^ 32),
      )
  pub xor_eq :
      (x y : M256)
      → s.xor_si256 x y ≡ (bit_xor x.0 y.0, bit_xor x.1 y.1, bit_xor x.2 y.2, bit_xor x.3 y.3)
  pub srli_eq :
      (x : M256) (n : ℕ) → s.srli_epi64 x n ≡ (x.0 / 2 ^ n, x.1 / 2 ^ n, x.2 / 2 ^ n, x.3 / 2 ^ n)
  pub shuffle_32_eq :
      (x : M256) (imm : ℕ)
      → s.shuffle_epi32 x imm ≡ (
        (shuffled_32 x.0 x.1 imm).0,
        (shuffled_32 x.0 x.1 imm).1,
        (shuffled_32 x.2 x.3 imm).0,
        (shuffled_32 x.2 x.3 imm).1,
      )
  pub shuffle_8_eq :
      (x : M256) (mask : Bytes)
      → s.shuffle_epi8 x mask ≡ (
        shuffled_8 (bytes_of x.0 x.1) mask 0,
        shuffled_8 (bytes_of x.0 x.1) mask 8,
        shuffled_8 (bytes_of x.2 x.3) mask 16,
        shuffled_8 (bytes_of x.2 x.3) mask 24,
      )
  pub permute_eq :
      (x : M256) (imm : ℕ)
      → let xs = x.0 ∷ x.1 ∷ x.2 ∷ x.3 ∷ [] in
        s.permute4x64_epi64 x imm
        ≡ (picked xs imm, picked xs (imm / 4), picked xs (imm / 16), picked xs (imm / 64))
  pub blend_eq :
      (x y : M256) (imm : ℕ)
      → s.blend_epi32 x y imm ≡ (
        blended x.0 y.0 imm,
        blended x.1 y.1 (imm / 4),
        blended x.2 y.2 (imm / 16),
        blended x.3 y.3 (imm / 64),
      )

-- `_MM_SHUFFLE`.
abbrev pub mm_shuffle : ℕ → ℕ → ℕ → ℕ → ℕ
mm_shuffle z y x w = 64 * z + 16 * y + 4 * x + w

abbrev pub mask_24 : Bytes
mask_24 =
    3 ∷ 4 ∷ 5 ∷ 6 ∷ 7 ∷ 0 ∷ 1 ∷ 2 ∷ 11 ∷ 12 ∷ 13 ∷ 14 ∷ 15 ∷ 8 ∷ 9 ∷ 10 ∷ 3 ∷ 4 ∷ 5 ∷ 6 ∷ 7 ∷ 0 ∷ 1
    ∷ 2 ∷ 11 ∷ 12 ∷ 13 ∷ 14 ∷ 15 ∷ 8 ∷ 9 ∷ 10 ∷ []

abbrev pub mask_16 : Bytes
mask_16 =
    2 ∷ 3 ∷ 4 ∷ 5 ∷ 6 ∷ 7 ∷ 0 ∷ 1 ∷ 10 ∷ 11 ∷ 12 ∷ 13 ∷ 14 ∷ 15 ∷ 8 ∷ 9 ∷ 2 ∷ 3 ∷ 4 ∷ 5 ∷ 6 ∷ 7 ∷ 0
    ∷ 1 ∷ 10 ∷ 11 ∷ 12 ∷ 13 ∷ 14 ∷ 15 ∷ 8 ∷ 9 ∷ []

unfoldable pub rotr32_avx2 : Intrinsics256 → M256 → M256
rotr32_avx2 s x = s.shuffle_epi32 x (mm_shuffle 2 3 0 1)

unfoldable pub rotr24_avx2 : Intrinsics256 → M256 → M256
rotr24_avx2 s x = s.shuffle_epi8 x mask_24

unfoldable pub rotr16_avx2 : Intrinsics256 → M256 → M256
rotr16_avx2 s x = s.shuffle_epi8 x mask_16

unfoldable pub rotr63_avx2 : Intrinsics256 → M256 → M256
rotr63_avx2 s x = s.xor_si256 (s.srli_epi64 x 63) (s.add_epi64 x x)

-- The registers whose names in the macros end in one digit, four of the eight.
pub record Quad : Type 0 where
  pub a : M256
  pub b : M256
  pub c : M256
  pub d : M256

-- `ml` doubled, and the sum with it.
unfoldable pub f_blamka_avx2 : Intrinsics256 → M256 → M256 → M256
f_blamka_avx2 s x y =
    let ml = s.mul_epu32 x y in let ml₂ = s.add_epi64 ml ml in s.add_epi64 x (s.add_epi64 y ml₂)

-- What `G1_AVX2` and `G2_AVX2` do to the registers of one digit, by the two rotations.
unfoldable pub quad_step : Intrinsics256 → (M256 → M256) → (M256 → M256) → Quad → Quad
quad_step s rotr rotr' q =
    let a = f_blamka_avx2 s q.a q.b in
    let d = rotr (s.xor_si256 q.d a) in
    let c = f_blamka_avx2 s q.c d in
    let b = rotr' (s.xor_si256 q.b c) in record { a = a; b = b; c = c; d = d }

pub record Registers256 : Type 0 where
  pub first : Quad
  pub second : Quad

unfoldable pub g1_avx2 : Intrinsics256 → Registers256 → Registers256
g1_avx2 s r =
    let step = quad_step s (rotr32_avx2 s) (rotr24_avx2 s) in
    record { first = step r.first; second = step r.second }

unfoldable pub g2_avx2 : Intrinsics256 → Registers256 → Registers256
g2_avx2 s r =
    let step = quad_step s (rotr16_avx2 s) (rotr63_avx2 s) in
    record { first = step r.first; second = step r.second }

-- The permutations of `DIAGONALIZE_1` and `UNDIAGONALIZE_1` on the registers of one digit.
abbrev permuted : Intrinsics256 → ℕ → ℕ → ℕ → Quad → Quad
permuted s i j k q = record {
  a = q.a;
  b = s.permute4x64_epi64 q.b i;
  c = s.permute4x64_epi64 q.c j;
  d = s.permute4x64_epi64 q.d k;
}

unfoldable pub diagonalize_1 : Intrinsics256 → Registers256 → Registers256
diagonalize_1 s r =
    let f = permuted s (mm_shuffle 0 3 2 1) (mm_shuffle 1 0 3 2) (mm_shuffle 2 1 0 3) in
    record { first = f r.first; second = f r.second }

unfoldable pub undiagonalize_1 : Intrinsics256 → Registers256 → Registers256
undiagonalize_1 s r =
    let f = permuted s (mm_shuffle 2 1 0 3) (mm_shuffle 1 0 3 2) (mm_shuffle 0 3 2 1) in
    record { first = f r.first; second = f r.second }

unfoldable pub diagonalize_2 : Intrinsics256 → Registers256 → Registers256
diagonalize_2 s r =
    let q = r.first in
    let p = r.second in
    let swap = λ (x : M256). s.permute4x64_epi64 x (mm_shuffle 2 3 0 1) in
    record {
      first = record {
        a = q.a;
        b = swap (s.blend_epi32 q.b p.b 0x33);
        c = p.c;
        d = swap (s.blend_epi32 q.d p.d 0xcc);
      };
      second = record {
        a = p.a;
        b = swap (s.blend_epi32 q.b p.b 0xcc);
        c = q.c;
        d = swap (s.blend_epi32 q.d p.d 0x33);
      };
    }

unfoldable pub undiagonalize_2 : Intrinsics256 → Registers256 → Registers256
undiagonalize_2 s r =
    let q = r.first in
    let p = r.second in
    let swap = λ (x : M256). s.permute4x64_epi64 x (mm_shuffle 2 3 0 1) in
    record {
      first = record {
        a = q.a;
        b = swap (s.blend_epi32 q.b p.b 0xcc);
        c = p.c;
        d = swap (s.blend_epi32 q.d p.d 0x33);
      };
      second = record {
        a = p.a;
        b = swap (s.blend_epi32 q.b p.b 0x33);
        c = q.c;
        d = swap (s.blend_epi32 q.d p.d 0xcc);
      };
    }

-- `BLAKE2_ROUND_1`.
unfoldable pub blake2_round_1 : Intrinsics256 → Registers256 → Registers256
blake2_round_1 s r =
    undiagonalize_1 s (g2_avx2 s (g1_avx2 s (diagonalize_1 s (g2_avx2 s (g1_avx2 s r)))))

-- `BLAKE2_ROUND_2`.
unfoldable pub blake2_round_2 : Intrinsics256 → Registers256 → Registers256
blake2_round_2 s r =
    undiagonalize_2 s (g2_avx2 s (g1_avx2 s (diagonalize_2 s (g2_avx2 s (g1_avx2 s r)))))
