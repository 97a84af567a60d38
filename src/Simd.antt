-- ===== src/Simd.antt =====
-- The round of argon2/src/blake2/blamka-round-opt.h on registers of 128 bits, in its SSE2 and SSSE3 forms.
-- The intrinsics of the compiler, also those of argon2/src/opt.c, are parameters.
pub mod Gather
pub mod Scalar
pub mod Lanes
pub mod Shuffle
pub mod Ssse3
pub mod Round
pub mod Tests
use argon.Base.{
  ℕ, ◌+◌, ◌*◌, ◌-◌, ◌/◌, ◌%◌, ◌^◌, ◌≡◌, ◌==◌, bit_xor, u64, get_or, set, [], ◌∷◌, Bytes,
  if◌then◌else◌,
}
use argon.Block.{Block}

-- A register, by its low and its high word of 64 bits.
abbrev pub M128 : Type 0
M128 = ℕ × ℕ

-- The intrinsics that the two files use.
pub record Intrinsics : Type 0 where
  pub add_epi64 : M128 → M128 → M128
  pub mul_epu32 : M128 → M128 → M128
  pub xor_si128 : M128 → M128 → M128
  pub srli_epi64 : M128 → ℕ → M128
  pub slli_epi64 : M128 → ℕ → M128
  pub unpacklo_epi64 : M128 → M128 → M128
  pub unpackhi_epi64 : M128 → M128 → M128
  -- From and to a block, at a place counted in registers.
  pub loadu_si128 : Block → ℕ → M128
  pub storeu_si128 : Block → ℕ → M128 → Block

-- What the documentation of the instruction set says of them.
pub record AreDocumented (s : Intrinsics) : Type 0 where
  pub add_eq : (x y : M128) → s.add_epi64 x y ≡ (u64 (x.0 + y.0), u64 (x.1 + y.1))
  pub mul_eq :
      (x y : M128)
      → s.mul_epu32 x y ≡ ((x.0 % 2 ^ 32) * (y.0 % 2 ^ 32), (x.1 % 2 ^ 32) * (y.1 % 2 ^ 32))
  pub xor_eq : (x y : M128) → s.xor_si128 x y ≡ (bit_xor x.0 y.0, bit_xor x.1 y.1)
  pub srli_eq : (x : M128) (n : ℕ) → s.srli_epi64 x n ≡ (x.0 / 2 ^ n, x.1 / 2 ^ n)
  pub slli_eq : (x : M128) (n : ℕ) → s.slli_epi64 x n ≡ (u64 (x.0 * 2 ^ n), u64 (x.1 * 2 ^ n))
  pub unpacklo_eq : (x y : M128) → s.unpacklo_epi64 x y ≡ (x.0, y.0)
  pub unpackhi_eq : (x y : M128) → s.unpackhi_epi64 x y ≡ (x.1, y.1)
  pub loadu_eq :
      (b : Block) (i : ℕ) → s.loadu_si128 b i ≡ (get_or b (2 * i) 0, get_or b (2 * i + 1) 0)
  pub storeu_eq :
      (b : Block) (i : ℕ) (x : M128)
      → s.storeu_si128 b i x ≡ set (set b (2 * i) x.0) (2 * i + 1) x.1

-- `_mm_roti_epi64(r, -c)`.
pub roti_epi64 : Intrinsics → M128 → ℕ → M128
roti_epi64 s r c = s.xor_si128 (s.srli_epi64 r c) (s.slli_epi64 r (64 - c))

-- `fBlaMka`.
pub f_blamka_opt : Intrinsics → M128 → M128 → M128
f_blamka_opt s x y = let z = s.mul_epu32 x y in s.add_epi64 (s.add_epi64 x y) (s.add_epi64 z z)

-- The registers whose names in the macros end in one digit, four of the eight.
pub record Half : Type 0 where
  pub a : M128
  pub b : M128
  pub c : M128
  pub d : M128

-- What `G1` and `G2` do to a half, by `_mm_roti_epi64` and the two distances.
pub half_step : Intrinsics → (M128 → ℕ → M128) → ℕ → ℕ → Half → Half
unfolding f_blamka_opt
half_step s roti p q h =
    let a = f_blamka_opt s h.a h.b in
    let d = roti (s.xor_si128 h.d a) p in
    let c = f_blamka_opt s h.c d in
    let b = roti (s.xor_si128 h.b c) q in record { a = a; b = b; c = c; d = d }

pub record Registers : Type 0 where
  pub first : Half
  pub second : Half

-- The macros that the file defines in more than one form.
pub record Forms : Type 0 where
  pub roti : M128 → ℕ → M128
  pub turn : Registers → Registers
  pub turn_back : Registers → Registers

pub g1 : Intrinsics → Forms → Registers → Registers
unfolding half_step
g1 s m r = record {
  first = half_step s m.roti 32 24 r.first;
  second = half_step s m.roti 32 24 r.second;
}

pub g2 : Intrinsics → Forms → Registers → Registers
unfolding half_step
g2 s m r = record {
  first = half_step s m.roti 16 63 r.first;
  second = half_step s m.roti 16 63 r.second;
}

-- `DIAGONALIZE`.
pub diagonalize : Intrinsics → Registers → Registers
diagonalize s r =
    let hi = s.unpackhi_epi64 in
    let lo = s.unpacklo_epi64 in
    let h = r.first in
    let k = r.second in
    record {
      first = record { a = h.a; b = hi h.b (lo k.b k.b); c = k.c; d = hi k.d (lo h.d h.d) };
      second = record { a = k.a; b = hi k.b (lo h.b h.b); c = h.c; d = hi h.d (lo k.d k.d) };
    }

-- `UNDIAGONALIZE`.
pub undiagonalize : Intrinsics → Registers → Registers
undiagonalize s r =
    let hi = s.unpackhi_epi64 in
    let lo = s.unpacklo_epi64 in
    let h = r.first in
    let k = r.second in
    record {
      first = record { a = h.a; b = hi k.b (lo h.b h.b); c = k.c; d = hi h.d (lo k.d k.d) };
      second = record { a = k.a; b = hi h.b (lo k.b k.b); c = h.c; d = hi k.d (lo h.d h.d) };
    }

-- `BLAKE2_ROUND`.
pub blake2_round : Intrinsics → Forms → Registers → Registers
unfolding g1 g2
blake2_round s m r = m.turn_back (g2 s m (g1 s m (m.turn (g2 s m (g1 s m r)))))

-- The forms for SSE2.
unfoldable pub sse2_forms : Intrinsics → Forms
sse2_forms s = record { roti = roti_epi64 s; turn = diagonalize s; turn_back = undiagonalize s }

-- The intrinsics that the forms for SSSE3 use besides. A mask is the list of its bytes.
pub record Intrinsics3 : Type 0 where
  pub shuffle_epi32 : M128 → ℕ → M128
  pub shuffle_epi8 : M128 → Bytes → M128
  pub alignr_epi8 : M128 → M128 → ℕ → M128

abbrev pub r16 : Bytes
r16 = 2 ∷ 3 ∷ 4 ∷ 5 ∷ 6 ∷ 7 ∷ 0 ∷ 1 ∷ 10 ∷ 11 ∷ 12 ∷ 13 ∷ 14 ∷ 15 ∷ 8 ∷ 9 ∷ []

abbrev pub r24 : Bytes
r24 = 3 ∷ 4 ∷ 5 ∷ 6 ∷ 7 ∷ 0 ∷ 1 ∷ 2 ∷ 11 ∷ 12 ∷ 13 ∷ 14 ∷ 15 ∷ 8 ∷ 9 ∷ 10 ∷ []

-- `_mm_roti_epi64(x, -c)` for SSSE3; 177 is `_MM_SHUFFLE(2, 3, 0, 1)`.
unfoldable pub roti_ssse3 : Intrinsics → Intrinsics3 → M128 → ℕ → M128
roti_ssse3 s t x c =
    if c == 32
    then t.shuffle_epi32 x 177
    else if c == 24
    then t.shuffle_epi8 x r24
    else if c == 16
    then t.shuffle_epi8 x r16
    else if c == 63
    then s.xor_si128 (s.srli_epi64 x c) (s.add_epi64 x x)
    else s.xor_si128 (s.srli_epi64 x c) (s.slli_epi64 x (64 - c))

unfoldable pub diagonalize_ssse3 : Intrinsics3 → Registers → Registers
diagonalize_ssse3 t r =
    let h = r.first in
    let k = r.second in
    record {
      first = record { a = h.a; b = t.alignr_epi8 k.b h.b 8; c = k.c; d = t.alignr_epi8 h.d k.d 8 };
      second = record {
        a = k.a;
        b = t.alignr_epi8 h.b k.b 8;
        c = h.c;
        d = t.alignr_epi8 k.d h.d 8;
      };
    }

unfoldable pub undiagonalize_ssse3 : Intrinsics3 → Registers → Registers
undiagonalize_ssse3 t r =
    let h = r.first in
    let k = r.second in
    record {
      first = record { a = h.a; b = t.alignr_epi8 h.b k.b 8; c = k.c; d = t.alignr_epi8 k.d h.d 8 };
      second = record {
        a = k.a;
        b = t.alignr_epi8 k.b h.b 8;
        c = h.c;
        d = t.alignr_epi8 h.d k.d 8;
      };
    }

unfoldable pub ssse3_forms : Intrinsics → Intrinsics3 → Forms
ssse3_forms s t = record {
  roti = roti_ssse3 s t;
  turn = diagonalize_ssse3 t;
  turn_back = undiagonalize_ssse3 t;
}

-- What the file is compiled for: the intrinsics, and the forms of the macros.
pub record Target : Type 0 where
  pub ops : Intrinsics
  pub forms : Forms
