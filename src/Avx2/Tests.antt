-- ===== src/Avx2/Tests.antt =====
-- The AVX2 rounds at inputs.
use argon.Base.{◌<◌, ◌+◌, ◌*◌, ◌/◌, ◌%◌, ◌^◌, ◌≡◌, refl, arith, bit_xor, u64, All, [], ◌∷◌}
use argon.Block.{round_nomsg}
use argon.Simd.Shuffle.{picked, shuffled_32, bytes_of, shuffled_8}
use argon.Avx2.{
  Intrinsics256, AreDocumented256, Registers256, blended, blake2_round_1, blake2_round_2,
}
use argon.Avx2.Round256.{quad_words, quad_words-blake2_round_1}
use argon.Avx2.Halves.{low_quad, high_quad, quad_words-blake2_round_2}

-- Intrinsics on four words.
abbrev avx2 : Intrinsics256
avx2 = record {
  add_epi64 = λ x y. (u64 (x.0 + y.0), u64 (x.1 + y.1), u64 (x.2 + y.2), u64 (x.3 + y.3));
  mul_epu32 = λ x y. (
    (x.0 % 2 ^ 32) * (y.0 % 2 ^ 32),
    (x.1 % 2 ^ 32) * (y.1 % 2 ^ 32),
    (x.2 % 2 ^ 32) * (y.2 % 2 ^ 32),
    (x.3 % 2 ^ 32) * (y.3 % 2 ^ 32),
  );
  xor_si256 = λ x y. (bit_xor x.0 y.0, bit_xor x.1 y.1, bit_xor x.2 y.2, bit_xor x.3 y.3);
  srli_epi64 = λ x n. (x.0 / 2 ^ n, x.1 / 2 ^ n, x.2 / 2 ^ n, x.3 / 2 ^ n);
  shuffle_epi32 = λ x imm. (
    (shuffled_32 x.0 x.1 imm).0,
    (shuffled_32 x.0 x.1 imm).1,
    (shuffled_32 x.2 x.3 imm).0,
    (shuffled_32 x.2 x.3 imm).1,
  );
  shuffle_epi8 = λ x mask. (
    shuffled_8 (bytes_of x.0 x.1) mask 0,
    shuffled_8 (bytes_of x.0 x.1) mask 8,
    shuffled_8 (bytes_of x.2 x.3) mask 16,
    shuffled_8 (bytes_of x.2 x.3) mask 24,
  );
  permute4x64_epi64 = λ x imm.
      let xs = x.0 ∷ x.1 ∷ x.2 ∷ x.3 ∷ [] in
      (picked xs imm, picked xs (imm / 4), picked xs (imm / 16), picked xs (imm / 64));
  blend_epi32 = λ x y imm. (
    blended x.0 y.0 imm,
    blended x.1 y.1 (imm / 4),
    blended x.2 y.2 (imm / 16),
    blended x.3 y.3 (imm / 64),
  );
}

avx2-AreDocumented256 : AreDocumented256 avx2
avx2-AreDocumented256 = record {
  add_eq = λ x y. refl;
  mul_eq = λ x y. refl;
  xor_eq = λ x y. refl;
  srli_eq = λ x n. refl;
  shuffle_32_eq = λ x imm. refl;
  shuffle_8_eq = λ x mask. refl;
  permute_eq = λ x imm. refl;
  blend_eq = λ x y imm. refl;
}

-- The words from 1 to 32.
abbrev counted_up : Registers256
counted_up = record {
  first = record { a = (1, 2, 3, 4); b = (5, 6, 7, 8); c = (9, 10, 11, 12); d = (13, 14, 15, 16) };
  second = record {
    a = (17, 18, 19, 20);
    b = (21, 22, 23, 24);
    c = (25, 26, 27, 28);
    d = (29, 30, 31, 32);
  };
}

small_first : All (λ w. w < 2 ^ 64) (quad_words counted_up.first)
unfolding quad_words
small_first = omega arith

small_second : All (λ w. w < 2 ^ 64) (quad_words counted_up.second)
unfolding quad_words
small_second = omega arith

small_low : All (λ w. w < 2 ^ 64) (quad_words (low_quad counted_up))
unfolding quad_words
small_low = omega arith

small_high : All (λ w. w < 2 ^ 64) (quad_words (high_quad counted_up))
unfolding quad_words
small_high = omega arith

quad_words-blake2_round_1_example :
    let r = blake2_round_1 avx2 counted_up in
    (quad_words r.first ≡ round_nomsg (λ k. k) (quad_words counted_up.first))
    × (quad_words r.second ≡ round_nomsg (λ k. k) (quad_words counted_up.second))
quad_words-blake2_round_1_example =
    quad_words-blake2_round_1 avx2 counted_up avx2-AreDocumented256 small_first small_second

quad_words-blake2_round_2_example :
    let r = blake2_round_2 avx2 counted_up in
    (quad_words (low_quad r) ≡ round_nomsg (λ k. k) (quad_words (low_quad counted_up)))
    × (quad_words (high_quad r) ≡ round_nomsg (λ k. k) (quad_words (high_quad counted_up)))
quad_words-blake2_round_2_example =
    quad_words-blake2_round_2 avx2 counted_up avx2-AreDocumented256 small_low small_high
