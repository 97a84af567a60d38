-- ===== src/Simd/Tests.antt =====
-- The rounds on registers of 128 bits at inputs.
use argon.Base.{◌<◌, ◌+◌, ◌*◌, ◌/◌, ◌%◌, ◌^◌, ◌≡◌, refl, arith, bit_xor, u64, All, get_or, set}
use argon.Block.{round_nomsg}
use argon.Simd.{
  Intrinsics, AreDocumented, Intrinsics3, Target, Registers, blake2_round, sse2_forms, ssse3_forms,
}
use argon.Simd.Shuffle.{shuffled_32, bytes_of, shuffled_8}
use argon.Simd.Round.{words, IsTarget, sse2_forms-AreForms, words-sse2_round}
use argon.Simd.Ssse3.{AreDocumented3, ssse3_forms-AreForms, words-ssse3_round}

-- Intrinsics on pairs of words.
abbrev sse2 : Intrinsics
sse2 = record {
  add_epi64 = λ x y. (u64 (x.0 + y.0), u64 (x.1 + y.1));
  mul_epu32 = λ x y. ((x.0 % 2 ^ 32) * (y.0 % 2 ^ 32), (x.1 % 2 ^ 32) * (y.1 % 2 ^ 32));
  xor_si128 = λ x y. (bit_xor x.0 y.0, bit_xor x.1 y.1);
  srli_epi64 = λ x n. (x.0 / 2 ^ n, x.1 / 2 ^ n);
  slli_epi64 = λ x n. (u64 (x.0 * 2 ^ n), u64 (x.1 * 2 ^ n));
  unpacklo_epi64 = λ x y. (x.0, y.0);
  unpackhi_epi64 = λ x y. (x.1, y.1);
  loadu_si128 = λ b i. (get_or b (2 * i) 0, get_or b (2 * i + 1) 0);
  storeu_si128 = λ b i x. set (set b (2 * i) x.0) (2 * i + 1) x.1;
}

sse2-AreDocumented : AreDocumented sse2
sse2-AreDocumented = record {
  add_eq = λ x y. refl;
  mul_eq = λ x y. refl;
  xor_eq = λ x y. refl;
  srli_eq = λ x n. refl;
  slli_eq = λ x n. refl;
  unpacklo_eq = λ x y. refl;
  unpackhi_eq = λ x y. refl;
  loadu_eq = λ b i. refl;
  storeu_eq = λ b i x. refl;
}

-- The words from 1 to 16.
abbrev counted_up : Registers
counted_up = record {
  first = record { a = (1, 2); b = (5, 6); c = (9, 10); d = (13, 14) };
  second = record { a = (3, 4); b = (7, 8); c = (11, 12); d = (15, 16) };
}

small : All (λ w. w < 2 ^ 64) (words counted_up)
unfolding words
small = omega arith

abbrev ssse3 : Intrinsics3
ssse3 = record {
  shuffle_epi32 = λ x imm. shuffled_32 x.0 x.1 imm;
  shuffle_epi8 =
      λ x mask. (shuffled_8 (bytes_of x.0 x.1) mask 0, shuffled_8 (bytes_of x.0 x.1) mask 8);
  alignr_epi8 = λ x y n. (y.1, x.0);
}

ssse3-AreDocumented3 : AreDocumented3 ssse3
ssse3-AreDocumented3 = record {
  shuffle_32_eq = λ x imm. refl;
  shuffle_8_eq = λ x mask. refl;
  alignr_eq = λ x y. refl;
}

abbrev pub sse2_target : Target
sse2_target = record { ops = sse2; forms = sse2_forms sse2 }

pub sse2_target-IsTarget : IsTarget sse2_target
sse2_target-IsTarget = record {
  documented = sse2-AreDocumented;
  fitting = sse2_forms-AreForms sse2 sse2-AreDocumented;
}

abbrev pub ssse3_target : Target
ssse3_target = record { ops = sse2; forms = ssse3_forms sse2 ssse3 }

pub ssse3_target-IsTarget : IsTarget ssse3_target
ssse3_target-IsTarget = record {
  documented = sse2-AreDocumented;
  fitting = ssse3_forms-AreForms sse2 ssse3 sse2-AreDocumented ssse3-AreDocumented3;
}

words-sse2_round_example :
    words (blake2_round sse2 (sse2_forms sse2) counted_up) ≡ round_nomsg (λ k. k) (words counted_up)
words-sse2_round_example = words-sse2_round sse2 counted_up sse2-AreDocumented small

words-ssse3_round_example :
    words (blake2_round sse2 (ssse3_forms sse2 ssse3) counted_up)
    ≡ round_nomsg (λ k. k) (words counted_up)
words-ssse3_round_example =
    words-ssse3_round sse2 ssse3 sse2-AreDocumented ssse3-AreDocumented3 counted_up small
