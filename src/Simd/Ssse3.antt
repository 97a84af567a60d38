-- ===== src/Simd/Ssse3.antt =====
-- The round of argon2/src/blake2/blamka-round-opt.h in its SSSE3 form.
use argon.Base.{ℕ, ◌<◌, ◌^◌, ◌≡◌, ◌∙◌, Bytes, All}
use argon.Block.{round_nomsg}
use argon.Simd.{
  M128, Intrinsics, AreDocumented, Intrinsics3, roti_ssse3, diagonalize_ssse3, undiagonalize_ssse3,
  ssse3_forms, Registers, blake2_round, r16, r24,
}
use argon.Simd.Lanes.{IsRotation, by_32, by_24, by_16, by_63}
use argon.Simd.Shuffle.{shuffled_32, shuffled_8, bytes_of, turn_32, turn_24, turn_16, turn_63}
use argon.Simd.Round.{AreForms, words, words-blake2_round}

-- What the documentation of the instruction set says of the intrinsics; of `alignr_epi8`, for the
-- distance of half a register.
pub record AreDocumented3 (t : Intrinsics3) : Type 0 where
  pub shuffle_32_eq : (x : M128) (imm : ℕ) → t.shuffle_epi32 x imm ≡ shuffled_32 x.0 x.1 imm
  pub shuffle_8_eq :
      (x : M128) (mask : Bytes)
      → t.shuffle_epi8 x mask
        ≡ (shuffled_8 (bytes_of x.0 x.1) mask 0, shuffled_8 (bytes_of x.0 x.1) mask 8)
  pub alignr_eq : (x y : M128) → t.alignr_epi8 x y 8 ≡ (y.1, x.0)

abbrev pack : ℕ → ℕ → M128
pack x y = (x, y)

module _ (s : Intrinsics) (t : Intrinsics3) (doc : AreDocumented s) (doc3 : AreDocumented3 t) where
  roti_ssse3-IsRotation : IsRotation (roti_ssse3 s t)
  unfolding roti_ssse3
  roti_ssse3-IsRotation x _ by_32 lo hi =
      let r = turn_32 x.0 x.1 lo hi in doc3.shuffle_32_eq x 177 ∙ (λ i. pack (r.0 i) (r.1 i))
  roti_ssse3-IsRotation x _ by_24 lo hi =
      let r = turn_24 x.0 x.1 lo hi in doc3.shuffle_8_eq x r24 ∙ (λ i. pack (r.0 i) (r.1 i))
  roti_ssse3-IsRotation x _ by_16 lo hi =
      let r = turn_16 x.0 x.1 lo hi in doc3.shuffle_8_eq x r16 ∙ (λ i. pack (r.0 i) (r.1 i))
  roti_ssse3-IsRotation x _ by_63 lo hi =
      (λ i. s.xor_si128 (doc.srli_eq x 63 i) (doc.add_eq x x i))
      ∙ (doc.xor_eq _ _ ∙ (λ i. pack (turn_63 x.0 lo i) (turn_63 x.1 hi i)))

  pub ssse3_forms-AreForms : AreForms (ssse3_forms s t)
  unfolding ssse3_forms diagonalize_ssse3 undiagonalize_ssse3
  ssse3_forms-AreForms = record {
    rotates = roti_ssse3-IsRotation;
    turns = λ x y z w. λ i. record {
      first = record {
        a = (x.a, y.a);
        b = doc3.alignr_eq (z.b, w.b) (x.b, y.b) i;
        c = (z.c, w.c);
        d = doc3.alignr_eq (x.d, y.d) (z.d, w.d) i;
      };
      second = record {
        a = (z.a, w.a);
        b = doc3.alignr_eq (x.b, y.b) (z.b, w.b) i;
        c = (x.c, y.c);
        d = doc3.alignr_eq (z.d, w.d) (x.d, y.d) i;
      };
    };
    turns_back = λ x y z w. λ i. record {
      first = record {
        a = (x.a, y.a);
        b = doc3.alignr_eq (x.b, y.b) (z.b, w.b) i;
        c = (z.c, w.c);
        d = doc3.alignr_eq (z.d, w.d) (x.d, y.d) i;
      };
      second = record {
        a = (z.a, w.a);
        b = doc3.alignr_eq (z.b, w.b) (x.b, y.b) i;
        c = (x.c, y.c);
        d = doc3.alignr_eq (x.d, y.d) (z.d, w.d) i;
      };
    };
  }

  -- With the SSSE3 forms of the macros, and intrinsics that do what their documentation says,
  -- `BLAKE2_ROUND` on eight registers of words of 64 bits leaves in them the words that
  -- `BLAKE2_ROUND_NOMSG` leaves in the sixteen words they hold.
  pub words-ssse3_round :
      (r : Registers)
      → All (λ w. w < 2 ^ 64) (words r)
      → words (blake2_round s (ssse3_forms s t) r) ≡ round_nomsg (λ k. k) (words r)
  words-ssse3_round r f = words-blake2_round s (ssse3_forms s t) r doc ssse3_forms-AreForms f
