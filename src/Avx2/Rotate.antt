-- ===== src/Avx2/Rotate.antt =====
-- The rotations of the AVX2 macros are `rotr64` on each word.
use argon.Base.{ℕ, ◌^◌, ◌<◌, ◌≡◌, ◌∙◌}
use argon.Words.{rotr64}
use argon.Simd.Shuffle.{turn_32, turn_24, turn_16, turn_63}
use argon.Avx2.{
  M256, Intrinsics256, AreDocumented256, mask_24, mask_16, mm_shuffle, rotr32_avx2, rotr24_avx2,
  rotr16_avx2, rotr63_avx2,
}

-- Every word of a register fits 64 bits.
pub record AreWords256 (x : M256) : Type 0 where
  pub word_0 : x.0 < 2 ^ 64
  pub word_1 : x.1 < 2 ^ 64
  pub word_2 : x.2 < 2 ^ 64
  pub word_3 : x.3 < 2 ^ 64

abbrev pub rotated256 : M256 → ℕ → M256
rotated256 x c = (rotr64 x.0 c, rotr64 x.1 c, rotr64 x.2 c, rotr64 x.3 c)

abbrev pub pack : ℕ → ℕ → ℕ → ℕ → M256
pack a b c d = (a, b, c, d)

pub four_eq :
    {a a' b b' c c' d d' : ℕ} → a ≡ a' → b ≡ b' → c ≡ c' → d ≡ d' → pack a b c d ≡ pack a' b' c' d'
four_eq e f g h = λ i. pack (e i) (f i) (g i) (h i)

module _ (s : Intrinsics256) (doc : AreDocumented256 s) (x : M256) (h : AreWords256 x) where
  pub rotr32_avx2_lem : rotr32_avx2 s x ≡ rotated256 x 32
  unfolding rotr32_avx2
  rotr32_avx2_lem =
      let low = turn_32 x.0 x.1 h.word_0 h.word_1 in
      let high = turn_32 x.2 x.3 h.word_2 h.word_3 in
      doc.shuffle_32_eq x (mm_shuffle 2 3 0 1) ∙ four_eq low.0 low.1 high.0 high.1

  pub rotr24_avx2_lem : rotr24_avx2 s x ≡ rotated256 x 24
  unfolding rotr24_avx2
  rotr24_avx2_lem =
      let low = turn_24 x.0 x.1 h.word_0 h.word_1 in
      let high = turn_24 x.2 x.3 h.word_2 h.word_3 in
      doc.shuffle_8_eq x mask_24 ∙ four_eq low.0 low.1 high.0 high.1

  pub rotr16_avx2_lem : rotr16_avx2 s x ≡ rotated256 x 16
  unfolding rotr16_avx2
  rotr16_avx2_lem =
      let low = turn_16 x.0 x.1 h.word_0 h.word_1 in
      let high = turn_16 x.2 x.3 h.word_2 h.word_3 in
      doc.shuffle_8_eq x mask_16 ∙ four_eq low.0 low.1 high.0 high.1

  pub rotr63_avx2_lem : rotr63_avx2 s x ≡ rotated256 x 63
  unfolding rotr63_avx2
  rotr63_avx2_lem =
      rw (rotr63_avx2, doc.srli_eq x 63)
        (rw (doc.add_eq x x) (
          doc.xor_eq _ _
          ∙ four_eq (turn_63 x.0 h.word_0) (turn_63 x.1 h.word_1) (turn_63 x.2 h.word_2)
              (turn_63 x.3 h.word_3)))
