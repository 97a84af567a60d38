-- ===== src/Avx2/Halves.antt =====
-- `BLAKE2_ROUND_2` of argon2/src/blake2/blamka-round-opt.h: a round in the low halves of the registers,
-- and one in the high halves.
use argon.Base.{All, ℕ, ◌+◌, ◌*◌, ◌/◌, ◌%◌, ◌^◌, ◌<◌, ◌≡◌, ◌∙◌, sym, ap, arith}
use argon.Block.{round_nomsg}
use argon.Simd.Lanes.{Lane}
use argon.Simd.Round.{mixed}
use argon.Avx2.{
  M256, Intrinsics256, AreDocumented256, Quad, Registers256, mm_shuffle, g1_avx2, g2_avx2,
  diagonalize_2, undiagonalize_2, blake2_round_2,
}
use argon.Avx2.Rotate.{four_eq}
use argon.Avx2.Lanes256.{quad, AreInRange, g2-g1_avx2}
use argon.Avx2.Round256.{
  pair256, quad_words, turned, turned_back, round_quad, mixed-AreInRange, diagonal-AreInRange,
  quad_words-round_quad, lanes_of,
}

-- The low halves of the eight registers, and the high ones.
abbrev pub low_quad : Registers256 → Quad
low_quad r =
    let q = r.first in
    let p = r.second in
    record {
      a = (q.a.0, q.a.1, p.a.0, p.a.1);
      b = (q.b.0, q.b.1, p.b.0, p.b.1);
      c = (q.c.0, q.c.1, p.c.0, p.c.1);
      d = (q.d.0, q.d.1, p.d.0, p.d.1);
    }

abbrev pub high_quad : Registers256 → Quad
high_quad r =
    let q = r.first in
    let p = r.second in
    record {
      a = (q.a.2, q.a.3, p.a.2, p.a.3);
      b = (q.b.2, q.b.3, p.b.2, p.b.3);
      c = (q.c.2, q.c.3, p.c.2, p.c.3);
      d = (q.d.2, q.d.3, p.d.2, p.d.3);
    }

-- Two quads side by side: a round in the low halves, and one in the high ones.
abbrev beside : Quad → Quad → Registers256
beside q p =
    pair256
      (record {
        a = (q.a.0, q.a.1, p.a.0, p.a.1);
        b = (q.b.0, q.b.1, p.b.0, p.b.1);
        c = (q.c.0, q.c.1, p.c.0, p.c.1);
        d = (q.d.0, q.d.1, p.d.0, p.d.1);
      })
      (record {
        a = (q.a.2, q.a.3, p.a.2, p.a.3);
        b = (q.b.2, q.b.3, p.b.2, p.b.3);
        c = (q.c.2, q.c.3, p.c.2, p.c.3);
        d = (q.d.2, q.d.3, p.d.2, p.d.3);
      })

module _ (s : Intrinsics256) (doc : AreDocumented256 s) where
  joined_32 : (x : ℕ) → x % 2 ^ 32 + 2 ^ 32 * (x / 2 ^ 32) ≡ x
  joined_32 x = omega arith

  swapped : M256 → M256
  swapped x = s.permute4x64_epi64 x (mm_shuffle 2 3 0 1)

  -- The blends with 0x33 and 0xcc, and the swap of neighbours behind them.
  blend_low : (x y : M256) → swapped (s.blend_epi32 x y 0x33) ≡ (x.1, y.0, x.3, y.2)
  unfolding swapped
  blend_low x y =
      ap swapped (doc.blend_eq x y 0x33)
      ∙ (doc.permute_eq _ (mm_shuffle 2 3 0 1)
          ∙ four_eq (joined_32 x.1) (joined_32 y.0) (joined_32 x.3) (joined_32 y.2))

  blend_high : (x y : M256) → swapped (s.blend_epi32 x y 0xcc) ≡ (y.1, x.0, y.3, x.2)
  unfolding swapped
  blend_high x y =
      ap swapped (doc.blend_eq x y 0xcc)
      ∙ (doc.permute_eq _ (mm_shuffle 2 3 0 1)
          ∙ four_eq (joined_32 y.1) (joined_32 x.0) (joined_32 y.3) (joined_32 x.2))

  diagonalize_2-beside :
      (x y z w x' y' z' w' : Lane)
      → diagonalize_2 s (beside (quad x y z w) (quad x' y' z' w'))
        ≡ beside (turned x y z w) (turned x' y' z' w')
  unfolding diagonalize_2 swapped
  diagonalize_2-beside x y z w x' y' z' w' =
      let low = λ (u v u' v' o t o' t' : ℕ). blend_low (u, v, u', v') (o, t, o', t') in
      let high = λ (u v u' v' o t o' t' : ℕ). blend_high (u, v, u', v') (o, t, o', t') in
      λ i.
        pair256
          (record {
            a = (x.a, y.a, x'.a, y'.a);
            b = low x.b y.b x'.b y'.b z.b w.b z'.b w'.b i;
            c = (z.c, w.c, z'.c, w'.c);
            d = high x.d y.d x'.d y'.d z.d w.d z'.d w'.d i;
          })
          (record {
            a = (z.a, w.a, z'.a, w'.a);
            b = high x.b y.b x'.b y'.b z.b w.b z'.b w'.b i;
            c = (x.c, y.c, x'.c, y'.c);
            d = low x.d y.d x'.d y'.d z.d w.d z'.d w'.d i;
          })

  undiagonalize_2-beside :
      (x y z w x' y' z' w' : Lane)
      → undiagonalize_2 s (beside (quad x y z w) (quad x' y' z' w'))
        ≡ beside (turned_back x y z w) (turned_back x' y' z' w')
  unfolding undiagonalize_2 swapped
  undiagonalize_2-beside x y z w x' y' z' w' =
      let low = λ (u v u' v' o t o' t' : ℕ). blend_low (u, v, u', v') (o, t, o', t') in
      let high = λ (u v u' v' o t o' t' : ℕ). blend_high (u, v, u', v') (o, t, o', t') in
      λ i.
        pair256
          (record {
            a = (x.a, y.a, x'.a, y'.a);
            b = high x.b y.b x'.b y'.b z.b w.b z'.b w'.b i;
            c = (z.c, w.c, z'.c, w'.c);
            d = low x.d y.d x'.d y'.d z.d w.d z'.d w'.d i;
          })
          (record {
            a = (z.a, w.a, z'.a, w'.a);
            b = low x.b y.b x'.b y'.b z.b w.b z'.b w'.b i;
            c = (x.c, y.c, x'.c, y'.c);
            d = high x.d y.d x'.d y'.d z.d w.d z'.d w'.d i;
          })

  crossed :
      (x y z w x' y' z' w' : Lane)
      → AreInRange x y z w
      → AreInRange x' y' z' w'
      → AreInRange x y x' y' × AreInRange z w z' w'
  crossed x y z w x' y' z' w' h k = (
    record { in_x = h.in_x; in_y = h.in_y; in_z = k.in_x; in_w = k.in_y },
    record { in_x = h.in_z; in_y = h.in_w; in_z = k.in_z; in_w = k.in_w },
  )

  g2-g1-beside :
      (x y z w x' y' z' w' : Lane)
      → AreInRange x y z w
      → AreInRange x' y' z' w'
      → g2_avx2 s (g1_avx2 s (beside (quad x y z w) (quad x' y' z' w')))
        ≡ beside
            (quad (mixed x) (mixed y) (mixed z) (mixed w))
            (quad (mixed x') (mixed y') (mixed z') (mixed w'))
  g2-g1-beside x y z w x' y' z' w' h k =
      let c = crossed x y z w x' y' z' w' h k in g2-g1_avx2 s doc x y x' y' z w z' w' c.0 c.1

  blake2_round_2-beside :
      (x y z w x' y' z' w' : Lane)
      → AreInRange x y z w
      → AreInRange x' y' z' w'
      → blake2_round_2 s (beside (quad x y z w) (quad x' y' z' w'))
        ≡ beside (round_quad x y z w) (round_quad x' y' z' w')
  unfolding blake2_round_2
  blake2_round_2-beside x y z w x' y' z' w' h h' =
      let m = mixed-AreInRange x y z w h in
      let m' = mixed-AreInRange x' y' z' w' h' in
      let d = diagonal-AreInRange _ _ _ _ m in
      let d' = diagonal-AreInRange _ _ _ _ m' in
      ap (λ (r : Registers256). undiagonalize_2 s (g2_avx2 s (g1_avx2 s (diagonalize_2 s r))))
        (g2-g1-beside x y z w x' y' z' w' h h')
      ∙ (ap (λ (r : Registers256). undiagonalize_2 s (g2_avx2 s (g1_avx2 s r)))
            (diagonalize_2-beside _ _ _ _ _ _ _ _)
          ∙ (ap (undiagonalize_2 s) (g2-g1-beside _ _ _ _ _ _ _ _ d d')
              ∙ undiagonalize_2-beside _ _ _ _ _ _ _ _))

-- With intrinsics that do what their documentation says, `BLAKE2_ROUND_2` on registers of words of 64
-- bits does what `BLAKE2_ROUND_NOMSG` does on the sixteen words in the low halves of the registers, and
-- on the sixteen in the high halves.
pub quad_words-blake2_round_2 :
    (s : Intrinsics256) (r : Registers256)
    → AreDocumented256 s
    → All (λ w. w < 2 ^ 64) (quad_words (low_quad r))
    → All (λ w. w < 2 ^ 64) (quad_words (high_quad r))
    → let r' = blake2_round_2 s r in
      (quad_words (low_quad r') ≡ round_nomsg (λ k. k) (quad_words (low_quad r)))
      × (quad_words (high_quad r') ≡ round_nomsg (λ k. k) (quad_words (high_quad r)))
quad_words-blake2_round_2 s r doc h k =
    let (x, y, z, w, e, in_low) = lanes_of (low_quad r) h in
    let (x', y', z', w', e', in_high) = lanes_of (high_quad r) k in
    let run : blake2_round_2 s r ≡ beside (round_quad x y z w) (round_quad x' y' z' w') =
      (λ i. blake2_round_2 s (beside (e i) (e' i)))
      ∙ blake2_round_2-beside s doc x y z w x' y' z' w' in_low in_high in
    (
      ap (λ (p : Registers256). quad_words (low_quad p)) run
          ∙ (quad_words-round_quad x y z w
              ∙ ap (λ (q : Quad). round_nomsg (λ k. k) (quad_words q)) (sym e)),
      ap (λ (p : Registers256). quad_words (high_quad p)) run
          ∙ (quad_words-round_quad x' y' z' w'
              ∙ ap (λ (q : Quad). round_nomsg (λ k. k) (quad_words q)) (sym e')),
    )
