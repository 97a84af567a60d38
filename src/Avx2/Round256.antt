-- ===== src/Avx2/Round256.antt =====
-- The AVX2 rounds compute the words of two reference rounds.
use argon.Base.{All, ℕ, ◌^◌, ◌<◌, ◌≡◌, ◌∙◌, refl, sym, ap, [], ◌∷◌}
use argon.Block.{Block, round_nomsg}
use argon.Simd.Lanes.{Lane}
use argon.Simd.Round.{mixed, mixed-InRange, diagonal, diagonal-InRange, round_nomsg-lane_words}
use argon.Avx2.{
  Intrinsics256, AreDocumented256, Quad, Registers256, mm_shuffle, g1_avx2, g2_avx2, diagonalize_1,
  undiagonalize_1, blake2_round_1,
}
use argon.Avx2.Lanes256.{quad, AreInRange, g2-g1_avx2}

abbrev pub pair256 : Quad → Quad → Registers256
pair256 q p = record { first = q; second = p }

-- The words in the four registers of one digit, in the order of the block.
unfoldable pub quad_words : Quad → Block
quad_words q =
    q.a.0 ∷ q.a.1 ∷ q.a.2 ∷ q.a.3 ∷ q.b.0 ∷ q.b.1 ∷ q.b.2 ∷ q.b.3 ∷ q.c.0 ∷ q.c.1 ∷ q.c.2 ∷ q.c.3
    ∷ q.d.0 ∷ q.d.1 ∷ q.d.2 ∷ q.d.3 ∷ []

module _ (x y z w : Lane) (h : AreInRange x y z w) where
  pub mixed-AreInRange : AreInRange (mixed x) (mixed y) (mixed z) (mixed w)
  mixed-AreInRange = record {
    in_x = mixed-InRange x h.in_x;
    in_y = mixed-InRange y h.in_y;
    in_z = mixed-InRange z h.in_z;
    in_w = mixed-InRange w h.in_w;
  }

  pub diagonal-AreInRange :
      AreInRange (diagonal x y z w) (diagonal y z w x) (diagonal z w x y) (diagonal w x y z)
  diagonal-AreInRange = record {
    in_x = diagonal-InRange x y z w h.in_x h.in_y h.in_z h.in_w;
    in_y = diagonal-InRange y z w x h.in_y h.in_z h.in_w h.in_x;
    in_z = diagonal-InRange z w x y h.in_z h.in_w h.in_x h.in_y;
    in_w = diagonal-InRange w x y z h.in_w h.in_x h.in_y h.in_z;
  }

-- The lanes on their diagonals, and back.
abbrev pub turned : Lane → Lane → Lane → Lane → Quad
turned x y z w = quad (diagonal x y z w) (diagonal y z w x) (diagonal z w x y) (diagonal w x y z)

abbrev pub turned_back : Lane → Lane → Lane → Lane → Quad
turned_back x y z w =
    quad (diagonal x w z y) (diagonal y x w z) (diagonal z y x w) (diagonal w z y x)

-- What a round makes of four lanes.
abbrev pub round_quad : Lane → Lane → Lane → Lane → Quad
round_quad x y z w =
    turned_back (mixed (diagonal (mixed x) (mixed y) (mixed z) (mixed w)))
      (mixed (diagonal (mixed y) (mixed z) (mixed w) (mixed x)))
      (mixed (diagonal (mixed z) (mixed w) (mixed x) (mixed y)))
      (mixed (diagonal (mixed w) (mixed x) (mixed y) (mixed z)))

pub quad_words-round_quad :
    (x y z w : Lane)
    → quad_words (round_quad x y z w) ≡ round_nomsg (λ k. k) (quad_words (quad x y z w))
unfolding quad_words
quad_words-round_quad x y z w = sym (round_nomsg-lane_words x y z w)

-- The lanes of sixteen words in range.
pub lanes_of :
    (q : Quad)
    → All (λ w. w < 2 ^ 64) (quad_words q)
    → (x y z w : Lane) × (q ≡ quad x y z w) × AreInRange x y z w
unfolding quad_words
lanes_of q
      (
        a0,
        (a1, (a2, (a3, (b0, (b1, (b2, (b3, (c0, (c1, (c2, (c3, (d0, (d1, (d2, (d3, _))))))))))))))),
      ) =
    let x : Lane = record { a = q.a.0; b = q.b.0; c = q.c.0; d = q.d.0 } in
    let y : Lane = record { a = q.a.1; b = q.b.1; c = q.c.1; d = q.d.1 } in
    let z : Lane = record { a = q.a.2; b = q.b.2; c = q.c.2; d = q.d.2 } in
    let w : Lane = record { a = q.a.3; b = q.b.3; c = q.c.3; d = q.d.3 } in
    (
      x,
      y,
      z,
      w,
      refl,
      record {
        in_x = record { a_word = a0; b_word = b0; c_word = c0; d_word = d0 };
        in_y = record { a_word = a1; b_word = b1; c_word = c1; d_word = d1 };
        in_z = record { a_word = a2; b_word = b2; c_word = c2; d_word = d2 };
        in_w = record { a_word = a3; b_word = b3; c_word = c3; d_word = d3 };
      },
    )

module _ (s : Intrinsics256) (doc : AreDocumented256 s) where
  diagonalize_1-quad :
      (x y z w x' y' z' w' : Lane)
      → diagonalize_1 s (pair256 (quad x y z w) (quad x' y' z' w'))
        ≡ pair256 (turned x y z w) (turned x' y' z' w')
  unfolding diagonalize_1
  diagonalize_1-quad x y z w x' y' z' w' =
      let turn = λ (u v o t : ℕ) (imm : ℕ). doc.permute_eq (u, v, o, t) imm in
      λ i.
        pair256
          (record {
            a = (x.a, y.a, z.a, w.a);
            b = turn x.b y.b z.b w.b (mm_shuffle 0 3 2 1) i;
            c = turn x.c y.c z.c w.c (mm_shuffle 1 0 3 2) i;
            d = turn x.d y.d z.d w.d (mm_shuffle 2 1 0 3) i;
          })
          (record {
            a = (x'.a, y'.a, z'.a, w'.a);
            b = turn x'.b y'.b z'.b w'.b (mm_shuffle 0 3 2 1) i;
            c = turn x'.c y'.c z'.c w'.c (mm_shuffle 1 0 3 2) i;
            d = turn x'.d y'.d z'.d w'.d (mm_shuffle 2 1 0 3) i;
          })

  undiagonalize_1-quad :
      (x y z w x' y' z' w' : Lane)
      → undiagonalize_1 s (pair256 (quad x y z w) (quad x' y' z' w'))
        ≡ pair256 (turned_back x y z w) (turned_back x' y' z' w')
  unfolding undiagonalize_1
  undiagonalize_1-quad x y z w x' y' z' w' =
      let turn = λ (u v o t : ℕ) (imm : ℕ). doc.permute_eq (u, v, o, t) imm in
      λ i.
        pair256
          (record {
            a = (x.a, y.a, z.a, w.a);
            b = turn x.b y.b z.b w.b (mm_shuffle 2 1 0 3) i;
            c = turn x.c y.c z.c w.c (mm_shuffle 1 0 3 2) i;
            d = turn x.d y.d z.d w.d (mm_shuffle 0 3 2 1) i;
          })
          (record {
            a = (x'.a, y'.a, z'.a, w'.a);
            b = turn x'.b y'.b z'.b w'.b (mm_shuffle 2 1 0 3) i;
            c = turn x'.c y'.c z'.c w'.c (mm_shuffle 1 0 3 2) i;
            d = turn x'.d y'.d z'.d w'.d (mm_shuffle 0 3 2 1) i;
          })

  blake2_round_1-quad :
      (x y z w x' y' z' w' : Lane)
      → AreInRange x y z w
      → AreInRange x' y' z' w'
      → blake2_round_1 s (pair256 (quad x y z w) (quad x' y' z' w'))
        ≡ pair256 (round_quad x y z w) (round_quad x' y' z' w')
  unfolding blake2_round_1
  blake2_round_1-quad x y z w x' y' z' w' h h' =
      let m = mixed-AreInRange x y z w h in
      let m' = mixed-AreInRange x' y' z' w' h' in
      let d = diagonal-AreInRange _ _ _ _ m in
      let d' = diagonal-AreInRange _ _ _ _ m' in
      ap (λ (r : Registers256). undiagonalize_1 s (g2_avx2 s (g1_avx2 s (diagonalize_1 s r))))
        (g2-g1_avx2 s doc x y z w x' y' z' w' h h')
      ∙ (ap (λ (r : Registers256). undiagonalize_1 s (g2_avx2 s (g1_avx2 s r)))
            (diagonalize_1-quad _ _ _ _ _ _ _ _)
          ∙ (ap (undiagonalize_1 s) (g2-g1_avx2 s doc _ _ _ _ _ _ _ _ d d')
              ∙ undiagonalize_1-quad _ _ _ _ _ _ _ _))

-- With intrinsics that do what their documentation says, `BLAKE2_ROUND_1` on registers of words of 64
-- bits does what `BLAKE2_ROUND_NOMSG` does on the sixteen words in the registers of each digit.
pub quad_words-blake2_round_1 :
    (s : Intrinsics256) (r : Registers256)
    → AreDocumented256 s
    → All (λ w. w < 2 ^ 64) (quad_words r.first)
    → All (λ w. w < 2 ^ 64) (quad_words r.second)
    → let r' = blake2_round_1 s r in
      (quad_words r'.first ≡ round_nomsg (λ k. k) (quad_words r.first))
      × (quad_words r'.second ≡ round_nomsg (λ k. k) (quad_words r.second))
quad_words-blake2_round_1 s r doc h k =
    let (x, y, z, w, e, in_first) = lanes_of r.first h in
    let (x', y', z', w', e', in_second) = lanes_of r.second k in
    let run : blake2_round_1 s r ≡ pair256 (round_quad x y z w) (round_quad x' y' z' w') =
      (λ i. blake2_round_1 s (pair256 (e i) (e' i)))
      ∙ blake2_round_1-quad s doc x y z w x' y' z' w' in_first in_second in
    (
      ap (λ (p : Registers256). quad_words p.first) run
          ∙ (quad_words-round_quad x y z w
              ∙ ap (λ (q : Quad). round_nomsg (λ k. k) (quad_words q)) (sym e)),
      ap (λ (p : Registers256). quad_words p.second) run
          ∙ (quad_words-round_quad x' y' z' w'
              ∙ ap (λ (q : Quad). round_nomsg (λ k. k) (quad_words q)) (sym e')),
    )
