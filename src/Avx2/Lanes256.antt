-- ===== src/Avx2/Lanes256.antt =====
-- Each of the four words of a register goes through the scalar function.
use argon.Base.{ℕ, ◌+◌, ◌*◌, ◌%◌, ◌^◌, ◌≡◌, ◌∙◌, refl, ap, arith, bit_xor, bit_xor-lt, u64}
use argon.Block.{f_blamka}
use argon.Simd.Lanes.{Lane, InRange, by_32, by_24, scalar, scalar-InRange, f_blamka-lt}
use argon.Simd.Round.{mixed}
use argon.Avx2.{
  M256, Intrinsics256, AreDocumented256, Quad, f_blamka_avx2, quad_step, g1_avx2, g2_avx2,
  rotr32_avx2, rotr24_avx2, rotr16_avx2, rotr63_avx2,
}
use argon.Avx2.Rotate.{
  AreWords256, rotated256, pack, four_eq, rotr32_avx2_lem, rotr24_avx2_lem, rotr16_avx2_lem,
  rotr63_avx2_lem,
}

doubled : (x y z : ℕ) → u64 (x + u64 (y + u64 (z + z))) ≡ u64 (u64 (x + y) + u64 (2 * u64 z))
doubled x y z = omega arith

f_blamka_avx2_lem :
    (s : Intrinsics256) (x y : M256)
    → AreDocumented256 s
    → f_blamka_avx2 s x y ≡ (f_blamka x.0 y.0, f_blamka x.1 y.1, f_blamka x.2 y.2, f_blamka x.3 y.3)
unfolding f_blamka_avx2 f_blamka
f_blamka_avx2_lem s x y doc =
    rw (f_blamka_avx2, doc.mul_eq x y)
      (rw
        (doc.add_eq
          (pack ((x.0 % 2 ^ 32) * (y.0 % 2 ^ 32)) ((x.1 % 2 ^ 32) * (y.1 % 2 ^ 32))
            ((x.2 % 2 ^ 32) * (y.2 % 2 ^ 32)) ((x.3 % 2 ^ 32) * (y.3 % 2 ^ 32)))
          (pack ((x.0 % 2 ^ 32) * (y.0 % 2 ^ 32)) ((x.1 % 2 ^ 32) * (y.1 % 2 ^ 32))
            ((x.2 % 2 ^ 32) * (y.2 % 2 ^ 32)) ((x.3 % 2 ^ 32) * (y.3 % 2 ^ 32))))
        (ap (s.add_epi64 x) (doc.add_eq y _)
          ∙ (doc.add_eq x _
              ∙ four_eq (doubled x.0 y.0 _) (doubled x.1 y.1 _) (doubled x.2 y.2 _)
                  (doubled x.3 y.3 _))))

-- The registers of four lanes.
abbrev pub quad : Lane → Lane → Lane → Lane → Quad
quad x y z w = record {
  a = (x.a, y.a, z.a, w.a);
  b = (x.b, y.b, z.b, w.b);
  c = (x.c, y.c, z.c, w.c);
  d = (x.d, y.d, z.d, w.d);
}

pub record AreInRange (x y z w : Lane) : Type 0 where
  pub in_x : InRange x
  pub in_y : InRange y
  pub in_z : InRange z
  pub in_w : InRange w

-- A rotation of the words of a register.
IsRotation : (M256 → M256) → ℕ → Type 0
IsRotation rotr p = (x : M256) → AreWords256 x → rotr x ≡ rotated256 x p

quad_step-quad :
    (s : Intrinsics256) (rotr rotr' : M256 → M256) (p q : ℕ) (x y z w : Lane)
    → AreDocumented256 s
    → IsRotation rotr p
    → IsRotation rotr' q
    → AreInRange x y z w
    → let u = scalar p q in quad_step s rotr rotr' (quad x y z w) ≡ quad (u x) (u y) (u z) (u w)
unfolding quad_step scalar IsRotation
quad_step-quad s rotr rotr' p q x y z w doc r r' h =
    let a : M256 = (f_blamka x.a x.b, f_blamka y.a y.b, f_blamka z.a z.b, f_blamka w.a w.b) in
    let d = rotated256 (bit_xor x.d a.0, bit_xor y.d a.1, bit_xor z.d a.2, bit_xor w.d a.3) p in
    let c : M256 = (f_blamka x.c d.0, f_blamka y.c d.1, f_blamka z.c d.2, f_blamka w.c d.3) in
    let g : Quad = quad x y z w in
    let d_words : AreWords256 (bit_xor x.d a.0, bit_xor y.d a.1, bit_xor z.d a.2, bit_xor w.d a.3) =
      record {
        word_0 = bit_xor-lt 64 x.d a.0 h.in_x.d_word (f_blamka-lt x.a x.b);
        word_1 = bit_xor-lt 64 y.d a.1 h.in_y.d_word (f_blamka-lt y.a y.b);
        word_2 = bit_xor-lt 64 z.d a.2 h.in_z.d_word (f_blamka-lt z.a z.b);
        word_3 = bit_xor-lt 64 w.d a.3 h.in_w.d_word (f_blamka-lt w.a w.b);
      } in
    let b_words : AreWords256 (bit_xor x.b c.0, bit_xor y.b c.1, bit_xor z.b c.2, bit_xor w.b c.3) =
      record {
        word_0 = bit_xor-lt 64 x.b c.0 h.in_x.b_word (f_blamka-lt x.c d.0);
        word_1 = bit_xor-lt 64 y.b c.1 h.in_y.b_word (f_blamka-lt y.c d.1);
        word_2 = bit_xor-lt 64 z.b c.2 h.in_z.b_word (f_blamka-lt z.c d.2);
        word_3 = bit_xor-lt 64 w.b c.3 h.in_w.b_word (f_blamka-lt w.c d.3);
      } in
    let a_eq : f_blamka_avx2 s g.a g.b ≡ a = f_blamka_avx2_lem s g.a g.b doc in
    let d_eq : rotr (s.xor_si256 g.d a) ≡ d = ap rotr (doc.xor_eq g.d a) ∙ r _ d_words in
    let c_eq : f_blamka_avx2 s g.c d ≡ c = f_blamka_avx2_lem s g.c d doc in
    let b_eq : rotr' (s.xor_si256 g.b c)
        ≡ rotated256 (bit_xor x.b c.0, bit_xor y.b c.1, bit_xor z.b c.2, bit_xor w.b c.3) q =
      ap rotr' (doc.xor_eq g.b c) ∙ r' _ b_words in
    rw (quad_step, a_eq) (rw d_eq (rw c_eq (rw b_eq refl)))

module _ (s : Intrinsics256) (doc : AreDocumented256 s) where
  rotr32_avx2-IsRotation : IsRotation (rotr32_avx2 s) 32
  unfolding IsRotation
  rotr32_avx2-IsRotation x h = rotr32_avx2_lem s doc x h

  rotr24_avx2-IsRotation : IsRotation (rotr24_avx2 s) 24
  unfolding IsRotation
  rotr24_avx2-IsRotation x h = rotr24_avx2_lem s doc x h

  rotr16_avx2-IsRotation : IsRotation (rotr16_avx2 s) 16
  unfolding IsRotation
  rotr16_avx2-IsRotation x h = rotr16_avx2_lem s doc x h

  rotr63_avx2-IsRotation : IsRotation (rotr63_avx2 s) 63
  unfolding IsRotation
  rotr63_avx2-IsRotation x h = rotr63_avx2_lem s doc x h

  -- Both halves of `G` on the registers of one digit.
  mixed-quad :
      (x y z w : Lane)
      → AreInRange x y z w
      → quad_step s
          (rotr16_avx2 s)
          (rotr63_avx2 s)
          (quad_step s (rotr32_avx2 s) (rotr24_avx2 s) (quad x y z w))
        ≡ quad (mixed x) (mixed y) (mixed z) (mixed w)
  unfolding mixed
  mixed-quad x y z w h =
      let next = λ (u : Lane) (k : InRange u). scalar-InRange 32 24 u by_32 by_24 k in
      let k : AreInRange (scalar 32 24 x) (scalar 32 24 y) (scalar 32 24 z) (scalar 32 24 w) =
        record {
          in_x = next x h.in_x;
          in_y = next y h.in_y;
          in_z = next z h.in_z;
          in_w = next w h.in_w;
        } in
      ap (quad_step s (rotr16_avx2 s) (rotr63_avx2 s)) (
        quad_step-quad s (rotr32_avx2 s) (rotr24_avx2 s) 32 24 x y z w doc rotr32_avx2-IsRotation
          rotr24_avx2-IsRotation h)
      ∙ quad_step-quad s (rotr16_avx2 s) (rotr63_avx2 s) 16 63 _ _ _ _ doc rotr16_avx2-IsRotation
          rotr63_avx2-IsRotation k

  pub g2-g1_avx2 :
      (x y z w x' y' z' w' : Lane)
      → AreInRange x y z w
      → AreInRange x' y' z' w'
      → g2_avx2 s (g1_avx2 s (record { first = quad x y z w; second = quad x' y' z' w' }))
        ≡ record {
          first = quad (mixed x) (mixed y) (mixed z) (mixed w);
          second = quad (mixed x') (mixed y') (mixed z') (mixed w');
        }
  unfolding g1_avx2 g2_avx2
  g2-g1_avx2 x y z w x' y' z' w' h k =
      λ i. record { first = mixed-quad x y z w h i; second = mixed-quad x' y' z' w' k i }
