-- ===== src/Simd/Round.antt =====
-- The SSE2 round computes the words of the reference round.
use argon.Base.{All, ℕ, ◌<◌, ◌^◌, ◌≡◌, ◌∙◌, refl, sym, ap, [], ◌∷◌, get_or, set}
use argon.Block.{Block, blamka_mix, blamka_step, round_nomsg}
use argon.Simd.{
  Target, Forms, sse2_forms, Intrinsics, AreDocumented, Registers, g1, g2, diagonalize,
  undiagonalize, blake2_round,
}
use argon.Simd.Lanes.{
  IsRotation, roti_epi64_lem, Lane, lanes, InRange, scalar, scalar-InRange, half_step-lanes, by_32,
  by_24, by_16, by_63,
}

-- `G` on a lane.
unfoldable pub mixed : Lane → Lane
mixed x = scalar 16 63 (scalar 32 24 x)

pub mixed-InRange : (x : Lane) → InRange x → InRange (mixed x)
unfolding mixed
mixed-InRange x h = scalar-InRange 16 63 _ by_16 by_63 (scalar-InRange 32 24 x by_32 by_24 h)

abbrev pub registers : Lane → Lane → Lane → Lane → Registers
registers x y z w = record { first = lanes x y; second = lanes z w }

record AreInRange (x y z w : Lane) : Type 0 where
  in_x : InRange x
  in_y : InRange y
  in_z : InRange z
  in_w : InRange w

-- The words that `G` takes from the lanes on a diagonal.
abbrev pub diagonal : Lane → Lane → Lane → Lane → Lane
diagonal x y z w = record { a = x.a; b = y.b; c = z.c; d = w.d }

-- What the forms of the macros do to words of 64 bits.
pub record AreForms (m : Forms) : Type 0 where
  pub rotates : IsRotation m.roti
  pub turns :
      (x y z w : Lane)
      → m.turn (registers x y z w)
        ≡ registers (diagonal x y z w) (diagonal y z w x) (diagonal z w x y) (diagonal w x y z)
  pub turns_back :
      (x y z w : Lane)
      → m.turn_back (registers x y z w)
        ≡ registers (diagonal x w z y) (diagonal y x w z) (diagonal z y x w) (diagonal w z y x)

g1-registers :
    (s : Intrinsics) (m : Forms) (x y z w : Lane)
    → AreDocumented s
    → AreForms m
    → AreInRange x y z w
    → let u = scalar 32 24 in g1 s m (registers x y z w) ≡ registers (u x) (u y) (u z) (u w)
unfolding g1
g1-registers s m x y z w doc f h = λ i. record {
  first = half_step-lanes s m.roti 32 24 x y doc f.rotates by_32 by_24 h.in_x h.in_y i;
  second = half_step-lanes s m.roti 32 24 z w doc f.rotates by_32 by_24 h.in_z h.in_w i;
}

g2-registers :
    (s : Intrinsics) (m : Forms) (x y z w : Lane)
    → AreDocumented s
    → AreForms m
    → AreInRange x y z w
    → let u = scalar 16 63 in g2 s m (registers x y z w) ≡ registers (u x) (u y) (u z) (u w)
unfolding g2
g2-registers s m x y z w doc f h = λ i. record {
  first = half_step-lanes s m.roti 16 63 x y doc f.rotates by_16 by_63 h.in_x h.in_y i;
  second = half_step-lanes s m.roti 16 63 z w doc f.rotates by_16 by_63 h.in_z h.in_w i;
}

g2-g1 :
    (s : Intrinsics) (m : Forms) (x y z w : Lane)
    → AreDocumented s
    → AreForms m
    → AreInRange x y z w
    → g2 s m (g1 s m (registers x y z w)) ≡ registers (mixed x) (mixed y) (mixed z) (mixed w)
unfolding mixed
g2-g1 s m x y z w doc f h =
    let next = λ (u : Lane) (k : InRange u). scalar-InRange 32 24 u by_32 by_24 k in
    ap (g2 s m) (g1-registers s m x y z w doc f h)
    ∙ g2-registers s m (scalar 32 24 x) (scalar 32 24 y) (scalar 32 24 z) (scalar 32 24 w) doc f
        (record {
          in_x = next x h.in_x;
          in_y = next y h.in_y;
          in_z = next z h.in_z;
          in_w = next w h.in_w;
        })

diagonalize-registers :
    (s : Intrinsics) (x y z w : Lane)
    → AreDocumented s
    → diagonalize s (registers x y z w)
      ≡ registers (diagonal x y z w) (diagonal y z w x) (diagonal z w x y) (diagonal w x y z)
unfolding diagonalize
diagonalize-registers s x y z w doc =
    rw (diagonalize, doc.unpacklo_eq (z.b, w.b) (z.b, w.b))
      (rw (doc.unpacklo_eq (x.d, y.d) (x.d, y.d)) (
        rw (doc.unpacklo_eq (x.b, y.b) (x.b, y.b)) (
          rw (doc.unpacklo_eq (z.d, w.d) (z.d, w.d)) (
            rw (doc.unpackhi_eq (x.b, y.b) (z.b, z.b)) (
              rw (doc.unpackhi_eq (z.d, w.d) (x.d, x.d)) (
                rw (doc.unpackhi_eq (z.b, w.b) (x.b, x.b))
                  (rw (doc.unpackhi_eq (x.d, y.d) (z.d, z.d)) refl)))))))

undiagonalize-registers :
    (s : Intrinsics) (x y z w : Lane)
    → AreDocumented s
    → undiagonalize s (registers x y z w)
      ≡ registers (diagonal x w z y) (diagonal y x w z) (diagonal z y x w) (diagonal w z y x)
unfolding undiagonalize
undiagonalize-registers s x y z w doc =
    rw (undiagonalize, doc.unpacklo_eq (z.b, w.b) (z.b, w.b))
      (rw (doc.unpacklo_eq (x.d, y.d) (x.d, y.d)) (
        rw (doc.unpacklo_eq (x.b, y.b) (x.b, y.b)) (
          rw (doc.unpacklo_eq (z.d, w.d) (z.d, w.d)) (
            rw (doc.unpackhi_eq (z.b, w.b) (x.b, x.b)) (
              rw (doc.unpackhi_eq (x.d, y.d) (z.d, z.d)) (
                rw (doc.unpackhi_eq (x.b, y.b) (z.b, z.b))
                  (rw (doc.unpackhi_eq (z.d, w.d) (x.d, x.d)) refl)))))))

-- The words of the registers, in the order of the block.
unfoldable pub words : Registers → Block
words r =
    let h = r.first in
    let k = r.second in
    h.a.0 ∷ h.a.1 ∷ k.a.0 ∷ k.a.1 ∷ h.b.0 ∷ h.b.1 ∷ k.b.0 ∷ k.b.1 ∷ h.c.0 ∷ h.c.1 ∷ k.c.0 ∷ k.c.1
    ∷ h.d.0 ∷ h.d.1 ∷ k.d.0 ∷ k.d.1 ∷ []

-- `G` in place, by the lane that it reads.
mixed_step : ℕ → ℕ → ℕ → ℕ → Block → Block
mixed_step a b c d v =
    let q =
      mixed (record { a = get_or v a 0; b = get_or v b 0; c = get_or v c 0; d = get_or v d 0 }) in
    set (set (set (set v a q.a) b q.b) c q.c) d q.d

blamka_step-mixed : (a b c d : ℕ) (v : Block) → blamka_step a b c d v ≡ mixed_step a b c d v
unfolding blamka_step blamka_mix mixed_step mixed scalar
blamka_step-mixed a b c d v = refl

-- The eight steps of a round, by what a step does.
steps : (ℕ → ℕ → ℕ → ℕ → Block → Block) → Block → Block
steps f v =
    f 3 4 9 14 (
      f 2 7 8 13
        (f 1 6 11 12 (f 0 5 10 15 (f 3 7 11 15 (f 2 6 10 14 (f 1 5 9 13 (f 0 4 8 12 v)))))))

round_nomsg-steps : (v : Block) → round_nomsg (λ k. k) v ≡ steps blamka_step v
unfolding round_nomsg steps
round_nomsg-steps v = refl

round_nomsg-mixed : (v : Block) → round_nomsg (λ k. k) v ≡ steps mixed_step v
round_nomsg-mixed v =
    round_nomsg-steps v ∙ (λ i. steps (λ a b c d x. blamka_step-mixed a b c d x i) v)

-- The reference round on the words of four lanes.
round-words :
    (x y z w : Lane)
    → let p = mixed (diagonal (mixed x) (mixed y) (mixed z) (mixed w)) in
      let q = mixed (diagonal (mixed y) (mixed z) (mixed w) (mixed x)) in
      let r = mixed (diagonal (mixed z) (mixed w) (mixed x) (mixed y)) in
      let t = mixed (diagonal (mixed w) (mixed x) (mixed y) (mixed z)) in
      steps mixed_step (words (registers x y z w))
      ≡ words
          (registers (diagonal p t r q) (diagonal q p t r) (diagonal r q p t) (diagonal t r q p))
unfolding steps mixed_step words
round-words x y z w = refl

pub diagonal-InRange :
    (x y z w : Lane) → InRange x → InRange y → InRange z → InRange w → InRange (diagonal x y z w)
diagonal-InRange x y z w h k l n = record {
  a_word = h.a_word;
  b_word = k.b_word;
  c_word = l.c_word;
  d_word = n.d_word;
}

-- The round on four lanes.
blake2_round-registers :
    (s : Intrinsics) (m : Forms) (x y z w : Lane)
    → AreDocumented s
    → AreForms m
    → AreInRange x y z w
    → words (blake2_round s m (registers x y z w)) ≡ steps mixed_step (words (registers x y z w))
unfolding blake2_round
blake2_round-registers s m x y z w doc f h =
    let x' = mixed x in
    let y' = mixed y in
    let z' = mixed z in
    let w' = mixed w in
    let in_x = mixed-InRange x h.in_x in
    let in_y = mixed-InRange y h.in_y in
    let in_z = mixed-InRange z h.in_z in
    let in_w = mixed-InRange w h.in_w in
    let half = g2-g1 s m x y z w doc f h ∙ refl in
    let turned = f.turns x' y' z' w' in
    let again =
      g2-g1 s m (diagonal x' y' z' w') (diagonal y' z' w' x') (diagonal z' w' x' y')
        (diagonal w' x' y' z') doc f
        (record {
          in_x = diagonal-InRange x' y' z' w' in_x in_y in_z in_w;
          in_y = diagonal-InRange y' z' w' x' in_y in_z in_w in_x;
          in_z = diagonal-InRange z' w' x' y' in_z in_w in_x in_y;
          in_w = diagonal-InRange w' x' y' z' in_w in_x in_y in_z;
        }) in
    let back =
      f.turns_back (mixed (diagonal x' y' z' w')) (mixed (diagonal y' z' w' x'))
        (mixed (diagonal z' w' x' y')) (mixed (diagonal w' x' y' z')) in
    ap (λ (r : Registers). words (m.turn_back (g2 s m (g1 s m (m.turn r))))) half
    ∙ (ap (λ (r : Registers). words (m.turn_back (g2 s m (g1 s m r)))) turned
        ∙ (ap (λ (r : Registers). words (m.turn_back r)) again
            ∙ (ap words back ∙ sym (round-words x y z w))))

-- The words of four lanes, in the order of the block.
abbrev pub lane_words : Lane → Lane → Lane → Lane → Block
lane_words x y z w =
    x.a ∷ y.a ∷ z.a ∷ w.a ∷ x.b ∷ y.b ∷ z.b ∷ w.b ∷ x.c ∷ y.c ∷ z.c ∷ w.c ∷ x.d ∷ y.d ∷ z.d ∷ w.d
    ∷ []

pub round_nomsg-lane_words :
    (x y z w : Lane)
    → let p = mixed (diagonal (mixed x) (mixed y) (mixed z) (mixed w)) in
      let q = mixed (diagonal (mixed y) (mixed z) (mixed w) (mixed x)) in
      let r = mixed (diagonal (mixed z) (mixed w) (mixed x) (mixed y)) in
      let t = mixed (diagonal (mixed w) (mixed x) (mixed y) (mixed z)) in
      round_nomsg (λ k. k) (lane_words x y z w)
      ≡ lane_words (diagonal p t r q) (diagonal q p t r) (diagonal r q p t) (diagonal t r q p)
unfolding words
round_nomsg-lane_words x y z w = round_nomsg-mixed (lane_words x y z w) ∙ round-words x y z w

-- Intrinsics that do what their documentation says, with fitting forms of the macros.
pub record IsTarget (s : Target) : Type 0 where
  pub documented : AreDocumented s.ops
  pub fitting : AreForms s.forms

-- The forms for SSE2.
pub sse2_forms-AreForms : (s : Intrinsics) → AreDocumented s → AreForms (sse2_forms s)
unfolding sse2_forms
sse2_forms-AreForms s doc = record {
  rotates = λ x c d lo hi. roti_epi64_lem s x c doc d lo hi;
  turns = λ x y z w. diagonalize-registers s x y z w doc;
  turns_back = λ x y z w. undiagonalize-registers s x y z w doc;
}

-- With intrinsics that do what their documentation says, and forms of the macros that turn and rotate
-- words of 64 bits, `BLAKE2_ROUND` on eight registers of such words leaves in them the words that
-- `BLAKE2_ROUND_NOMSG` leaves in the sixteen words they hold.
pub words-blake2_round :
    (s : Intrinsics) (m : Forms) (r : Registers)
    → AreDocumented s
    → AreForms m
    → All (λ w. w < 2 ^ 64) (words r)
    → words (blake2_round s m r) ≡ round_nomsg (λ k. k) (words r)
unfolding words
words-blake2_round s m r doc f
      (
        a0,
        (a1, (a2, (a3, (b0, (b1, (b2, (b3, (c0, (c1, (c2, (c3, (d0, (d1, (d2, (d3, _))))))))))))))),
      ) =
    let h = r.first in
    let k = r.second in
    let x : Lane = record { a = h.a.0; b = h.b.0; c = h.c.0; d = h.d.0 } in
    let y : Lane = record { a = h.a.1; b = h.b.1; c = h.c.1; d = h.d.1 } in
    let z : Lane = record { a = k.a.0; b = k.b.0; c = k.c.0; d = k.d.0 } in
    let w : Lane = record { a = k.a.1; b = k.b.1; c = k.c.1; d = k.d.1 } in
    blake2_round-registers s m x y z w doc f (record {
      in_x = record { a_word = a0; b_word = b0; c_word = c0; d_word = d0 };
      in_y = record { a_word = a1; b_word = b1; c_word = c1; d_word = d1 };
      in_z = record { a_word = a2; b_word = b2; c_word = c2; d_word = d2 };
      in_w = record { a_word = a3; b_word = b3; c_word = c3; d_word = d3 };
    })
    ∙ sym (round_nomsg-mixed (words r))

-- With the SSE2 forms of the macros, and intrinsics that do what their documentation says,
-- `BLAKE2_ROUND` on eight registers of words of 64 bits leaves in them the words that
-- `BLAKE2_ROUND_NOMSG` leaves in the sixteen words they hold.
pub words-sse2_round :
    (s : Intrinsics) (r : Registers)
    → AreDocumented s
    → All (λ w. w < 2 ^ 64) (words r)
    → words (blake2_round s (sse2_forms s) r) ≡ round_nomsg (λ k. k) (words r)
words-sse2_round s r doc f = words-blake2_round s (sse2_forms s) r doc (sse2_forms-AreForms s doc) f
