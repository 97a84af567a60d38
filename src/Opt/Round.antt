-- ===== src/Opt/Round.antt =====
-- The rounds of argon2/src/opt.c on the registers of a block are the rounds of argon2/src/ref.c on its
-- words.
use argon.Base.{
  ℕ, zero, suc, ◌+◌, ◌*◌, ◌/◌, ◌%◌, ◌^◌, ◌<◌, ◌≤◌, ◌≡◌, ◌≢◌, ◌∙◌, refl, sym, ap, arith, All, [],
  ◌∷◌, length, eq_of_get_or,
}
use native.Mathlib.Decide.{ℕ_discrete}
use argon.Block.{round_nomsg, nomsg_rounds, column, row}
use argon.Block.WellFormed.{InWords, round_nomsg-Fits, nomsg_rounds-Fits}
use argon.Simd.{M128, Target, Registers, blake2_round}
use argon.Simd.Gather.{
  gather, length-gather, ArePlaces, Gathers, start-Gathers, set-Gathers, get_or-gather,
  eq_of_gather,
}
use argon.Simd.Scalar.{round_nomsg-Gathers}
use argon.Simd.Round.{IsTarget, words, words-blake2_round}
use argon.Opt.{
  VectorState, zero_register, register_at, round_at, column_registers, row_registers, opt_rounds,
}
use argon.Opt.Flatten.{
  flatten, half, length-flatten, get_or-flatten, get_or-flatten_low, get_or-flatten_high,
}

-- The places of the words of the registers at `at`.
word_places : (ℕ → ℕ) → ℕ → ℕ
word_places at k = 2 * at (k / 2) + k % 2

word_places-ArePlaces : (at : ℕ → ℕ) → ArePlaces at 8 64 → ArePlaces (word_places at) 16 128
unfolding word_places
word_places-ArePlaces at h = record {
  inside = λ k lt. let i = h.inside (k / 2) (omega arith) in omega arith;
  different = λ j k p q ne. elim (ℕ_discrete (j / 2) (k / 2)) [
    | yes same ↦ λ e. ne (omega (arith, ap at same))
    | no other ↦ λ e. h.different (j / 2) (k / 2) (omega arith) (omega arith) other (omega arith)
  ];
}

module _ (s : Target) (doc : IsTarget s) (at : ℕ → ℕ) (h : ArePlaces at 8 64) where
  -- The registers that a round works on.
  taken : VectorState → Registers
  taken st = record {
    first = record {
      a = register_at st (at 0);
      b = register_at st (at 2);
      c = register_at st (at 4);
      d = register_at st (at 6);
    };
    second = record {
      a = register_at st (at 1);
      b = register_at st (at 3);
      c = register_at st (at 5);
      d = register_at st (at 7);
    };
  }

  listed : Registers → VectorState
  listed r =
      let f = r.first in let g = r.second in f.a ∷ g.a ∷ f.b ∷ g.b ∷ f.c ∷ g.c ∷ f.d ∷ g.d ∷ []

  round_at-Gathers :
      (st : VectorState)
      → length st ≡ 64
      → Gathers zero_register at 8 64 st
          (round_at s at st)
          (listed (blake2_round s.ops s.forms (taken st)))
  unfolding round_at gather listed taken
  round_at-Gathers st e =
      let r = blake2_round s.ops s.forms (taken st) in
      let f = r.first in
      let g = r.second in
      let w =
        λ (k : ℕ) (x : M128) (v u : VectorState) (lt : k < 8)
            (g : Gathers zero_register at 8 64 st v u).
          set-Gathers zero_register at 8 64 h k x st v u lt g in
      w 7 g.d _ _ (omega arith) (
        w 6 f.d _ _ (omega arith) (
          w 5 g.c _ _ (omega arith) (
            w 4 f.c _ _ (omega arith) (
              w 3 g.b _ _ (omega arith) (
                w 2 f.b _ _ (omega arith) (
                  w 1 g.a _ _ (omega arith)
                    (w 0 f.a _ _ (omega arith) (start-Gathers zero_register at 8 64 h st e))))))))

  -- The words of the registers at `at`.
  gather-flatten :
      (st : VectorState)
      → gather 0 (word_places at) 16 0 (flatten st) ≡ flatten (gather zero_register at 8 0 st)
  unfolding word_places
  gather-flatten st =
      let g = gather zero_register at 8 0 st in
      let left = gather 0 (word_places at) 16 0 (flatten st) in
      let n : length left ≡ 16 = length-gather 0 (word_places at) 16 0 (flatten st) in
      let n' : length (flatten g) ≡ 16 =
        omega (arith, length-flatten g, length-gather zero_register at 8 0 st) in
      eq_of_get_or left (flatten g) 0 (n ∙ sym n') (λ j lt.
        let quotient : (2 * at (j / 2) + j % 2) / 2 ≡ at (j / 2) = omega arith in
        let rest : (2 * at (j / 2) + j % 2) % 2 ≡ j % 2 = omega arith in
        get_or-gather 0 (word_places at) 16 j (flatten st) (omega (arith, n))
        ∙ (get_or-flatten st (word_places at j)
            ∙ (rw quotient (rw rest refl)
                ∙ (ap (half (j % 2))
                      (sym (get_or-gather zero_register at 8 (j / 2) st (omega (arith, n))))
                    ∙ sym (get_or-flatten g j)))))

  words-taken : (st : VectorState) → words (taken st) ≡ gather 0 (word_places at) 16 0 (flatten st)
  unfolding words taken gather flatten
  words-taken st = sym (gather-flatten st)

  taken-All : (st : VectorState) → InWords (flatten st) → All (λ w. w < 2 ^ 64) (words (taken st))
  unfolding words taken
  taken-All st f =
      let low = λ (k : ℕ). rw (get_or-flatten_low st (at k)) at (f (2 * at k)) in
      let high = λ (k : ℕ). rw (get_or-flatten_high st (at k)) at (f (2 * at k + 1)) in
      (
        low 0,
        (
          high 0,
          (
            low 1,
            (
              high 1,
              (
                low 2,
                (
                  high 2,
                  (
                    low 3,
                    (
                      high 3,
                      (low 4, (high 4, (low 5, (high 5, (low 6, (high 6, (low 7, (high 7, _)))))))),
                    ),
                  ),
                ),
              ),
            ),
          ),
        ),
      )

  words-listed : (r : Registers) → flatten (listed r) ≡ words r
  unfolding words listed flatten
  words-listed r = refl

  outside : (x : ℕ) → ((k : ℕ) → k < 16 → word_places at k ≢ x) → (k : ℕ) → k < 8 → at k ≢ x / 2
  unfolding word_places
  outside x out k lt e =
      let j = 2 * k + x % 2 in
      let quotient : j / 2 ≡ k = omega arith in
      let rest : j % 2 ≡ x % 2 = omega arith in
      out j (omega arith) (rw quotient (rw rest (rw e (omega arith))))

  -- A round, with its effect on the words.
  flatten-round_at :
      (st : VectorState)
      → length st ≡ 64
      → InWords (flatten st)
      → (length (round_at s at st) ≡ 64)
        × (flatten (round_at s at st) ≡ round_nomsg (word_places at) (flatten st))
  flatten-round_at st e f =
      let st' = round_at s at st in
      let r = taken st in
      let g = round_at-Gathers st e in
      let n = length-flatten st in
      let n' = length-flatten st' in
      let k =
        round_nomsg-Gathers (word_places at) 128 (word_places-ArePlaces at h) (flatten st)
          (omega (arith, n)) in
      let v = round_nomsg (word_places at) (flatten st) in
      (
        g.same_length,
        eq_of_gather 0 (word_places at) 16 (flatten st') v
            (omega (arith, n', g.same_length, k.same_length))
            (gather-flatten st'
              ∙ (ap flatten g.same_words
                  ∙ (words-listed (blake2_round s.ops s.forms r)
                      ∙ (words-blake2_round s.ops s.forms r doc.documented doc.fitting
                            (taken-All st f)
                          ∙ (ap (round_nomsg (λ k. k)) (words-taken st) ∙ sym k.same_words)))))
            (λ x out.
              get_or-flatten st' x
              ∙ (ap (half (x % 2)) (g.kept (x / 2) (outside x out))
                  ∙ (sym (get_or-flatten st x) ∙ sym (k.kept x out)))),
      )

-- The loops over columns and rows.
rounds_lem :
    (s : Target) (doc : IsTarget s) (at at' : ℕ → ℕ → ℕ)
    → ((i : ℕ) → i < 8 → ArePlaces (at i) 8 64)
    → ((i k : ℕ) → word_places (at i) k ≡ at' i k)
    → (n i : ℕ) (st : VectorState) → i + n ≤ 8
    → length st ≡ 64
    → InWords (flatten st)
    → (length (opt_rounds s at n i st) ≡ 64)
      × (flatten (opt_rounds s at n i st) ≡ nomsg_rounds at' n i (flatten st))
unfolding opt_rounds nomsg_rounds
rounds_lem s doc at at' h e zero i st le len f = (len, refl)
rounds_lem s doc at at' h e (suc n) i st le len f =
    let (len', eq) = flatten-round_at s doc (at i) (h i (omega arith)) st len f in
    let eq' : flatten (round_at s (at i) st) ≡ round_nomsg (at' i) (flatten st) =
      eq ∙ (λ j. round_nomsg (λ k. e i k j) (flatten st)) in
    let fit = round_nomsg-Fits 128 (at' i) (flatten st) (omega (arith, length-flatten st), f) in
    let f' : InWords (flatten (round_at s (at i) st)) = rw eq' fit.1 in
    let (len'', rest) =
      rounds_lem s doc at at' h e n (i + 1) (round_at s (at i) st) (omega arith) len' f' in
    (len'', rest ∙ ap (nomsg_rounds at' n (i + 1)) eq')

-- All the rounds of `fill_block`.
pub flatten-opt_rounds :
    (s : Target) (st : VectorState)
    → IsTarget s
    → length st ≡ 64
    → InWords (flatten st)
    → let st' = opt_rounds s row_registers 8 0 (opt_rounds s column_registers 8 0 st) in
      (length st' ≡ 64)
      × (flatten st' ≡ nomsg_rounds row 8 0 (nomsg_rounds column 8 0 (flatten st)))
unfolding column_registers row_registers column row word_places
flatten-opt_rounds s st doc len f =
    let columns =
      rounds_lem s doc column_registers column
        (λ i lt. record {
          inside = λ k p. omega arith;
          different = λ j k p q ne e. ne (omega arith);
        })
        (λ i k. omega arith) 8 0 st (omega arith) len f in
    let fit = nomsg_rounds-Fits 128 column 8 0 (flatten st) (omega (arith, length-flatten st), f) in
    let rows =
      rounds_lem s doc row_registers row
        (λ i lt. record {
          inside = λ k p. omega arith;
          different = λ j k p q ne e. ne (omega arith);
        })
        (λ i k. omega arith) 8 0 (opt_rounds s column_registers 8 0 st) (omega arith) columns.0
        (rw columns.1 fit.1) in
    (rows.0, rows.1 ∙ ap (nomsg_rounds row 8 0) columns.1)
