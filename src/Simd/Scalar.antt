-- ===== src/Simd/Scalar.antt =====
-- `BLAKE2_ROUND_NOMSG` of argon2/src/blake2/blamka-round-ref.h on the words at sixteen places is the
-- round on these words alone.
use argon.Base.{ℕ, ◌<◌, ◌≡◌, ◌∙◌, sym, ap, arith, length, get_or, set}
use argon.Block.{Block, blamka_mix, blamka_step, round_nomsg}
use argon.Simd.Gather.{gather, get_or-gather, ArePlaces, Gathers, start-Gathers, set-Gathers}

module _ (at : ℕ → ℕ) (len : ℕ) (h : ArePlaces at 16 len) where
  read :
      (k : ℕ) (v₀ v u : Block)
      → k < 16
      → Gathers 0 at 16 len v₀ v u
      → get_or v (at k) 0 ≡ get_or u k 0
  read k v₀ v u lt g =
      sym (get_or-gather 0 at 16 k v lt) ∙ ap (λ (l : Block). get_or l k 0) g.same_words

  write :
      (k x : ℕ) (v₀ v u : Block)
      → k < 16
      → Gathers 0 at 16 len v₀ v u
      → Gathers 0 at 16 len v₀ (set v (at k) x) (set u k x)
  write k x v₀ v u lt g = set-Gathers 0 at 16 len h k x v₀ v u lt g

  step :
      (a b c d : ℕ) (v₀ v u : Block)
      → a < 16
      → b < 16
      → c < 16
      → d < 16
      → Gathers 0 at 16 len v₀ v u
      → Gathers 0 at 16 len v₀ (blamka_step (at a) (at b) (at c) (at d) v) (blamka_step a b c d u)
  unfolding blamka_step
  step a b c d v₀ v u pa pb pc pd g =
      let q = blamka_mix (get_or u a 0) (get_or u b 0) (get_or u c 0) (get_or u d 0) in
      let w = write d (get_or q 3 0) v₀ _ _ pd (
        write c (get_or q 2 0) v₀ _ _ pc
          (write b (get_or q 1 0) v₀ _ _ pb (write a (get_or q 0 0) v₀ v u pa g))) in
      rw (blamka_step, read a v₀ v u pa g)
        (rw (read b v₀ v u pb g) (rw (read c v₀ v u pc g) (rw (read d v₀ v u pd g) w)))

  -- The round on all the words.
  pub round_nomsg-Gathers :
      (v : Block)
      → length v ≡ len
      → Gathers 0 at 16 len v (round_nomsg at v) (round_nomsg (λ k. k) (gather 0 at 16 0 v))
  unfolding round_nomsg
  round_nomsg-Gathers v e =
      let start = start-Gathers 0 at 16 len h v e in
      let s =
        λ (a b c d : ℕ) (x y : Block) (pa : a < 16) (pb : b < 16) (pc : c < 16) (pd : d < 16)
            (g : Gathers 0 at 16 len v x y).
          step a b c d v x y pa pb pc pd g in
      s 3 4 9 14 _ _ (omega arith) (omega arith) (omega arith) (omega arith) (
        s 2 7 8 13 _ _ (omega arith) (omega arith) (omega arith) (omega arith) (
          s 1 6 11 12 _ _ (omega arith) (omega arith) (omega arith) (omega arith) (
            s 0 5 10 15 _ _ (omega arith) (omega arith) (omega arith) (omega arith) (
              s 3 7 11 15 _ _ (omega arith) (omega arith) (omega arith) (omega arith) (
                s 2 6 10 14 _ _ (omega arith) (omega arith) (omega arith) (omega arith) (
                  s 1 5 9 13 _ _ (omega arith) (omega arith) (omega arith) (omega arith) (
                    s 0 4 8 12 _ _ (omega arith) (omega arith) (omega arith) (omega arith)
                      start)))))))
