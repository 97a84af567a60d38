-- ===== src/Addon/Compare.antt =====
-- `constant_time_compare` of argon2_core.cpp.
use argon.Base.{
  ℕ, zero, suc, ◌+◌, ◌≤◌, ◌<◌, ◌≡◌, ◌↔◌, ◌∙◌, refl, sym, ap, arith, true, ==_iff, Bytes, length,
  get_or, bit_or, bit_xor, eq_of_bit_xor, zeros_of_bit_or, bit_xor_self, eq_of_get_or,
}
use native.Mathlib.Decide.{ℕ_discrete}
use argon.Addon.{difference, constant_time_compare}

difference-zero :
    (n i : ℕ) (a b : Bytes) (d : ℕ)
    → difference n i a b d ≡ 0
    → (d ≡ 0) × ((j : ℕ) → i ≤ j → j < i + n → get_or a j 0 ≡ get_or b j 0)
unfolding difference
difference-zero zero i a b d e = (e, λ j low high. absurd (omega arith))
difference-zero (suc n) i a b d e =
    let x = get_or a i 0 in
    let y = get_or b i 0 in
    let (z, same) = difference-zero n (i + 1) a b (bit_or d (bit_xor x y)) e in
    let (d_zero, xy) = zeros_of_bit_or d (bit_xor x y) z in
    let here : x ≡ y = eq_of_bit_xor x y xy in
    (
      d_zero,
      λ j low high. elim (ℕ_discrete j i) [
        | yes at ↦ rw at here
        | no past ↦ same j (omega arith) (omega arith)
      ],
    )

difference_self : (n i : ℕ) (a : Bytes) → difference n i a a 0 ≡ 0
unfolding difference
difference_self zero i a = refl
difference_self (suc n) i a = rw (bit_xor_self (get_or a i 0)) (difference_self n (i + 1) a)

-- For two buffers of one length `constant_time_compare` is true exactly when they are equal.
pub constant_time_compare_iff :
    (a b : Bytes) (len : ℕ)
    → length a ≡ len
    → length b ≡ len
    → (constant_time_compare a b len ≡ true) ↔ (a ≡ b)
unfolding constant_time_compare
constant_time_compare_iff a b len p q = (
  λ e.
      let (_, same) = difference-zero len 0 a b 0 ((==_iff (difference len 0 a b 0) 0).0 e) in
      eq_of_get_or a b 0 (p ∙ sym q) (λ j lt. same j (omega arith) (omega arith)),
  λ e.
      (==_iff (difference len 0 a b 0) 0).1
        (sym (ap (λ (x : Bytes). difference len 0 a x 0) e) ∙ difference_self len 0 a),
)
