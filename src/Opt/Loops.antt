-- ===== src/Opt/Loops.antt =====
-- What the loops of `fill_block` of argon2/src/opt.c leave in each register, and in the block.
use argon.Base.{
  ℕ, zero, suc, ◌+◌, ◌*◌, ◌/◌, ◌%◌, ◌<◌, ◌≤◌, ◌≡◌, ◌≢◌, ◌∙◌, refl, sym, ap, arith, Bool, length,
  length-set, get_or, set, get_or-set_ne, get_or-set_self, eq_of_get_or, if◌then◌else◌,
}
use native.Mathlib.Decide.{ℕ_discrete}
use argon.Block.{Block}
use argon.Simd.Round.{IsTarget}
use argon.Simd.{M128, Target}
use argon.Opt.{VectorState, zero_register, register_at, take_in, write_out}
use argon.Opt.Flatten.{flatten, half, length-flatten, get_or-flatten}

get_or-set_at :
    (st : VectorState) (i j : ℕ) (x d : M128) → i ≡ j → j < length st → get_or (set st i x) j d ≡ x
get_or-set_at st i j x d e h = rw e (get_or-set_self st j x d h)

module _ (s : Target) (ref next : Block) (with_xor : Bool) where
  -- What a round of the first loop makes of a register.
  abbrev mixed : M128 → ℕ → M128
  mixed r j = s.ops.xor_si128 r (s.ops.loadu_si128 ref j)

  abbrev kept : M128 → ℕ → M128
  kept r j = if with_xor then s.ops.xor_si128 (mixed r j) (s.ops.loadu_si128 next j) else mixed r j

  abbrev pub mixed_in : VectorState → ℕ → M128
  mixed_in st j = mixed (register_at st j) j

  abbrev pub held : VectorState → ℕ → M128
  held st j = kept (register_at st j) j

  pub length-take_in :
      (n i : ℕ) (st xy : VectorState)
      → let r = take_in s ref next with_xor n i st xy in
        (length r.0 ≡ length st) × (length r.1 ≡ length xy)
  unfolding take_in
  length-take_in zero i st xy = (refl, refl)
  length-take_in (suc n) i st xy =
      let x = mixed_in st i in
      let y = held st i in
      let (p, q) = length-take_in n (i + 1) (set st i x) (set xy i y) in
      (p ∙ length-set st i x, q ∙ length-set xy i y)

  take_in_below :
      (n i j : ℕ) (st xy : VectorState)
      → j < i
      → let r = take_in s ref next with_xor n i st xy in
        (register_at r.0 j ≡ register_at st j) × (register_at r.1 j ≡ register_at xy j)
  unfolding take_in
  take_in_below zero i j st xy h = (refl, refl)
  take_in_below (suc n) i j st xy h =
      let x = mixed_in st i in
      let y = held st i in
      let (p, q) = take_in_below n (i + 1) j (set st i x) (set xy i y) (omega arith) in
      let ne : i ≢ j = λ e. absurd (omega arith) in
      (p ∙ get_or-set_ne st i j x zero_register ne, q ∙ get_or-set_ne xy i j y zero_register ne)

  pub take_in_inside :
      (n i j : ℕ) (st xy : VectorState)
      → i ≤ j
      → j < i + n
      → j < length st
      → j < length xy
      → let r = take_in s ref next with_xor n i st xy in
        (register_at r.0 j ≡ mixed_in st j) × (register_at r.1 j ≡ held st j)
  unfolding take_in
  take_in_inside zero i j st xy low high p q = absurd (omega arith)
  take_in_inside (suc n) i j st xy low high p q =
      let x = mixed_in st i in
      let y = held st i in
      elim (ℕ_discrete i j) [
        | yes e ↦
            let (u, v) = take_in_below n (i + 1) j (set st i x) (set xy i y) (omega arith) in
            (
              u ∙ (get_or-set_at st i j x zero_register e p ∙ ap (mixed_in st) e),
              v ∙ (get_or-set_at xy i j y zero_register e q ∙ ap (held st) e),
            )
        | no ne ↦
            let (u, v) =
              take_in_inside n (i + 1) j (set st i x) (set xy i y) (omega arith) (omega arith)
                (omega (arith, length-set st i x)) (omega (arith, length-set xy i y)) in
            let same = get_or-set_ne st i j x zero_register ne in
            (u ∙ ap (λ (r : M128). mixed r j) same, v ∙ ap (λ (r : M128). kept r j) same)
      ]

module _ (s : Target) (xy : VectorState) where
  abbrev pub mixed_out : VectorState → ℕ → M128
  mixed_out st j = s.ops.xor_si128 (register_at st j) (register_at xy j)

  pub length-write_out :
      (n i : ℕ) (st : VectorState) (next : Block)
      → length (write_out s xy n i st next).0 ≡ length st
  unfolding write_out
  length-write_out zero i st next = refl
  length-write_out (suc n) i st next =
      let x = mixed_out st i in
      length-write_out n (i + 1) (set st i x) (s.ops.storeu_si128 next i x) ∙ length-set st i x

  write_out_below :
      (n i j : ℕ) (st : VectorState) (next : Block)
      → j < i
      → register_at (write_out s xy n i st next).0 j ≡ register_at st j
  unfolding write_out
  write_out_below zero i j st next h = refl
  write_out_below (suc n) i j st next h =
      let x = mixed_out st i in
      write_out_below n (i + 1) j (set st i x) (s.ops.storeu_si128 next i x) (omega arith)
      ∙ get_or-set_ne st i j x zero_register (λ e. absurd (omega arith))

  pub write_out_inside :
      (n i j : ℕ) (st : VectorState) (next : Block)
      → i ≤ j
      → j < i + n
      → j < length st
      → register_at (write_out s xy n i st next).0 j ≡ mixed_out st j
  unfolding write_out
  write_out_inside zero i j st next low high p = absurd (omega arith)
  write_out_inside (suc n) i j st next low high p =
      let x = mixed_out st i in
      elim (ℕ_discrete i j) [
        | yes e ↦
            write_out_below n (i + 1) j (set st i x) (s.ops.storeu_si128 next i x) (omega arith)
            ∙ (rw e (get_or-set_self st j (mixed_out st j) zero_register p))
        | no ne ↦
            write_out_inside n (i + 1) j (set st i x) (s.ops.storeu_si128 next i x) (omega arith)
              (omega arith) (omega (arith, length-set st i x))
            ∙ ap (λ (y : M128). s.ops.xor_si128 y (register_at xy j))
                (get_or-set_ne st i j x zero_register ne)
      ]

-- A store at another register leaves a word, and one at its register writes half of the register.
storeu_ne :
    (s : Target) (doc : IsTarget s) (b : Block) (i : ℕ) (y : M128) (x : ℕ)
    → i ≢ x / 2
    → get_or (s.ops.storeu_si128 b i y) x 0 ≡ get_or b x 0
storeu_ne s doc b i y x ne = rw (doc.documented.storeu_eq b i y) (
    get_or-set_ne (set b (2 * i) y.0) (2 * i + 1) x y.1 0 (λ e. ne (omega arith))
    ∙ get_or-set_ne b (2 * i) x y.0 0 (λ e. ne (omega arith)))

storeu_self :
    (s : Target) (doc : IsTarget s) (b : Block) (i : ℕ) (y : M128) (x : ℕ)
    → i ≡ x / 2
    → 2 * i + 1 < length b
    → get_or (s.ops.storeu_si128 b i y) x 0 ≡ half (x % 2) y
unfolding half
storeu_self s doc b i y x e lt = elim (ℕ_discrete (x % 2) 0) [
  | yes even ↦
      let place : x ≡ 2 * i = omega arith in
      rw (doc.documented.storeu_eq b i y) (
        rw even (
          rw place (
            get_or-set_ne (set b (2 * i) y.0) (2 * i + 1) (2 * i) y.1 0 (λ d. absurd (omega arith))
            ∙ get_or-set_self b (2 * i) y.0 0 (omega arith))))
  | no odd ↦
      let place : x ≡ 2 * i + 1 = omega arith in
      let rest : x % 2 ≡ 1 = omega arith in
      rw (doc.documented.storeu_eq b i y) (
        rw rest (
          rw place (
            get_or-set_self (set b (2 * i) y.0) (2 * i + 1) y.1 0
              (omega (arith, length-set b (2 * i) y.0)))))
]

length-storeu :
    (s : Target) (doc : IsTarget s) (b : Block) (i : ℕ) (y : M128)
    → length (s.ops.storeu_si128 b i y) ≡ length b
length-storeu s doc b i y =
    rw (doc.documented.storeu_eq b i y)
      (length-set (set b (2 * i) y.0) (2 * i + 1) y.1 ∙ length-set b (2 * i) y.0)

-- The block holds the words of the registers below `i`.
record Written (i : ℕ) (st : VectorState) (next : Block) : Type 0 where
  same_length : length next ≡ 2 * length st
  same_words : (x : ℕ) → x < 2 * i → get_or next x 0 ≡ half (x % 2) (register_at st (x / 2))

module _ (s : Target) (doc : IsTarget s) (xy : VectorState) where
  storeu-Written :
      (i : ℕ) (st : VectorState) (next : Block) (y : M128)
      → i < length st
      → Written i st next
      → Written (i + 1) (set st i y) (s.ops.storeu_si128 next i y)
  storeu-Written i st next y lt w = record {
    same_length = length-storeu s doc next i y ∙ omega (arith, w.same_length, length-set st i y);
    same_words = λ x h. elim (ℕ_discrete i (x / 2)) [
      | yes e ↦
          storeu_self s doc next i y x e (omega (arith, w.same_length))
          ∙ ap (half (x % 2)) (rw (sym e) (sym (get_or-set_self st i y zero_register lt)))
      | no ne ↦
          storeu_ne s doc next i y x ne
          ∙ (w.same_words x (omega arith)
              ∙ ap (half (x % 2)) (sym (get_or-set_ne st i (x / 2) y zero_register ne)))
    ];
  }

  write_out-Written :
      (n i : ℕ) (st : VectorState) (next : Block)
      → i + n ≤ length st
      → Written i st next
      → let r = write_out s xy n i st next in Written (i + n) r.0 r.1
  unfolding write_out
  write_out-Written zero i st next h w = rw (plus_zero i) w
    where
      plus_zero : (k : ℕ) → k + 0 ≡ k
      plus_zero k = omega arith
  write_out-Written (suc n) i st next h w =
      let y = mixed_out s xy st i in
      let next' = storeu-Written i st next y (omega arith) w in
      rw (plus_suc i n) (
        write_out-Written n (i + 1) (set st i y) (s.ops.storeu_si128 next i y)
          (omega (arith, length-set st i y)) next')
    where
      plus_suc : (k m : ℕ) → k + suc m ≡ k + 1 + m
      plus_suc k m = omega arith

  -- At the end the block is the words of the registers.
  pub write_out-flatten :
      (n : ℕ) (st : VectorState) (next : Block)
      → length st ≡ n
      → length next ≡ 2 * n
      → let r = write_out s xy n 0 st next in r.1 ≡ flatten r.0
  write_out-flatten n st next e e' =
      let r = write_out s xy n 0 st next in
      let start : Written 0 st next = record {
        same_length = omega arith;
        same_words = λ x h. absurd (omega arith);
      } in
      let w = write_out-Written n 0 st next (omega arith) start in
      let len = length-write_out s xy n 0 st next in
      eq_of_get_or r.1 (flatten r.0) 0 (omega (arith, w.same_length, length-flatten r.0))
        (λ x h. w.same_words x (omega (arith, w.same_length, len)) ∙ sym (get_or-flatten r.0 x))
