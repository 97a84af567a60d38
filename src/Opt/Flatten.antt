-- ===== src/Opt/Flatten.antt =====
-- The words of the registers of argon2/src/opt.c.
use argon.Base.{
  ℕ, zero, suc, ◌+◌, ◌*◌, ◌/◌, ◌%◌, ◌≡◌, ◌∙◌, refl, ap, arith, [], ◌∷◌, length, get_or,
}
use argon.Block.{Block}
use argon.Simd.{M128}
use argon.Opt.{VectorState, zero_register, register_at, registers_of}

unfoldable pub flatten : VectorState → Block
flatten [] = []
flatten (x ∷ st) = x.0 ∷ x.1 ∷ flatten st

-- The low and the high word.
unfoldable pub half : ℕ → M128 → ℕ
half zero x = x.0
half (suc b) x = x.1

pub length-flatten : (st : VectorState) → length (flatten st) ≡ 2 * length st
unfolding flatten
length-flatten [] = refl
length-flatten (x ∷ st) = omega (arith, length-flatten st)

pub get_or-flatten :
    (st : VectorState) (x : ℕ) → get_or (flatten st) x 0 ≡ half (x % 2) (register_at st (x / 2))
unfolding flatten half
get_or-flatten [] x = empty (x % 2)
  where
    empty : (b : ℕ) → 0 ≡ half b zero_register
    empty zero = refl
    empty (suc b) = refl
get_or-flatten (y ∷ st) zero = refl
get_or-flatten (y ∷ st) (suc zero) = refl
get_or-flatten (y ∷ st) (suc (suc x)) =
    let e : suc (suc x) / 2 ≡ suc (x / 2) = omega arith in
    let r : suc (suc x) % 2 ≡ x % 2 = omega arith in rw e (rw r (get_or-flatten st x))

pub get_or-flatten_low :
    (st : VectorState) (i : ℕ) → get_or (flatten st) (2 * i) 0 ≡ (register_at st i).0
unfolding half
get_or-flatten_low st i =
    let e : 2 * i / 2 ≡ i = omega arith in
    let r : 2 * i % 2 ≡ 0 = omega arith in get_or-flatten st (2 * i) ∙ rw e (rw r refl)

pub get_or-flatten_high :
    (st : VectorState) (i : ℕ) → get_or (flatten st) (2 * i + 1) 0 ≡ (register_at st i).1
unfolding half
get_or-flatten_high st i =
    let e : (2 * i + 1) / 2 ≡ i = omega arith in
    let r : (2 * i + 1) % 2 ≡ 1 = omega arith in get_or-flatten st (2 * i + 1) ∙ rw e (rw r refl)

-- A block of words in pairs is the words of its registers.
pub flatten-registers_of : (n : ℕ) (b : Block) → length b ≡ 2 * n → flatten (registers_of b) ≡ b
unfolding flatten registers_of
flatten-registers_of n [] h = refl
flatten-registers_of n (x ∷ []) h = absurd (omega arith)
flatten-registers_of zero (x ∷ y ∷ b) h = absurd (omega arith)
flatten-registers_of (suc n) (x ∷ y ∷ b) h =
    ap (λ (l : Block). x ∷ y ∷ l) (flatten-registers_of n b (omega arith))

pub length-registers_of : (n : ℕ) (b : Block) → length b ≡ 2 * n → length (registers_of b) ≡ n
unfolding registers_of
length-registers_of zero [] h = refl
length-registers_of (suc n) [] h = absurd (omega arith)
length-registers_of n (x ∷ []) h = absurd (omega arith)
length-registers_of zero (x ∷ y ∷ b) h = absurd (omega arith)
length-registers_of (suc n) (x ∷ y ∷ b) h = ap suc (length-registers_of n b (omega arith))
