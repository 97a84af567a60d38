-- ===== src/Base/Bits.antt =====
-- Laws of the bit operations at variables, from the digit recursion that they stand for.
use Prim.Native.Nat.{ℕ, zero, suc, ◌+◌, ◌-◌, ◌*◌, ◌/◌, ◌%◌, ◌^◌, ◌≤◌, ◌<◌, min, max}
use Prim.Native.Nat.{bit_and, bit_or, bit_xor, digits, bitwise, differ}
use Prim.Native.Nat.{bit_and-bitwise, bit_or-bitwise, bit_xor-bitwise}
use mathlib.Core.Path.{◌≡◌, refl}
use native.Mathlib.Nat.{pow-suc, one-le-pow}
use native.Mathlib.Omega.{arith}

-- More digits to go than the first number has change nothing.
module _ (z : ℕ → ℕ) (f : ℕ → ℕ → ℕ) where
  digits-more : (n k a b : ℕ) → a ≤ n → digits z f (n + k) a b ≡ digits z f n a b
  digits-more zero zero zero b h = refl
  digits-more zero (suc k) zero b h = rw (zero_plus (suc k)) refl
    where
      zero_plus : (x : ℕ) → 0 + x ≡ x
      zero_plus x = omega arith
  digits-more zero k (suc a) b h = absurd (omega arith)
  digits-more (suc n) k zero b h = rw (suc_plus n k) refl
    where
      suc_plus : (x y : ℕ) → suc x + y ≡ suc (x + y)
      suc_plus x y = omega arith
  digits-more (suc n) k (suc a) b h =
      rw (suc_plus n k) (rw (digits-more n k (suc a / 2) (b / 2) (omega arith)))
    where
      suc_plus : (x y : ℕ) → suc x + y ≡ suc (x + y)
      suc_plus x y = omega arith

  lowest_digit :
      (x y : ℕ)
      → bitwise z f (suc x) y ≡ bitwise z f (suc x / 2) (y / 2) * 2 + f (suc x % 2) (y % 2)
  lowest_digit x y =
      let h = suc x / 2 in
      let e : h + (x - h) ≡ x = omega arith in
      omega (arith, rw e at (digits-more h (x - h) h (y / 2) (omega arith)))

-- The last digit of each operation, and the digits before it.
pub bit_xor_step : (x y : ℕ) → bit_xor x y ≡ bit_xor (x / 2) (y / 2) * 2 + differ (x % 2) (y % 2)
bit_xor_step zero y = simp bit_xor-bitwise (omega arith)
bit_xor_step (suc x) y = simp bit_xor-bitwise (lowest_digit (λ w. w) differ x y)

pub bit_and_step : (x y : ℕ) → bit_and x y ≡ bit_and (x / 2) (y / 2) * 2 + min (x % 2) (y % 2)
bit_and_step zero y = simp bit_and-bitwise (omega arith)
bit_and_step (suc x) y = simp bit_and-bitwise (lowest_digit (λ w. 0) min x y)

pub bit_or_step : (x y : ℕ) → bit_or x y ≡ bit_or (x / 2) (y / 2) * 2 + max (x % 2) (y % 2)
bit_or_step zero y = simp bit_or-bitwise (omega arith)
bit_or_step (suc x) y = simp bit_or-bitwise (lowest_digit (λ w. w) max x y)

-- The digits of an exclusive or, for `omega`.
differ_cases : (x y : ℕ) → x < 2 → y < 2 → (differ x y + 2 * min x y ≡ x + y) × (differ x y < 2)
differ_cases zero zero p q = omega arith
differ_cases zero (suc zero) p q = omega arith
differ_cases (suc zero) zero p q = omega arith
differ_cases (suc zero) (suc zero) p q = omega arith
differ_cases zero (suc (suc y)) p q = absurd (omega arith)
differ_cases (suc zero) (suc (suc y)) p q = absurd (omega arith)
differ_cases (suc (suc x)) y p q = absurd (omega arith)

pub differ_mod :
    (a b : ℕ)
    → (differ (a % 2) (b % 2) + 2 * min (a % 2) (b % 2) ≡ a % 2 + b % 2)
      × (differ (a % 2) (b % 2) < 2)
differ_mod a b = differ_cases (a % 2) (b % 2) (omega arith) (omega arith)

mod_double : (a p : ℕ) → 0 < p → a % (2 * p) ≡ 2 * (a / 2 % p) + a % 2
mod_double a p h = grind arith

bit_and_double :
    (p a : ℕ) → 0 < p → bit_and (a / 2) (p - 1) ≡ a / 2 % p → bit_and a (2 * p - 1) ≡ a % (2 * p)
bit_and_double p a h ih =
    let half : (2 * p - 1) / 2 ≡ p - 1 = omega arith in
    omega (arith, mod_double a p h, rw half at (bit_and_step a (2 * p - 1)))

-- A mask of `k` ones is the remainder by `2 ^ k`.
pub bit_and_mask : (k a : ℕ) → bit_and a (2 ^ k - 1) ≡ a % 2 ^ k
bit_and_mask zero a = and_zero a a (omega arith)
  where
    and_zero : (n c : ℕ) → c ≤ n → bit_and c (2 ^ 0 - 1) ≡ c % 2 ^ 0
    and_zero n zero h = refl
    and_zero zero (suc c) h = absurd (omega arith)
    and_zero (suc n) (suc c) h =
        omega (arith, bit_and_step (suc c) 0, and_zero n (suc c / 2) (omega arith))
bit_and_mask (suc k) a =
    let twice : 2 ^ suc k ≡ 2 * 2 ^ k = omega (arith, pow-suc 2 k) in
    rw twice (bit_and_double (2 ^ k) a (omega (arith, one-le-pow k 2)) (bit_and_mask k (a / 2)))

pub bit_xor-lt : (k a b : ℕ) → a < 2 ^ k → b < 2 ^ k → bit_xor a b < 2 ^ k
bit_xor-lt zero zero zero p q = omega arith
bit_xor-lt zero zero (suc b) p q = absurd (omega arith)
bit_xor-lt zero (suc a) b p q = absurd (omega arith)
bit_xor-lt (suc k) a b p q = omega (
  arith,
  pow-suc 2 k,
  bit_xor_step a b,
  differ_mod a b,
  bit_xor-lt k (a / 2) (b / 2) (omega (arith, pow-suc 2 k)) (omega (arith, pow-suc 2 k)),
)

pub bit_or-lt : (k a b : ℕ) → a < 2 ^ k → b < 2 ^ k → bit_or a b < 2 ^ k
bit_or-lt zero zero zero p q = omega arith
bit_or-lt zero zero (suc b) p q = absurd (omega arith)
bit_or-lt zero (suc a) b p q = absurd (omega arith)
bit_or-lt (suc k) a b p q = omega (
  arith,
  pow-suc 2 k,
  bit_or_step a b,
  bit_or-lt k (a / 2) (b / 2) (omega (arith, pow-suc 2 k)) (omega (arith, pow-suc 2 k)),
)

bit_xor-zero_fuel : (n a b : ℕ) → a ≤ n → bit_xor a b ≡ 0 → a ≡ b
bit_xor-zero_fuel n zero b h e = omega (arith, bit_xor-bitwise 0 b)
bit_xor-zero_fuel zero (suc a) b h e = absurd (omega arith)
bit_xor-zero_fuel (suc n) (suc a) b h e = omega (
  arith,
  bit_xor_step (suc a) b,
  differ_mod (suc a) b,
  bit_xor-zero_fuel n (suc a / 2) (b / 2) (omega arith) (omega (arith, bit_xor_step (suc a) b)),
)

-- Only equal numbers have no differing bit.
pub eq_of_bit_xor : (a b : ℕ) → bit_xor a b ≡ 0 → a ≡ b
eq_of_bit_xor a b e = bit_xor-zero_fuel a a b (omega arith) e

bit_xor_self_fuel : (n a : ℕ) → a ≤ n → bit_xor a a ≡ 0
bit_xor_self_fuel n zero h = refl
bit_xor_self_fuel zero (suc a) h = absurd (omega arith)
bit_xor_self_fuel (suc n) (suc a) h = omega (
  arith,
  bit_xor_step (suc a) (suc a),
  differ_mod (suc a) (suc a),
  bit_xor_self_fuel n (suc a / 2) (omega arith),
)

pub bit_xor_self : (a : ℕ) → bit_xor a a ≡ 0
bit_xor_self a = bit_xor_self_fuel a a (omega arith)

bit_or-zero_fuel : (n a b : ℕ) → a ≤ n → bit_or a b ≡ 0 → (a ≡ 0) × (b ≡ 0)
bit_or-zero_fuel n zero b h e = omega (arith, bit_or-bitwise 0 b)
bit_or-zero_fuel zero (suc a) b h e = absurd (omega arith)
bit_or-zero_fuel (suc n) (suc a) b h e = omega (
  arith,
  bit_or_step (suc a) b,
  bit_or-zero_fuel n (suc a / 2) (b / 2) (omega arith) (omega (arith, bit_or_step (suc a) b)),
)

pub zeros_of_bit_or : (a b : ℕ) → bit_or a b ≡ 0 → (a ≡ 0) × (b ≡ 0)
zeros_of_bit_or a b e = bit_or-zero_fuel a a b (omega arith) e

differ_comm : (x y : ℕ) → x < 2 → y < 2 → differ x y ≡ differ y x
differ_comm x y p q = omega (arith, differ_cases x y p q, differ_cases y x q p)

bit_xor_comm_fuel : (n a b : ℕ) → a + b ≤ n → bit_xor a b ≡ bit_xor b a
bit_xor_comm_fuel n zero zero h = refl
bit_xor_comm_fuel zero zero (suc b) h = absurd (omega arith)
bit_xor_comm_fuel zero (suc a) b h = absurd (omega arith)
bit_xor_comm_fuel (suc n) zero (suc b) h = omega (
  arith,
  bit_xor_step 0 (suc b),
  bit_xor_step (suc b) 0,
  differ_comm (0 % 2) (suc b % 2) (omega arith) (omega arith),
  bit_xor_comm_fuel n (0 / 2) (suc b / 2) (omega arith),
)
bit_xor_comm_fuel (suc n) (suc a) b h = omega (
  arith,
  bit_xor_step (suc a) b,
  bit_xor_step b (suc a),
  differ_comm (suc a % 2) (b % 2) (omega arith) (omega arith),
  bit_xor_comm_fuel n (suc a / 2) (b / 2) (omega arith),
)

pub bit_xor_comm : (a b : ℕ) → bit_xor a b ≡ bit_xor b a
bit_xor_comm a b = bit_xor_comm_fuel (a + b) a b (omega arith)
