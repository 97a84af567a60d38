-- ===== src/Decimal/Print.antt =====
-- What `%lu` prints, and its length.
use argon.Base.{ℕ, zero, suc, ◌+◌, ◌*◌, ◌/◌, ◌%◌, ◌^◌, ◌≤◌, ◌<◌, ◌≡◌, ◌∙◌, sym, refl, arith}
use argon.Base.{[], ◌∷◌, ◌++◌, Bytes, length, ltb, Bool-cases, inl, inr}
use native.Mathlib.Nat.{pow-suc}
use argon.Decimal.{print_loop, print_ulong, numlen_loop, numlen}

print_loop-append :
    (f n : ℕ) (out rest : Bytes) → print_loop f n out ++ rest ≡ print_loop f n (out ++ rest)
unfolding print_loop
print_loop-append zero n out rest = refl
print_loop-append (suc f) n out rest =
    ground (arith, print_loop-append f (n / 10) ((b'0' + n % 10) ∷ out) rest)

pub print_ulong-append : (n : ℕ) (rest : Bytes) → print_ulong n ++ rest ≡ print_loop (suc n) n rest
unfolding print_ulong
print_ulong-append n rest = print_loop-append (suc n) n [] rest

-- Fuel above the number is enough, and more changes nothing.
pub print_loop_fuel :
    (f g n : ℕ) (out : Bytes) → n < f → n < g → print_loop f n out ≡ print_loop g n out
unfolding print_loop
print_loop_fuel zero g n out p q = absurd (omega arith)
print_loop_fuel (suc f) zero n out p q = absurd (omega arith)
print_loop_fuel (suc f) (suc g) n out p q =
    ground (arith, print_loop_fuel f g (n / 10) ((b'0' + n % 10) ∷ out))

pub print_loop_step :
    (f n : ℕ) (out : Bytes)
    → 10 ≤ n
    → print_loop (suc f) n out ≡ print_loop f (n / 10) ((b'0' + n % 10) ∷ out)
unfolding print_loop
print_loop_step f n out h = ground arith

-- The last digit of a number that has others.
pub print_ulong_digit :
    (n d : ℕ) → 0 < n → d < 10 → print_ulong (n * 10 + d) ≡ print_ulong n ++ (b'0' + d) ∷ []
unfolding print_ulong
print_ulong_digit n d pos h =
    let quotient : (n * 10 + d) / 10 ≡ n = omega arith in
    let last : (n * 10 + d) % 10 ≡ d = omega arith in
    print_loop_step (n * 10 + d) (n * 10 + d) [] (omega arith)
    ∙ (rw (quotient, last) (print_loop_fuel (n * 10 + d) (suc n) n _ (omega arith) (omega arith))
        ∙ sym (print_ulong-append n ((b'0' + d) ∷ [])))

pub print_one_digit : (d : ℕ) → d < 10 → print_ulong d ≡ (b'0' + d) ∷ []
unfolding print_ulong print_loop
print_one_digit d h = ground arith

-- The first digit of a positive number is not zero.
pub print_loop_head :
    (f n : ℕ) (out : Bytes)
    → n < f
    → 0 < n
    → (c : ℕ) × (s : Bytes) × (print_loop f n out ≡ c ∷ s) × (b'1' ≤ c) × (c ≤ b'9')
print_loop_head zero n out p pos = absurd (omega arith)
print_loop_head (suc f) n out p pos = elim (Bool-cases (ltb n 10)) [
  | inl one ↦ (b'0' + n, out, unfold print_loop in (rw one), ground arith, ground arith)
  | inr more ↦
      rw (print_loop_step f n out (ground arith))
        (print_loop_head f (n / 10) ((b'0' + n % 10) ∷ out) (ground arith) (ground arith))
]

length-print_loop :
    (f n len : ℕ) (out : Bytes)
    → n < f
    → length (print_loop f n out) + len ≡ numlen_loop f n (suc len) + length out
unfolding print_loop numlen_loop
length-print_loop zero n len out h = absurd (omega arith)
length-print_loop (suc f) n len out h =
    ground (arith, length-print_loop f (n / 10) (len + 1) ((b'0' + n % 10) ∷ out))

-- `numlen` is the length of the decimal print, for every number.
pub length-print_ulong : (n : ℕ) → length (print_ulong n) ≡ numlen n
unfolding print_ulong numlen
length-print_ulong n = omega (arith, length-print_loop (suc n) n 0 [] (omega arith))

numlen_bound : (k f n len : ℕ) → n < 10 ^ suc k → numlen_loop f n len ≤ len + k
unfolding numlen_loop
numlen_bound k zero n len h = omega arith
numlen_bound zero (suc f) n len h = ground arith
numlen_bound (suc k) (suc f) n len h =
    ground (arith, numlen_bound k f (n / 10) (len + 1) (omega (arith, pow-suc 10 (suc k))))

-- A 64-bit number has at most twenty digits.
pub numlen-le : (n : ℕ) → n < 2 ^ 64 → numlen n ≤ 20
unfolding numlen
numlen-le n h = numlen_bound 19 (suc n) n 1 (omega arith)
