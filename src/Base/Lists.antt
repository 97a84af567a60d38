-- ===== src/Base/Lists.antt =====
-- Lists measured and indexed by native numbers, under the library's names, and bytes.
use Prim.Native.Nat.{ℕ, zero, suc, ◌+◌, ◌-◌, ◌≤◌, ◌<◌, min}
use Prim.Native.Char.{code}
use Prim.Native.String.{String}
use mathlib.Core.Path.{◌≡◌, refl, ap}
use mathlib.Core.List.{List, [], ◌∷◌, ◌++◌}
use mathlib.Core.Logic.{◌≢◌}
use native.Mathlib.Omega.{arith}

module _ {ℓ} {A : Type ℓ} where
  abbrev pub length : List A → ℕ
  length [] = 0
  length (x ∷ xs) = suc (length xs)

  abbrev pub get_or : List A → ℕ → A → A
  get_or [] i d = d
  get_or (x ∷ xs) zero d = x
  get_or (x ∷ xs) (suc i) d = get_or xs i d

  -- A write out of bounds changes nothing.
  abbrev pub set : List A → ℕ → A → List A
  set [] i v = []
  set (x ∷ xs) zero v = v ∷ xs
  set (x ∷ xs) (suc i) v = x ∷ set xs i v

  abbrev pub take : ℕ → List A → List A
  take zero xs = []
  take (suc n) [] = []
  take (suc n) (x ∷ xs) = x ∷ take n xs

  abbrev pub drop : ℕ → List A → List A
  drop zero xs = xs
  drop (suc n) [] = []
  drop (suc n) (x ∷ xs) = drop n xs

  abbrev pub replicate : ℕ → A → List A
  replicate zero a = []
  replicate (suc n) a = a ∷ replicate n a

  pub length-append : (xs ys : List A) → length (xs ++ ys) ≡ length xs + length ys
  length-append [] ys = omega arith
  length-append (x ∷ xs) ys = omega (arith, length-append xs ys)

  pub length-take : (n : ℕ) (xs : List A) → length (take n xs) ≡ min n (length xs)
  length-take zero xs = omega arith
  length-take (suc n) [] = omega arith
  length-take (suc n) (x ∷ xs) = omega (arith, length-take n xs)

  pub length-drop : (n : ℕ) (xs : List A) → length (drop n xs) ≡ length xs - n
  length-drop zero xs = omega arith
  length-drop (suc n) [] = omega arith
  length-drop (suc n) (x ∷ xs) = omega (arith, length-drop n xs)

  pub length-replicate : (n : ℕ) (a : A) → length (replicate n a) ≡ n
  length-replicate zero a = refl
  length-replicate (suc n) a = ap suc (length-replicate n a)

  pub take-append-drop : (n : ℕ) (xs : List A) → take n xs ++ drop n xs ≡ xs
  take-append-drop zero xs = refl
  take-append-drop (suc n) [] = refl
  take-append-drop (suc n) (x ∷ xs) = rw (take-append-drop n xs)

  pub take_append_self : (xs ys : List A) (n : ℕ) → length xs ≡ n → take n (xs ++ ys) ≡ xs
  take_append_self [] ys zero h = refl
  take_append_self [] ys (suc n) h = absurd (omega arith)
  take_append_self (x ∷ xs) ys zero h = absurd (omega arith)
  take_append_self (x ∷ xs) ys (suc n) h = ap (λ l. x ∷ l) (take_append_self xs ys n (omega arith))

  pub drop_append_self : (xs ys : List A) (n : ℕ) → length xs ≡ n → drop n (xs ++ ys) ≡ ys
  drop_append_self [] ys zero h = refl
  drop_append_self [] ys (suc n) h = absurd (omega arith)
  drop_append_self (x ∷ xs) ys zero h = absurd (omega arith)
  drop_append_self (x ∷ xs) ys (suc n) h = drop_append_self xs ys n (omega arith)

  pub take_append_le : (xs ys : List A) (n : ℕ) → n ≤ length xs → take n (xs ++ ys) ≡ take n xs
  take_append_le xs ys zero h = refl
  take_append_le [] ys (suc n) h = absurd (omega arith)
  take_append_le (x ∷ xs) ys (suc n) h = ap (λ l. x ∷ l) (take_append_le xs ys n (omega arith))

  pub drop_append_le :
      (xs ys : List A) (n : ℕ) → n ≤ length xs → drop n (xs ++ ys) ≡ drop n xs ++ ys
  drop_append_le xs ys zero h = refl
  drop_append_le [] ys (suc n) h = absurd (omega arith)
  drop_append_le (x ∷ xs) ys (suc n) h = drop_append_le xs ys n (omega arith)

  pub take_all : (xs : List A) (n : ℕ) → length xs ≤ n → take n xs ≡ xs
  take_all [] zero h = refl
  take_all [] (suc n) h = refl
  take_all (x ∷ xs) zero h = absurd (omega arith)
  take_all (x ∷ xs) (suc n) h = ap (λ l. x ∷ l) (take_all xs n (omega arith))

  pub take-take : (n : ℕ) (xs : List A) → take n (take n xs) ≡ take n xs
  take-take zero xs = refl
  take-take (suc n) [] = refl
  take-take (suc n) (x ∷ xs) = ap (λ (l : List A). x ∷ l) (take-take n xs)

  pub length-set : (xs : List A) (i : ℕ) (v : A) → length (set xs i v) ≡ length xs
  length-set [] i v = refl
  length-set (x ∷ xs) zero v = refl
  length-set (x ∷ xs) (suc i) v = ap suc (length-set xs i v)

pub get_or_ge {ℓ} : {A : Type ℓ} (xs : List A) (j : ℕ) (d : A) → length xs ≤ j → get_or xs j d ≡ d
get_or_ge [] j d h = refl
get_or_ge (y ∷ ys) zero d h = absurd (omega arith)
get_or_ge (y ∷ ys) (suc j) d h = get_or_ge ys j d (omega arith)

pub get_or-set_ne {ℓ} :
    {A : Type ℓ} (xs : List A) (i j : ℕ) (x d : A) → i ≢ j → get_or (set xs i x) j d ≡ get_or xs j d
get_or-set_ne [] i j x d h = refl
get_or-set_ne (y ∷ ys) zero zero x d h = absurd (h refl)
get_or-set_ne (y ∷ ys) zero (suc j) x d h = refl
get_or-set_ne (y ∷ ys) (suc i) zero x d h = refl
get_or-set_ne (y ∷ ys) (suc i) (suc j) x d h = get_or-set_ne ys i j x d (λ e. h (ap suc e))

pub get_or-set_ge {ℓ} :
    {A : Type ℓ} (xs : List A) (i j : ℕ) (x d : A) → length xs ≤ j → get_or (set xs i x) j d ≡ d
get_or-set_ge [] i j x d h = refl
get_or-set_ge (y ∷ ys) i zero x d h = absurd (omega arith)
get_or-set_ge (y ∷ ys) zero (suc j) x d h = get_or_ge ys j d (omega arith)
get_or-set_ge (y ∷ ys) (suc i) (suc j) x d h = get_or-set_ge ys i j x d (omega arith)

pub get_or-set_self {ℓ} :
    {A : Type ℓ} (xs : List A) (i : ℕ) (x d : A) → i < length xs → get_or (set xs i x) i d ≡ x
get_or-set_self [] i x d h = absurd (omega arith)
get_or-set_self (y ∷ ys) zero x d h = refl
get_or-set_self (y ∷ ys) (suc i) x d h = get_or-set_self ys i x d (omega arith)

-- Writes at different places.
pub set-set {ℓ} :
    {A : Type ℓ} (xs : List A) (i j : ℕ) (x y : A)
    → i ≢ j
    → set (set xs i x) j y ≡ set (set xs j y) i x
set-set [] i j x y h = refl
set-set (z ∷ zs) zero zero x y h = absurd (h refl)
set-set (z ∷ zs) zero (suc j) x y h = refl
set-set (z ∷ zs) (suc i) zero x y h = refl
set-set (z ∷ zs) (suc i) (suc j) x y h = ap (λ l. z ∷ l) (set-set zs i j x y (λ e. h (ap suc e)))

-- Lists of one length with the same elements.
pub eq_of_get_or {ℓ} :
    {A : Type ℓ} (xs ys : List A) (d : A)
    → length xs ≡ length ys
    → ((i : ℕ) → i < length xs → get_or xs i d ≡ get_or ys i d)
    → xs ≡ ys
eq_of_get_or [] [] d h e = refl
eq_of_get_or [] (y ∷ ys) d h e = absurd (omega arith)
eq_of_get_or (x ∷ xs) [] d h e = absurd (omega arith)
eq_of_get_or (x ∷ xs) (y ∷ ys) d h e =
    rw (e 0 (omega arith))
      (ap (λ l. y ∷ l) (eq_of_get_or xs ys d (omega arith) (λ i lt. e (suc i) (omega arith))))

abbrev pub All {ℓ κ} : {A : Type ℓ} → (A → Type κ) → List A → Type κ
All P [] = Unit
All P (x ∷ xs) = P x × All P xs

pub All-append {ℓ κ} :
    {A : Type ℓ} (P : A → Type κ) (front back : List A)
    → All P front
    → All P back
    → All P (front ++ back)
All-append P [] back p q = q
All-append P (a ∷ front) back (first, others) q = (first, All-append P front back others q)

pub All-take {ℓ κ} :
    {A : Type ℓ} (P : A → Type κ) (n : ℕ) (xs : List A) → All P xs → All P (take n xs)
All-take P zero xs h = tt
All-take P (suc n) [] h = tt
All-take P (suc n) (x ∷ xs) (first, others) = (first, All-take P n xs others)

-- A run of bytes; the content of a C string is one, without its terminating zero.
abbrev pub Bytes : Type 0
Bytes = List ℕ

abbrev pub IsByte : ℕ → Type 0
IsByte b = b < 256

abbrev pub IsBytes : Bytes → Type 0
IsBytes = All IsByte

-- The codes of a literal.
abbrev pub codes : String → Bytes
codes String.[] = []
codes (String.◌∷◌ c s) = code c ∷ codes s
