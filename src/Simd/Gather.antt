-- ===== src/Simd/Gather.antt =====
-- The elements of a list at the places that a round of argon2/src/ref.c or argon2/src/opt.c works on.
use argon.Base.{
  ℕ, zero, suc, ◌+◌, ◌<◌, ◌≡◌, ◌≢◌, ◌∙◌, ◌⊎◌, inl, inr, refl, sym, ap, arith, List, [], ◌∷◌, length,
  length-set, get_or, set, get_or-set_ne, get_or-set_self, eq_of_get_or,
}
use native.Mathlib.Decide.{ℕ_discrete}

module _ {ℓ} {A : Type ℓ} (d : A) where
  -- The elements at `at k`, `at (k + 1)` and so on, `n` of them.
  unfoldable pub gather : (ℕ → ℕ) → ℕ → ℕ → List A → List A
  gather at zero k v = []
  gather at (suc n) k v = get_or v (at k) d ∷ gather at n (k + 1) v

  pub length-gather : (at : ℕ → ℕ) (n k : ℕ) (v : List A) → length (gather at n k v) ≡ n
  unfolding gather
  length-gather at zero k v = refl
  length-gather at (suc n) k v = ap suc (length-gather at n (k + 1) v)

  get_or-gather_from :
      (at : ℕ → ℕ) (n k j : ℕ) (v : List A)
      → j < n
      → get_or (gather at n k v) j d ≡ get_or v (at (k + j)) d
  unfolding gather
  get_or-gather_from at zero k j v h = absurd (omega arith)
  get_or-gather_from at (suc n) k zero v h = ap (λ (x : ℕ). get_or v (at x) d) (omega arith)
  get_or-gather_from at (suc n) k (suc j) v h =
      get_or-gather_from at n (k + 1) j v (omega arith)
      ∙ ap (λ (x : ℕ). get_or v (at x) d) (omega arith)

  pub get_or-gather :
      (at : ℕ → ℕ) (n j : ℕ) (v : List A) → j < n → get_or (gather at n 0 v) j d ≡ get_or v (at j) d
  get_or-gather at n j v h =
      get_or-gather_from at n 0 j v h ∙ ap (λ (x : ℕ). get_or v (at x) d) (omega arith)

-- `n` different places below `len`.
pub record ArePlaces (at : ℕ → ℕ) (n len : ℕ) : Type 0 where
  pub inside : (k : ℕ) → k < n → at k < len
  pub different : (j k : ℕ) → j < n → k < n → j ≢ k → at j ≢ at k

module _ {ℓ} {A : Type ℓ} (d : A) (at : ℕ → ℕ) (n len : ℕ) (h : ArePlaces at n len) where
  -- A write at a place is a write of the gathered list.
  pub gather-set :
      (k : ℕ) (x : A) (v : List A)
      → k < n
      → length v ≡ len
      → gather d at n 0 (set v (at k) x) ≡ set (gather d at n 0 v) k x
  gather-set k x v lt e =
      let g = gather d at n 0 v in
      let g' = gather d at n 0 (set v (at k) x) in
      let n₁ = length-gather d at n 0 v in
      let n₂ = length-gather d at n 0 (set v (at k) x) in
      eq_of_get_or g' (set g k x) d (omega (arith, length-set g k x, n₁, n₂)) (λ j jn.
        let inside : j < n = omega (arith, n₂) in
        get_or-gather d at n j (set v (at k) x) inside ∙ (elim (ℕ_discrete k j) [
          | yes same ↦ rw same (
              get_or-set_self v (at j) x d (let i = h.inside j inside in omega (arith, e))
              ∙ sym (get_or-set_self g j x d (omega (arith, n₁))))
          | no ne ↦
              get_or-set_ne v (at k) (at j) x d (h.different k j lt inside ne)
              ∙ (sym (get_or-gather d at n j v inside) ∙ sym (get_or-set_ne g k j x d ne))
        ]))

-- Whether `x` is one of the places.
pub find : (at : ℕ → ℕ) (n x : ℕ) → ((k : ℕ) × (k < n) × (at k ≡ x)) ⊎ ((k : ℕ) → k < n → at k ≢ x)
find at zero x = inr (λ k h. absurd (omega arith))
find at (suc n) x = elim (find at n x) [
  | inl (k, lt, e) ↦ inl (k, omega arith, e)
  | inr out ↦ elim (ℕ_discrete (at n) x) [
    | yes e ↦ inl (n, omega arith, e)
    | no ne ↦ inr (λ k h. elim (ℕ_discrete k n) [
      | yes last ↦ λ e. ne (ap at (sym last) ∙ e)
      | no less ↦ out k (omega arith)
    ])
  ]
]

-- Lists of one length are equal where their places and all the rest are.
pub eq_of_gather {ℓ} :
    {A : Type ℓ} (d : A) (at : ℕ → ℕ) (n : ℕ) (u v : List A)
    → length u ≡ length v
    → gather d at n 0 u ≡ gather d at n 0 v
    → ((x : ℕ) → ((k : ℕ) → k < n → at k ≢ x) → get_or u x d ≡ get_or v x d)
    → u ≡ v
eq_of_gather d at n u v len e out = eq_of_get_or u v d len (λ x lt. elim (find at n x) [
  | inr free ↦ out x free
  | inl (k, lt', e') ↦ rw (sym e') (
      sym (get_or-gather d at n k u lt')
      ∙ (ap (λ l. get_or l k d) e ∙ get_or-gather d at n k v lt'))
])

-- The elements of `v` at the places are `u`, and `v` keeps what `v₀` has elsewhere.
pub record Gathers {ℓ} {A : Type ℓ} (d : A) (at : ℕ → ℕ) (n len : ℕ) (v₀ v u : List A)
    : Type ℓ where
  pub same_length : length v ≡ len
  pub same_words : gather d at n 0 v ≡ u
  pub kept : (x : ℕ) → ((k : ℕ) → k < n → at k ≢ x) → get_or v x d ≡ get_or v₀ x d

module _ {ℓ} {A : Type ℓ} (d : A) (at : ℕ → ℕ) (n len : ℕ) (h : ArePlaces at n len) where
  pub start-Gathers : (v : List A) → length v ≡ len → Gathers d at n len v v (gather d at n 0 v)
  start-Gathers v e = record { same_length = e; same_words = refl; kept = λ x out. refl }

  pub set-Gathers :
      (k : ℕ) (x : A) (v₀ v u : List A)
      → k < n
      → Gathers d at n len v₀ v u
      → Gathers d at n len v₀ (set v (at k) x) (set u k x)
  set-Gathers k x v₀ v u lt g = record {
    same_length = length-set v (at k) x ∙ g.same_length;
    same_words =
        gather-set d at n len h k x v lt g.same_length
        ∙ ap (λ (l : List A). set l k x) g.same_words;
    kept = λ y out. get_or-set_ne v (at k) y x d (out k lt) ∙ g.kept y out;
  }
