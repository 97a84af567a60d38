-- ===== src/Run/Ensures.antt =====
-- Properties of what goes on past a test of argon2/src/run.c.
use argon.Base.{◌≡◌, refl, subst, Bool, true, false, if◌then◌else◌}
use argon.Run.{Stop, Outcome, go, stop, ◌>>=◌}

go_inj : {A : Type 0} {x y : A} → go x ≡ go y → x ≡ y
go_inj h = cc

-- A property of what goes on to the next step.
unfoldable pub Ensures : {A : Type 0} → (A → Type 0) → Outcome A → Type 0
Ensures P (go a) = P a
Ensures P (stop e) = Unit

module _ {A : Type 0} (P : A → Type 0) where
  pub branch :
      (b : Bool) (x y : Outcome A)
      → (b ≡ true → Ensures P x)
      → (b ≡ false → Ensures P y)
      → Ensures P (if b then x else y)
  branch true x y f g = f refl
  branch false x y f g = g refl

  pub guarded :
      (b : Bool) (e : Stop) (y : Outcome A)
      → (b ≡ false → Ensures P y)
      → Ensures P (if b then stop e else y)
  unfolding Ensures
  guarded true e y g = tt
  guarded false e y g = g refl

  pub chain :
      {B : Type 0} (Q : B → Type 0) (m : Outcome B) (f : B → Outcome A)
      → Ensures Q m
      → ((b : B) → Q b → Ensures P (f b))
      → Ensures P (m >>= f)
  unfolding Ensures
  chain Q (go b) f h k = k b h
  chain Q (stop e) f h k = tt

  pub ensured : (m : Outcome A) {a : A} → m ≡ go a → Ensures P m → P a
  unfolding Ensures
  ensured (go b) e h = subst P (go_inj e) h
  ensured (stop s) e h = cc
