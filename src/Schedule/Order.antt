-- ===== src/Schedule/Order.antt =====
-- Every order of the turns gives the memory of the lanes one after the other.
use argon.Base.{ℕ, ◌≡◌, ◌∙◌, refl, ap, List, [], ◌∷◌, subst}
use mathlib.Core.List.{Perm}
use mathlib.Core.List.{Permᴰ}
use mathlib.Core.Logic.{∥∥₁_elim}
use mathlib.Core.List as List
use native.Mathlib.Nat.{ℕ_set}
use native.Mathlib.Decide.{ℕ_discrete}
use argon.Instance.{Instance, IsAligned}
use argon.Fill.{Memory}
use argon.Schedule.{System, turn, run}
use argon.Schedule.Commute.{IsReady, turn-IsReady, turn-turn}

run-IsReady :
    (i : Instance) (r s : ℕ) (schedule : List ℕ) (sys : System)
    → IsAligned i
    → IsReady i r s sys
    → IsReady i r s (run i r s schedule sys)
unfolding run
run-IsReady i r s [] sys a h = h
run-IsReady i r s (l ∷ schedule) sys a h =
    run-IsReady i r s schedule (turn i r s l sys) a (turn-IsReady i r s l sys a h)

run-permᴰ :
    (i : Instance) (r s : ℕ) {schedule schedule' : List ℕ} (sys : System)
    → Permᴰ schedule schedule'
    → IsAligned i
    → IsReady i r s sys
    → run i r s schedule sys ≡ run i r s schedule' sys
unfolding run
run-permᴰ i r s sys Permᴰ.nil a h = refl
run-permᴰ i r s sys (Permᴰ.cons {b = b} {l₁ = l₁} {l₂ = l₂} e d) a h =
    ap (λ (x : ℕ). run i r s l₁ (turn i r s x sys)) e
    ∙ run-permᴰ i r s (turn i r s b sys) d a (turn-IsReady i r s b sys a h)
run-permᴰ i r s sys (Permᴰ.swap {a = x} {b = y} {a' = x'} {b' = y'} {l = l} e e') a h =
    subst
      (λ (q : ℕ).
        run i r s l (turn i r s y (turn i r s x sys))
        ≡ run i r s l (turn i r s q (turn i r s x' sys)))
      e
      (subst
        (λ (q : ℕ).
          run i r s l (turn i r s y (turn i r s x sys))
          ≡ run i r s l (turn i r s x (turn i r s q sys)))
        e'
        (ap (run i r s l) (elim (ℕ_discrete x y) [
          | yes same ↦
              subst (λ (q : ℕ). turn i r s q (turn i r s x sys) ≡ turn i r s x (turn i r s q sys))
                same refl
          | no ne ↦ turn-turn i r s x y sys a h ne
        ])))
run-permᴰ i r s sys (Permᴰ.trans d d') a h = run-permᴰ i r s sys d a h ∙ run-permᴰ i r s sys d' a h

Memory_set : IsSet Memory
Memory_set = List.is_set (List.is_set ℕ_set)

-- The order of the turns does not matter for the memory.
pub run-perm :
    (i : Instance) (r s : ℕ) {schedule schedule' : List ℕ} (sys : System)
    → Perm schedule schedule'
    → IsAligned i
    → IsReady i r s sys
    → (run i r s schedule sys).memory ≡ (run i r s schedule' sys).memory
run-perm i r s {schedule} {schedule'} sys d a h =
    ∥∥₁_elim d (Memory_set _ _) (λ p. ap (λ (x : System). x.memory) (run-permᴰ i r s sys p a h))
