-- ===== src/Schedule/Finished.antt =====
-- Schedules that leave no thread unfinished, as the joins at the end of a slice do.
use argon.Base.{
  ℕ, zero, suc, ◌+◌, ◌-◌, ◌≤◌, ◌<◌, ◌≡◌, ◌∙◌, refl, sym, ap, subst, arith, List, [], ◌∷◌, length,
  get_or, set, replicate, get_or-set_ne, get_or-set_self, length-set,
}
use mathlib.Core.List.{perm_append_comm}
use native.Mathlib.Decide.{ℕ_discrete, dec_lt}
use argon.Param.{sync_points}
use argon.Instance.{Instance, IsAligned}
use argon.Memory.{position_of, slice_st}
use argon.Fill.{Memory, starting_index}
use argon.Schedule.{Thread, idle, thread_start, thread_step, System, turn, run, start_slice}
use argon.Schedule.Order.{run-perm}
use argon.Schedule.Sequential.{
  sequential, run-append, turn_lem, run-replicate, AreStarting, start_slice-sequential,
  get_or-start_slice, get_or-start_threads_ge, length-start_threads,
}
use argon.Schedule.Slice.{start_slice-IsReady}

-- The rounds that the thread of lane `k` has left.
unfoldable pub left_of : System → ℕ → ℕ
left_of sys k = (get_or sys.threads k idle).left

set-get_or : (ts : List Thread) (l : ℕ) → set ts l (get_or ts l idle) ≡ ts
set-get_or [] l = refl
set-get_or (t ∷ ts) zero = refl
set-get_or (t ∷ ts) (suc l) = ap (λ x. t ∷ x) (set-get_or ts l)

turn-finished :
    (i : Instance) (r s l : ℕ) (sys : System) → left_of sys l ≡ 0 → turn i r s l sys ≡ sys
unfolding turn left_of thread_step
turn-finished i r s l sys e =
    rw e (λ j. record { memory = sys.memory; threads = set-get_or sys.threads l j })

turn-stays :
    (i : Instance) (r s l k : ℕ) (sys : System)
    → left_of sys k ≡ 0
    → left_of (turn i r s l sys) k ≡ 0
unfolding turn left_of
turn-stays i r s l k sys e = elim (ℕ_discrete l k) [
  | yes same ↦
      let finished : left_of sys l ≡ 0 = subst (λ x. left_of sys x ≡ 0) (sym same) e in
      ap (λ (x : System). left_of x k) (turn-finished i r s l sys finished) ∙ e
  | no ne ↦
      let t = get_or sys.threads l idle in
      let next = thread_step t.left i (position_of r s l) t sys.memory in
      ap (λ (x : Thread). x.left) (get_or-set_ne sys.threads l k next.1 idle ne) ∙ e
]

run-stays :
    (i : Instance) (r s k : ℕ) (schedule : List ℕ) (sys : System)
    → left_of sys k ≡ 0
    → left_of (run i r s schedule sys) k ≡ 0
unfolding run
run-stays i r s k [] sys e = e
run-stays i r s k (l ∷ schedule) sys e =
    run-stays i r s k schedule (turn i r s l sys) (turn-stays i r s l k sys e)

run-finished :
    (i : Instance) (r s : ℕ) (schedule : List ℕ) (sys : System)
    → ((k : ℕ) → left_of sys k ≡ 0)
    → run i r s schedule sys ≡ sys
unfolding run
run-finished i r s [] sys f = refl
run-finished i r s (l ∷ schedule) sys f =
    ap (run i r s schedule) (turn-finished i r s l sys (f l)) ∙ run-finished i r s schedule sys f

replicate-finishes :
    (i : Instance) (r s l n : ℕ) (sys : System)
    → l < length sys.threads
    → left_of sys l ≡ n
    → left_of (run i r s (replicate n l) sys) l ≡ 0
unfolding run left_of thread_step
replicate-finishes i r s l zero sys lt e = e
replicate-finishes i r s l (suc n) sys lt e =
    let t = get_or sys.threads l idle in
    let next = thread_step (suc n) i (position_of r s l) t sys.memory in
    let sys' : System = record { memory = next.0; threads = set sys.threads l next.1 } in
    let count = length-set sys.threads l next.1 in
    let now : left_of sys' l ≡ n =
      ap (λ (x : Thread). x.left) (get_or-set_self sys.threads l next.1 idle lt) in
    rw (run, replicate, turn_lem i r s l n t sys refl e)
      (replicate-finishes i r s l n sys' (omega (arith, count)) now)

start-left :
    (i : Instance) (r s l : ℕ) (sys : System)
    → get_or sys.threads l idle ≡ thread_start i (position_of r s l)
    → left_of sys l ≡ i.segment_length - starting_index (position_of r s l)
unfolding left_of thread_start
start-left i r s l sys e = ap (λ (t : Thread). t.left) e

sequential-finishes :
    (i : Instance) (r s n l : ℕ) (sys : System)
    → l + n ≤ length sys.threads
    → AreStarting i r s n l sys
    → (k : ℕ) → l ≤ k
    → k < l + n
    → left_of (run i r s (sequential i r s n l) sys) k ≡ 0
unfolding AreStarting sequential
sequential-finishes i r s zero l sys max h k low high = absurd (omega arith)
sequential-finishes i r s (suc n) l sys max h k low high =
    let turns = replicate (i.segment_length - starting_index (position_of r s l)) l in
    let now = h l (omega arith) (omega arith) in
    let (_, rest) = run-replicate i r s l sys (omega arith) now in
    let next = run i r s turns sys in
    rw (run-append i r s turns (sequential i r s n (l + 1)) sys) (elim (ℕ_discrete l k) [
      | yes e ↦ run-stays i r s k (sequential i r s n (l + 1)) next (
          subst (λ x. left_of next x ≡ 0) e
            (replicate-finishes i r s l _ sys (omega arith) (start-left i r s l sys now)))
      | no ne ↦
          sequential-finishes i r s n (l + 1) next (omega (arith, rest.same_length))
            (λ x from to.
              rest.same_thread x (λ e. absurd (omega arith)) ∙ h x (omega arith) (omega arith))
            k (omega arith) (omega arith)
    ])

-- Lanes that the instance does not have have nothing to do.
finished_beyond :
    (i : Instance) (r s : ℕ) (m : Memory) (schedule : List ℕ)
    → ((k : ℕ) → k < i.lanes → left_of (run i r s schedule (start_slice i r s m)) k ≡ 0)
    → (k : ℕ) → left_of (run i r s schedule (start_slice i r s m)) k ≡ 0
unfolding start_slice left_of
finished_beyond i r s m schedule f k = elim (dec_lt k i.lanes) [
  | yes lt ↦ f k lt
  | no ge ↦
      run-stays i r s k schedule (start_slice i r s m)
        (ap (λ (t : Thread). t.left) (get_or-start_threads_ge i r s i.lanes 0 k (omega arith)))
]

sequential-finishes_slice :
    (i : Instance) (r s : ℕ) (m : Memory) (k : ℕ)
    → left_of (run i r s (sequential i r s i.lanes 0) (start_slice i r s m)) k ≡ 0
unfolding start_slice AreStarting
sequential-finishes_slice i r s m = finished_beyond i r s m (sequential i r s i.lanes 0) (λ k lt.
    sequential-finishes i r s i.lanes 0 (start_slice i r s m)
      (omega (arith, length-start_threads i r s i.lanes 0))
      (λ x low high. get_or-start_slice i r s i.lanes x (omega arith)) k (omega arith)
      (omega arith))

-- On an aligned instance, in a slice of a pass, when the rounds of the threads of all the lanes
-- interleave in any way, idle turns included, that leaves no thread of a lane with a round to do, as when
-- all have been joined: the memory is the one that the loop over the lanes makes.
pub run-start_slice_finished :
    (i : Instance) (r s : ℕ) (m : Memory) (schedule : List ℕ)
    → IsAligned i
    → s < sync_points
    → ((k : ℕ) → k < i.lanes → left_of (run i r s schedule (start_slice i r s m)) k ≡ 0)
    → (run i r s schedule (start_slice i r s m)).memory ≡ slice_st i r s i.lanes 0 m
run-start_slice_finished i r s m schedule a slice f =
    let start = start_slice i r s m in
    let all = sequential i r s i.lanes 0 in
    let mem : System → Memory = λ x. x.memory in
    let end = run i r s schedule start in
    ap mem (sym (run-finished i r s all end (finished_beyond i r s m schedule f)))
    ∙ (ap mem (sym (run-append i r s schedule all start))
        ∙ (run-perm i r s start (perm_append_comm schedule all) a
              (start_slice-IsReady i r s m a slice)
            ∙ (ap mem (run-append i r s all schedule start)
                ∙ (ap mem (
                      run-finished i r s schedule (run i r s all start)
                        (sequential-finishes_slice i r s m))
                    ∙ start_slice-sequential i r s m))))
