-- ===== src/Schedule/Sequential.antt =====
-- The threads of a slice, one after the other, are the loop over the lanes.
use argon.Base.{
  ℕ, zero, suc, ◌+◌, ◌-◌, ◌≤◌, ◌<◌, ◌≡◌, ◌≢◌, ◌∙◌, refl, ap, arith, List, [], ◌∷◌, ◌++◌, length,
  get_or, set, replicate, get_or-set_ne, get_or-set_self, length-set,
}
use argon.Instance.{Instance}
use argon.Memory.{position_of, slice_st}
use argon.Fill.{Memory, starting_index, segment_start, segment_loop, fill_segment}
use argon.Schedule.{
  Thread, cursor, idle, thread_start, thread_step, start_threads, System, turn, run, start_slice,
}

-- Each lane has as many turns as its thread has rounds; here the lanes come one after the other.
unfoldable pub sequential : Instance → ℕ → ℕ → ℕ → ℕ → List ℕ
sequential i r s zero l = []
sequential i r s (suc n) l =
    replicate (i.segment_length - starting_index (position_of r s l)) l
    ++ sequential i r s n (l + 1)

-- The other threads of two systems are the same.
pub record SameElsewhere (l : ℕ) (sys sys' : System) : Type 0 where
  pub same_length : length sys'.threads ≡ length sys.threads
  pub same_thread : (k : ℕ) → l ≢ k → get_or sys'.threads k idle ≡ get_or sys.threads k idle

pub run-append :
    (i : Instance) (r s : ℕ) (xs ys : List ℕ) (sys : System)
    → run i r s (xs ++ ys) sys ≡ run i r s ys (run i r s xs sys)
unfolding run
run-append i r s [] ys sys = refl
run-append i r s (x ∷ xs) ys sys = run-append i r s xs ys (turn i r s x sys)

-- The thread of lane `l` gets a turn, when it is `t` with rounds left.
pub turn_lem :
    (i : Instance) (r s l n : ℕ) (t : Thread) (sys : System)
    → get_or sys.threads l idle ≡ t
    → t.left ≡ suc n
    → let next = thread_step (suc n) i (position_of r s l) t sys.memory in
      turn i r s l sys ≡ record { memory = next.0; threads = set sys.threads l next.1 }
unfolding turn
turn_lem i r s l n t sys e left = rw e (rw left refl)

alone :
    (i : Instance) (r s l n : ℕ) (t : Thread) (sys : System)
    → l < length sys.threads
    → get_or sys.threads l idle ≡ t
    → t.left ≡ n
    → ((run i r s (replicate n l) sys).memory
        ≡ (segment_loop i (position_of r s l) n t.index (cursor t sys.memory)).memory)
      × SameElsewhere l sys (run i r s (replicate n l) sys)
unfolding run segment_loop thread_step
alone i r s l zero t sys lt e left =
    (refl, record { same_length = refl; same_thread = λ k ne. refl })
alone i r s l (suc n) t sys lt e left =
    let next = thread_step (suc n) i (position_of r s l) t sys.memory in
    let sys' : System = record { memory = next.0; threads = set sys.threads l next.1 } in
    let count = length-set sys.threads l next.1 in
    let (mem, rest) =
      alone i r s l n next.1 sys' (omega (arith, count))
        (get_or-set_self sys.threads l next.1 idle lt) refl in
    rw (run, replicate, turn_lem i r s l n t sys e left)
      (
        mem,
        record {
          same_length = rest.same_length ∙ count;
          same_thread =
              λ k ne. rest.same_thread k ne ∙ get_or-set_ne sys.threads l k next.1 idle ne;
        },
      )

-- The thread of a lane goes through its segment.
pub run-replicate :
    (i : Instance) (r s l : ℕ) (sys : System)
    → l < length sys.threads
    → get_or sys.threads l idle ≡ thread_start i (position_of r s l)
    → let sys' =
        run i r s (replicate (i.segment_length - starting_index (position_of r s l)) l) sys in
      (sys'.memory ≡ fill_segment i (position_of r s l) sys.memory) × SameElsewhere l sys sys'
unfolding fill_segment thread_start segment_start
run-replicate i r s l sys lt e =
    alone i r s l (i.segment_length - starting_index (position_of r s l))
      (thread_start i (position_of r s l)) sys lt e refl

-- The lanes from `l` on are about to start.
unfoldable pub AreStarting : Instance → ℕ → ℕ → ℕ → ℕ → System → Type 0
AreStarting i r s n l sys =
    (k : ℕ) → l ≤ k → k < l + n → get_or sys.threads k idle ≡ thread_start i (position_of r s k)

run-sequential :
    (i : Instance) (r s n l : ℕ) (sys : System)
    → l + n ≤ length sys.threads
    → AreStarting i r s n l sys
    → (run i r s (sequential i r s n l) sys).memory ≡ slice_st i r s n l sys.memory
unfolding AreStarting sequential slice_st run
run-sequential i r s zero l sys max h = refl
run-sequential i r s (suc n) l sys max h =
    let turns = replicate (i.segment_length - starting_index (position_of r s l)) l in
    let (mem, rest) = run-replicate i r s l sys (omega arith) (h l (omega arith) (omega arith)) in
    let next = run i r s turns sys in
    rw (run-append i r s turns (sequential i r s n (l + 1)) sys) (
      run-sequential i r s n (l + 1) next (omega (arith, rest.same_length)) (λ k low high.
        rest.same_thread k (λ e. absurd (omega arith)) ∙ h k (omega arith) (omega arith))
      ∙ ap (slice_st i r s n (l + 1)) mem)

get_or-start_threads :
    (i : Instance) (r s n l k : ℕ)
    → k < n
    → get_or (start_threads i r s n l) k idle ≡ thread_start i (position_of r s (l + k))
unfolding start_threads
get_or-start_threads i r s zero l k h = absurd (omega arith)
get_or-start_threads i r s (suc n) l zero h =
    ap (λ (x : ℕ). thread_start i (position_of r s x)) (omega arith)
get_or-start_threads i r s (suc n) l (suc k) h =
    get_or-start_threads i r s n (l + 1) k (omega arith)
    ∙ ap (λ (x : ℕ). thread_start i (position_of r s x)) (omega arith)

pub get_or-start_slice :
    (i : Instance) (r s n k : ℕ)
    → k < n
    → get_or (start_threads i r s n 0) k idle ≡ thread_start i (position_of r s k)
get_or-start_slice i r s n k h =
    get_or-start_threads i r s n 0 k h
    ∙ ap (λ (x : ℕ). thread_start i (position_of r s x)) (omega arith)

pub get_or-start_threads_ge :
    (i : Instance) (r s n l k : ℕ) → n ≤ k → get_or (start_threads i r s n l) k idle ≡ idle
unfolding start_threads
get_or-start_threads_ge i r s zero l k h = refl
get_or-start_threads_ge i r s (suc n) l zero h = absurd (omega arith)
get_or-start_threads_ge i r s (suc n) l (suc k) h =
    get_or-start_threads_ge i r s n (l + 1) k (omega arith)

pub length-start_threads : (i : Instance) (r s n l : ℕ) → length (start_threads i r s n l) ≡ n
unfolding start_threads
length-start_threads i r s zero l = refl
length-start_threads i r s (suc n) l = ap suc (length-start_threads i r s n (l + 1))

pub start_slice-sequential :
    (i : Instance) (r s : ℕ) (m : Memory)
    → (run i r s (sequential i r s i.lanes 0) (start_slice i r s m)).memory
      ≡ slice_st i r s i.lanes 0 m
unfolding start_slice AreStarting
start_slice-sequential i r s m =
    run-sequential i r s i.lanes 0 (start_slice i r s m)
      (omega (arith, length-start_threads i r s i.lanes 0))
      (λ k low high. get_or-start_slice i r s i.lanes k (omega arith))
