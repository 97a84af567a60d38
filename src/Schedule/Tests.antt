-- ===== src/Schedule/Tests.antt =====
-- Threads at inputs.
use argon.Base.{zero, suc, ◌<◌, ◌≡◌, arith, refl, List, [], ◌∷◌, ℕ, replicate}
use mathlib.Core.List.Permᴰ as Permᴰ
use mathlib.Core.List.{Perm}
use argon.Block.{init_block_value}
use argon.Fill.{Memory, starting_index}
use argon.Memory.{slice_st}
use argon.Index.Tests.{two_lanes, two_lanes-IsAligned}
use argon.Schedule.{run, turn, thread_start, thread_step, start_threads, start_slice}
use argon.Schedule.Sequential.{sequential}
use argon.Schedule.Slice.{run-start_slice}
use argon.Schedule.Finished.{left_of, run-start_slice_finished}

abbrev memory : Memory
memory = replicate 32 (init_block_value 7)

-- The thread of lane 1 has its first round between those of lane 0.
abbrev mixed : List ℕ
mixed = 0 ∷ 0 ∷ 1 ∷ 0 ∷ 0 ∷ 1 ∷ 1 ∷ 1 ∷ []

mixed-perm : Perm mixed (sequential two_lanes 0 1 2 0)
unfolding sequential starting_index
mixed-perm =
    ∣ Permᴰ.cons refl
      (Permᴰ.cons refl (Permᴰ.symm (Permᴰ.middle 1 (0 ∷ 0 ∷ []) (1 ∷ 1 ∷ 1 ∷ [])))) ∣₁

run-start_slice_example :
    (run two_lanes 0 1 mixed (start_slice two_lanes 0 1 memory)).memory
    ≡ slice_st two_lanes 0 1 2 0 memory
run-start_slice_example =
    run-start_slice two_lanes 0 1 memory mixed two_lanes-IsAligned (omega arith) mixed-perm

-- Lane 1 gets a turn too many, and so does a lane that there is not.
abbrev idling : List ℕ
idling = 0 ∷ 0 ∷ 1 ∷ 5 ∷ 0 ∷ 1 ∷ 1 ∷ 1 ∷ 1 ∷ 0 ∷ []

idling-left :
    (k : ℕ) → k < 2 → left_of (run two_lanes 0 1 idling (start_slice two_lanes 0 1 memory)) k ≡ 0
unfolding left_of run turn thread_step start_slice start_threads thread_start starting_index
idling-left zero h = refl
idling-left (suc zero) h = refl
idling-left (suc (suc k)) h = absurd (omega arith)

run-start_slice_finished_example :
    (run two_lanes 0 1 idling (start_slice two_lanes 0 1 memory)).memory
    ≡ slice_st two_lanes 0 1 2 0 memory
run-start_slice_finished_example =
    run-start_slice_finished two_lanes 0 1 memory idling two_lanes-IsAligned (omega arith)
      idling-left
