-- ===== src/Schedule/Slice.antt =====
-- The result of a slice does not depend on how the rounds of its threads interleave.
use argon.Base.{ℕ, ◌≤◌, ◌<◌, ◌≡◌, ◌≢◌, ◌∙◌, ◌⊎◌, inl, inr, refl, arith, List, []}
use native.Mathlib.Decide.{dec_lt}
use mathlib.Core.List.{Perm}
use argon.Param.{sync_points}
use argon.Instance.{Instance, IsAligned}
use argon.Memory.{position_of, slice_st}
use argon.Fill.{Memory, starting_index, segment_start, first_input, data_independent}
use argon.Fill.Place.{IsInside, IsAt, segment_start-IsAt}
use argon.Schedule.{cursor, thread_start, run, start_slice}
use argon.Schedule.Commute.{IsReady, IsThread, at}
use argon.Schedule.Order.{run-perm}
use argon.Schedule.Sequential.{
  sequential, start_slice-sequential, get_or-start_slice, get_or-start_threads_ge,
  length-start_threads,
}

starting_index-first :
    (i : Instance) (r s l : ℕ) → (r ≢ 0) ⊎ (s ≢ 0) ⊎ (2 ≤ starting_index (position_of r s l))
unfolding starting_index
starting_index-first i r s l = ground arith

thread_start-IsAt :
    (i : Instance) (r s l : ℕ)
    → IsAligned i
    → IsInside i (at (position_of r s l) (thread_start i (position_of r s l)))
    → IsAt i
        (at (position_of r s l) (thread_start i (position_of r s l)))
        (cursor (thread_start i (position_of r s l)) [])
unfolding thread_start starting_index segment_start first_input data_independent
thread_start-IsAt i r s l a h =
    segment_start-IsAt i (at (position_of r s l) (thread_start i (position_of r s l))) [] refl a h

thread_start-IsThread :
    (i : Instance) (r s l : ℕ)
    → IsAligned i
    → l < i.lanes
    → s < sync_points
    → IsThread i (position_of r s l) (thread_start i (position_of r s l))
unfolding thread_start
thread_start-IsThread i r s l a lane slice =
    let p = position_of r s l in
    let t = thread_start i p in
    elim (dec_lt (starting_index p) i.segment_length) [
      | yes lt ↦
          let inside : IsInside i (at p t) = record {
            lane_max = lane;
            slice_max = slice;
            index_max = lt;
            first = starting_index-first i r s l;
          } in
          inr (record {
            inside = inside;
            fits = thread_start-IsAt i r s l a inside;
            end = omega (arith, lt);
          })
      | no ge ↦ inl (omega arith)
    ]

pub start_slice-IsReady :
    (i : Instance) (r s : ℕ) (m : Memory)
    → IsAligned i
    → s < sync_points
    → IsReady i r s (start_slice i r s m)
unfolding start_slice
start_slice-IsReady i r s m a slice = record {
  count = length-start_threads i r s i.lanes 0;
  thread = λ l. elim (dec_lt l i.lanes) [
    | yes lt ↦ rw (get_or-start_slice i r s i.lanes l lt) (thread_start-IsThread i r s l a lt slice)
    | no ge ↦ rw (get_or-start_threads_ge i r s i.lanes 0 l (omega arith)) (inl refl)
  ];
}

-- On an aligned instance, in a slice of a pass, when the threads of all the lanes share the memory and
-- their rounds interleave in any order that gives each thread its number of rounds, the memory at the
-- end is the one that the loop over the lanes makes.
pub run-start_slice :
    (i : Instance) (r s : ℕ) (m : Memory) (schedule : List ℕ)
    → IsAligned i
    → s < sync_points
    → Perm schedule (sequential i r s i.lanes 0)
    → (run i r s schedule (start_slice i r s m)).memory ≡ slice_st i r s i.lanes 0 m
run-start_slice i r s m schedule a slice d =
    run-perm i r s (start_slice i r s m) d a (start_slice-IsReady i r s m a slice)
    ∙ start_slice-sequential i r s m
