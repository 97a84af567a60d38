-- ===== src/Memory/First.antt =====
-- In the first pass of argon2/src/core.c, the memory that is filled does not depend on what the
-- allocator left in it.
use argon.Base.{
  ℕ, zero, suc, ◌+◌, ◌*◌, ◌/◌, ◌%◌, ◌≤◌, ◌<◌, ◌≡◌, inl, inr, refl, ap, arith, eq_of_get_or, subst,
}
use native.Mathlib.Nat.{div-add-mod', mod-lt, div-lt_iff_lt-mul}
use argon.Param.{sync_points}
use argon.Instance.{Instance, IsAligned}
use argon.Fill.{Memory, zero_block, block_at, fill_segment}
use argon.Fill.Agree.{IsWritten, Agree, Agree-weaken}
use argon.Fill.FirstPass.{fill_segment-Agree}
use argon.Memory.{position_of, slice_st, pass_st, passes_st}

-- The lanes of a slice.
slice_st-Agree :
    (i : Instance) (s n l : ℕ) (m m' : Memory)
    → IsAligned i
    → s < sync_points
    → l + n ≤ i.lanes
    → Agree i (s * i.segment_length) l 0 m m'
    → Agree i (s * i.segment_length) (l + n) 0 (slice_st i 0 s n l m) (slice_st i 0 s n l m')
unfolding slice_st
slice_st-Agree i s zero l m m' a slice max g =
    subst (λ (k : ℕ). Agree i (s * i.segment_length) k 0 m m') (omega arith) g
slice_st-Agree i s (suc n) l m m' a slice max g =
    let p = position_of 0 s l in
    subst
      (λ (k : ℕ).
        Agree i (s * i.segment_length) k 0 (slice_st i 0 s n (l + 1) (fill_segment i p m))
          (slice_st i 0 s n (l + 1) (fill_segment i p m')))
      (omega arith)
      (slice_st-Agree i s n (l + 1) _ _ a slice (omega arith)
        (fill_segment-Agree i p m m' a refl (omega arith) slice g))

-- When all the lanes are through with a slice, the next one begins.
pub next_slice :
    (i : Instance) (s : ℕ) (m m' : Memory)
    → Agree i (s * i.segment_length) i.lanes 0 m m'
    → Agree i ((s + 1) * i.segment_length) 0 0 m m'
next_slice i s m m' g =
    Agree-weaken i (s * i.segment_length) i.lanes 0 ((s + 1) * i.segment_length) 0 0 m m'
      (λ lane r lt w. before lane r lt w) g
  where
    before :
        (lane r : ℕ)
        → lane < i.lanes
        → IsWritten i ((s + 1) * i.segment_length) 0 0 lane r
        → IsWritten i (s * i.segment_length) i.lanes 0 lane r
    before lane r lt w = unfold IsWritten in ground arith

-- Behind the last slice the memories are equal.
pub whole-eq :
    (i : Instance) (m m' : Memory)
    → IsAligned i
    → Agree i (sync_points * i.segment_length) 0 0 m m'
    → m ≡ m'
unfolding IsWritten
whole-eq i m m' a g = eq_of_get_or m m' zero_block (omega (arith, g.count, g.count')) (λ x lt.
    let len = i.lane_length in
    let place : x / len * len + x % len ≡ x = div-add-mod' x len in
    let row : x % len < len = mod-lt x (omega arith) in
    let lane : x / len < i.lanes = (div-lt_iff_lt-mul (omega arith)).1 (omega (arith, g.count)) in
    subst (λ (y : ℕ). block_at m y ≡ block_at m' y) place
      (g.same (x / len) (x % len) lane row (inr (inl (omega arith)))))

pass_st-Agree :
    (i : Instance) (n s : ℕ) (m m' : Memory)
    → IsAligned i
    → s + n ≡ sync_points
    → Agree i (s * i.segment_length) 0 0 m m'
    → pass_st i 0 n s m ≡ pass_st i 0 n s m'
unfolding pass_st
pass_st-Agree i zero s m m' a e g =
    whole-eq i m m' a (subst (λ (k : ℕ). Agree i (k * i.segment_length) 0 0 m m') (omega arith) g)
pass_st-Agree i (suc n) s m m' a e g = pass_st-Agree i n (s + 1) _ _ a (omega arith) (
    next_slice i s _ _ (
      subst
        (λ (k : ℕ).
          Agree i (s * i.segment_length) k 0 (slice_st i 0 s i.lanes 0 m)
            (slice_st i 0 s i.lanes 0 m'))
        (omega arith) (slice_st-Agree i s i.lanes 0 m m' a (omega arith) (omega arith) g)))

pub passes_st-Agree :
    (i : Instance) (m m' : Memory)
    → IsAligned i
    → Agree i 0 0 0 m m'
    → (n : ℕ) → 1 ≤ n
    → passes_st i n 0 m ≡ passes_st i n 0 m'
unfolding passes_st
passes_st-Agree i m m' a g zero h = absurd (omega arith)
passes_st-Agree i m m' a g (suc n) h = ap (passes_st i n 1) (
    pass_st-Agree i sync_points 0 m m' a refl
      (subst (λ (k : ℕ). Agree i k 0 0 m m') (omega arith) g))
