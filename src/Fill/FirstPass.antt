-- ===== src/Fill/FirstPass.antt =====
-- `fill_segment` in the first pass, over memories that agree in what is written.
use argon.Base.{ℕ, zero, suc, ◌+◌, ◌-◌, ◌*◌, ◌≤◌, ◌<◌, ◌≡◌, inl, inr, refl, sym, arith, [], subst}
use native.Mathlib.Decide.{dec_lt}
use argon.Param.{sync_points}
use argon.Instance.{Instance, Position, IsAligned}
use argon.Fill.{
  rotated, refreshed, Memory, Segment, starting_index, segment_start, segment_step, segment_loop,
  fill_segment, first_input, data_independent,
}
use argon.Fill.Place.{IsInside, IsAt, slice_start, segment_step-IsAt, segment_start-IsAt}
use argon.Fill.Step.{after_round}
use argon.Fill.Agree.{IsWritten, Agree, Agree-weaken, segment_step-Agree}

-- The offsets and the addresses do not depend on the memory.
IsAt-memory :
    (i : Instance) (p : Position) (s : Segment) (m : Memory)
    → IsAt i p s
    → IsAt i p (record s { memory = m })
unfolding rotated
IsAt-memory i p s m h = record { curr_eq = h.curr_eq; prev_eq = h.prev_eq }

segment_step-shape :
    (i : Instance) (p : Position) (s : Segment) (m : Memory)
    → segment_step i p (record s { memory = m })
      ≡ after_round i p s (segment_step i p (record s { memory = m })).memory
unfolding segment_step refreshed rotated
segment_step-shape i p s m = refl

-- The loop of a segment, at `index`, with rounds left.
segment_loop-Agree :
    (i : Instance) (p : Position) (n index : ℕ) (s : Segment) (m m' : Memory)
    → IsAligned i
    → p.pass ≡ 0
    → index + suc n ≤ i.segment_length
    → IsInside i (record p { index = index })
    → IsAt i (record p { index = index }) s
    → Agree i (slice_start i p) p.lane index m m'
    → Agree i
        (slice_start i p)
        p.lane
        (index + suc n)
        (segment_loop i p (suc n) index (record s { memory = m })).memory
        (segment_loop i p (suc n) index (record s { memory = m' })).memory
unfolding segment_loop
segment_loop-Agree i p zero index s m m' a first_pass max h at_p g =
    segment_step-Agree i (record p { index = index }) s m m' a h at_p first_pass g
segment_loop-Agree i p (suc n) index s m m' a first_pass max h at_p g =
    let q : Position = record p { index = index } in
    let q' : Position = record p { index = index + 1 } in
    let t = after_round i q s [] in
    let next = λ (x : Memory). (segment_step i q (record s { memory = x })).memory in
    let at_q : IsAt i q' t = IsAt-memory i q' _ [] (
      subst (λ (y : Segment). IsAt i q' y) (segment_step-shape i q s [])
        (segment_step-IsAt i q (record s { memory = [] }) a h (omega arith)
          (IsAt-memory i q s [] at_p))) in
    let inside : IsInside i q' = record {
      lane_max = h.lane_max;
      slice_max = h.slice_max;
      index_max = omega arith;
      first = elim h.first [
        | inl later ↦ inl later
        | inr (inl ne) ↦ inr (inl ne)
        | inr (inr two) ↦ inr (inr (omega arith))
      ];
    } in
    let rest =
      segment_loop-Agree i p n (index + 1) t (next m) (next m') a first_pass (omega arith) inside
        at_q (segment_step-Agree i q s m m' a h at_p first_pass g) in
    let loop = segment_loop i p (suc n) (index + 1) in
    let end = index + suc (suc n) in
    let whole : Agree i (slice_start i p) p.lane end (loop (after_round i q s (next m))).memory
        (loop (after_round i q s (next m'))).memory =
      subst
        (λ (k : ℕ).
          Agree i (slice_start i p) p.lane k (loop (after_round i q s (next m))).memory
            (loop (after_round i q s (next m'))).memory)
        (omega arith) rest in
    subst
      (λ (y : Segment).
        Agree i (slice_start i p) p.lane end (loop y).memory
          (loop (segment_step i q (record s { memory = m' }))).memory)
      (sym (segment_step-shape i q s m))
      (subst
        (λ (y : Segment).
          Agree i (slice_start i p) p.lane end (loop (after_round i q s (next m))).memory
            (loop y).memory)
        (sym (segment_step-shape i q s m')) whole)

starting_index-le :
    (i : Instance) (p : Position) → IsAligned i → starting_index p ≤ i.segment_length
unfolding starting_index
starting_index-le i p a = ground arith

-- The first round of a segment.
pub start-IsInside :
    (i : Instance) (p : Position)
    → IsAligned i
    → p.lane < i.lanes
    → p.slice < sync_points
    → starting_index p < i.segment_length
    → IsInside i (record p { index = starting_index p })
unfolding starting_index
start-IsInside i p a lane slice lt = record {
  lane_max = lane;
  slice_max = slice;
  index_max = lt;
  first = ground arith;
}

pub start-IsAt :
    (i : Instance) (p : Position)
    → IsAligned i
    → IsInside i (record p { index = starting_index p })
    → IsAt i (record p { index = starting_index p }) (segment_start i p [])
unfolding starting_index segment_start first_input data_independent
start-IsAt i p a h = segment_start-IsAt i (record p { index = starting_index p }) [] refl a h

zero_rows : (s q : ℕ) → s ≡ 0 → s * q ≡ 0
zero_rows zero q h = omega arith
zero_rows (suc s) q h = absurd (omega arith)

-- A lane begins with what is written before its first round, and the next lane goes on from its last.
lane_start :
    (i : Instance) (p : Position) (lane r : ℕ)
    → IsWritten i (slice_start i p) p.lane (starting_index p) lane r
    → IsWritten i (slice_start i p) p.lane 0 lane r
unfolding IsWritten starting_index
lane_start i p lane r w = elim (dec_lt 0 p.slice) [
  | yes later ↦ ground arith
  | no zero_slice ↦
      let none_before : p.slice * i.segment_length ≡ 0 =
        zero_rows p.slice i.segment_length (omega arith) in
      ground arith
]

lane_end :
    (i : Instance) (first l lane r : ℕ)
    → IsWritten i first (l + 1) 0 lane r
    → IsWritten i first l i.segment_length lane r
unfolding IsWritten
lane_end i first l lane r w = ground arith

rounds-Agree :
    (i : Instance) (p : Position) (n : ℕ) (m m' : Memory)
    → IsAligned i
    → p.pass ≡ 0
    → p.lane < i.lanes
    → p.slice < sync_points
    → starting_index p + n ≡ i.segment_length
    → Agree i (slice_start i p) p.lane (starting_index p) m m'
    → Agree i
        (slice_start i p)
        p.lane
        (starting_index p + n)
        (segment_loop i p n (starting_index p) (segment_start i p m)).memory
        (segment_loop i p n (starting_index p) (segment_start i p m')).memory
unfolding segment_loop segment_start
rounds-Agree i p zero m m' a first_pass lane slice e g =
    subst (λ (k : ℕ). Agree i (slice_start i p) p.lane k m m') (omega arith) g
rounds-Agree i p (suc n) m m' a first_pass lane slice e g =
    let inside = start-IsInside i p a lane slice (omega arith) in
    segment_loop-Agree i p n (starting_index p) (segment_start i p []) m m' a first_pass
      (omega arith) inside (start-IsAt i p a inside) g

-- A segment of the first pass, from its lane's turn to the next lane's.
pub fill_segment-Agree :
    (i : Instance) (p : Position) (m m' : Memory)
    → IsAligned i
    → p.pass ≡ 0
    → p.lane < i.lanes
    → p.slice < sync_points
    → Agree i (slice_start i p) p.lane 0 m m'
    → Agree i (slice_start i p) (p.lane + 1) 0 (fill_segment i p m) (fill_segment i p m')
unfolding fill_segment
fill_segment-Agree i p m m' a first_pass lane slice g =
    let start = starting_index p in
    let le : starting_index p ≤ i.segment_length = starting_index-le i p a in
    let first = slice_start i p in
    let n = i.segment_length - start in
    let k : start + n ≡ i.segment_length = omega arith in
    let ready =
      Agree-weaken i first p.lane 0 first p.lane start m m' (λ l r lt w. lane_start i p l r w) g in
    let done_lane = rounds-Agree i p n m m' a first_pass lane slice k ready in
    Agree-weaken i first p.lane i.segment_length first (p.lane + 1) 0 _ _
      (λ l r lt w. lane_end i first p.lane l r w)
      (subst
        (λ (x : ℕ).
          Agree i first p.lane x (segment_loop i p n start (segment_start i p m)).memory
            (segment_loop i p n start (segment_start i p m')).memory)
        k done_lane)
