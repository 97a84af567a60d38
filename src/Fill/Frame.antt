-- ===== src/Fill/Frame.antt =====
-- `fill_segment` writes the blocks of its own segment only.
use argon.Base.{
  get_or-set_ne, ℕ, zero, suc, ◌+◌, ◌-◌, ◌*◌, ◌≤◌, ◌<◌, ◌≡◌, ◌∙◌, ◌⊎◌, refl, ap, arith, length,
  length-set, u32, u32_max,
}
use argon.Param.{sync_points}
use argon.Instance.{Instance, Position, IsAligned}
use argon.Fill.Place.{row_end}
use argon.Fill.{
  Memory, Segment, block_at, segment_start, segment_step, segment_loop, starting_index,
  fill_segment,
}
use argon.Index.Area.{IsPosition-IsCut}

-- The blocks from `first` on, `n` of them, may differ.
record KeepsOutside (first n : ℕ) (memory memory' : Memory) : Type 0 where
  same_length : length memory' ≡ length memory
  same_block : (x : ℕ) → (x < first) ⊎ (first + n ≤ x) → block_at memory' x ≡ block_at memory x

loop-KeepsOutside :
    (i : Instance) (p : Position) (n index : ℕ) (s : Segment)
    → s.curr_offset + n ≤ u32_max
    → KeepsOutside s.curr_offset n s.memory (segment_loop i p n index s).memory
unfolding segment_loop segment_step
loop-KeepsOutside i p zero index s h = record { same_length = refl; same_block = λ x out. refl }
loop-KeepsOutside i p (suc n) index s h =
    let s' = segment_step i (record p { index = index }) s in
    let next : u32 (s.curr_offset + 1) ≡ s.curr_offset + 1 = omega arith in
    let k = loop-KeepsOutside i p n (index + 1) s' (omega (arith, next)) in
    record {
      same_length = k.same_length ∙ length-set s.memory s.curr_offset _;
      same_block = λ x out.
          k.same_block x (omega (arith, next))
          ∙ get_or-set_ne s.memory s.curr_offset x _ _ (λ e. absurd (omega arith));
    }

segment_start_lem :
    (i : Instance) (p : Position) (memory : Memory)
    → ((segment_start i p memory).memory ≡ memory)
      × ((segment_start i p memory).curr_offset
          ≡ u32 (p.lane * i.lane_length + p.slice * i.segment_length + starting_index p))
unfolding segment_start
segment_start_lem i p memory = (refl, refl)

lane_end :
    (i : Instance) (lane : ℕ)
    → lane < i.lanes
    → IsAligned i
    → lane * i.lane_length + i.lane_length ≤ u32_max
lane_end i lane h a = omega (arith, row_end lane i.lanes i.lane_length h)

starting_index-le :
    (i : Instance) (p : Position) → IsAligned i → starting_index p ≤ i.segment_length
unfolding starting_index
starting_index-le i p a = ground arith

fill_segment-KeepsOutside :
    (i : Instance) (p : Position) (memory : Memory)
    → IsAligned i
    → p.lane < i.lanes
    → p.slice < sync_points
    → KeepsOutside
        (p.lane * i.lane_length + p.slice * i.segment_length)
        i.segment_length
        memory
        (fill_segment i p memory)
unfolding fill_segment
fill_segment-KeepsOutside i p memory a lane slice =
    let c = IsPosition-IsCut i p a slice in
    let e = lane_end i p.lane lane a in
    let low = starting_index-le i p a in
    let (mem, curr) = segment_start_lem i p memory in
    let k =
      loop-KeepsOutside i p (i.segment_length - starting_index p) (starting_index p)
        (segment_start i p memory) (omega (arith, c.inside)) in
    record {
      same_length = k.same_length ∙ ap length mem;
      same_block =
          λ x out. k.same_block x (omega (arith, c.inside)) ∙ ap (λ (m : Memory). block_at m x) mem;
    }

-- On an aligned instance, for a position in a lane and a slice of it, `fill_segment` keeps the number
-- of blocks and every block outside the segment of its position.
pub block_at-fill_segment :
    (i : Instance) (p : Position) (memory : Memory) (x : ℕ)
    → IsAligned i
    → p.lane < i.lanes
    → p.slice < sync_points
    → (x < p.lane * i.lane_length + p.slice * i.segment_length)
      ⊎ (p.lane * i.lane_length + p.slice * i.segment_length + i.segment_length ≤ x)
    → (length (fill_segment i p memory) ≡ length memory)
      × (block_at (fill_segment i p memory) x ≡ block_at memory x)
block_at-fill_segment i p memory x a lane slice out =
    let k = fill_segment-KeepsOutside i p memory a lane slice in (k.same_length, k.same_block x out)
