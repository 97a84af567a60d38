-- ===== src/Opt/FillSegment.antt =====
-- `fill_segment` of argon2/src/opt.c does to the memory what `fill_segment` of argon2/src/ref.c does.
use argon.Base.{
  ℕ, zero, suc, ◌+◌, ◌-◌, ◌*◌, ◌%◌, ◌≤◌, ◌<◌, ◌≡◌, ◌⊎◌, inl, inr, ◌∙◌, refl, sym, ap, arith, ◌==◌,
  ◌&&◌, length, length-set, set, get_or-set_self, u32, sub32, if◌then◌else◌,
}
use native.Mathlib.Decide.{ℕ_discrete}
use argon.Param.{sync_points}
use argon.Instance.{Instance, Position, IsAligned}
use argon.Fill.{
  Memory, Segment, zero_block, block_at, data_independent, first_input, rotated, segment_start,
  segment_step, segment_loop, starting_index, fill_segment,
}
use argon.Fill.Place.{
  IsInside, IsAt, current_row, current_row-lt, prev_row, place-lt, segment_start-IsAt,
  segment_step-IsAt,
}
use argon.Fill.WellFormed.{
  AreBlocks, AreFields, HasBlocks, zero_block-IsBlock, first_input-IsBlock, segment_start-HasBlocks,
  segment_step-HasBlocks,
}
use argon.Fill.Step.{next_block, segment_step_lem}
use argon.Simd.Round.{IsTarget}
use argon.Simd.{Target}
use argon.Opt.{
  VectorState, owords_in_block, segment_start_opt, segment_step_opt, segment_loop_opt,
  fill_segment_opt,
}
use argon.Opt.Flatten.{flatten, flatten-registers_of, length-registers_of}
use argon.Opt.Step.{next_addresses_opt_lem, stepped-vars, stepped-state}

-- What the vector loop keeps: the registers hold the block before the one that is written.
record Follows (i : Instance) (p : Position) (st : VectorState) (v : Segment) : Type 0 where
  count : length st ≡ owords_in_block
  state_eq : flatten st ≡ block_at v.memory (rotated i v)
  blocks : HasBlocks v
  size : i.memory_blocks ≤ length v.memory
  inside : IsInside i p
  at_p : IsAt i p v

abbrev index_at : Position → ℕ → Position
index_at p index = record p { index = index }

prev_row_next :
    (i : Instance) (p : Position) (index : ℕ)
    → prev_row i (index_at p (index + 1)) ≡ current_row i (index_at p index)
prev_row_next i p index = ground arith

-- The loop starts behind a wrap-around, or before it.
not_rotated :
    (r x y : ℕ) → (if r == 0 then x else y) ≡ (if r == 1 then y else if r == 0 then x else y)
not_rotated r x y = ground arith

module _ (s : Target) (doc : IsTarget s) (i : Instance) (a : IsAligned i) where
  step-Follows :
      (p : Position) (index : ℕ) (st : VectorState) (v : Segment)
      → index + 1 < i.segment_length
      → Follows i (index_at p index) st v
      → Follows i
          (index_at p (index + 1))
          (segment_step_opt s i (index_at p index) (record { vars = v; state = st })).state
          (segment_step i (index_at p index) v)
  step-Follows p index st v more f =
      let q = index_at p index in
      let v' = segment_step i q v in
      let m' = set v.memory v.curr_offset (next_block i q v v.memory) in
      let memory : v'.memory ≡ m' =
        ap (λ (w : Segment). w.memory) (segment_step_lem i q v v.memory) in
      let (n, same) = stepped-state s doc i q st v f.blocks f.count f.state_eq in
      let at_next = segment_step-IsAt i q v a f.inside more f.at_p in
      let prev : rotated i v' ≡ v.curr_offset =
        at_next.prev_eq
        ∙ (ap (λ (r : ℕ). p.lane * i.lane_length + r) (prev_row_next i p index)
            ∙ sym f.at_p.curr_eq) in
      let place =
        place-lt i p.lane (current_row i q) a f.inside.lane_max (current_row-lt i q a f.inside) in
      let lt : v.curr_offset < length v.memory = omega (arith, place.0, f.at_p.curr_eq, f.size) in
      record {
        count = n;
        state_eq =
            same
            ∙ (sym
                  (get_or-set_self v.memory v.curr_offset (next_block i q v v.memory) zero_block lt)
                ∙ (ap (λ (x : Memory). block_at x v.curr_offset) (sym memory)
                    ∙ ap (block_at v'.memory) (sym prev)));
        blocks = segment_step-HasBlocks i q v f.blocks;
        size =
            rw memory (
              omega (arith, f.size, length-set v.memory v.curr_offset (next_block i q v v.memory)));
        inside = record {
          lane_max = f.inside.lane_max;
          slice_max = f.inside.slice_max;
          index_max = more;
          first = let k = f.inside in ground arith;
        };
        at_p = at_next;
      }

  loop-vars :
      (n : ℕ) (p : Position) (index : ℕ) (st : VectorState) (v : Segment)
      → index + n ≡ i.segment_length
      → (n ≡ 0) ⊎ Follows i (index_at p index) st v
      → (segment_loop_opt s i p n index (record { vars = v; state = st })).vars
        ≡ segment_loop i p n index v
  unfolding segment_loop_opt segment_loop
  loop-vars zero p index st v e h = refl
  loop-vars (suc n) p index st v e (inl z) = absurd (omega arith)
  loop-vars (suc n) p index st v e (inr f) =
      let q = index_at p index in
      let o' = segment_step_opt s i q (record { vars = v; state = st }) in
      let vars = stepped-vars s doc i q st v f.blocks f.count f.state_eq in
      ap
        (λ (w : Segment).
          (segment_loop_opt s i p n (index + 1) (record { vars = w; state = o'.state })).vars)
        vars
      ∙ loop-vars n p (index + 1) o'.state (segment_step i q v) (omega arith)
          (elim (ℕ_discrete n 0) [
            | yes last ↦ inl last
            | no more ↦ inr (step-Follows p index st v (omega arith) f)
          ])

  starting_place :
      (p : Position)
      → p.lane < i.lanes
      → p.slice < sync_points
      → (starting_index p < i.segment_length)
      → IsInside i (index_at p (starting_index p))
  unfolding starting_index
  starting_place p l sl lt = record {
    lane_max = l;
    slice_max = sl;
    index_max = lt;
    first = ground arith;
  }

  starting_rounds :
      (p : Position) → starting_index p + (i.segment_length - starting_index p) ≡ i.segment_length
  unfolding starting_index
  starting_rounds p = ground arith

  segment_start_opt-vars :
      (p : Position) (m : Memory)
      → AreFields i p
      → (segment_start_opt s i p m).vars ≡ segment_start i p m
  unfolding segment_start_opt segment_start
  segment_start_opt-vars p m f =
      let blocks =
        next_addresses_opt_lem s doc zero_block (first_input i p) zero_block-IsBlock
          (first_input-IsBlock i p f) in
      let early = (starting_index p == 2) && data_independent i p in
      let v = segment_start i p m in
      λ j. record v {
        address_block = if early then (blocks j).0 else zero_block;
        input_block = if early then (blocks j).1 else first_input i p;
      }

  start-state :
      (p : Position) (m : Memory)
      → AreBlocks m
      → let v = segment_start i p m in
        let st = (segment_start_opt s i p m).state in
        (length st ≡ owords_in_block) × (flatten st ≡ block_at v.memory (rotated i v))
  unfolding segment_start_opt segment_start rotated
  start-state p m b =
      let v = segment_start i p m in
      let curr = v.curr_offset in
      let prev = b v.prev_offset in
      (
        length-registers_of owords_in_block (block_at m v.prev_offset) prev.count,
        flatten-registers_of owords_in_block (block_at m v.prev_offset) prev.count
            ∙ ap (block_at m) (
                not_rotated (curr % i.lane_length) (sub32 (u32 (curr + i.lane_length)) 1)
                  (sub32 curr 1)),
      )

  start-Follows :
      (p : Position) (m : Memory)
      → IsInside i (index_at p (starting_index p))
      → AreFields i p
      → AreBlocks m
      → i.memory_blocks ≤ length m
      → Follows i
          (index_at p (starting_index p))
          (segment_start_opt s i p m).state
          (segment_start i p m)
  unfolding segment_start starting_index data_independent first_input
  start-Follows p m inside f b size =
      let state = start-state p m b in
      record {
        count = state.0;
        state_eq = state.1;
        blocks = segment_start-HasBlocks i p m f b;
        size = size;
        inside = inside;
        at_p = segment_start-IsAt i (index_at p (starting_index p)) m refl a inside;
      }

  -- On an aligned instance, for a position in a lane and a slice of it, with a memory that holds the
  -- instance's blocks, of 128 words of 64 bits each, and numbers in fields of 32 bits, and with
  -- intrinsics that do what their documentation says and forms of the macros that turn and rotate words
  -- of 64 bits: `fill_segment` of opt.c leaves the memory that `fill_segment` of ref.c leaves.
  pub fill_segment_opt_lem :
      (p : Position) (m : Memory)
      → p.lane < i.lanes
      → p.slice < sync_points
      → AreFields i p
      → AreBlocks m
      → i.memory_blocks ≤ length m
      → fill_segment_opt s i p m ≡ fill_segment i p m
  unfolding fill_segment_opt fill_segment
  fill_segment_opt_lem p m l sl f b size =
      let start = starting_index p in
      let n = i.segment_length - start in
      let o = segment_start_opt s i p m in
      let v = segment_start i p m in
      let vars = segment_start_opt-vars p m f in
      ap
        (λ (w : Segment).
          (segment_loop_opt s i p n start (record { vars = w; state = o.state })).vars.memory)
        vars
      ∙ ap (λ (w : Segment). w.memory)
          (loop-vars n p start o.state v (starting_rounds p) (elim (ℕ_discrete n 0) [
            | yes none ↦ inl none
            | no some ↦ inr (start-Follows p m (starting_place p l sl (omega arith)) f b size)
          ]))
