-- ===== src/Fill.antt =====
-- `fill_segment` of argon2/src/ref.c over the memory of an instance.
pub mod Place
pub mod Frame
pub mod WellFormed
pub mod Step
pub mod Agree
pub mod FirstPass
pub mod Tests
use argon.Base.{
  ℕ, zero, suc, ◌+◌, ◌-◌, ◌*◌, ◌/◌, ◌%◌, ◌^◌, Bool, true, false, ◌&&◌, ◌||◌, List, get_or, set, ltb,
  ◌==◌, if◌then◌else◌,
}
use argon.Base.{u32, u64, sub32}
use argon.Param.{sync_points, argon2_i, argon2_id, version_10}
use argon.Instance.{Instance, Position, addresses_in_block}
use argon.Block.{Block, init_block_value, fill_block}
use argon.Index.{index_alpha}

-- `instance->memory`.
abbrev pub Memory : Type 0
Memory = List Block

unfoldable pub zero_block : Block
zero_block = init_block_value 0

abbrev pub block_at : Memory → ℕ → Block
block_at memory i = get_or memory i zero_block

unfoldable pub data_independent : Instance → Position → Bool
data_independent i p =
    (i.type == argon2_i)
    || ((i.type == argon2_id) && (p.pass == 0) && ltb p.slice (sync_points / 2))

-- The address block and the input block.
unfoldable pub next_addresses : Block → Block × Block
next_addresses input_block =
    let input = set input_block 6 (u64 (get_or input_block 6 0 + 1)) in
    let address = fill_block zero_block input zero_block false in
    (fill_block zero_block address address false, input)

-- `input_block` at the start.
unfoldable pub first_input : Instance → Position → Block
first_input i p =
    set
      (set (set (set (set (set zero_block 0 p.pass) 1 p.lane) 2 p.slice) 3 i.memory_blocks) 4
        i.passes)
      5 i.type

-- The variables of the loop.
pub record Segment : Type 0 where
  pub memory : Memory
  pub address_block : Block
  pub input_block : Block
  pub prev_offset : ℕ
  pub curr_offset : ℕ

unfoldable pub starting_index : Position → ℕ
starting_index p = if (p.pass == 0) && (p.slice == 0) then 2 else 0

unfoldable pub segment_start : Instance → Position → Memory → Segment
segment_start i p memory =
    let start = starting_index p in
    let blocks = next_addresses (first_input i p) in
    let curr = u32 (p.lane * i.lane_length + p.slice * i.segment_length + start) in
    let early = (start == 2) && data_independent i p in
    record {
      memory = memory;
      address_block = if early then blocks.0 else zero_block;
      input_block = if early then blocks.1 else first_input i p;
      prev_offset =
          if curr % i.lane_length == 0 then sub32 (u32 (curr + i.lane_length)) 1 else sub32 curr 1;
      curr_offset = curr;
    }

-- 1.1: `prev_offset` behind the wrap-around.
unfoldable pub rotated : Instance → Segment → ℕ
rotated i s = if s.curr_offset % i.lane_length == 1 then sub32 s.curr_offset 1 else s.prev_offset

-- 1.2.1: fresh addresses where the block of them begins.
unfoldable pub refreshed : Instance → Position → Segment → Block × Block
refreshed i p s =
    if data_independent i p && (p.index % addresses_in_block == 0)
    then next_addresses s.input_block
    else (s.address_block, s.input_block)

-- 1.2.1: the pseudo-random word.
unfoldable pub pseudo_rand : Instance → Position → Segment → ℕ
pseudo_rand i p s =
    if data_independent i p
    then get_or (refreshed i p s).0 (p.index % addresses_in_block) 0
    else get_or (block_at s.memory (rotated i s)) 0 0

-- 1.2.2: the lane of the reference block.
pub ref_lane : Instance → Position → ℕ → ℕ
ref_lane i p word = if (p.pass == 0) && (p.slice == 0) then p.lane else (word / 2 ^ 32) % i.lanes

-- 1.2.3 and 2: where the reference block stands in the memory.
pub ref_offset : Instance → Position → ℕ → ℕ
ref_offset i p word =
    let lane = ref_lane i p word in
    u64 (u64 (i.lane_length * lane) + index_alpha i p (word % 2 ^ 32) (lane == p.lane))

-- One round of the loop, at `position.index`, with the increments at its end.
unfoldable pub segment_step : Instance → Position → Segment → Segment
segment_step i p s =
    let prev = rotated i s in
    let blocks = refreshed i p s in
    let ref_block = block_at s.memory (ref_offset i p (pseudo_rand i p s)) in
    let curr_block = block_at s.memory s.curr_offset in
    let with_xor = if i.version == version_10 then false else if p.pass == 0 then false else true in
    let next = fill_block (block_at s.memory prev) ref_block curr_block with_xor in
    record {
      memory = set s.memory s.curr_offset next;
      address_block = blocks.0;
      input_block = blocks.1;
      prev_offset = u32 (prev + 1);
      curr_offset = u32 (s.curr_offset + 1);
    }

-- The loop from `index` on, with the rounds that are left.
unfoldable pub segment_loop : Instance → Position → ℕ → ℕ → Segment → Segment
segment_loop i p zero index s = s
segment_loop i p (suc n) index s =
    segment_loop i p n (index + 1) (segment_step i (record p { index = index }) s)

unfoldable pub fill_segment : Instance → Position → Memory → Memory
fill_segment i p memory =
    let start = starting_index p in
    (segment_loop i p (i.segment_length - start) start (segment_start i p memory)).memory
