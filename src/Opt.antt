-- ===== src/Opt.antt =====
-- `fill_block`, `next_addresses` and `fill_segment` of argon2/src/opt.c, on registers of 128 bits.
pub mod Flatten
pub mod Round
pub mod Loops
pub mod FillBlock
pub mod Step
pub mod FillSegment
pub mod Tests
use argon.Base.{
  ℕ, zero, suc, ◌+◌, ◌*◌, ◌-◌, ◌%◌, ◌==◌, ◌&&◌, Bool, true, false, List, [], ◌∷◌, get_or, set,
  replicate, if◌then◌else◌, u32, u64, sub32,
}
use argon.Param.{version_10}
use argon.Instance.{Instance, Position, addresses_in_block}
use argon.Block.{Block}
use argon.Simd.{M128, Target, Half, blake2_round}
use argon.Fill.{
  Memory, Segment, zero_block, block_at, data_independent, first_input, starting_index, rotated,
  ref_offset,
}

-- `ARGON2_OWORDS_IN_BLOCK`.
abbrev pub owords_in_block : ℕ
owords_in_block = 64

-- `__m128i state[ARGON2_OWORDS_IN_BLOCK]`.
abbrev pub VectorState : Type 0
VectorState = List M128

abbrev pub zero_register : M128
zero_register = (0, 0)

abbrev pub register_at : VectorState → ℕ → M128
register_at st i = get_or st i zero_register

-- The loop that takes in the reference block, from register `i` on with the rounds that are left. The
-- registers of `block_xy` are written before they are read.
unfoldable pub take_in :
    Target → Block → Block → Bool → ℕ → ℕ → VectorState → VectorState → VectorState × VectorState
take_in s ref_block next_block with_xor zero i state block_xy = (state, block_xy)
take_in s ref_block next_block with_xor (suc n) i state block_xy =
    let x = s.ops.xor_si128 (register_at state i) (s.ops.loadu_si128 ref_block i) in
    let y = if with_xor then s.ops.xor_si128 x (s.ops.loadu_si128 next_block i) else x in
    take_in s ref_block next_block with_xor n (i + 1) (set state i x) (set block_xy i y)

-- `BLAKE2_ROUND` on the eight registers at `at 0` to `at 7`.
unfoldable pub round_at : Target → (ℕ → ℕ) → VectorState → VectorState
round_at s at st =
    let first : Half = record {
      a = register_at st (at 0);
      b = register_at st (at 2);
      c = register_at st (at 4);
      d = register_at st (at 6);
    } in
    let second : Half = record {
      a = register_at st (at 1);
      b = register_at st (at 3);
      c = register_at st (at 5);
      d = register_at st (at 7);
    } in
    let r = blake2_round s.ops s.forms (record { first = first; second = second }) in
    let f = r.first in
    let g = r.second in
    set
      (set
        (set (set (set (set (set (set st (at 0) f.a) (at 1) g.a) (at 2) f.b) (at 3) g.b) (at 4) f.c)
          (at 5) g.c)
        (at 6) f.d)
      (at 7) g.d

-- The registers of the `i`-th round, in the loop over columns and in the one over rows.
unfoldable pub column_registers : ℕ → ℕ → ℕ
column_registers i k = 8 * i + k

unfoldable pub row_registers : ℕ → ℕ → ℕ
row_registers i k = 8 * k + i

-- `for (i = 0; i < 8; ++i)`, with the rounds that are left.
unfoldable pub opt_rounds : Target → (ℕ → ℕ → ℕ) → ℕ → ℕ → VectorState → VectorState
opt_rounds s at zero i st = st
opt_rounds s at (suc n) i st = opt_rounds s at n (i + 1) (round_at s (at i) st)

-- The loop that writes the block.
unfoldable pub write_out : Target → VectorState → ℕ → ℕ → VectorState → Block → VectorState × Block
write_out s block_xy zero i state next_block = (state, next_block)
write_out s block_xy (suc n) i state next_block =
    let x = s.ops.xor_si128 (register_at state i) (register_at block_xy i) in
    write_out s block_xy n (i + 1) (set state i x) (s.ops.storeu_si128 next_block i x)

-- `state` and the content of `next_block` afterwards. The blocks are read before `next_block` is
-- written, so they may be the same one.
unfoldable pub fill_block_opt : Target → VectorState → Block → Block → Bool → VectorState × Block
fill_block_opt s state ref_block next_block with_xor =
    let n = owords_in_block in
    let a = take_in s ref_block next_block with_xor n 0 state (replicate n zero_register) in
    let st = opt_rounds s row_registers 8 0 (opt_rounds s column_registers 8 0 a.0) in
    write_out s a.1 n 0 st next_block

-- The address block and the input block.
unfoldable pub next_addresses_opt : Target → Block → Block → Block × Block
next_addresses_opt s address_block input_block =
    let zeros = replicate owords_in_block zero_register in
    let input = set input_block 6 (u64 (get_or input_block 6 0 + 1)) in
    let address = (fill_block_opt s zeros input address_block false).1 in
    ((fill_block_opt s zeros address address false).1, input)

-- The words of a block in registers: `memcpy(state, ..., ARGON2_BLOCK_SIZE)`.
unfoldable pub registers_of : Block → VectorState
registers_of [] = []
registers_of (x ∷ []) = (x, 0) ∷ []
registers_of (x ∷ y ∷ b) = (x, y) ∷ registers_of b

-- The variables of the loop.
pub record OptSegment : Type 0 where
  pub vars : Segment
  pub state : VectorState

unfoldable pub segment_start_opt : Target → Instance → Position → Memory → OptSegment
segment_start_opt s i p memory =
    let start = starting_index p in
    let blocks = next_addresses_opt s zero_block (first_input i p) in
    let curr = u32 (p.lane * i.lane_length + p.slice * i.segment_length + start) in
    let prev =
      if curr % i.lane_length == 0 then sub32 (u32 (curr + i.lane_length)) 1 else sub32 curr 1 in
    let early = (start == 2) && data_independent i p in
    record {
      vars = record {
        memory = memory;
        address_block = if early then blocks.0 else zero_block;
        input_block = if early then blocks.1 else first_input i p;
        prev_offset = prev;
        curr_offset = curr;
      };
      state = registers_of (block_at memory prev);
    }

unfoldable pub refreshed_opt : Target → Instance → Position → Segment → Block × Block
refreshed_opt s i p v =
    if data_independent i p && (p.index % addresses_in_block == 0)
    then next_addresses_opt s v.address_block v.input_block
    else (v.address_block, v.input_block)

unfoldable pub pseudo_rand_opt : Target → Instance → Position → Segment → ℕ
pseudo_rand_opt s i p v =
    if data_independent i p
    then get_or (refreshed_opt s i p v).0 (p.index % addresses_in_block) 0
    else get_or (block_at v.memory (rotated i v)) 0 0

-- One round of the loop, at `position.index`, with the increments at its end.
unfoldable pub segment_step_opt : Target → Instance → Position → OptSegment → OptSegment
segment_step_opt s i p o =
    let v = o.vars in
    let prev = rotated i v in
    let blocks = refreshed_opt s i p v in
    let ref_block = block_at v.memory (ref_offset i p (pseudo_rand_opt s i p v)) in
    let curr_block = block_at v.memory v.curr_offset in
    let with_xor = if i.version == version_10 then false else if p.pass == 0 then false else true in
    let next = fill_block_opt s o.state ref_block curr_block with_xor in
    record {
      vars = record {
        memory = set v.memory v.curr_offset next.1;
        address_block = blocks.0;
        input_block = blocks.1;
        prev_offset = u32 (prev + 1);
        curr_offset = u32 (v.curr_offset + 1);
      };
      state = next.0;
    }

unfoldable pub segment_loop_opt : Target → Instance → Position → ℕ → ℕ → OptSegment → OptSegment
segment_loop_opt s i p zero index o = o
segment_loop_opt s i p (suc n) index o =
    segment_loop_opt s i p n (index + 1) (segment_step_opt s i (record p { index = index }) o)

unfoldable pub fill_segment_opt : Target → Instance → Position → Memory → Memory
fill_segment_opt s i p memory =
    let start = starting_index p in
    let o =
      segment_loop_opt s i p (i.segment_length - start) start (segment_start_opt s i p memory) in
    o.vars.memory
