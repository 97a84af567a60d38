-- ===== src/Fill/WellFormed.antt =====
-- The blocks of a memory and of the loop of `fill_segment` in argon2/src/ref.c, as blocks of words.
use argon.Base.{
  ℕ, zero, suc, ◌+◌, ◌≤◌, arith, Bool, true, false, length, get_or, set, replicate, get_or-set_ne,
  get_or-set_self, get_or-set_ge, if◌then◌else◌, u64, u32_max,
}
use native.Mathlib.Decide.{ℕ_discrete, dec_lt}
use argon.Instance.{Instance, Position}
use argon.Block.{Block}
use argon.Block.WellFormed.{IsBlock, fill_block-IsBlock, init_block_value-IsBlock, set-IsBlock}
use argon.Fill.{
  Memory, Segment, zero_block, block_at, next_addresses, first_input, refreshed, rotated,
  pseudo_rand, ref_offset, segment_start, segment_step,
}

abbrev pub AreBlocks : Memory → Type 0
AreBlocks m = (x : ℕ) → IsBlock (block_at m x)

pub zero_block-IsBlock : IsBlock zero_block
unfolding zero_block
zero_block-IsBlock = init_block_value-IsBlock 0 (omega arith)

pub set-AreBlocks :
    (m : Memory) (c : ℕ) (b : Block) → AreBlocks m → IsBlock b → AreBlocks (set m c b)
set-AreBlocks m c b h k x = elim (ℕ_discrete c x) [
  | no ne ↦ rw (get_or-set_ne m c x b zero_block ne) (h x)
  | yes e ↦ elim (dec_lt x (length m)) [
    | no ge ↦ rw (get_or-set_ge m c x b zero_block (omega arith)) zero_block-IsBlock
    | yes lt ↦ rw e (rw (get_or-set_self m x b zero_block lt) k)
  ]
]

pub replicate-AreBlocks : (n : ℕ) (b : Block) → IsBlock b → AreBlocks (replicate n b)
replicate-AreBlocks zero b h x = zero_block-IsBlock
replicate-AreBlocks (suc n) b h zero = h
replicate-AreBlocks (suc n) b h (suc x) = replicate-AreBlocks n b h x

pub next_addresses-IsBlock :
    (input : Block)
    → IsBlock input
    → IsBlock (next_addresses input).0 × IsBlock (next_addresses input).1
unfolding next_addresses
next_addresses-IsBlock input h =
    let z = zero_block-IsBlock in
    let next = set-IsBlock input 6 (u64 (get_or input 6 0 + 1)) h (omega arith) in
    let address = fill_block-IsBlock zero_block _ zero_block false z next z in
    (fill_block-IsBlock zero_block _ _ false z address address, next)

-- The numbers of the instance and of the position that the code keeps in fields of 32 bits.
pub record AreFields (i : Instance) (p : Position) : Type 0 where
  pub pass_max : p.pass ≤ u32_max
  pub lane_max : p.lane ≤ u32_max
  pub slice_max : p.slice ≤ u32_max
  pub blocks_max : i.memory_blocks ≤ u32_max
  pub passes_max : i.passes ≤ u32_max
  pub type_max : i.type ≤ u32_max

pub first_input-IsBlock : (i : Instance) (p : Position) → AreFields i p → IsBlock (first_input i p)
unfolding first_input
first_input-IsBlock i p f =
    set-IsBlock _ 5 i.type
      (set-IsBlock _ 4 i.passes
        (set-IsBlock _ 3 i.memory_blocks
          (set-IsBlock _ 2 p.slice
            (set-IsBlock _ 1 p.lane
              (set-IsBlock zero_block 0 p.pass zero_block-IsBlock (omega (arith, f.pass_max)))
              (omega (arith, f.lane_max)))
            (omega (arith, f.slice_max)))
          (omega (arith, f.blocks_max)))
        (omega (arith, f.passes_max)))
      (omega (arith, f.type_max))

-- The blocks of the variables of the loop.
pub record HasBlocks (v : Segment) : Type 0 where
  pub address : IsBlock v.address_block
  pub input : IsBlock v.input_block
  pub blocks : AreBlocks v.memory

abbrev Both : Block × Block → Type 0
Both r = IsBlock r.0 × IsBlock r.1

choose-Both : (b : Bool) (x y : Block × Block) → Both x → Both y → Both (if b then x else y)
choose-Both true x y h k = h
choose-Both false x y h k = k

choose-IsBlock : (b : Bool) (x y : Block) → IsBlock x → IsBlock y → IsBlock (if b then x else y)
choose-IsBlock true x y h k = h
choose-IsBlock false x y h k = k

pub refreshed-IsBlock :
    (i : Instance) (p : Position) (v : Segment)
    → HasBlocks v
    → IsBlock (refreshed i p v).0 × IsBlock (refreshed i p v).1
unfolding refreshed
refreshed-IsBlock i p v h =
    choose-Both _ (next_addresses v.input_block) (v.address_block, v.input_block)
      (next_addresses-IsBlock v.input_block h.input) (h.address, h.input)

pub segment_step-HasBlocks :
    (i : Instance) (p : Position) (v : Segment) → HasBlocks v → HasBlocks (segment_step i p v)
unfolding segment_step
segment_step-HasBlocks i p v h =
    let r = refreshed-IsBlock i p v h in
    record {
      address = r.0;
      input = r.1;
      blocks = set-AreBlocks v.memory v.curr_offset _ h.blocks (
          fill_block-IsBlock _ _ _ _ (h.blocks (rotated i v))
            (h.blocks (ref_offset i p (pseudo_rand i p v))) (h.blocks v.curr_offset));
    }

pub segment_start-HasBlocks :
    (i : Instance) (p : Position) (m : Memory)
    → AreFields i p
    → AreBlocks m
    → HasBlocks (segment_start i p m)
unfolding segment_start
segment_start-HasBlocks i p m f h =
    let first = first_input-IsBlock i p f in
    let n = next_addresses-IsBlock (first_input i p) first in
    record {
      address = choose-IsBlock _ _ _ n.0 zero_block-IsBlock;
      input = choose-IsBlock _ _ _ n.1 first;
      blocks = h;
    }
