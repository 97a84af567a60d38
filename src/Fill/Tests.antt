-- ===== src/Fill/Tests.antt =====
-- `fill_segment` at inputs.
use argon.Base.{◌≡◌, inr, arith, length, replicate}
use argon.Block.{init_block_value}
use argon.Index.Tests.{two_lanes, middle, two_lanes-IsAligned}
use argon.Fill.{Memory, block_at, fill_segment}
use argon.Block.WellFormed.{init_block_value-IsBlock}
use argon.Fill.WellFormed.{AreBlocks, AreFields, replicate-AreBlocks}
use argon.Fill.Frame.{block_at-fill_segment}

abbrev pub memory : Memory
memory = replicate 32 (init_block_value 7)

-- Block 20 is in the other lane.
block_at-fill_segment_example :
    (length (fill_segment two_lanes middle memory) ≡ length memory)
    × (block_at (fill_segment two_lanes middle memory) 20 ≡ block_at memory 20)
block_at-fill_segment_example =
    block_at-fill_segment two_lanes middle memory 20 two_lanes-IsAligned (omega arith) (omega arith)
      (inr (omega arith))

pub memory-AreBlocks : AreBlocks memory
memory-AreBlocks =
    replicate-AreBlocks 32 (init_block_value 7) (init_block_value-IsBlock 7 (omega arith))

pub middle-AreFields : AreFields two_lanes middle
middle-AreFields = record {
  pass_max = omega arith;
  lane_max = omega arith;
  slice_max = omega arith;
  blocks_max = omega arith;
  passes_max = omega arith;
  type_max = omega arith;
}
