-- ===== src/Opt/Tests.antt =====
-- The vector code at inputs.
use argon.Base.{◌≡◌, refl, arith, length, true}
use argon.Block.{init_block_value, fill_block}
use argon.Block.WellFormed.{init_block_value-IsBlock}
use argon.Index.Tests.{two_lanes, middle, two_lanes-IsAligned}
use argon.Fill.{fill_segment}
use argon.Fill.Tests.{memory, memory-AreBlocks, middle-AreFields}
use argon.Simd.Tests.{sse2_target, sse2_target-IsTarget, ssse3_target, ssse3_target-IsTarget}
use argon.Opt.{VectorState, registers_of, owords_in_block, fill_block_opt, fill_segment_opt}
use argon.Opt.Flatten.{flatten, flatten-registers_of}
use argon.Opt.FillBlock.{fill_block_opt_lem}
use argon.Opt.FillSegment.{fill_segment_opt_lem}

fill_segment_opt_lem_example :
    fill_segment_opt sse2_target two_lanes middle memory ≡ fill_segment two_lanes middle memory
fill_segment_opt_lem_example =
    fill_segment_opt_lem sse2_target sse2_target-IsTarget two_lanes two_lanes-IsAligned middle
      memory (omega arith) (omega arith) middle-AreFields memory-AreBlocks (omega arith)

abbrev state : VectorState
state = registers_of (init_block_value 3)

state-flatten : flatten state ≡ init_block_value 3
unfolding init_block_value
state-flatten = flatten-registers_of 64 (init_block_value 3) refl

fill_block_opt_lem_example :
    let r = fill_block_opt ssse3_target state (init_block_value 5) (init_block_value 7) true in
    let b = fill_block (flatten state) (init_block_value 5) (init_block_value 7) true in
    (length r.0 ≡ owords_in_block) × (flatten r.0 ≡ b) × (r.1 ≡ b)
unfolding registers_of init_block_value
fill_block_opt_lem_example =
    fill_block_opt_lem ssse3_target ssse3_target-IsTarget state (init_block_value 5)
      (init_block_value 7) true refl (rw state-flatten (init_block_value-IsBlock 3 (omega arith)))
      (init_block_value-IsBlock 5 (omega arith)) (init_block_value-IsBlock 7 (omega arith))
