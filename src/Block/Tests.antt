-- ===== src/Block/Tests.antt =====
-- Blocks at inputs.
use argon.Base.{◌^◌, ◌<◌, ◌≡◌, refl, arith, All, replicate}
use argon.Block.{Block, load_block, store_block}
use argon.Block.RoundTrip.{load_block-store_block}

abbrev sample : Block
sample = replicate 128 0x0123_4567_89ab_cdef

sample_words : All (λ w. w < 2 ^ 64) sample
sample_words = omega arith

load_block-store_block_example : load_block (store_block sample) ≡ sample
load_block-store_block_example = load_block-store_block sample refl sample_words
