-- ===== src/Block/Overwrite.antt =====
-- Without the `xor` the old content of the block does not count.
use argon.Base.{◌≡◌, refl, false}
use argon.Block.{Block, fill_block}

pub fill_block_plain :
    (prev ref next next' : Block) → fill_block prev ref next false ≡ fill_block prev ref next' false
unfolding fill_block
fill_block_plain prev ref next next' = refl
