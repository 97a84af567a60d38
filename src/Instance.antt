-- ===== src/Instance.antt =====
-- The structures of argon2/src/core.h: blocks of 128 words, the instance and the position.
use argon.Base.{ℕ, ◌*◌, ◌≤◌, ◌≡◌, u32_max}
use argon.Param.{sync_points}

abbrev pub block_size : ℕ
block_size = 1024

abbrev pub qwords_in_block : ℕ
qwords_in_block = 128

abbrev pub addresses_in_block : ℕ
addresses_in_block = 128

abbrev pub prehash_digest_length : ℕ
prehash_digest_length = 64

abbrev pub prehash_seed_length : ℕ
prehash_seed_length = 72

-- `argon2_instance_t` without the memory, which the operations pass along.
pub record Instance : Type 0 where
  pub version : ℕ
  pub passes : ℕ
  pub memory_blocks : ℕ
  pub segment_length : ℕ
  pub lane_length : ℕ
  pub lanes : ℕ
  pub threads : ℕ
  pub type : ℕ

-- `argon2_position_t`.
pub record Position : Type 0 where
  pub pass : ℕ
  pub lane : ℕ
  pub slice : ℕ
  pub index : ℕ

-- The shape that `argon2_ctx` gives to an instance.
pub record IsAligned (i : Instance) : Type 0 where
  pub segment_min : 2 ≤ i.segment_length
  pub lane_length_eq : i.lane_length ≡ i.segment_length * sync_points
  pub blocks_eq : i.memory_blocks ≡ i.lanes * i.lane_length
  pub blocks_word : i.memory_blocks ≤ u32_max
  pub lanes_min : 1 ≤ i.lanes
