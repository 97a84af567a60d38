-- ===== src/Memory/Tests.antt =====
-- The stages at inputs.
use argon.Base.{◌⊎◌, [], codes, arith, ◌≡◌, refl, true, some, replicate}
use argon.Param.{Context, done, version_number}
use argon.Instance.{Instance, prehash_digest_length}
use argon.Block.{init_block_value}
use argon.Fill.{Memory}
use argon.Validate.Tests.{sample}
use argon.Blake2b.Spec.{hash_from}
use argon.Blake2b.Stream.{chain}
use argon.Blake2b.Final.{start}
use argon.Memory.{
  Platform, position_of, fill_memory_blocks, fill_memory_blocks_mt, fill_memory_blocks_st,
  passes_mt,
}
use argon.Memory.{
  pass_mt, slice_mt, join_all, passes_st, pass_st, slice_st, initial_hash, prehash_pieces,
}
use argon.Memory.Threads.{fill_memory_blocks-done}
use argon.Memory.Injective.{SameInputs, joined-prehash_pieces_inj}
use argon.Memory.Prehash.{prehash_message, initial_hash-message}

-- Everything that is asked for is given.
abbrev pub generous : Platform
generous = record {
  memory_of = λ c num. some (replicate num (init_block_value 0));
  buffer_of = λ n. some (replicate n 0);
  thread_tables = true;
  creates = λ p. true;
  joins = λ p. true;
}

-- Three lanes on two threads.
abbrev three_lanes : Instance
three_lanes = record {
  version = 0x13;
  passes = 1;
  memory_blocks = 24;
  segment_length = 2;
  lane_length = 8;
  lanes = 3;
  threads = 2;
  type = 1;
}

abbrev memory : Memory
memory = replicate 24 (init_block_value 5)

abbrev filled : Memory
filled = passes_st three_lanes 1 0 memory

fills : fill_memory_blocks generous three_lanes memory ≡ done filled
unfolding fill_memory_blocks fill_memory_blocks_mt passes_mt pass_mt slice_mt join_all passes_st
    pass_st slice_st
fills = refl

fill_memory_blocks-done_example :
    (fill_memory_blocks_st three_lanes memory ≡ done filled)
    × ((three_lanes.threads ≡ 1)
        ⊎ ((generous.creates (position_of 0 2 1) ≡ true)
            × (generous.joins (position_of 0 2 1) ≡ true)))
fill_memory_blocks-done_example =
    fill_memory_blocks-done generous three_lanes memory filled 0 2 1 (omega arith) (omega arith)
      (omega arith) (omega arith) fills

initial_hash-message_example :
    initial_hash sample 2
    ≡ hash_from prehash_digest_length
        (chain (start prehash_digest_length))
        (prehash_message 2 4 16 1 version_number 2 (codes "password") (codes "somesalt") [] [])
initial_hash-message_example =
    initial_hash-message sample 2
      (record { pwd_count = refl; salt_count = refl; secret_count = refl; ad_count = refl })

-- The number of threads is not hashed.
abbrev one_thread : Context
one_thread = record sample { threads = 1 }

joined-prehash_pieces_inj_example : SameInputs sample one_thread 2 2
unfolding prehash_pieces
joined-prehash_pieces_inj_example =
    joined-prehash_pieces_inj sample one_thread 2 2 (omega arith) (omega arith) (omega arith)
      (omega arith)
      (record { pwd_count = refl; salt_count = refl; secret_count = refl; ad_count = refl })
      (record { pwd_count = refl; salt_count = refl; secret_count = refl; ad_count = refl }) refl
