-- ===== src/Memory.antt =====
-- The stages of argon2/src/core.c around `fill_segment`: the memory and its allocation, the first
-- blocks, the passes and the final hash. `argon2_thread_create` and `argon2_thread_join` and the
-- allocators are a `Platform`.
pub mod Threads
pub mod Prehash
pub mod Injective
pub mod First
pub mod Contents
pub mod Allocator
pub mod Total
pub mod Tests
use argon.Base.{
  ℕ, zero, suc, ◌+◌, ◌-◌, ◌*◌, ◌/◌, ◌%◌, ◌^◌, Bool, true, false, ◌&&◌, ◌||◌, Option, none, some,
  List, [], ◌∷◌, ◌++◌,
}
use argon.Base.{
  Bytes, length, get_or, set, take, drop, replicate, ltb, ◌==◌, if◌then◌else◌, u32, u64, sub32,
  bit_and_mask,
}
use argon.Param.{ErrorCode, Context, Result, done, fail, ◌>>=◌, counted, sync_points}
use argon.Instance.{Instance, Position, block_size, prehash_digest_length, prehash_seed_length}
use argon.Words.{store32}
use argon.Block.{Block, xor_block, load_block, store_block}
use argon.Fill.{Memory, block_at, fill_segment}
use argon.Blake2b.Final.{digest_of}
use argon.Blake2b.Long.{blake2b_long}

-- What the program gets from outside: the memory that an allocator returns for a number of blocks
-- with the content it has, the buffer that `malloc` returns for a number of bytes, whether the two
-- tables of threads are allocated, and whether a thread for a position can be created and joined.
pub record Platform : Type 0 where
  pub memory_of : Context → ℕ → Option Memory
  pub buffer_of : ℕ → Option Bytes
  pub thread_tables : Bool
  pub creates : Position → Bool
  pub joins : Position → Bool

-- `allocate_memory` for `num` blocks.
unfoldable pub allocate_memory : Platform → Context → ℕ → Result Memory
allocate_memory platform c num =
    let memory_size = u64 (num * block_size) in
    if memory_size / block_size == num
    then (elim (platform.memory_of c num) [
      | none ↦ fail ErrorCode.memory_allocation_error
      | some memory ↦ done memory
    ])
    else fail ErrorCode.memory_allocation_error

abbrev pub flag_clear_password : ℕ
flag_clear_password = 1

abbrev pub flag_clear_secret : ℕ
flag_clear_secret = 2

-- The wiped password and its length under `ARGON2_FLAG_CLEAR_PASSWORD`.
unfoldable pub cleared_pwd : Context → Context
cleared_pwd c =
    let zeros = replicate c.pwdlen 0 in
    elim c.pwd [
      | none ↦ c
      | some pwd ↦
          if c.flags % 2 == flag_clear_password
          then record c { pwd = some (zeros ++ drop c.pwdlen pwd); pwdlen = 0 }
          else c
    ]

unfoldable pub cleared_secret : Context → Context
cleared_secret c =
    let zeros = replicate c.secretlen 0 in
    elim c.secret [
      | none ↦ c
      | some secret ↦
          if c.flags / 2 % 2 * 2 == flag_clear_secret
          then record c { secret = some (zeros ++ drop c.secretlen secret); secretlen = 0 }
          else c
    ]

-- The pieces that `initial_hash` updates the hash with. A null pointer adds nothing.
unfoldable pub prehash_pieces : Context → ℕ → List Bytes
prehash_pieces c type =
    store32 c.lanes
    ∷ store32 c.outlen
    ∷ store32 c.m_cost
    ∷ store32 c.t_cost
    ∷ store32 c.version
    ∷ store32 type
    ∷ store32 c.pwdlen
    ∷ counted c.pwd c.pwdlen
    ∷ store32 c.saltlen
    ∷ counted c.salt c.saltlen
    ∷ store32 c.secretlen
    ∷ counted c.secret c.secretlen
    ∷ store32 c.adlen
    ∷ counted c.ad c.adlen
    ∷ []

-- What a buffer holds after a hash call, whose result the source ignores: where the call failed, what
-- it held before.
abbrev pub overwritten : Bytes → Option Bytes → Bytes
overwritten old none = old
overwritten old (some digest) = digest

-- The digest that `initial_hash` writes; clearing the password comes after it is hashed.
unfoldable pub initial_hash : Context → ℕ → Bytes
unfolding prehash_pieces
initial_hash c type =
    overwritten (replicate prehash_digest_length 0)
      (digest_of prehash_digest_length (prehash_pieces c type))

-- What `initial_hash` leaves of the context.
unfoldable pub initial_hash_context : Context → Context
unfolding cleared_pwd cleared_secret
initial_hash_context c = cleared_secret (cleared_pwd c)

-- The block number `k` of lane `l`: the hash of the digest, `k` and `l`.
pub first_block : Bytes → ℕ → ℕ → Bytes → Bytes
first_block blockhash k l old =
    overwritten old (blake2b_long block_size (blockhash ++ store32 k ++ store32 l))

-- The loop over the lanes, with the lanes that are left, the lane and `blockhash_bytes`.
pub fill_first_loop : Instance → Bytes → ℕ → ℕ → Bytes → Memory → Memory
unfolding first_block
fill_first_loop i blockhash zero l bytes memory = memory
fill_first_loop i blockhash (suc n) l bytes memory =
    let bytes₀ = first_block blockhash 0 l bytes in
    let bytes₁ = first_block blockhash 1 l bytes₀ in
    let memory₀ = set memory (u32 (l * i.lane_length + 0)) (load_block bytes₀) in
    let memory₁ = set memory₀ (u32 (l * i.lane_length + 1)) (load_block bytes₁) in
    fill_first_loop i blockhash n (l + 1) bytes₁ memory₁

-- `blockhash` is the digest of 64 bytes; the eight bytes behind it are written by the loop.
pub fill_first_blocks : Bytes → Instance → Memory → Memory
unfolding fill_first_loop
fill_first_blocks blockhash i memory =
    fill_first_loop i blockhash i.lanes 0 (replicate block_size 0) memory

-- The filled memory and the context that is left.
unfoldable pub initialize : Platform → Instance → Context → Result (Memory × Context)
unfolding allocate_memory initial_hash initial_hash_context fill_first_blocks
initialize platform i c = allocate_memory platform c i.memory_blocks >>= λ memory.
    done (fill_first_blocks (initial_hash c i.type) i memory, initial_hash_context c)

abbrev pub position_of : ℕ → ℕ → ℕ → Position
position_of r s l = record { pass = r; lane = l; slice = s; index = 0 }

-- The lanes of a slice, in `fill_memory_blocks_st`.
unfoldable pub slice_st : Instance → ℕ → ℕ → ℕ → ℕ → Memory → Memory
slice_st i r s zero l memory = memory
slice_st i r s (suc n) l memory =
    slice_st i r s n (l + 1) (fill_segment i (position_of r s l) memory)

-- The slices of a pass that are left.
pub pass_st : Instance → ℕ → ℕ → ℕ → Memory → Memory
unfolding slice_st
pass_st i r zero s memory = memory
pass_st i r (suc n) s memory = pass_st i r n (s + 1) (slice_st i r s i.lanes 0 memory)

-- The passes that are left.
pub passes_st : Instance → ℕ → ℕ → Memory → Memory
unfolding pass_st
passes_st i zero r memory = memory
passes_st i (suc n) r memory = passes_st i n (r + 1) (pass_st i r sync_points 0 memory)

unfoldable pub fill_memory_blocks_st : Instance → Memory → Result Memory
unfolding passes_st
fill_memory_blocks_st i memory = done (passes_st i i.passes 0 memory)

-- The joins at the end of a slice, with the lanes that are left.
unfoldable pub join_all : Platform → ℕ → ℕ → ℕ → ℕ → Bool
join_all platform r s zero l = true
join_all platform r s (suc n) l =
    platform.joins (position_of r s l) && join_all platform r s n (l + 1)

-- The lanes of a slice, in `fill_memory_blocks_mt`: at most `threads` of them run, and a thread runs
-- its segment as soon as it is created.
unfoldable pub slice_mt : Platform → Instance → ℕ → ℕ → ℕ → ℕ → Memory → Result Memory
unfolding join_all
slice_mt platform i r s zero l memory =
    if join_all platform r s i.threads (i.lanes - i.threads)
    then done memory
    else fail ErrorCode.thread_fail
slice_mt platform i r s (suc n) l memory =
    let rest = slice_mt platform i r s n (l + 1) (fill_segment i (position_of r s l) memory) in
    let free = ltb l i.threads || platform.joins (position_of r s (l - i.threads)) in
    if free && platform.creates (position_of r s l) then rest else fail ErrorCode.thread_fail

unfoldable pub pass_mt : Platform → Instance → ℕ → ℕ → ℕ → Memory → Result Memory
unfolding slice_mt
pass_mt platform i r zero s memory = done memory
pass_mt platform i r (suc n) s memory =
    slice_mt platform i r s i.lanes 0 memory >>= pass_mt platform i r n (s + 1)

unfoldable pub passes_mt : Platform → Instance → ℕ → ℕ → Memory → Result Memory
unfolding pass_mt
passes_mt platform i zero r memory = done memory
passes_mt platform i (suc n) r memory =
    pass_mt platform i r sync_points 0 memory >>= passes_mt platform i n (r + 1)

unfoldable pub fill_memory_blocks_mt : Platform → Instance → Memory → Result Memory
unfolding passes_mt
fill_memory_blocks_mt platform i memory =
    if platform.thread_tables
    then passes_mt platform i i.passes 0 memory
    else fail ErrorCode.memory_allocation_error

unfoldable pub fill_memory_blocks : Platform → Instance → Memory → Result Memory
unfolding fill_memory_blocks_st fill_memory_blocks_mt
fill_memory_blocks platform i memory =
    if i.lanes == 0
    then fail ErrorCode.incorrect_parameter
    else if i.threads == 1
    then fill_memory_blocks_st i memory
    else fill_memory_blocks_mt platform i memory

-- The blocks of the other lanes' ends, `xor`ed into the hash, with the lanes that are left.
pub finalize_loop : Instance → Memory → ℕ → ℕ → Block → Block
finalize_loop i memory zero l blockhash = blockhash
finalize_loop i memory (suc n) l blockhash =
    let last_block_in_lane = u32 (l * i.lane_length + sub32 i.lane_length 1) in
    finalize_loop i memory n (l + 1) (xor_block blockhash (block_at memory last_block_in_lane))

-- What `finalize` makes of the context: the tag replaces the first bytes of `out`.
unfoldable pub finalize : Context → Instance → Memory → Context
unfolding finalize_loop
finalize c i memory =
    let first = block_at memory (sub32 i.lane_length 1) in
    let blockhash = finalize_loop i memory (i.lanes - 1) 1 first in
    let old = counted c.out c.outlen in
    let tag = overwritten old (blake2b_long c.outlen (store_block blockhash)) in
    record c { out = elim c.out [ none ↦ none | some buf ↦ some (tag ++ drop c.outlen buf) ] }
