-- ===== src/Lib.antt =====
-- The Argon2 password hash of this repository: the C library below argon2/, which the Node addon
-- builds. Paths are from the root of the repository.
--
-- The parts and their files:
-- - Param: argon2/include/argon2.h. The limits, `Argon2_ErrorCodes` (ErrorCode), `argon2_context`
--   (Context: a null pointer is `none`, any other the bytes it points to) and `argon2_type2string`.
-- - Validate: `validate_inputs` of argon2/src/core.c, the gate that every other entry passes.
-- - Base64, Decimal, Phc: argon2/src/encoding.c. The character maps and the two directions of Base64,
--   `decode_decimal` and the print of `%lu`, then `encode_string` and `decode_string`, whose macros are
--   functions of their own, and `argon2_encodedlen` of argon2/src/argon2.c.
-- - Words: the little-endian words and the rotation of argon2/src/blake2/blake2-impl.h.
-- - Compress, Blake2b: argon2/src/blake2/blake2b.c. The compression function, the streaming hash with
--   its state, `blake2b` and `blake2b_long`. Blake2b/Spec is the hash of a whole message, with no buffer.
-- - Instance: the structures of argon2/src/core.h. Block: the block operations of argon2/src/core.c,
--   argon2/src/blake2/blamka-round-ref.h and `fill_block` of argon2/src/ref.c.
-- - Simd: the round macros of argon2/src/blake2/blamka-round-opt.h in their SSE2 and SSSE3 forms. A
--   register is a pair of words. The intrinsics are the records Intrinsics and Intrinsics3, with their
--   documented behaviour; the macros that have two forms are the record Forms.
-- - Opt: `fill_block`, `next_addresses` and `fill_segment` of argon2/src/opt.c on registers of 128 bits, for a
--   Target: intrinsics and forms, `sse2_forms` or `ssse3_forms`. The last block is kept in 64 registers from
--   one round to the next, and Opt/Flatten has their words.
-- - Avx2: the round macros in their AVX2 form, on registers of four words, with Intrinsics256 and
--   AreDocumented256. `BLAKE2_ROUND_1` and `BLAKE2_ROUND_2` do two reference rounds at once.
-- - Index: `index_alpha` of argon2/src/core.c. Fill: `fill_segment` of argon2/src/ref.c.
-- - Memory: allocation, first blocks, passes and final hash of argon2/src/core.c.
-- - Api, Message: `argon2_ctx`, `argon2_hash`, `argon2_verify`, `argon2_verify_ctx`, `argon2_compare`,
--   the functions that fix a variant (Api/Variants) and `argon2_error_message` of argon2/src/argon2.c.
-- - Schedule: the threads of a slice as argon2/src/core.c starts them, each a state of its own over the
--   memory they share. A schedule is the list of the lanes whose threads get a turn, a turn is one round of
--   `fill_segment`, and `sequential` is the schedule of `fill_memory_blocks_st`.
-- - Addon: argon2_core.cpp on a POSIX system. SecureBuffer, the workers with their `Execute`, `OnOK`,
--   `OnError` and destructors (Addon/Worker), the exported `hash` and `verify` (Addon/Calls). A value of
--   JavaScript is a buffer, a number, by a natural number of the same residue modulo 2 ^ 32, or another.
-- - Run: the command line of argon2/src/run.c: `main` up to the call of `run`, with `strtoul` as a parameter, and
--   `run` (Run/Hash), whose prints are its result.
-- - Base: helpers on Booleans, lists, machine words and bits.
--
-- How they interact: `argon2_hash` and `argon2_verify` make a context, which `argon2_ctx` validates and
-- turns into an instance; the memory gets its first blocks from BLAKE2b, `fill_segment` fills it slice by
-- slice with the blocks that `index_alpha` chooses, and the last blocks are hashed to the tag, which Phc
-- writes into the encoded string or reads from it. The addon makes a context of the options object and calls
-- `argon2_ctx`, with flags that wipe the password and the secret.
--
-- Numbers are natural numbers. Words keep the wrap-around of their C type (u8, u32, u64, sub32, sub64);
-- `unsigned long`, `size_t` and pointers have 64 bits, and `char` is signed. A loop over a count is
-- structural recursion on what is left of it; where the fuel is a bound of its own it is the length of the
-- input (`whole_blocks`, `hash_from`), the number printed (`print_ulong`, `numlen`) or the digest length
-- (`blake2b_long`), and a loop that has fuel left over stops by its own test.
--
-- Outside the program are the allocators and the thread calls: the record Platform of Memory says what
-- they return, and the theorems about it hold for all of them; Host of Addon adds what the addon asks of the
-- system. In `slice_mt` of Memory a thread runs its segment when it is created, and a join only fails or
-- succeeds; Schedule has the other orders, where one round is one step: the blocks that a round reads and
-- the block that it writes are taken at once, and the memory is sequentially consistent.
--
-- Not modelled: the XOP and AVX-512 forms of the macros, and argon2/src/opt.c on registers of 256 and
-- 512 bits; argon2/src/thread.c, which only calls the system;
-- argon2/src/genkat.c, argon2/src/bench.c and argon2/src/test.c, which print and measure; the texts and the
-- clock of argon2/src/run.c;
-- `free_memory` and the wiping of buffers that the C library gives back; in the addon the Windows branches,
-- `mlock` and `madvise`, whose effects it does not read, and a vector that cannot be allocated; the TypeScript
-- of index.ts and phc.ts, which checks options and prints strings.
pub mod Base
pub mod Param
pub mod Validate
pub mod Base64
pub mod Decimal
pub mod Phc
pub mod Instance
pub mod Index
pub mod Words
pub mod Compress
pub mod Block
pub mod Fill
pub mod Blake2b
pub mod Memory
pub mod Run
pub mod Schedule
pub mod Addon
pub mod Simd
pub mod Opt
pub mod Avx2
pub mod Api
pub mod Message
