-- ===== src/Blake2b.antt =====
-- argon2/src/blake2/blake2b.c over the structures of blake2.h: the streaming hash. Pointers are valid,
-- as all callers make them. `clear_internal_memory` wipes, as `FLAG_clear_internal_memory` says by
-- default.
pub mod Spec
pub mod Stream
pub mod Update
pub mod Final
pub mod Length
pub mod Long
pub mod Tests
use argon.Base.{ℕ, zero, suc, ◌+◌, ◌-◌, ◌^◌, ◌||◌, Option, none, some, List, [], ◌∷◌, ◌++◌, Bytes}
use argon.Base.{length, take, drop, replicate, get_or, ltb, ◌==◌, if◌then◌else◌, u8, u32, u64}
use argon.Words.{load_words, store_words}
use argon.Compress.{iv, xor_words, compress_words}

abbrev pub blockbytes : ℕ
blockbytes = 128

abbrev pub outbytes : ℕ
outbytes = 64

abbrev pub keybytes : ℕ
keybytes = 64

-- `blake2b_state`; the arrays `t` and `f` have two words each.
pub record State : Type 0 where
  pub h : List ℕ
  pub t0 : ℕ
  pub t1 : ℕ
  pub f0 : ℕ
  pub f1 : ℕ
  pub buf : Bytes
  pub buflen : ℕ
  pub outlen : ℕ
  pub last_node : ℕ

abbrev pub all_ones : ℕ
all_ones = 2 ^ 64 - 1

pub set_lastnode : State → State
set_lastnode s = record s { f1 = all_ones }

pub set_lastblock : State → State
unfolding set_lastnode
set_lastblock s =
    let s' = if s.last_node == 0 then s else set_lastnode s in record s' { f0 = all_ones }

pub increment_counter : State → ℕ → State
increment_counter s inc =
    let t = u64 (s.t0 + inc) in record s { t0 = t; t1 = u64 (s.t1 + (if ltb t inc then 1 else 0)) }

-- A state of zero bytes.
abbrev pub zero_state : State
zero_state = record {
  h = replicate 8 0;
  t0 = 0;
  t1 = 0;
  f0 = 0;
  f1 = 0;
  buf = replicate 128 0;
  buflen = 0;
  outlen = 0;
  last_node = 0;
}

pub invalidate_state : State
unfolding set_lastblock
invalidate_state = set_lastblock zero_state

pub init0 : State
init0 = record zero_state { h = iv }

-- The 64 bytes of `blake2b_param` for sequential hashing: digest and key length, fanout and depth 1,
-- all else 0.
abbrev pub param_block : ℕ → ℕ → Bytes
param_block digest_length key_length = u8 digest_length ∷ u8 key_length ∷ 1 ∷ 1 ∷ replicate 60 0

pub init_param : Bytes → State
unfolding init0
init_param p = record init0 { h = xor_words init0.h (load_words 8 p); outlen = get_or p 0 0 }

-- `none` is -1.
pub init : ℕ → Option State
init outlen =
    if (outlen == 0) || ltb outbytes outlen then none else some (init_param (param_block outlen 0))

-- `blake2b_compress`.
pub compress : State → Bytes → State
compress s block = record s { h = compress_words s.h s.t0 s.t1 s.f0 s.f1 block }

-- `memcpy(&buf[off], src, length of src)`.
abbrev pub write_at : Bytes → ℕ → Bytes → Bytes
write_at buf off src = take off buf ++ src ++ drop (off + length src) buf

-- The loop of `blake2b_update` over whole blocks of the input, and the input that is left; the fuel
-- is the input's length at most.
pub whole_blocks : ℕ → State → Bytes → State × Bytes
whole_blocks zero s pin = (s, pin)
whole_blocks (suc fuel) s pin =
    let s' = compress (increment_counter s blockbytes) (take blockbytes pin) in
    let next = whole_blocks fuel s' (drop blockbytes pin) in
    if ltb blockbytes (length pin) then next else (s, pin)

-- The end of `blake2b_update`: the rest of the input is kept in the buffer.
pub keep : State × Bytes → State
keep (s, pin) = record s { buf = write_at s.buf s.buflen pin; buflen = u32 (s.buflen + length pin) }

-- The input is given with its length. `none` is -1, and leaves the state as it was.
pub update : State → Bytes → Option State
update s input =
    let left = s.buflen in
    let fill = blockbytes - left in
    let filled = record s { buf = write_at s.buf left (take fill input) } in
    let full = record (compress (increment_counter filled blockbytes) filled.buf) { buflen = 0 } in
    let rest = drop fill input in
    if length input == 0
    then some s
    else if s.f0 == 0
    then (if ltb blockbytes (s.buflen + length input)
        then some (keep (whole_blocks (length rest) full rest))
        else some (keep (s, input)))
    else none

-- The digest and the wiped state; `none` is -1.
pub final : State → ℕ → Option (Bytes × State)
final s outlen =
    let s₁ = set_lastblock (increment_counter s s.buflen) in
    let s₂ = record s₁ { buf = write_at s.buf s.buflen (replicate (blockbytes - s.buflen) 0) } in
    let s₃ = compress s₂ s₂.buf in
    let buffer = store_words (take 8 s₃.h) in
    if ltb outlen s.outlen
    then none
    else if s.f0 == 0
    then some (take s.outlen buffer, record s₃ { buf = replicate 128 0; h = replicate 8 0 })
    else none
