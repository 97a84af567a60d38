-- ===== src/Api.antt =====
-- argon2/src/argon2.c: the context, the hash and the verification. The calls of the C library for
-- memory and threads are a `Platform`.
pub mod Compare
pub mod Align
pub mod Contents
pub mod Outcome
pub mod Variants
pub mod Total
pub mod Request
pub mod Text
pub mod Stages
pub mod Accept
pub mod Tests
use argon.Base.{
  ℕ, zero, suc, ◌+◌, ◌-◌, ◌*◌, ◌/◌, ◌%◌, ◌^◌, Bool, true, false, ◌&&◌, ◌||◌, Option, none, some,
  List, [], ◌∷◌, ◌++◌,
}
use argon.Base.{
  Bytes, length, get_or, take, drop, replicate, ltb, ◌==◌, if◌then◌else◌, u32, u32_max, sub32,
  bit_or, bit_xor, bit_and,
}
use argon.Param.{ErrorCode, Context, Result, done, fail, ◌>>=◌, or_fail, counted, sync_points}
use argon.Param.{
  max_pwd_length, max_salt_length, max_outlen, min_outlen, argon2_d, argon2_i, argon2_id,
}
use argon.Instance.{Instance}
use argon.Validate.{validate_inputs}
use argon.Phc.{check, encode_string, decode_string}
use argon.Memory.{Platform, initialize, fill_memory_blocks, finalize}

-- `memory_blocks` before the segments are cut.
pub memory_min : Context → ℕ
memory_min c =
    let least = u32 (2 * sync_points * c.lanes) in if ltb c.m_cost least then least else c.m_cost

-- The instance that `argon2_ctx` sets up.
unfoldable pub instance_of : Context → ℕ → Instance
unfolding memory_min
instance_of c type =
    let segment_length = memory_min c / u32 (c.lanes * sync_points) in
    record {
      version = c.version;
      passes = c.t_cost;
      memory_blocks = u32 (segment_length * u32 (c.lanes * sync_points));
      segment_length = segment_length;
      lane_length = u32 (segment_length * sync_points);
      lanes = c.lanes;
      threads = if ltb c.lanes c.threads then c.lanes else c.threads;
      type = type;
    }

unfoldable pub is_type : ℕ → Bool
is_type type = (type == argon2_d) || (type == argon2_i) || (type == argon2_id)

-- `argon2_ctx`, with the context it leaves on success; the tag is in its `out`.
unfoldable pub argon2_ctx : Platform → Context → ℕ → Result Context
argon2_ctx platform c type =
    let i = instance_of c type in
    check (validate_inputs (some c)) >>= λ valid.
    (if is_type type then done valid else fail ErrorCode.incorrect_type) >>= λ typed.
    initialize platform i c >>= λ r.
    fill_memory_blocks platform i r.0 >>= λ memory. done (finalize r.1 i memory)

-- The loop of `argon2_compare` with `d`.
pub compare_loop : ℕ → Bytes → Bytes → ℕ → ℕ
compare_loop zero b1 b2 d = d
compare_loop (suc n) b1 b2 d =
    compare_loop n (drop 1 b1) (drop 1 b2) (bit_or d (bit_xor (get_or b1 0 0) (get_or b2 0 0)))

-- `argon2_compare`, its `int` as the 32-bit word it is: the shift of a negative `d - 1` keeps its low
-- bit one.
pub argon2_compare : Bytes → Bytes → ℕ → ℕ
unfolding compare_loop
argon2_compare b1 b2 len =
    let d = compare_loop len b1 b2 0 in sub32 (bit_and (sub32 d 1 / 2 ^ 8) 1) 1

-- `argon2_verify_ctx`, with the context it leaves.
unfoldable pub argon2_verify_ctx : Platform → Context → Bytes → ℕ → Result Context
argon2_verify_ctx platform c hash type = argon2_ctx platform c type >>= λ c'.
    if argon2_compare hash (counted c'.out c'.outlen) c'.outlen == 0
    then done c'
    else fail ErrorCode.verify_mismatch

-- What `argon2_hash` writes: the raw hash and the text, `none` for a null pointer or a buffer that is
-- left alone.
pub record Written : Type 0 where
  pub code : ErrorCode
  pub hash : Option Bytes
  pub encoded : Option Bytes

abbrev nothing_written : ErrorCode → Written
nothing_written code = record { code = code; hash = none; encoded = none }

-- The context that `argon2_hash` fills in, with its buffer for the tag.
unfoldable pub hash_context :
    ℕ → ℕ → ℕ → Option Bytes → ℕ → Option Bytes → ℕ → Bytes → ℕ → ℕ → Context
hash_context t_cost m_cost parallelism pwd pwdlen salt saltlen out hashlen version = record {
  out = some out;
  outlen = u32 hashlen;
  pwd = pwd;
  pwdlen = u32 pwdlen;
  salt = salt;
  saltlen = u32 saltlen;
  secret = none;
  secretlen = 0;
  ad = none;
  adlen = 0;
  t_cost = t_cost;
  m_cost = m_cost;
  lanes = parallelism;
  threads = parallelism;
  version = version;
  allocate_cbk = false;
  free_cbk = false;
  flags = 0;
}

-- The end of `argon2_hash`: the raw hash if asked for, the text if there is a buffer of
-- `encodedlen` bytes. The text is cleared where it does not fit.
unfoldable pub write_results : Bool → Bool → ℕ → ℕ → ℕ → Context → Written
write_results wants_hash has_encoded encodedlen hashlen type c =
    let raw = if wants_hash then some (take hashlen (counted c.out c.outlen)) else none in
    if has_encoded && ltb 0 encodedlen
    then (elim (encode_string encodedlen c type) [
      | done text ↦ record { code = ErrorCode.ok; hash = raw; encoded = some text }
      | fail e ↦ record {
        code = ErrorCode.encoding_fail;
        hash = raw;
        encoded = some (replicate encodedlen 0);
      }
    ])
    else record { code = ErrorCode.ok; hash = raw; encoded = none }

-- The first checks of `argon2_hash`.
unfoldable pub check_lengths : ℕ → ℕ → ℕ → ErrorCode
check_lengths pwdlen saltlen hashlen =
    if ltb max_pwd_length pwdlen
    then ErrorCode.pwd_too_long
    else if ltb max_salt_length saltlen
    then ErrorCode.salt_too_long
    else if ltb max_outlen hashlen
    then ErrorCode.output_too_long
    else if ltb hashlen min_outlen
    then ErrorCode.output_too_short
    else ErrorCode.ok

-- `argon2_hash`; the two flags say whether `hash` and `encoded` are given.
unfoldable pub argon2_hash :
    Platform
    → ℕ
    → ℕ
    → ℕ
    → Option Bytes
    → ℕ
    → Option Bytes
    → ℕ
    → Bool
    → ℕ
    → Bool
    → ℕ
    → ℕ
    → ℕ
    → Written
unfolding check_lengths hash_context write_results
argon2_hash platform t_cost m_cost parallelism pwd pwdlen salt saltlen wants_hash hashlen
      has_encoded encodedlen type version =
    let context = λ (out : Bytes).
      hash_context t_cost m_cost parallelism pwd pwdlen salt saltlen out hashlen version in
    let tagged = check (check_lengths pwdlen saltlen hashlen) >>= λ checked.
    or_fail ErrorCode.memory_allocation_error (platform.buffer_of hashlen) >>= λ out.
    argon2_ctx platform (context out) type in
    elim tagged [
      | done c ↦ write_results wants_hash has_encoded encodedlen hashlen type c
      | fail e ↦ nothing_written e
    ]

-- The context that `argon2_verify` decodes into; what it leaves unset is 0 here, and `decode_string`
-- sets it.
unfoldable pub verify_context : ℕ → Bytes → Bytes → Option Bytes → ℕ → Context
verify_context max_field_len salt out pwd pwdlen = record {
  out = some out;
  outlen = max_field_len;
  pwd = pwd;
  pwdlen = u32 pwdlen;
  salt = some salt;
  saltlen = max_field_len;
  secret = none;
  secretlen = 0;
  ad = none;
  adlen = 0;
  t_cost = 0;
  m_cost = 0;
  lanes = 0;
  threads = 0;
  version = 0;
  allocate_cbk = false;
  free_cbk = false;
  flags = 0;
}

-- `argon2_verify`: what it returns.
unfoldable pub argon2_verify : Platform → Option Bytes → Option Bytes → ℕ → ℕ → Result Context
unfolding verify_context
argon2_verify platform encoded pwd pwdlen type =
    let buffer = λ (n : ℕ). or_fail ErrorCode.memory_allocation_error (platform.buffer_of n) in
    (if ltb max_pwd_length pwdlen then fail ErrorCode.pwd_too_long else done pwdlen) >>= λ checked.
    or_fail ErrorCode.decoding_fail encoded >>= λ text.
    (if ltb u32_max (length text) then fail ErrorCode.decoding_fail else done (length text))
    >>= λ max_field_len. buffer max_field_len >>= λ salt. buffer max_field_len >>= λ out.
        decode_string (verify_context max_field_len salt out pwd pwdlen) text type >>= λ ctx.
        buffer ctx.outlen >>= λ fresh.
        argon2_verify_ctx platform (record ctx { out = some fresh }) (counted ctx.out ctx.outlen)
          type
