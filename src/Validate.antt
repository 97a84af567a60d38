-- ===== src/Validate.antt =====
-- `validate_inputs` of argon2/src/core.c.
pub mod Bounds
pub mod Tests
use argon.Base.{◌*◌, Bool, true, false, not, ◌&&◌, Option, none, some, Bytes, ltb, ◌==◌}
use argon.Base.{if◌then◌else◌, u32}
use argon.Param.{Context, ErrorCode, min_lanes, max_lanes, min_threads, max_threads, min_outlen}
use argon.Param.{max_outlen, min_memory, max_memory, min_time, max_time, min_pwd_length}
use argon.Param.{max_pwd_length, min_ad_length, max_ad_length, min_salt_length, max_salt_length}
use argon.Param.{min_secret, max_secret}

abbrev pub is_null : Option Bytes → Bool
is_null none = true
is_null (some b) = false

-- The tests on costs, counts and callbacks, from "Validate memory cost" on.
unfoldable pub validate_costs : Context → ErrorCode
validate_costs c =
    if ltb c.m_cost min_memory
    then ErrorCode.memory_too_little
    else if ltb max_memory c.m_cost
    then ErrorCode.memory_too_much
    else if ltb c.m_cost (u32 (8 * c.lanes))
    then ErrorCode.memory_too_little
    else if ltb c.t_cost min_time
    then ErrorCode.time_too_small
    else if ltb max_time c.t_cost
    then ErrorCode.time_too_large
    else if ltb c.lanes min_lanes
    then ErrorCode.lanes_too_few
    else if ltb max_lanes c.lanes
    then ErrorCode.lanes_too_many
    else if ltb c.threads min_threads
    then ErrorCode.threads_too_few
    else if ltb max_threads c.threads
    then ErrorCode.threads_too_many
    else if c.allocate_cbk && not c.free_cbk
    then ErrorCode.free_memory_cbk_null
    else if not c.allocate_cbk && c.free_cbk
    then ErrorCode.allocate_memory_cbk_null
    else ErrorCode.ok

-- The tests on the optional inputs, secret and associated data, and what follows them.
unfoldable pub validate_optional : Context → ErrorCode
validate_optional c =
    if is_null c.secret && not (c.secretlen == 0)
    then ErrorCode.secret_ptr_mismatch
    else if not (is_null c.secret) && ltb c.secretlen min_secret
    then ErrorCode.secret_too_short
    else if not (is_null c.secret) && ltb max_secret c.secretlen
    then ErrorCode.secret_too_long
    else if is_null c.ad && not (c.adlen == 0)
    then ErrorCode.ad_ptr_mismatch
    else if not (is_null c.ad) && ltb c.adlen min_ad_length
    then ErrorCode.ad_too_short
    else if not (is_null c.ad) && ltb max_ad_length c.adlen
    then ErrorCode.ad_too_long
    else validate_costs c

unfoldable pub validate : Context → ErrorCode
validate c =
    if is_null c.out
    then ErrorCode.output_ptr_null
    else if ltb c.outlen min_outlen
    then ErrorCode.output_too_short
    else if ltb max_outlen c.outlen
    then ErrorCode.output_too_long
    else if is_null c.pwd && not (c.pwdlen == 0)
    then ErrorCode.pwd_ptr_mismatch
    else if ltb c.pwdlen min_pwd_length
    then ErrorCode.pwd_too_short
    else if ltb max_pwd_length c.pwdlen
    then ErrorCode.pwd_too_long
    else if is_null c.salt && not (c.saltlen == 0)
    then ErrorCode.salt_ptr_mismatch
    else if ltb c.saltlen min_salt_length
    then ErrorCode.salt_too_short
    else if ltb max_salt_length c.saltlen
    then ErrorCode.salt_too_long
    else validate_optional c

-- `validate_inputs` on a pointer to a context, which may be null.
unfoldable pub validate_inputs : Option Context → ErrorCode
validate_inputs none = ErrorCode.incorrect_parameter
validate_inputs (some c) = validate c
