-- ===== src/Message.antt =====
-- `argon2_error_message` of argon2/src/argon2.c.
use argon.Base.{Bytes, codes}
use argon.Param.{ErrorCode}

-- The default is for numbers that are no error code.
pub error_message : ErrorCode → Bytes
error_message ErrorCode.ok = codes "OK"
error_message ErrorCode.output_ptr_null = codes "Output pointer is NULL"
error_message ErrorCode.output_too_short = codes "Output is too short"
error_message ErrorCode.output_too_long = codes "Output is too long"
error_message ErrorCode.pwd_too_short = codes "Password is too short"
error_message ErrorCode.pwd_too_long = codes "Password is too long"
error_message ErrorCode.salt_too_short = codes "Salt is too short"
error_message ErrorCode.salt_too_long = codes "Salt is too long"
error_message ErrorCode.ad_too_short = codes "Associated data is too short"
error_message ErrorCode.ad_too_long = codes "Associated data is too long"
error_message ErrorCode.secret_too_short = codes "Secret is too short"
error_message ErrorCode.secret_too_long = codes "Secret is too long"
error_message ErrorCode.time_too_small = codes "Time cost is too small"
error_message ErrorCode.time_too_large = codes "Time cost is too large"
error_message ErrorCode.memory_too_little = codes "Memory cost is too small"
error_message ErrorCode.memory_too_much = codes "Memory cost is too large"
error_message ErrorCode.lanes_too_few = codes "Too few lanes"
error_message ErrorCode.lanes_too_many = codes "Too many lanes"
error_message ErrorCode.pwd_ptr_mismatch =
    codes "Password pointer is NULL, but password length is not 0"
error_message ErrorCode.salt_ptr_mismatch = codes "Salt pointer is NULL, but salt length is not 0"
error_message ErrorCode.secret_ptr_mismatch =
    codes "Secret pointer is NULL, but secret length is not 0"
error_message ErrorCode.ad_ptr_mismatch =
    codes "Associated data pointer is NULL, but ad length is not 0"
error_message ErrorCode.memory_allocation_error = codes "Memory allocation error"
error_message ErrorCode.free_memory_cbk_null = codes "The free memory callback is NULL"
error_message ErrorCode.allocate_memory_cbk_null = codes "The allocate memory callback is NULL"
error_message ErrorCode.incorrect_parameter = codes "Argon2_Context context is NULL"
error_message ErrorCode.incorrect_type = codes "There is no such version of Argon2"
error_message ErrorCode.out_ptr_mismatch = codes "Output pointer mismatch"
error_message ErrorCode.threads_too_few = codes "Not enough threads"
error_message ErrorCode.threads_too_many = codes "Too many threads"
error_message ErrorCode.missing_args = codes "Missing arguments"
error_message ErrorCode.encoding_fail = codes "Encoding failed"
error_message ErrorCode.decoding_fail = codes "Decoding failed"
error_message ErrorCode.thread_fail = codes "Threading failure"
error_message ErrorCode.decoding_length_fail =
    codes "Some of encoded parameters are too long or too short"
error_message ErrorCode.verify_mismatch = codes "The password does not match the supplied hash"
