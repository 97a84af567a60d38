-- ===== src/Phc.antt =====
-- `encode_string` and `decode_string` of argon2/src/encoding.c, and `argon2_encodedlen` of
-- argon2/src/argon2.c. A C string is the list of its characters before the zero.
pub mod Encode
pub mod RoundTrip
pub mod Tests
use argon.Base.{ℕ, ◌+◌, ◌-◌, Bool, true, false, Option, none, some, [], ◌∷◌, ◌++◌, Bytes, codes}
use argon.Base.{length, ltb, leb, ◌==◌, if◌then◌else◌, u32_max, u64}
use mathlib.Core.Option
use argon.Param.{Context, ErrorCode, Result, done, fail, ◌>>=◌, or_fail, counted, type_string}
use argon.Param.{version_10, version_number}
use argon.Base64.{to_base64, from_base64, b64len}
use argon.Decimal.{print_ulong, decode_decimal, numlen}
use argon.Validate.{validate_inputs}

-- The output string so far, and what `dst_len` has become.
pub record Writer : Type 0 where
  pub text : Bytes
  pub left : ℕ

-- `SS`.
pub put : Bytes → Writer → Result Writer
put str w =
    if leb w.left (length str)
    then fail ErrorCode.encoding_fail
    else done (record { text = w.text ++ str; left = w.left - length str })

-- `SX`.
pub put_number : ℕ → Writer → Result Writer
put_number x w = put (print_ulong x) w

abbrev pub appended : Writer → Option (Bytes × ℕ) → Result Writer
appended w none = fail ErrorCode.encoding_fail
appended w (some (chars, len)) = done (record { text = w.text ++ chars; left = w.left - len })

-- `SB`.
pub put_base64 : Bytes → Writer → Result Writer
put_base64 buf w = appended w (to_base64 w.left buf)

pub encode_fields : Context → Bytes → Writer → Result Bytes
encode_fields ctx name w₀ = do
  w₁ ← put (codes "$") w₀
  w₂ ← put name w₁
  w₃ ← put (codes "$v=") w₂
  w₄ ← put_number ctx.version w₃
  w₅ ← put (codes "$m=") w₄
  w₆ ← put_number ctx.m_cost w₅
  w₇ ← put (codes ",t=") w₆
  w₈ ← put_number ctx.t_cost w₇
  w₉ ← put (codes ",p=") w₈
  w₁₀ ← put_number ctx.lanes w₉
  w₁₁ ← put (codes "$") w₁₀
  w₁₂ ← put_base64 (counted ctx.salt ctx.saltlen) w₁₁
  w₁₃ ← put (codes "$") w₁₂
  w₁₄ ← put_base64 (counted ctx.out ctx.outlen) w₁₃
  done w₁₄.text

-- `ARGON2_OK` goes on, any other code is returned.
abbrev pub check : ErrorCode → Result (Unit {0})
check ErrorCode.ok = done tt
check code = fail code

pub encode_string : ℕ → Context → ℕ → Result Bytes
encode_string dst_len ctx type = do
  name ← or_fail ErrorCode.encoding_fail (type_string type false)
  _ ← check (validate_inputs (some ctx))
  encode_fields ctx name (record { text = []; left = dst_len })

-- `strncmp(str, prefix, strlen(prefix)) == 0`: what stands behind the prefix.
pub strip_prefix : Bytes → Bytes → Option Bytes
strip_prefix [] str = some str
strip_prefix (p ∷ prefix) [] = none
strip_prefix (p ∷ prefix) (c ∷ str) =
    let rest = strip_prefix prefix str in if p == c then rest else none

-- `CC`.
pub expect : Bytes → Bytes → Result Bytes
expect prefix str = or_fail ErrorCode.decoding_fail (strip_prefix prefix str)

abbrev pub in_u32 : Option (ℕ × Bytes) → Result (ℕ × Bytes)
in_u32 none = fail ErrorCode.decoding_fail
in_u32 (some (x, str)) = if ltb u32_max x then fail ErrorCode.decoding_fail else done (x, str)

-- `DECIMAL_U32`.
pub decimal_u32 : Bytes → Result (ℕ × Bytes)
decimal_u32 str = in_u32 (decode_decimal str)

abbrev pub len_in_u32 : Option (Bytes × ℕ × Bytes) → Result (Bytes × ℕ × Bytes)
len_in_u32 none = fail ErrorCode.decoding_fail
len_in_u32 (some (buf, len, str)) =
    if ltb u32_max len then fail ErrorCode.decoding_fail else done (buf, len, str)

-- `BIN`.
pub binary : ℕ → Bytes → Result (Bytes × ℕ × Bytes)
binary max_len str = len_in_u32 (from_base64 max_len str)

abbrev version_behind : Bytes → Option Bytes → Result (ℕ × Bytes)
version_behind str none = done (version_10, str)
version_behind str (some rest) = decimal_u32 rest

-- `CC_opt("$v=", DECIMAL_U32(ctx->version))`, with the default before it.
pub version_opt : Bytes → Result (ℕ × Bytes)
version_opt str = version_behind str (strip_prefix (codes "$v=") str)

-- `*str == 0`.
abbrev pub at_end : Bytes → Result (Unit {0})
at_end [] = done tt
at_end (c ∷ str) = fail ErrorCode.decoding_fail

-- What the assignments of `decode_string` make of the context.
abbrev pub decoded : Context → ℕ → ℕ → ℕ → ℕ → Bytes → ℕ → Bytes → ℕ → Context
decoded ctx version m_cost t_cost lanes salt saltlen out outlen = record {
  out = some out;
  outlen = outlen;
  pwd = ctx.pwd;
  pwdlen = ctx.pwdlen;
  salt = some salt;
  saltlen = saltlen;
  secret = none;
  secretlen = 0;
  ad = none;
  adlen = 0;
  t_cost = t_cost;
  m_cost = m_cost;
  lanes = lanes;
  threads = lanes;
  version = version;
  allocate_cbk = false;
  free_cbk = false;
  flags = 0;
}

-- The context that is returned on `ARGON2_OK`; on failure its callers do not look at the fields. The
-- buffers `salt` and `out` hold what was decoded; their capacities are the lengths at the start.
pub decode_fields : Context → Bytes → Bytes → Result Context
decode_fields ctx name str₀ = do
  str₁ ← expect (codes "$") str₀
  str₂ ← expect name str₁
  (version, str₃) ← version_opt str₂
  str₄ ← expect (codes "$m=") str₃
  (m_cost, str₅) ← decimal_u32 str₄
  str₆ ← expect (codes ",t=") str₅
  (t_cost, str₇) ← decimal_u32 str₆
  str₈ ← expect (codes ",p=") str₇
  (lanes, str₉) ← decimal_u32 str₈
  str₁₀ ← expect (codes "$") str₉
  (salt, saltlen, str₁₁) ← binary ctx.saltlen str₁₀
  str₁₂ ← expect (codes "$") str₁₁
  (out, outlen, str₁₃) ← binary ctx.outlen str₁₂
  let ctx' = decoded ctx version m_cost t_cost lanes salt saltlen out outlen
  _ ← check (validate_inputs (some ctx'))
  _ ← at_end str₁₃
  done ctx'

pub decode_string : Context → Bytes → ℕ → Result Context
decode_string ctx str type = do
  name ← or_fail ErrorCode.incorrect_type (type_string type false)
  decode_fields ctx name str

-- `none` where `argon2_type2string` is null, whose length C leaves undefined.
pub encodedlen : ℕ → ℕ → ℕ → ℕ → ℕ → ℕ → Option ℕ
encodedlen t_cost m_cost parallelism saltlen hashlen type =
    Option.map
      (λ name. u64 (
        length (codes "$$v=$m=,t=,p=$$")
        + length name
        + numlen t_cost
        + numlen m_cost
        + numlen parallelism
        + b64len saltlen
        + b64len hashlen
        + numlen version_number
        + 1))
      (type_string type false)
