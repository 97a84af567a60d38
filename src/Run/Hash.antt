-- ===== src/Run/Hash.antt =====
-- `run` of argon2/src/run.c: the hash of the password, and its verification. What it prints is a
-- result, except for what it has printed when `fatal` stops it.
use argon.Base.{
  [], ℕ, ◌+◌, Bool, true, false, ◌||◌, Option, none, some, Bytes, codes, length, ltb, if◌then◌else◌,
  u32, u64, u32_max,
}
use argon.Param.{ErrorCode, Result, done, version_number, type_string}
use argon.Param
use argon.Memory.{Platform}
use argon.Message.{error_message}
use argon.Phc.{check, encodedlen}
use argon.Api.{Written, argon2_hash, argon2_verify}
use argon.Run.{Outcome, go, ◌>>=◌, fail}

unfoldable pub or_fatal : {A : Type 0} → Bytes → Option A → Outcome A
or_fatal message none = fail message
or_fatal message (some a) = go a

-- `fatal(argon2_error_message(result))`.
unfoldable pub or_message : {A : Type 0} → Result A → Outcome A
or_message (Param.fail e) = fail (error_message e)
or_message (done a) = go a

-- The hash and its encoding where they are printed, and whether `Verification ok` is.
pub record Printed : Type 0 where
  pub hash : Option Bytes
  pub encoded : Option Bytes
  pub verified : Bool

-- `run` behind `argon2_hash`.
unfoldable pub print_written : Platform → Bytes → ℕ → Bool → Bool → Written → Outcome Printed
unfolding or_message
print_written platform pwd type encoded_only raw_only w = or_message (check w.code) >>= λ ok.
    if encoded_only || raw_only
    then go (record {
      hash = if raw_only then w.hash else none;
      encoded = if encoded_only then w.encoded else none;
      verified = false;
    })
    else (or_message (argon2_verify platform w.encoded (some pwd) (length pwd) type) >>= λ c.
        go (record { hash = w.hash; encoded = w.encoded; verified = true }))

-- `run`. `argon2_encodedlen` of a type without a name reads a null pointer, which stops it too.
unfoldable pub run_argon2 :
    Platform → ℕ → Bytes → Bytes → ℕ → ℕ → ℕ → ℕ → ℕ → Bool → Bool → ℕ → Outcome Printed
unfolding or_fatal print_written
run_argon2 platform outlen pwd salt t_cost m_cost lanes threads type encoded_only raw_only version =
    let saltlen = length salt in
    if ltb u32_max saltlen
    then fail (codes "salt is too long")
    else (or_fatal (codes "could not allocate memory for output")
          (platform.buffer_of (u32 (outlen + 1)))
        >>= λ out.
            or_fatal [] (encodedlen t_cost m_cost lanes (u32 saltlen) outlen type) >>= λ room.
            or_fatal (codes "could not allocate memory for hash")
              (platform.buffer_of (u64 (room + 1)))
            >>= λ encoded. print_written platform pwd type encoded_only raw_only (
                argon2_hash platform t_cost m_cost threads (some pwd) (length pwd) (some salt)
                  saltlen true outlen true room type version))
