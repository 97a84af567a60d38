-- ===== src/Api/Stages.antt =====
-- The stages of `argon2_hash` and `argon2_verify` of argon2/src/argon2.c, where each succeeds.
use argon.Base.{
  lt→ltb, le→ltb, ==_iff, ℕ, ◌≤◌, ◌<◌, ◌≡◌, ◌≢◌, ◌⊎◌, inl, inr, refl, arith, Bool, Bool-cases, true,
  false, Option, none, some, Bytes, IsBytes, length, take, ◌==◌, if◌then◌else◌, u32_max,
}
use argon.Param.{Context, ErrorCode, done, fail, counted}
use argon.Phc.{encode_string, decode_string}
use argon.Memory.{Platform}
use argon.Memory.Total.{Succeeds}
use argon.Api.{
  argon2_ctx, argon2_compare, argon2_verify_ctx, hash_context, write_results, check_lengths,
  argon2_hash, verify_context, argon2_verify,
}
use argon.Api.Compare.{argon2_compare-zero_iff}
use argon.Api.Request.{with_out, IsTagged}

-- The end of `argon2_hash` where there is room for the text.
pub write_results_lem :
    (wants_hash : Bool) (room hashlen type : ℕ) (c : Context) (text : Bytes)
    → 0 < room
    → encode_string room c type ≡ done text
    → let w = write_results wants_hash true room hashlen type c in
      (w.code ≡ ErrorCode.ok)
      × (w.encoded ≡ some text)
      × (w.hash ≡ (if wants_hash then some (take hashlen (counted c.out c.outlen)) else none))
unfolding write_results
write_results_lem wants_hash room hashlen type c text pos e =
    rw (lt→ltb 0 room pos) (rw e (refl, refl, refl))

-- `argon2_verify_ctx` tells the digest of its context from another one.
pub argon2_verify_ctx_cases :
    (platform : Platform) (c : Context) (type : ℕ) (digest digest' : Bytes)
    → IsTagged c digest' (argon2_ctx platform c type)
    → length digest ≡ c.outlen
    → IsBytes digest
    → length digest' ≡ c.outlen
    → IsBytes digest'
    → let r = argon2_verify_ctx platform c digest type in
      ((digest ≡ digest') × Succeeds r)
      ⊎ ((digest ≢ digest') × (r ≡ fail ErrorCode.verify_mismatch))
unfolding argon2_verify_ctx
argon2_verify_ctx_cases platform c type digest digest' h size bytes size' bytes' =
    let d = argon2_compare digest digest' c.outlen in
    let zero = argon2_compare-zero_iff digest digest' c.outlen size size' bytes bytes' in
    elim (Bool-cases (d == 0)) [
      | inl same ↦ inl (
        zero.0 ((==_iff d 0).0 same),
        (with_out c h.tag, rw h.result_eq (rw h.tag_eq (rw same refl))),
      )
      | inr other ↦
          inr ((λ e. differ d other (zero.1 e)), rw h.result_eq (rw h.tag_eq (rw other refl)))
    ]
  where
    differ : (d : ℕ) → (d == 0) ≡ false → d ≢ 0
    differ d h = ground arith

pub check_lengths-ok :
    (pwdlen saltlen hashlen : ℕ)
    → pwdlen ≤ u32_max
    → saltlen ≤ u32_max
    → 4 ≤ hashlen
    → hashlen ≤ u32_max
    → check_lengths pwdlen saltlen hashlen ≡ ErrorCode.ok
unfolding check_lengths
check_lengths-ok pwdlen saltlen hashlen p s low high = ground arith

-- The stages of `argon2_hash`.
pub argon2_hash_stages :
    (platform : Platform) (t_cost m_cost parallelism : ℕ) (pwd : Option Bytes) (pwdlen : ℕ)
    (salt : Option Bytes) (saltlen : ℕ) (wants_hash : Bool) (hashlen : ℕ) (has_encoded : Bool)
    (room type version : ℕ) (out : Bytes) (c : Context)
    → check_lengths pwdlen saltlen hashlen ≡ ErrorCode.ok
    → platform.buffer_of hashlen ≡ some out
    → argon2_ctx platform
        (hash_context t_cost m_cost parallelism pwd pwdlen salt saltlen out hashlen version)
        type
      ≡ done c
    → argon2_hash platform t_cost m_cost parallelism pwd pwdlen salt saltlen wants_hash hashlen
        has_encoded room type version
      ≡ write_results wants_hash has_encoded room hashlen type c
unfolding argon2_hash check_lengths hash_context
argon2_hash_stages platform t m p pwd pwdlen salt saltlen wants_hash hashlen has_encoded room type
      version out c checked buffer hashed =
    rw (argon2_hash, checked) (rw buffer (rw hashed refl))

-- The stages of `argon2_verify`.
pub argon2_verify_stages :
    (platform : Platform) (text : Bytes) (pwd : Option Bytes) (pwdlen type : ℕ) (buf fresh : Bytes)
    (c : Context)
    → pwdlen ≤ u32_max
    → length text ≤ u32_max
    → platform.buffer_of (length text) ≡ some buf
    → decode_string (verify_context (length text) buf buf pwd pwdlen) text type ≡ done c
    → platform.buffer_of c.outlen ≡ some fresh
    → argon2_verify platform (some text) pwd pwdlen type
      ≡ argon2_verify_ctx platform (with_out c fresh) (counted c.out c.outlen) type
unfolding argon2_verify
argon2_verify_stages platform text pwd pwdlen type buf fresh c p len buffer decoded again =
    rw (le→ltb u32_max pwdlen p)
      (rw (le→ltb u32_max (length text) len) (rw buffer (rw decoded (rw again refl))))
