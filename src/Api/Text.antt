-- ===== src/Api/Text.antt =====
-- The text that `argon2_hash` of argon2/src/argon2.c writes for a request, read again by
-- `argon2_verify`.
use argon.Base.{
  ℕ, suc, ◌≤◌, ◌≡◌, ◌∙◌, ◌⊎◌, refl, ap, arith, false, Option, some, Bytes, IsByte, IsBytes,
  All-take, length, length-take, take, u32,
}
use argon.Param.{Context, ErrorCode, done, IsWords, type_string}
use argon.Validate.{is_null, validate_inputs}
use argon.Base64.Length.{b64len_lem}
use argon.Phc.{encode_string, decode_string, encodedlen}
use argon.Phc.Encode.{
  encodedlen_lem, length-type_string, IsFilled, phc_text, length-phc_text, encode_string-encodedlen,
}
use argon.Phc.RoundTrip.{restored, decode_string-encode_string}
use argon.Api.{hash_context, verify_context}
use argon.Api.Request.{IsRequest, context, context-IsWords, context-valid}

module _ (t_cost m_cost parallelism : ℕ) (pwd : Option Bytes) (pwdlen : ℕ) (salt : Bytes)
    (saltlen hashlen : ℕ) (q : IsRequest t_cost m_cost parallelism pwd pwdlen salt saltlen hashlen)
    (type : ℕ) {name : Bytes} {n : ℕ} (named : type_string type false ≡ some name)
    (needs : encodedlen t_cost m_cost parallelism saltlen hashlen type ≡ some n)
    (tag digest : Bytes) (size : length digest ≡ u32 hashlen) (bytes : IsBytes digest)
    (tag_eq : take (u32 hashlen) tag ≡ digest) where
  abbrev made : Context
  made = context t_cost m_cost parallelism pwd pwdlen salt saltlen hashlen q salt tag

  abbrev made-IsWords : IsWords made
  made-IsWords =
      context-IsWords t_cost m_cost parallelism pwd pwdlen salt saltlen hashlen q salt tag

  made-valid : validate_inputs (some made) ≡ ErrorCode.ok
  made-valid = context-valid t_cost m_cost parallelism pwd pwdlen salt saltlen hashlen q salt tag

  tagged-IsFilled : IsFilled made
  unfolding context hash_context
  tagged-IsFilled = record {
    salt_length = length-take (u32 saltlen) salt ∙ omega (arith, q.salt_room, q.saltlen_word);
    salt_bytes = All-take IsByte (u32 saltlen) salt q.salt_bytes;
    out_length = ap length tag_eq ∙ size;
    out_bytes = rw tag_eq bytes;
  }

  abbrev pub text : Bytes
  text = phc_text made name

  pub text_needs : n ≡ suc (length text)
  unfolding context hash_context
  text_needs =
      let s : u32 saltlen ≡ saltlen = omega (arith, q.saltlen_word) in
      let h : u32 hashlen ≡ hashlen = omega (arith, q.hashlen_word) in
      encodedlen_lem made type made-IsWords tagged-IsFilled refl named
        (length-type_string type named) (rw s (rw h needs))

  pub text_encoded : (room : ℕ) → n ≤ room → encode_string room made type ≡ done text
  unfolding context hash_context
  text_encoded room le =
      let s : u32 saltlen ≡ saltlen = omega (arith, q.saltlen_word) in
      let h : u32 hashlen ≡ hashlen = omega (arith, q.hashlen_word) in
      (encode_string-encodedlen room made type made-IsWords tagged-IsFilled refl named made-valid
          (rw s (rw h needs))).1
        le

  -- The fields are no longer than the text.
  text_room : (u32 saltlen ≤ length text) × (u32 hashlen ≤ length text)
  unfolding context hash_context
  text_room =
      let len = length-phc_text made name made-IsWords tagged-IsFilled in
      omega
        (arith, len, b64len_lem (u32 saltlen) (omega arith), b64len_lem (u32 hashlen) (omega arith))

  -- With the password that the verification is called with.
  pub text_decoded :
      (pwd' : Option Bytes) (pwdlen' : ℕ) (buf : Bytes)
      → (is_null pwd' ≡ false) ⊎ (u32 pwdlen' ≡ 0)
      → let start = verify_context (length text) buf buf pwd' pwdlen' in
        decode_string start text type ≡ done (restored start made)
  unfolding context hash_context verify_context
  text_decoded pwd' pwdlen' buf given' =
      decode_string-encode_string n (verify_context (length text) buf buf pwd' pwdlen') made type
        made-IsWords tagged-IsFilled (text_encoded n (omega arith)) text_room.0 text_room.1
        (omega arith) given'
