-- ===== src/Phc/RoundTrip.antt =====
-- Decoding the text that `encode_string` writes gives the encoded fields back.
use argon.Base.{ℕ, ◌≤◌, ◌≡◌, ◌∙◌, ◌⊎◌, refl, arith, Option, some, none, [], ◌∷◌, ◌++◌, Bytes}
use argon.Base.{length, IsBytes, u32_max, inl, inr, Bool, false, le→ltb, ==_iff, ltb, if◌then◌else◌}
use argon.Param.{
  Context, ErrorCode, Result, done, fail, >>=-eq-done, or_fail, counted, type_string, IsWords,
}
use argon.Base64.{to_loop}
use argon.Base64.RoundTrip.{Stops, dollar_stops, from_base64-to_loop}
use argon.Decimal.{print_ulong}
use argon.Decimal.Decode.{NoDigit, decode_decimal-print_ulong}
use argon.Validate.{is_null, validate_inputs}
use argon.Validate.Bounds.{IsAdmissible, validate_inputs-ok_iff}
use argon.Phc.{strip_prefix, expect, decimal_u32, binary, version_opt, decoded, check}
use argon.Phc.{decode_fields, decode_string, encode_string}
use argon.Phc.Encode.{phc_text, IsFilled, encode_string_lem}

strip_prefix-append : (p s : Bytes) → strip_prefix p (p ++ s) ≡ some s
unfolding strip_prefix
strip_prefix-append [] s = refl
strip_prefix-append (c ∷ p) s = rw ((==_iff c c).1 refl) (strip_prefix-append p s)

decimal_u32-print :
    (v : ℕ) (s : Bytes) → v ≤ u32_max → NoDigit s → decimal_u32 (print_ulong v ++ s) ≡ done (v, s)
unfolding decimal_u32
decimal_u32-print v s fits stop =
    rw (decode_decimal-print_ulong v s (omega arith) stop) (rw (le→ltb u32_max v fits))

binary-to_loop :
    (max_len : ℕ) (bs s : Bytes)
    → IsBytes bs
    → Stops s
    → length bs ≤ max_len
    → length bs ≤ u32_max
    → binary max_len (to_loop bs 0 0 ++ s) ≡ done (bs, length bs, s)
unfolding binary
binary-to_loop max_len bs s h stops room fits =
    rw (from_base64-to_loop bs s max_len h stops room) (rw (le→ltb u32_max (length bs) fits))

before_dollar :
    (v : ℕ) (s : Bytes) → v ≤ u32_max → decimal_u32 (print_ulong v ++ b'$' ∷ s) ≡ done (v, b'$' ∷ s)
before_dollar v s fits = decimal_u32-print v (b'$' ∷ s) fits (inl (omega arith))

before_comma :
    (v : ℕ) (s : Bytes) → v ≤ u32_max → decimal_u32 (print_ulong v ++ b',' ∷ s) ≡ done (v, b',' ∷ s)
before_comma v s fits = decimal_u32-print v (b',' ∷ s) fits (inl (omega arith))

-- The context after decoding the text of `ctx`.
abbrev pub restored : Context → Context → Context
restored start ctx =
    decoded start ctx.version ctx.m_cost ctx.t_cost ctx.lanes (counted ctx.salt ctx.saltlen)
      ctx.saltlen (counted ctx.out ctx.outlen) ctx.outlen

module _ (start ctx : Context) (name : Bytes) (w : IsWords ctx) (f : IsFilled ctx)
    (salt_room : ctx.saltlen ≤ start.saltlen) (out_room : ctx.outlen ≤ start.outlen) where
  salt_read :
      (s : Bytes)
      → Stops s
      → binary start.saltlen (to_loop (counted ctx.salt ctx.saltlen) 0 0 ++ s)
        ≡ done (counted ctx.salt ctx.saltlen, ctx.saltlen, s)
  salt_read s h =
      binary-to_loop start.saltlen (counted ctx.salt ctx.saltlen) s f.salt_bytes h
        (rw (f.salt_length) salt_room) (rw (f.salt_length) (w.saltlen_word))
      ∙ rw (f.salt_length)

  out_read :
      binary start.outlen (to_loop (counted ctx.out ctx.outlen) 0 0 ++ [])
      ≡ done (counted ctx.out ctx.outlen, ctx.outlen, [])
  out_read =
      binary-to_loop start.outlen (counted ctx.out ctx.outlen) [] f.out_bytes tt
        (rw (f.out_length) out_room) (rw (f.out_length) (w.outlen_word))
      ∙ rw (f.out_length)

  decode_fields-phc_text :
      validate_inputs (some (restored start ctx)) ≡ ErrorCode.ok
      → decode_fields start name (phc_text ctx name) ≡ done (restored start ctx)
  unfolding decode_fields expect version_opt strip_prefix
  decode_fields-phc_text valid = rw (
    strip_prefix-append name,
    before_dollar ctx.version _ w.version_word,
    before_comma ctx.m_cost _ w.m_cost_word,
    before_comma ctx.t_cost _ w.t_cost_word,
    before_dollar ctx.lanes _ w.lanes_word,
    salt_read _ dollar_stops,
    out_read,
    valid,
  )

-- A decoded context is valid where the encoded one is, for a password that is.
pub restored-IsAdmissible :
    (start ctx : Context)
    → IsAdmissible ctx
    → (is_null start.pwd ≡ false) ⊎ (start.pwdlen ≡ 0)
    → IsAdmissible (restored start ctx)
restored-IsAdmissible start ctx a pwd = record {
  out_given = refl;
  outlen_min = a.outlen_min;
  pwd_given = pwd;
  salt_given = inl refl;
  saltlen_min = a.saltlen_min;
  secret_given = inr refl;
  ad_given = inr refl;
  m_cost_min = a.m_cost_min;
  t_cost_min = a.t_cost_min;
  lanes_min = a.lanes_min;
  lanes_max = a.lanes_max;
  threads_min = a.lanes_min;
  threads_max = a.lanes_max;
  callbacks = refl;
}

pub restored-IsWords :
    (start ctx : Context) → IsWords ctx → start.pwdlen ≤ u32_max → IsWords (restored start ctx)
restored-IsWords start ctx w fits = omega arith

pub check_done : (code : ErrorCode) → check code ≡ done tt → code ≡ ErrorCode.ok
check_done ErrorCode.ok h = refl
check_done _ h = cc

or_fail_done :
    (code : ErrorCode) (o : Option Bytes) {name : Bytes}
    → or_fail code o ≡ done name
    → o ≡ some name
or_fail_done code none h = cc
or_fail_done code (some n) h = cc

-- A success of the conditional is its first branch.
text_eq :
    {r : Result Bytes} (b : Bool) (t : Bytes) {text : Bytes}
    → r ≡ (if b then done t else fail ErrorCode.encoding_fail)
    → r ≡ done text
    → text ≡ t
text_eq b t h e = ground arith

-- What a success of `encode_string` shows.
encode_string_inv :
    (dst_len : ℕ) (ctx : Context) (type : ℕ) {text : Bytes}
    → IsWords ctx
    → encode_string dst_len ctx type ≡ done text
    → (name : Bytes) × (type_string type false ≡ some name)
      × (validate_inputs (some ctx) ≡ ErrorCode.ok)
      × (text ≡ phc_text ctx name)
unfolding encode_string
encode_string_inv dst_len ctx type {text} w e =
    let (name, named', e₁) =
      >>=-eq-done (or_fail ErrorCode.encoding_fail (type_string type false)) _ e in
    let (_, checked, e₂) = >>=-eq-done (check (validate_inputs (some ctx))) _ e₁ in
    let named = or_fail_done ErrorCode.encoding_fail (type_string type false) named' in
    let valid = check_done (validate_inputs (some ctx)) checked in
    let code = encode_string_lem dst_len ctx type w named valid in
    (
      name,
      named,
      valid,
      text_eq (ltb (length (phc_text ctx name)) dst_len) (phc_text ctx name) code e,
    )

-- A text that `encode_string` produced is decoded to the fields that were encoded: version, costs,
-- lanes, salt and output. The decoding context has room for salt and output and a valid password.
pub decode_string-encode_string :
    (dst_len : ℕ) (start ctx : Context) (type : ℕ) {text : Bytes}
    → IsWords ctx
    → IsFilled ctx
    → encode_string dst_len ctx type ≡ done text
    → ctx.saltlen ≤ start.saltlen
    → ctx.outlen ≤ start.outlen
    → start.pwdlen ≤ u32_max
    → (is_null start.pwd ≡ false) ⊎ (start.pwdlen ≡ 0)
    → decode_string start text type ≡ done (restored start ctx)
unfolding decode_string
decode_string-encode_string dst_len start ctx type w f e salt_room out_room pwd_fits pwd =
    let (name, named, valid, same) = encode_string_inv dst_len ctx type w e in
    let admissible = (validate_inputs-ok_iff ctx w).0 valid in
    let valid' =
      (validate_inputs-ok_iff (restored start ctx) (restored-IsWords start ctx w pwd_fits)).1
        (restored-IsAdmissible start ctx admissible pwd) in
    rw same (rw named (decode_fields-phc_text start ctx name w f salt_room out_room valid'))
