-- ===== src/Phc/Encode.antt =====
-- `encode_string` writes the fields one behind the other, or fails for want of room.
use argon.Base.{ℕ, ◌+◌, ◌-◌, ◌^◌, ◌≤◌, ◌<◌, ◌≡◌, ◌∙◌, ◌↔◌, refl, ap, arith, zero, suc}
use argon.Base.{Option, some, none, List, [], ◌∷◌, ◌++◌, append_assoc, append-nil, Bytes, codes}
use argon.Base.{
  length, length-append, length-take, ltb, lt→ltb, le→ltb, IsBytes, leb, if◌then◌else◌, Bool-cases,
  inl, inr, false, u64,
}
use mathlib.Core.Option.{some-injective}
use argon.Param.{
  Context, ErrorCode, Result, done, fail, ◌>>=◌, counted, type_string, IsWords, version_number,
}
use argon.Base64.{to_loop, b64len}
use argon.Base64.Length.{to_base64_lem, length-to_loop, b64len_lem}
use argon.Decimal.{print_ulong, numlen}
use argon.Decimal.Print.{length-print_ulong, numlen-le}
use argon.Validate.{validate_inputs}
use argon.Phc.{Writer, put, put_number, put_base64, encode_fields, encode_string, encodedlen}

-- The pieces of the text in their order.
abbrev pub pieces : Context → Bytes → List Bytes
pieces ctx name =
    codes "$"
    ∷ name
    ∷ codes "$v="
    ∷ print_ulong ctx.version
    ∷ codes "$m="
    ∷ print_ulong ctx.m_cost
    ∷ codes ",t="
    ∷ print_ulong ctx.t_cost
    ∷ codes ",p="
    ∷ print_ulong ctx.lanes
    ∷ codes "$"
    ∷ to_loop (counted ctx.salt ctx.saltlen) 0 0
    ∷ codes "$"
    ∷ to_loop (counted ctx.out ctx.outlen) 0 0
    ∷ []

abbrev pub joined : List Bytes → Bytes
joined [] = []
joined (p ∷ ps) = p ++ joined ps

-- `SS` for each piece.
put_all : List Bytes → Writer → Result Bytes
put_all [] w = done w.text
put_all (p ∷ ps) w = put p w >>= put_all ps

put_base64_lem :
    (buf : Bytes) (w : Writer) → length buf < 2 ^ 60 → put_base64 buf w ≡ put (to_loop buf 0 0) w
unfolding put_base64 put
put_base64_lem buf w h =
    ground (arith, to_base64_lem buf w.left, length-to_loop buf 0, b64len_lem (length buf) h)

put_base64_at :
    (buf : Bytes) → length buf < 2 ^ 60 → (w : Writer) → put_base64 buf w ≡ put (to_loop buf 0 0) w
put_base64_at buf h w = put_base64_lem buf w h

encode_fields-put_all :
    (ctx : Context) (name : Bytes) (w : Writer)
    → length (counted ctx.salt ctx.saltlen) < 2 ^ 60
    → length (counted ctx.out ctx.outlen) < 2 ^ 60
    → encode_fields ctx name w ≡ put_all (pieces ctx name) w
unfolding encode_fields put_all put_number
encode_fields-put_all ctx name w hs ho =
    simp (
      put_base64_at (counted ctx.salt ctx.saltlen) hs,
      put_base64_at (counted ctx.out ctx.outlen) ho,
    )

put_all_lem :
    (ps : List Bytes) (w : Writer)
    → 0 < w.left
    → put_all ps w ≡ (
        if ltb (length (joined ps)) w.left
        then done (w.text ++ joined ps)
        else fail ErrorCode.encoding_fail)
unfolding put_all put
put_all_lem [] w h = rw (lt→ltb 0 w.left h, append-nil)
put_all_lem (p ∷ ps) w h = elim (Bool-cases (leb w.left (length p))) [
  | inl full ↦ rw full (ground (arith, length-append p (joined ps)))
  | inr fits ↦
      let w' : Writer = record { text = w.text ++ p; left = w.left - length p } in
      rw fits (
        put_all_lem ps w' (ground arith)
        ∙ rw append_assoc (ground (arith, length-append p (joined ps))))
]

-- The text for a context under a name of the variant.
abbrev pub phc_text : Context → Bytes → Bytes
phc_text ctx name = joined (pieces ctx name)

length-counted : (buf : Option Bytes) (len : ℕ) → length (counted buf len) ≤ len
length-counted none len = omega arith
length-counted (some buf) len = omega (arith, length-take len buf)

encode_fields_lem :
    (ctx : Context) (name : Bytes) (dst_len : ℕ)
    → IsWords ctx
    → encode_fields ctx name (record { text = []; left = dst_len }) ≡ (
        if ltb (length (phc_text ctx name)) dst_len
        then done (phc_text ctx name)
        else fail ErrorCode.encoding_fail)
encode_fields_lem ctx name zero w = rw no_room (unfold encode_fields put in refl)
  where
    no_room : ltb (length (phc_text ctx name)) 0 ≡ false
    no_room = le→ltb (length (phc_text ctx name)) 0 (omega arith)
encode_fields_lem ctx name (suc d) w =
    encode_fields-put_all ctx name _
      (omega (arith, length-counted ctx.salt ctx.saltlen, w.saltlen_word))
      (omega (arith, length-counted ctx.out ctx.outlen, w.outlen_word))
    ∙ put_all_lem (pieces ctx name) (record { text = []; left = suc d }) (omega arith)

-- On a valid context of 32-bit words and for a type with a name, `encode_string` writes the fields in
-- their order, where the buffer holds the text and a zero, and else fails with `ARGON2_ENCODING_FAIL`.
pub encode_string_lem :
    (dst_len : ℕ) (ctx : Context) (type : ℕ) {name : Bytes}
    → IsWords ctx
    → type_string type false ≡ some name
    → validate_inputs (some ctx) ≡ ErrorCode.ok
    → encode_string dst_len ctx type ≡ (
        if ltb (length (phc_text ctx name)) dst_len
        then done (phc_text ctx name)
        else fail ErrorCode.encoding_fail)
unfolding encode_string
encode_string_lem dst_len ctx type {name} w named valid =
    rw (named, valid) (encode_fields_lem ctx name dst_len w)

-- The buffers of salt and output hold as many bytes as their lengths say.
pub record IsFilled (ctx : Context) : Type 0 where
  pub salt_length : length (counted ctx.salt ctx.saltlen) ≡ ctx.saltlen
  pub salt_bytes : IsBytes (counted ctx.salt ctx.saltlen)
  pub out_length : length (counted ctx.out ctx.outlen) ≡ ctx.outlen
  pub out_bytes : IsBytes (counted ctx.out ctx.outlen)

pub length-phc_text :
    (ctx : Context) (name : Bytes)
    → IsWords ctx
    → IsFilled ctx
    → length (phc_text ctx name)
      ≡ 15
        + length name
        + numlen ctx.version
        + numlen ctx.m_cost
        + numlen ctx.t_cost
        + numlen ctx.lanes
        + b64len ctx.saltlen
        + b64len ctx.outlen
length-phc_text ctx name w f =
    simp (length-append, length-print_ulong, length-to_loop)
      (omega (
        arith,
        b64len_lem ctx.saltlen (omega (arith, w.saltlen_word)),
        b64len_lem ctx.outlen (omega (arith, w.outlen_word)),
      ))

pub length-type_string :
    (type : ℕ) {name : Bytes} → type_string type false ≡ some name → length name ≤ 8
unfolding type_string
length-type_string type e = ground arith

pub encodedlen_lem :
    (ctx : Context) (type : ℕ) {name : Bytes} {n : ℕ}
    → IsWords ctx
    → IsFilled ctx
    → ctx.version ≡ version_number
    → type_string type false ≡ some name
    → length name ≤ 8
    → encodedlen ctx.t_cost ctx.m_cost ctx.lanes ctx.saltlen ctx.outlen type ≡ some n
    → n ≡ suc (length (phc_text ctx name))
unfolding encodedlen
encodedlen_lem ctx type {name} {n} w f v named short e =
    let k =
      15
      + length name
      + numlen ctx.t_cost
      + numlen ctx.m_cost
      + numlen ctx.lanes
      + b64len ctx.saltlen
      + b64len ctx.outlen
      + numlen version_number
      + 1 in
    let e' : some (u64 k) ≡ some n = rw named at e in
    omega (
      arith,
      some-injective (u64 k) n e',
      length-phc_text ctx name w f,
      ap numlen v,
      numlen-le ctx.version (omega (arith, w.version_word)),
      numlen-le ctx.t_cost (omega (arith, w.t_cost_word)),
      numlen-le ctx.m_cost (omega (arith, w.m_cost_word)),
      numlen-le ctx.lanes (omega (arith, w.lanes_word)),
      b64len_lem ctx.saltlen (omega (arith, w.saltlen_word)),
      b64len_lem ctx.outlen (omega (arith, w.outlen_word)),
    )

-- `argon2_encodedlen` is the exact size that the buffer needs: on a valid context of the current
-- version, of 32-bit words, whose salt and output have the bytes that their lengths say, and for a
-- type with a name, `encode_string` writes the text exactly when the buffer has that many bytes.
pub encode_string-encodedlen :
    (dst_len : ℕ) (ctx : Context) (type : ℕ) {name : Bytes} {n : ℕ}
    → IsWords ctx
    → IsFilled ctx
    → ctx.version ≡ version_number
    → type_string type false ≡ some name
    → validate_inputs (some ctx) ≡ ErrorCode.ok
    → encodedlen ctx.t_cost ctx.m_cost ctx.lanes ctx.saltlen ctx.outlen type ≡ some n
    → (encode_string dst_len ctx type ≡ done (phc_text ctx name)) ↔ (n ≤ dst_len)
encode_string-encodedlen dst_len ctx type {name} {n} w f v named valid e =
    let size : n ≡ suc (length (phc_text ctx name)) =
      encodedlen_lem ctx type w f v named (length-type_string type named) e in
    let code = encode_string_lem dst_len ctx type w named valid in ground arith
