-- ===== src/Phc/Tests.antt =====
-- Runs of `encode_string` and `decode_string`, and their theorems at inputs.
use argon.Base.{
  ◌≡◌, ◌↔◌, ◌≤◌, Bytes, length, ltb, if◌then◌else◌, refl, inl, arith, some, codes, false,
}
use argon.Param.{Context, done, fail, ErrorCode, type_string, argon2_id}
use argon.Validate.{validate_inputs, validate, validate_optional, validate_costs}
use argon.Validate.Tests.{sample}
use argon.Base64.{
  to_base64, to_loop, b64_tail, to_base64_tail, b64_byte_to_char, b64len, from_base64, from_loop,
}
use argon.Base64.{from_finish, b64_char_to_byte, char_to_int}
use argon.Decimal.{print_ulong, print_loop, numlen, numlen_loop, decode_decimal, decimal_loop}
use argon.Decimal.{decimal_finish}
use argon.Phc.{encode_string, decode_string, encodedlen, put, put_number, put_base64, encode_fields}
use argon.Phc.{strip_prefix, expect, decimal_u32, binary, version_opt, decode_fields}
use argon.Phc.Encode.{IsFilled, phc_text, encode_string_lem, encode_string-encodedlen}
use argon.Phc.RoundTrip.{restored, decode_string-encode_string}

-- The capacities that `argon2_verify` starts from.
abbrev fresh : Context
fresh = record sample { saltlen = 60; outlen = 60 }

sample-IsFilled : IsFilled sample
sample-IsFilled = record {
  salt_length = refl;
  salt_bytes = omega arith;
  out_length = refl;
  out_bytes = omega arith;
}

abbrev sample_text : Bytes
sample_text = codes "$argon2id$v=19$m=16,t=1,p=2$c29tZXNhbHQ$Li4uLg"

sample_encodes : encode_string 60 sample argon2_id ≡ done sample_text
unfolding encode_string type_string validate_inputs validate validate_optional validate_costs
    encode_fields put put_number put_base64 print_ulong print_loop to_base64 to_loop to_base64_tail
    b64_tail b64_byte_to_char
sample_encodes = refl

pub sample_needs : encodedlen 1 16 2 8 4 argon2_id ≡ some 47
unfolding encodedlen type_string numlen numlen_loop b64len b64_tail
sample_needs = refl

sample_is_valid : validate_inputs (some sample) ≡ ErrorCode.ok
unfolding validate_inputs validate validate_optional validate_costs
sample_is_valid = refl

pub id_is_named : type_string argon2_id false ≡ some (codes "argon2id")
unfolding type_string
id_is_named = refl

encode_string_lem_example : encode_string 60 sample argon2_id ≡ (
    if ltb (length (phc_text sample (codes "argon2id"))) 60
    then done (phc_text sample (codes "argon2id"))
    else fail ErrorCode.encoding_fail)
encode_string_lem_example =
    encode_string_lem 60 sample argon2_id (omega arith) id_is_named sample_is_valid

encode_string-encodedlen_example :
    (encode_string 60 sample argon2_id ≡ done (phc_text sample (codes "argon2id"))) ↔ (47 ≤ 60)
encode_string-encodedlen_example =
    encode_string-encodedlen 60 sample argon2_id (omega arith) sample-IsFilled refl id_is_named
      sample_is_valid sample_needs

decode_string-encode_string_example :
    decode_string fresh sample_text argon2_id ≡ done (restored fresh sample)
decode_string-encode_string_example =
    decode_string-encode_string 60 fresh sample argon2_id (omega arith) sample-IsFilled
      sample_encodes (omega arith) (omega arith) (omega arith) (inl refl)

-- A text of the old version has no version field.
old_version :
    decode_string fresh (codes "$argon2id$m=16,t=1,p=2$c29tZXNhbHQ$Li4uLg") argon2_id
    ≡ done (record (restored fresh sample) { version = 0x10 })
unfolding decode_string type_string decode_fields expect strip_prefix version_opt decimal_u32
    decode_decimal decimal_loop decimal_finish binary from_base64 from_loop from_finish
    b64_char_to_byte char_to_int validate_inputs validate validate_optional validate_costs
old_version = refl
