-- ===== src/Api/Tests.antt =====
-- The interface at inputs.
use argon.Base.{
  ℕ, ◌⊎◌, inl, inr, Option, replicate, length-replicate, ◌≡◌, ◌≢◌, ◌↔◌, refl, arith, some, codes,
  Bytes, true,
}
use argon.Param.{ErrorCode, Context, fail, argon2_id, version_number}
use argon.Validate.{validate_inputs, validate, validate_optional, validate_costs}
use argon.Validate.Tests.{sample}
use argon.Block.{init_block_value}
use argon.Fill.{Memory}
use argon.Memory.Tests.{generous}
use argon.Memory.Allocator.{with_allocator}
use argon.Phc.Tests.{sample_needs, id_is_named}
use argon.Memory.Total.{IsGenerous, Succeeds}
use argon.Api.Request.{IsRequest}
use argon.Api.Accept.{argon2_verify_cases, argon2_verify-argon2_hash}
use argon.Api.{Written, argon2_hash, argon2_verify, instance_of, argon2_compare, argon2_ctx}
use argon.Api.Contents.{argon2_ctx-with_allocator}
use argon.Api.Align.{IsSetUp, instance_of-IsSetUp}
use argon.Api.Compare.{argon2_compare-zero_iff}

sample_is_valid : validate_inputs (some sample) ≡ ErrorCode.ok
unfolding validate_inputs validate validate_optional validate_costs
sample_is_valid = refl

instance_of-IsSetUp_example : IsSetUp sample 2 (instance_of sample 2)
instance_of-IsSetUp_example = instance_of-IsSetUp sample 2 (omega arith) sample_is_valid

argon2_compare-zero_iff_example :
    (argon2_compare (codes "tag1") (codes "tag2") 4 ≡ 0) ↔ (codes "tag1" ≡ codes "tag2")
argon2_compare-zero_iff_example =
    argon2_compare-zero_iff (codes "tag1") (codes "tag2") 4 refl refl (omega arith) (omega arith)

-- An allocator that leaves `b` in every byte.
abbrev leaves : ℕ → Context → ℕ → Option Memory
leaves b c num = some (replicate num (init_block_value b))

argon2_ctx-with_allocator_example :
    argon2_ctx (with_allocator generous (leaves 0)) sample 2
    ≡ argon2_ctx (with_allocator generous (leaves 7)) sample 2
argon2_ctx-with_allocator_example =
    let num = (instance_of sample 2).memory_blocks in
    argon2_ctx-with_allocator generous (leaves 0) (leaves 7) sample 2 (omega arith) (
      inr (
        replicate num (init_block_value 0),
        replicate num (init_block_value 7),
        refl,
        refl,
        length-replicate num (init_block_value 0),
        length-replicate num (init_block_value 7),
      ))

pub generous-IsGenerous : IsGenerous generous
generous-IsGenerous = record {
  memory = λ c num.
      (replicate num (init_block_value 0), refl, length-replicate num (init_block_value 0));
  buffer = λ n. (replicate n 0, refl, length-replicate {A = ℕ} n 0);
  tables = refl;
  created = λ p. refl;
  joined = λ p. refl;
}

abbrev pub Request : Bytes → Type 0
Request pwd = IsRequest 1 16 2 (some pwd) 8 (codes "somesalt") 8 4

pub sample-Request : (pwd : Bytes) → Request pwd
sample-Request pwd = record {
  t_cost_min = omega arith;
  t_cost_word = omega arith;
  m_cost_min = omega arith;
  m_cost_word = omega arith;
  lanes_min = omega arith;
  lanes_max = omega arith;
  pwd_given = inl refl;
  pwdlen_word = omega arith;
  saltlen_min = omega arith;
  saltlen_word = omega arith;
  salt_room = omega arith;
  salt_bytes = omega arith;
  hashlen_min = omega arith;
  hashlen_word = omega arith;
}

abbrev hashed : Bytes → Written
hashed pwd =
    argon2_hash generous 1 16 2 (some pwd) 8 (some (codes "somesalt")) 8 true 4 true 60 argon2_id
      version_number

argon2_verify_cases_example :
    let w = hashed (codes "password") in
    let w' = hashed (codes "passwort") in
    (w.code ≡ ErrorCode.ok)
    × ((text : Bytes) × (w.encoded ≡ some text)
        × (let r = argon2_verify generous (some text) (some (codes "passwort")) 8 argon2_id in
            ((w.hash ≡ w'.hash) × Succeeds r)
            ⊎ ((w.hash ≢ w'.hash) × (r ≡ fail ErrorCode.verify_mismatch))))
argon2_verify_cases_example =
    argon2_verify_cases generous 1 16 2 (some (codes "password")) (some (codes "passwort")) 8 8
      (codes "somesalt") 8 4 60 argon2_id generous-IsGenerous (sample-Request (codes "password"))
      (sample-Request (codes "passwort")) id_is_named sample_needs (omega arith) (omega arith)

argon2_verify-argon2_hash_example :
    let w = hashed (codes "password") in
    (w.code ≡ ErrorCode.ok)
    × ((text : Bytes) × (w.encoded ≡ some text)
        × Succeeds (argon2_verify generous (some text) (some (codes "password")) 8 argon2_id))
argon2_verify-argon2_hash_example =
    argon2_verify-argon2_hash generous 1 16 2 (some (codes "password")) 8 (codes "somesalt") 8 true
      4 60 argon2_id generous-IsGenerous (sample-Request (codes "password")) id_is_named
      sample_needs (omega arith) (omega arith)
