-- ===== src/Api/Variants.antt =====
-- The functions of argon2/src/argon2.c that fix the variant of Argon2.
use argon.Base.{ℕ, Bool, false, Option, Bytes}
use argon.Param.{Context, Result, argon2_d, argon2_i, argon2_id, version_number}
use argon.Memory.{Platform}
use argon.Api.{Written, argon2_ctx, argon2_hash, argon2_verify, argon2_verify_ctx}

-- The arguments that the hash functions have in common.
pub record Input : Type 0 where
  pub t_cost : ℕ
  pub m_cost : ℕ
  pub parallelism : ℕ
  pub pwd : Option Bytes
  pub pwdlen : ℕ
  pub salt : Option Bytes
  pub saltlen : ℕ
  pub hashlen : ℕ

-- `argon2_hash` on them, with the current version.
abbrev hashed : Platform → Input → Bool → Bool → ℕ → ℕ → Written
hashed platform x wants_hash has_encoded encodedlen type =
    argon2_hash platform x.t_cost x.m_cost x.parallelism x.pwd x.pwdlen x.salt x.saltlen wants_hash
      x.hashlen has_encoded encodedlen type version_number

-- `..._hash_encoded`: the flag says whether `encoded` is given; `hash` is null.
pub argon2i_hash_encoded : Platform → Input → Bool → ℕ → Written
argon2i_hash_encoded platform x has_encoded encodedlen =
    hashed platform x false has_encoded encodedlen argon2_i

pub argon2d_hash_encoded : Platform → Input → Bool → ℕ → Written
argon2d_hash_encoded platform x has_encoded encodedlen =
    hashed platform x false has_encoded encodedlen argon2_d

pub argon2id_hash_encoded : Platform → Input → Bool → ℕ → Written
argon2id_hash_encoded platform x has_encoded encodedlen =
    hashed platform x false has_encoded encodedlen argon2_id

-- `..._hash_raw`: the flag says whether `hash` is given; `encoded` is null.
pub argon2i_hash_raw : Platform → Input → Bool → Written
argon2i_hash_raw platform x wants_hash = hashed platform x wants_hash false 0 argon2_i

pub argon2d_hash_raw : Platform → Input → Bool → Written
argon2d_hash_raw platform x wants_hash = hashed platform x wants_hash false 0 argon2_d

pub argon2id_hash_raw : Platform → Input → Bool → Written
argon2id_hash_raw platform x wants_hash = hashed platform x wants_hash false 0 argon2_id

pub argon2i_verify : Platform → Option Bytes → Option Bytes → ℕ → Result Context
argon2i_verify platform encoded pwd pwdlen = argon2_verify platform encoded pwd pwdlen argon2_i

pub argon2d_verify : Platform → Option Bytes → Option Bytes → ℕ → Result Context
argon2d_verify platform encoded pwd pwdlen = argon2_verify platform encoded pwd pwdlen argon2_d

pub argon2id_verify : Platform → Option Bytes → Option Bytes → ℕ → Result Context
argon2id_verify platform encoded pwd pwdlen = argon2_verify platform encoded pwd pwdlen argon2_id

pub argon2i_ctx : Platform → Context → Result Context
argon2i_ctx platform c = argon2_ctx platform c argon2_i

pub argon2d_ctx : Platform → Context → Result Context
argon2d_ctx platform c = argon2_ctx platform c argon2_d

pub argon2id_ctx : Platform → Context → Result Context
argon2id_ctx platform c = argon2_ctx platform c argon2_id

pub argon2i_verify_ctx : Platform → Context → Bytes → Result Context
argon2i_verify_ctx platform c hash = argon2_verify_ctx platform c hash argon2_i

pub argon2d_verify_ctx : Platform → Context → Bytes → Result Context
argon2d_verify_ctx platform c hash = argon2_verify_ctx platform c hash argon2_d

pub argon2id_verify_ctx : Platform → Context → Bytes → Result Context
argon2id_verify_ctx platform c hash = argon2_verify_ctx platform c hash argon2_id
