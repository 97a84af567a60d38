-- ===== src/Addon/Worker.antt =====
-- `HashWorker` and `VerifyWorker` of argon2_core.cpp.
use argon.Base.{
  ℕ, Bool, true, false, not, ◌||◌, Option, none, some, List, [], ◌∷◌, Bytes, codes, length,
  replicate, ◌==◌, if◌then◌else◌, u32,
}
use argon.Param.{Context, ErrorCode, done, fail, ◌>>=◌}
use argon.Phc.{check}
use argon.Message.{error_message}
use argon.Validate.{validate_inputs}
use argon.Memory.{allocate_memory, initial_hash_context}
use argon.Api.{instance_of, is_type, argon2_ctx}
use argon.Addon.{
  Host, SecureBuffer, secure_buffer, released, secure_wipe, vector_data, constant_time_compare,
}

-- `CommonArgs`; `ad` is its `data`.
pub record CommonArgs : Type 0 where
  pub password : Bytes
  pub salt : Bytes
  pub secret : Bytes
  pub ad : Bytes
  pub m : ℕ
  pub t : ℕ
  pub p : ℕ
  pub version : ℕ
  pub type : ℕ

pub record HashWorker : Type 0 where
  pub hash : Bytes
  pub plain : SecureBuffer
  pub secret : SecureBuffer
  pub salt : Bytes
  pub ad : Bytes
  pub hash_length : ℕ
  pub memory_cost : ℕ
  pub time_cost : ℕ
  pub parallelism : ℕ
  pub version : ℕ
  pub type : ℕ
  pub error : Option Bytes

pub record VerifyWorker : Type 0 where
  pub plain : SecureBuffer
  pub secret : SecureBuffer
  pub computed_hash : Bytes
  pub expected_hash : Bytes
  pub salt : Bytes
  pub ad : Bytes
  pub memory_cost : ℕ
  pub time_cost : ℕ
  pub parallelism : ℕ
  pub version : ℕ
  pub type : ℕ
  pub match : Bool
  pub error : Option Bytes

unfoldable pub hash_worker : Host → CommonArgs → ℕ → HashWorker
unfolding secure_buffer
hash_worker host c hash_length = record {
  hash = [];
  plain = secure_buffer host c.password;
  secret = secure_buffer host c.secret;
  salt = c.salt;
  ad = c.ad;
  hash_length = hash_length;
  memory_cost = c.m;
  time_cost = c.t;
  parallelism = c.p;
  version = c.version;
  type = c.type;
  error = none;
}

unfoldable pub verify_worker : Host → CommonArgs → Bytes → VerifyWorker
unfolding secure_buffer
verify_worker host c expected_hash = record {
  plain = secure_buffer host c.password;
  secret = secure_buffer host c.secret;
  computed_hash = [];
  expected_hash = expected_hash;
  salt = c.salt;
  ad = c.ad;
  memory_cost = c.m;
  time_cost = c.t;
  parallelism = c.p;
  version = c.version;
  type = c.type;
  match = false;
  error = none;
}

-- What `argon2_ctx` leaves of its context when it fails: the password and the secret are wiped from the
-- moment they are hashed.
unfoldable pub context_after : Host → Context → ℕ → Context
context_after host c type =
    let hashed = check (validate_inputs (some c)) >>= λ valid.
    (if is_type type then done valid else fail ErrorCode.incorrect_type) >>= λ typed.
    allocate_memory host.platform c (instance_of c type).memory_blocks in
    elim hashed [ done memory ↦ initial_hash_context c | fail e ↦ c ]

abbrev pub no_secure_memory : Bytes
no_secure_memory = codes "Failed to allocate secure memory for sensitive data"

-- `ARGON2_FLAG_CLEAR_PASSWORD | ARGON2_FLAG_CLEAR_SECRET`.
abbrev clear_flags : ℕ
clear_flags = 3

abbrev pub bytes_of : Option Bytes → Bytes
bytes_of none = []
bytes_of (some bytes) = bytes

unfoldable pub hash_worker_context : Host → HashWorker → Context
unfolding vector_data
hash_worker_context host w =
    let hash = replicate w.hash_length 0 in
    record {
      out = vector_data host hash;
      outlen = u32 w.hash_length;
      pwd = w.plain.pointer;
      pwdlen = u32 w.plain.size;
      salt = vector_data host w.salt;
      saltlen = u32 (length w.salt);
      secret = w.secret.pointer;
      secretlen = u32 w.secret.size;
      ad = if length w.ad == 0 then none else some w.ad;
      adlen = u32 (length w.ad);
      t_cost = w.time_cost;
      m_cost = w.memory_cost;
      lanes = w.parallelism;
      threads = w.parallelism;
      version = w.version;
      allocate_cbk = true;
      free_cbk = true;
      flags = clear_flags;
    }

unfoldable pub verify_worker_context : Host → VerifyWorker → Context
unfolding vector_data
verify_worker_context host w =
    let computed_hash = replicate (length w.expected_hash) 0 in
    record {
      out = vector_data host computed_hash;
      outlen = u32 (length w.expected_hash);
      pwd = w.plain.pointer;
      pwdlen = u32 w.plain.size;
      salt = vector_data host w.salt;
      saltlen = u32 (length w.salt);
      secret = w.secret.pointer;
      secretlen = u32 w.secret.size;
      ad = if length w.ad == 0 then none else some w.ad;
      adlen = u32 (length w.ad);
      t_cost = w.time_cost;
      m_cost = w.memory_cost;
      lanes = w.parallelism;
      threads = w.parallelism;
      version = w.version;
      allocate_cbk = true;
      free_cbk = true;
      flags = clear_flags;
    }

-- `HashWorker::Execute`.
unfoldable pub execute_hash : Host → HashWorker → HashWorker
unfolding hash_worker_context context_after
execute_hash host w =
    if not w.plain.ok || not w.secret.ok
    then record w { error = some no_secure_memory }
    else let ctx = hash_worker_context host w in
      let left = context_after host ctx w.type in
      elim (argon2_ctx host.platform ctx w.type) [
        | done c ↦ record w {
          hash = bytes_of c.out;
          plain = record w.plain { pointer = c.pwd };
          secret = record w.secret { pointer = c.secret };
        }
        | fail e ↦ record w {
          hash = replicate w.hash_length 0;
          plain = record w.plain { pointer = left.pwd };
          secret = record w.secret { pointer = left.secret };
          error = some (error_message e);
        }
      ]

-- `VerifyWorker::Execute`.
unfoldable pub execute_verify : Host → VerifyWorker → VerifyWorker
unfolding verify_worker_context context_after constant_time_compare
execute_verify host w =
    if not w.plain.ok || not w.secret.ok
    then record w { error = some no_secure_memory }
    else let ctx = verify_worker_context host w in
      let left = context_after host ctx w.type in
      elim (argon2_ctx host.platform ctx w.type) [
        | done c ↦ record w {
          plain = record w.plain { pointer = c.pwd };
          secret = record w.secret { pointer = c.secret };
          computed_hash = bytes_of c.out;
          match = constant_time_compare (bytes_of c.out) w.expected_hash (length w.expected_hash);
        }
        | fail e ↦ record w {
          plain = record w.plain { pointer = left.pwd };
          secret = record w.secret { pointer = left.secret };
          computed_hash = replicate (length w.expected_hash) 0;
          error = some (error_message e);
        }
      ]

-- What the destructors release: the vector of the hash, the secret and the password.
unfoldable pub destroy_hash : HashWorker → List (Option Bytes)
unfolding released secure_wipe
destroy_hash w =
    secure_wipe (some w.hash) (length w.hash) ∷ released w.secret ∷ released w.plain ∷ []

unfoldable pub destroy_verify : VerifyWorker → List (Option Bytes)
unfolding released secure_wipe
destroy_verify w =
    secure_wipe (some w.computed_hash) (length w.computed_hash)
    ∷ released w.secret
    ∷ released w.plain
    ∷ []
