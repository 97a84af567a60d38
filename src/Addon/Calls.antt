-- ===== src/Addon/Calls.antt =====
-- The functions `hash` and `verify` that argon2_core.cpp exports, on the values of JavaScript that it
-- looks at.
use argon.Base.{◌≡◌, refl, ℕ, Bool, Option, none, some, Bytes, codes, u32}
use argon.Addon.{Host}
use argon.Addon.Worker.{
  CommonArgs, HashWorker, VerifyWorker, hash_worker, verify_worker, execute_hash, execute_verify,
}

-- A value: a buffer with its bytes, a number, by a natural number of the same residue modulo 2 ^ 32,
-- or something else.
pub data Value : Type 0 where
  buffer : Bytes → Value
  number : ℕ → Value
  other_value : Value

-- The properties of the options object that are asked for; `ad` is `data`.
pub record Options : Type 0 where
  pub password : Value
  pub salt : Value
  pub secret : Value
  pub ad : Value
  pub m : Value
  pub t : Value
  pub p : Value
  pub version : Value
  pub type : Value
  pub hash_length : Value
  pub expected_hash : Value

pub data Rejection : Type 0 where
  type_error : Bytes → Rejection
  error : Bytes → Rejection

-- How a promise is settled.
pub data Settled (A : Type 0) : Type 0 where
  resolved : A → Settled A
  rejected : Rejection → Settled A

unfoldable pub get_buffer : Value → Option Bytes
get_buffer (buffer bytes) = some bytes
get_buffer (number n) = none
get_buffer other_value = none

unfoldable pub get_uint32 : Value → Option ℕ
get_uint32 (buffer bytes) = none
get_uint32 (number n) = some (u32 n)
get_uint32 other_value = none

infixl 5 ◌>>=◌
abbrev pub ◌>>=◌ {ℓ κ} : {A : Type ℓ} {B : Type κ} → Option A → (A → Option B) → Option B
none >>= f = none
some a >>= f = f a

-- Where a chain succeeds, its first part does.
pub bind-some :
    {A B : Type 0} (m : Option A) (f : A → Option B) {b : B}
    → (m >>= f) ≡ some b
    → (a : A) × (m ≡ some a) × (f a ≡ some b)
bind-some none f h = cc
bind-some (some a) f h = (a, refl, h)

-- `ExtractCommonArgs`, in the order of its tests.
unfoldable pub extract_common_args : Options → Option CommonArgs
unfolding get_buffer get_uint32
extract_common_args args = do
  password ← get_buffer args.password
  salt ← get_buffer args.salt
  secret ← get_buffer args.secret
  ad ← get_buffer args.ad
  m ← get_uint32 args.m
  t ← get_uint32 args.t
  p ← get_uint32 args.p
  version ← get_uint32 args.version
  type ← get_uint32 args.type
  some (record {
    password = password;
    salt = salt;
    secret = secret;
    ad = ad;
    m = m;
    t = t;
    p = p;
    version = version;
    type = type;
  })

-- `OnOK` and `OnError` of the workers.
unfoldable pub settle_hash : HashWorker → Settled Bytes
settle_hash w = elim w.error [
  | none ↦ resolved w.hash
  | some message ↦ rejected (Rejection.error message)
]

unfoldable pub settle_verify : VerifyWorker → Settled Bool
settle_verify w = elim w.error [
  | none ↦ resolved w.match
  | some message ↦ rejected (Rejection.error message)
]

-- `Hash`; `none` is a call without an object.
unfoldable pub hash : Host → Option Options → Settled Bytes
unfolding extract_common_args settle_hash
hash host none = rejected (type_error (codes "hash: expected an options object"))
hash host (some args) =
    let found : Option (CommonArgs × ℕ) = extract_common_args args >>= λ common.
    get_uint32 args.hash_length >>= λ hash_length. some (common, hash_length) in
    elim found [
      | none ↦
          rejected
            (type_error (codes "hash: invalid or missing option (expected Buffers and numbers)"))
      | some (common, hash_length) ↦
          settle_hash (execute_hash host (hash_worker host common hash_length))
    ]

-- `Verify`.
unfoldable pub verify : Host → Option Options → Settled Bool
unfolding extract_common_args settle_verify
verify host none = rejected (type_error (codes "verify: expected an options object"))
verify host (some args) =
    let found : Option (CommonArgs × Bytes) = extract_common_args args >>= λ common.
    get_buffer args.expected_hash >>= λ expected_hash. some (common, expected_hash) in
    elim found [
      | none ↦
          rejected
            (type_error (codes "verify: invalid or missing option (expected Buffers and numbers)"))
      | some (common, expected_hash) ↦
          settle_verify (execute_verify host (verify_worker host common expected_hash))
    ]
