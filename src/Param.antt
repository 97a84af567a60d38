-- ===== src/Param.antt =====
-- argon2/include/argon2.h: limits, error codes, the context and the variants; the names of the
-- variants and the texts of the errors are those of argon2/src/argon2.c.
use argon.Base.{
  ℕ, ◌≤◌, ◌≡◌, refl, Bool, Option, none, some, [], take, Bytes, codes, u32_max, ◌==◌, if◌then◌else◌,
}

abbrev pub min_lanes : ℕ
min_lanes = 1

abbrev pub max_lanes : ℕ
max_lanes = 0xffffff

abbrev pub min_threads : ℕ
min_threads = 1

abbrev pub max_threads : ℕ
max_threads = 0xffffff

abbrev pub sync_points : ℕ
sync_points = 4

abbrev pub min_outlen : ℕ
min_outlen = 4

abbrev pub max_outlen : ℕ
max_outlen = u32_max

-- Two blocks for each slice.
abbrev pub min_memory : ℕ
min_memory = 8

-- With pointers of 64 bits `ARGON2_MAX_MEMORY_BITS` is 32, and 2 ^ 32 is cut to 2 ^ 32 - 1.
abbrev pub max_memory : ℕ
max_memory = u32_max

abbrev pub min_time : ℕ
min_time = 1

abbrev pub max_time : ℕ
max_time = u32_max

abbrev pub min_pwd_length : ℕ
min_pwd_length = 0

abbrev pub max_pwd_length : ℕ
max_pwd_length = u32_max

abbrev pub min_ad_length : ℕ
min_ad_length = 0

abbrev pub max_ad_length : ℕ
max_ad_length = u32_max

abbrev pub min_salt_length : ℕ
min_salt_length = 8

abbrev pub max_salt_length : ℕ
max_salt_length = u32_max

abbrev pub min_secret : ℕ
min_secret = 0

abbrev pub max_secret : ℕ
max_secret = u32_max

abbrev pub version_10 : ℕ
version_10 = 0x10

abbrev pub version_13 : ℕ
version_13 = 0x13

abbrev pub version_number : ℕ
version_number = version_13

-- `Argon2_ErrorCodes`; `ok` is 0.
pub data ErrorCode : Type 0 where
  ok output_ptr_null output_too_short output_too_long : ErrorCode
  pwd_too_short pwd_too_long salt_too_short salt_too_long : ErrorCode
  ad_too_short ad_too_long secret_too_short secret_too_long : ErrorCode
  time_too_small time_too_large memory_too_little memory_too_much : ErrorCode
  lanes_too_few lanes_too_many : ErrorCode
  pwd_ptr_mismatch salt_ptr_mismatch secret_ptr_mismatch ad_ptr_mismatch : ErrorCode
  memory_allocation_error free_memory_cbk_null allocate_memory_cbk_null : ErrorCode
  incorrect_parameter incorrect_type out_ptr_mismatch : ErrorCode
  threads_too_few threads_too_many missing_args : ErrorCode
  encoding_fail decoding_fail thread_fail decoding_length_fail verify_mismatch : ErrorCode

-- The values of `argon2_type`. In C a variable of an enumeration may hold any other value too.
abbrev pub argon2_d : ℕ
argon2_d = 0

abbrev pub argon2_i : ℕ
argon2_i = 1

abbrev pub argon2_id : ℕ
argon2_id = 2

-- `argon2_type2string`, which is null for a value that names no type.
unfoldable pub type_string : ℕ → Bool → Option Bytes
type_string type uppercase =
    if type == argon2_d
    then (if uppercase then some (codes "Argon2d") else some (codes "argon2d"))
    else if type == argon2_i
    then (if uppercase then some (codes "Argon2i") else some (codes "argon2i"))
    else if type == argon2_id
    then (if uppercase then some (codes "Argon2id") else some (codes "argon2id"))
    else none

-- `argon2_context`. A pointer is `none` where it is null and else the bytes it points to; a length
-- is its own field, as in the source, and says how many of them count. Of a callback the code under
-- src/ knows whether it is set.
pub record Context : Type 0 where
  pub out : Option Bytes
  pub outlen : ℕ
  pub pwd : Option Bytes
  pub pwdlen : ℕ
  pub salt : Option Bytes
  pub saltlen : ℕ
  pub secret : Option Bytes
  pub secretlen : ℕ
  pub ad : Option Bytes
  pub adlen : ℕ
  pub t_cost : ℕ
  pub m_cost : ℕ
  pub lanes : ℕ
  pub threads : ℕ
  pub version : ℕ
  pub allocate_cbk : Bool
  pub free_cbk : Bool
  pub flags : ℕ

-- The lengths, costs and counts are 32-bit words.
pub record IsWords (c : Context) : Type 0 where
  pub outlen_word : c.outlen ≤ u32_max
  pub pwdlen_word : c.pwdlen ≤ u32_max
  pub saltlen_word : c.saltlen ≤ u32_max
  pub secretlen_word : c.secretlen ≤ u32_max
  pub adlen_word : c.adlen ≤ u32_max
  pub t_cost_word : c.t_cost ≤ u32_max
  pub m_cost_word : c.m_cost ≤ u32_max
  pub lanes_word : c.lanes ≤ u32_max
  pub threads_word : c.threads ≤ u32_max
  pub version_word : c.version ≤ u32_max

-- What a routine that returns an error code leaves: its result on `ARGON2_OK`, else the code.
pub data Result {ℓ} (A : Type ℓ) : Type ℓ where
  done : A → Result A
  fail : ErrorCode → Result A

infixl 5 ◌>>=◌
abbrev pub ◌>>=◌ {ℓ κ} : {A : Type ℓ} {B : Type κ} → Result A → (A → Result B) → Result B
done a >>= f = f a
fail e >>= f = fail e

-- A pointer result that is null on failure.
abbrev pub or_fail {ℓ} : {A : Type ℓ} → ErrorCode → Option A → Result A
or_fail e none = fail e
or_fail e (some a) = done a

-- The bytes that a pointer and a length name.
abbrev pub counted : Option Bytes → ℕ → Bytes
counted none len = []
counted (some buf) len = take len buf

-- Inversion of a successful chain.
pub >>=-eq-done {ℓ κ} :
    {A : Type ℓ} {B : Type κ} (m : Result A) (f : A → Result B) {b : B}
    → (m >>= f) ≡ done b
    → (a : A) × (m ≡ done a) × (f a ≡ done b)
>>=-eq-done (done a) f h = (a, refl, h)
>>=-eq-done (fail e) f h = cc

-- Two continuations that agree on what the first result may be.
pub >>=-eq {ℓ κ} :
    {A : Type ℓ} {B : Type κ} {f g : A → Result B} (m : Result A)
    → ((a : A) → m ≡ done a → f a ≡ g a)
    → (m >>= f) ≡ (m >>= g)
>>=-eq (done a) h = h a refl
>>=-eq (fail e) h = refl
