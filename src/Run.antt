-- ===== src/Run.antt =====
-- The command line of argon2/src/run.c: what `main` makes of its arguments and of the standard input
-- before it calls `run`. `strtoul` of the C library, at base 10, is a parameter.
pub mod Ensures
pub mod Options
pub mod Bounds
pub mod Hash
pub mod Verified
pub mod Tests
use argon.Base.{
  ℕ, zero, suc, ◌+◌, ◌^◌, Bool, true, false, ◌&&◌, ◌||◌, List, [], ◌∷◌, Bytes, codes, length, take,
  ltb, ◌==◌, if◌then◌else◌, u32, u32_max, ulong_max,
}
use argon.Param.{
  max_memory, max_time, max_threads, max_lanes, version_10, version_13, version_number, argon2_d,
  argon2_i, argon2_id,
}

-- `!strcmp(a, b)` on the characters before the zero.
pub same : Bytes → Bytes → Bool
same [] [] = true
same [] (y ∷ ys) = false
same (x ∷ xs) [] = false
same (x ∷ xs) (y ∷ ys) = (x == y) && same xs ys

-- How `main` ends before `run`: with the usage, for too few arguments or for `-h`, or in `fatal`.
pub data Stop : Type 0 where
  missing_args : Stop
  usage : Stop
  fatal : Bytes → Stop

pub data Outcome (A : Type 0) : Type 0 where
  go : A → Outcome A
  stop : Stop → Outcome A

infixl 5 ◌>>=◌
abbrev pub ◌>>=◌ : {A B : Type 0} → Outcome A → (A → Outcome B) → Outcome B
go a >>= f = f a
stop e >>= f = stop e

abbrev pub fail : {A : Type 0} → Bytes → Outcome A
fail message = stop (fatal message)

-- The variables of `main` that the options set.
pub record Settings : Type 0 where
  pub outlen : ℕ
  pub m_cost : ℕ
  pub t_cost : ℕ
  pub lanes : ℕ
  pub threads : ℕ
  pub type : ℕ
  pub types_specified : ℕ
  pub m_cost_specified : Bool
  pub encoded_only : Bool
  pub raw_only : Bool
  pub version : ℕ

abbrev pub defaults : Settings
defaults = record {
  outlen = 32;
  m_cost = 2 ^ 12;
  t_cost = 3;
  lanes = 1;
  threads = 1;
  type = argon2_i;
  types_specified = 0;
  m_cost_specified = false;
  encoded_only = false;
  raw_only = false;
  version = version_number;
}

abbrev pub max_memory_bits : ℕ
max_memory_bits = 32

-- `ARGON2_MIN(x, UINT32_C(0xFFFFFFFF))`.
unfoldable pub at_most_u32 : ℕ → ℕ
at_most_u32 x = if ltb x u32_max then x else u32_max

abbrev pub bad_number : ℕ → Bool
bad_number input = (input == 0) || (input == ulong_max)

-- The test on `m_cost` behind `-m` and `-k`.
unfoldable pub set_m_cost : ℕ → Settings → Outcome Settings
set_m_cost m_cost s =
    if ltb max_memory m_cost
    then fail (codes "m_cost overflow")
    else go (record s { m_cost = m_cost })

unfoldable pub set_m : ℕ → Settings → Outcome Settings
set_m input s =
    if bad_number input || ltb max_memory_bits input
    then fail (codes "bad numeric input for -m")
    else set_m_cost (at_most_u32 (2 ^ input)) s

unfoldable pub set_k : ℕ → Settings → Outcome Settings
set_k input s =
    if bad_number input
    then fail (codes "bad numeric input for -k")
    else set_m_cost (at_most_u32 input) s

unfoldable pub set_t : ℕ → Settings → Outcome Settings
set_t input s =
    if bad_number input || ltb max_time input
    then fail (codes "bad numeric input for -t")
    else go (record s { t_cost = u32 input })

unfoldable pub set_p : ℕ → Settings → Outcome Settings
set_p input s =
    if bad_number input || (ltb max_threads input || ltb max_lanes input)
    then fail (codes "bad numeric input for -p")
    else go (record s { threads = u32 input; lanes = u32 input })

unfoldable pub set_v : Bytes → Settings → Outcome Settings
set_v argument s =
    if same argument (codes "10")
    then go (record s { version = version_10 })
    else if same argument (codes "13")
    then go (record s { version = version_13 })
    else fail (codes "invalid Argon2 version")

-- An option with an argument: the next one of the rest, where there is one.
abbrev pub with_argument :
    Bytes → (Bytes → Outcome Settings) → List Bytes → Outcome (Settings × Bool)
with_argument missing f [] = fail missing
with_argument missing f (argument ∷ rest) = f argument >>= λ s. go (s, true)

-- `-m` and `-k`.
unfoldable pub memory_option :
    Bytes
    → (Bytes → Settings → Outcome Settings)
    → Settings
    → List Bytes
    → Outcome (Settings × Bool)
memory_option missing f s rest =
    if s.m_cost_specified
    then fail (codes "-m or -k can only be used once")
    else with_argument missing (λ argument. f argument (record s { m_cost_specified = true })) rest

unfoldable pub with_type : ℕ → Settings → Outcome (Settings × Bool)
with_type type s = go (record s { type = type; types_specified = s.types_specified + 1 }, false)

-- A round of the loop over the arguments, from `a` on; `true` where it has moved `i` to the next one.
unfoldable pub option : (Bytes → ℕ) → Settings → Bytes → List Bytes → Outcome (Settings × Bool)
option strtoul s a rest =
    if same a (codes "-h")
    then stop usage
    else if same a (codes "-m")
    then memory_option (codes "missing -m argument") (λ n. set_m (strtoul n)) s rest
    else if same a (codes "-k")
    then memory_option (codes "missing -k argument") (λ n. set_k (strtoul n)) s rest
    else if same a (codes "-t")
    then with_argument (codes "missing -t argument") (λ n. set_t (strtoul n) s) rest
    else if same a (codes "-p")
    then with_argument (codes "missing -p argument") (λ n. set_p (strtoul n) s) rest
    else if same a (codes "-l")
    then with_argument (codes "missing -l argument")
        (λ n. go (record s { outlen = u32 (strtoul n) })) rest
    else if same a (codes "-i")
    then with_type argon2_i s
    else if same a (codes "-d")
    then with_type argon2_d s
    else if same a (codes "-id")
    then with_type argon2_id s
    else if same a (codes "-e")
    then go (record s { encoded_only = true }, false)
    else if same a (codes "-r")
    then go (record s { raw_only = true }, false)
    else if same a (codes "-v")
    then with_argument (codes "missing -v argument") (λ v. set_v v s) rest
    else fail (codes "unknown argument")

-- The loop; `taken` says that the round before took the next argument.
unfoldable pub options : (Bytes → ℕ) → Settings → Bool → List Bytes → Outcome Settings
options strtoul s taken [] = go s
options strtoul s true (a ∷ rest) = options strtoul s false rest
options strtoul s false (a ∷ rest) = option strtoul s a rest >>= λ r. options strtoul r.0 r.1 rest

-- The tests behind the loop.
unfoldable pub checked : Settings → Outcome Settings
checked s =
    if ltb 1 s.types_specified
    then fail (codes "cannot specify multiple Argon2 types")
    else if s.encoded_only && s.raw_only
    then fail (codes "cannot provide both -e and -r")
    else go s

-- What `run` is called with.
pub record Invocation : Type 0 where
  pub pwd : Bytes
  pub salt : Bytes
  pub settings : Settings

abbrev pub max_pass_len : ℕ
max_pass_len = 128

-- `main` up to the call of `run`, from the arguments behind the name of the program.
unfoldable pub invocation_of : (Bytes → ℕ) → Bytes → List Bytes → Outcome Invocation
invocation_of strtoul stdin [] = stop missing_args
invocation_of strtoul stdin (salt ∷ rest) =
    let pwd = take max_pass_len stdin in
    if same salt (codes "-h")
    then stop usage
    else if ltb (length pwd) 1
    then fail (codes "no password read")
    else if length pwd == max_pass_len
    then fail (codes "Provided password longer than supported in command line utility")
    else options strtoul defaults false rest >>= checked >>= λ s.
        go (record { pwd = pwd; salt = salt; settings = s })
