-- ===== src/Run/Bounds.antt =====
-- What the command line lets through to `run`.
use argon.Base.{
  ℕ, ◌≤◌, ◌<◌, ◌≡◌, arith, false, ◌&&◌, List, [], ◌∷◌, Bytes, codes, length, take, ltb, ◌==◌,
  length-take, min,
}
use argon.Run.{go, Settings, defaults, Invocation, same, max_pass_len, checked, invocation_of}
use argon.Run.Ensures.{Ensures, guarded, chain, ensured}
use argon.Run.Options.{Fits, options-Fits, defaults-Fits}

-- Behind the tests on what may not be given together.
pub record IsConsistent (s : Settings) : Type 0 where
  pub fits : Fits s
  pub one_type : s.types_specified ≤ 1
  pub one_form : (s.encoded_only && s.raw_only) ≡ false

checked-IsConsistent : (s : Settings) → Fits s → Ensures IsConsistent (checked s)
unfolding checked Ensures
checked-IsConsistent s f = guarded IsConsistent (ltb 1 s.types_specified) _ _ (λ one.
    guarded IsConsistent (s.encoded_only && s.raw_only) _ _
      (λ form. record { fits = f; one_type = ground arith; one_form = form }))

pub record IsReady (r : Invocation) : Type 0 where
  pub pwd_length : (1 ≤ length r.pwd) × (length r.pwd < max_pass_len)
  pub consistent : IsConsistent r.settings

filled_part :
    (n m : ℕ)
    → n ≡ min max_pass_len m
    → ltb n 1 ≡ false
    → (n == max_pass_len) ≡ false
    → (1 ≤ n) × (n < max_pass_len)
filled_part n m h some_bytes not_all = ground arith

invocation_of-Ensures :
    (strtoul : Bytes → ℕ) (stdin : Bytes) (args : List Bytes)
    → Ensures IsReady (invocation_of strtoul stdin args)
unfolding invocation_of Ensures
invocation_of-Ensures strtoul stdin [] = tt
invocation_of-Ensures strtoul stdin (salt ∷ rest) =
    let pwd = take max_pass_len stdin in
    let most = length-take max_pass_len stdin in
    guarded IsReady (same salt (codes "-h")) _ _ (λ _.
      guarded IsReady (ltb (length pwd) 1) _ _ (λ some_bytes.
        guarded IsReady (length pwd == max_pass_len) _ _ (λ not_all.
          chain IsReady IsConsistent _ _
            (chain IsConsistent Fits _ checked
              (options-Fits strtoul defaults false rest defaults-Fits) checked-IsConsistent)
            (λ s k. record {
              pwd_length = filled_part (length pwd) (length stdin) most some_bytes not_all;
              consistent = k;
            }))))

-- Whatever `strtoul` returns, when the arguments and the input get through to `run`: the password has
-- from 1 to 127 bytes; the time cost and the lanes lie within the limits of the library, with one thread
-- for each lane; the memory cost is from 1 to 2 ^ 32 - 1, since its lower limits are left to the library;
-- the type and the version are known ones, and the output length has 32 bits; and at most one type and at
-- most one of `-e` and `-r` were given.
pub invocation_of-IsReady :
    (strtoul : Bytes → ℕ) (stdin : Bytes) (args : List Bytes) {r : Invocation}
    → invocation_of strtoul stdin args ≡ go r
    → IsReady r
invocation_of-IsReady strtoul stdin args e =
    ensured IsReady (invocation_of strtoul stdin args) e (invocation_of-Ensures strtoul stdin args)
