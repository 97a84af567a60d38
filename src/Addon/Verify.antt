-- ===== src/Addon/Verify.antt =====
-- `Verify` of argon2_core.cpp accepts the hash that `Hash` gives, and no other.
use argon.Base.{
  ℕ, zero, ◌≤◌, ◌≡◌, ◌↔◌, ◌∙◌, refl, ap, arith, Bool, true, false, inl, inr, suc, ◌⊎◌, ◌==◌, Option,
  none, some, Bytes, length, length-replicate, replicate, if◌then◌else◌, u32, u32_max, subst,
}
use argon.Param.{Context, Result, done, fail, IsWords}
use argon.Validate.Bounds.{validate_inputs-ok_iff}
use argon.Api.{argon2_ctx}
use argon.Api.Outcome.{argon2_ctx-out, argon2_ctx-IsOutcome}
use argon.Addon.{Host, constant_time_compare, vector_data}
use argon.Addon.Worker.{
  CommonArgs, hash_worker, verify_worker, hash_worker_context, verify_worker_context, bytes_of,
  execute_hash, execute_verify,
}
use argon.Addon.Calls.{
  Value, buffer, number, Options, Rejection, resolved, rejected, bind-some, get_buffer, get_uint32,
  extract_common_args, hash, verify, settle_hash, settle_verify,
}
use argon.Addon.Compare.{constant_time_compare_iff}
use argon.Addon.Settled.{
  settled_by, settle_hash-execute_hash, settle_verify-execute_verify, unsecured_hash,
}

-- What `GetUint32` gives is a word.
pub record AreWords (c : CommonArgs) : Type 0 where
  m_word : c.m ≤ u32_max
  t_word : c.t ≤ u32_max
  p_word : c.p ≤ u32_max
  version_word : c.version ≤ u32_max

some_inj : {A : Type 0} (x y : A) → some x ≡ some y → x ≡ y
some_inj x y h = cc

get_uint32-le : (v : Value) (n : ℕ) → get_uint32 v ≡ some n → n ≤ u32_max
unfolding get_uint32
get_uint32-le (buffer bytes) n h = cc
get_uint32-le (number k) n h = let e = some_inj (u32 k) n h in omega (arith, e)
get_uint32-le Value.other_value n h = cc

extract_common_args-AreWords :
    (args : Options) (c : CommonArgs) → extract_common_args args ≡ some c → AreWords c
unfolding extract_common_args
extract_common_args-AreWords args c h =
    let (_, _, h₁) = bind-some (get_buffer args.password) _ h in
    let (_, _, h₂) = bind-some (get_buffer args.salt) _ h₁ in
    let (_, _, h₃) = bind-some (get_buffer args.secret) _ h₂ in
    let (_, _, h₄) = bind-some (get_buffer args.ad) _ h₃ in
    let (m, m_eq, h₅) = bind-some (get_uint32 args.m) _ h₄ in
    let (t, t_eq, h₆) = bind-some (get_uint32 args.t) _ h₅ in
    let (p, p_eq, h₇) = bind-some (get_uint32 args.p) _ h₆ in
    let (v, v_eq, h₈) = bind-some (get_uint32 args.version) _ h₇ in
    let (_, _, h₉) = bind-some (get_uint32 args.type) _ h₈ in
    let e = some_inj _ c h₉ in
    subst AreWords e (record {
      m_word = get_uint32-le args.m m m_eq;
      t_word = get_uint32-le args.t t t_eq;
      p_word = get_uint32-le args.p p p_eq;
      version_word = get_uint32-le args.version v v_eq;
    })

context-IsWords :
    (host : Host) (c : CommonArgs) (n : ℕ)
    → AreWords c
    → IsWords (hash_worker_context host (hash_worker host c n))
unfolding hash_worker_context hash_worker
context-IsWords host c n w = omega arith

-- The contexts of the two workers are the same.
same_context :
    (host : Host) (c : CommonArgs) (e : Bytes)
    → verify_worker_context host (verify_worker host c e)
      ≡ hash_worker_context host (hash_worker host c (length e))
unfolding verify_worker_context verify_worker hash_worker_context hash_worker
same_context host c e = refl

context-outlen :
    (host : Host) (c : CommonArgs) (n : ℕ)
    → let ctx = hash_worker_context host (hash_worker host c n) in
      (ctx.outlen ≡ u32 n) × ((n ≡ 0) ⊎ (ctx.out ≡ some (replicate n 0)))
unfolding hash_worker_context hash_worker vector_data
context-outlen host c n = (refl, pointer n host.empty_vector)
  where
    pointer :
        (n : ℕ) (p : Option Bytes)
        → (n ≡ 0)
          ⊎ ((if length {A = ℕ} (replicate n 0) == 0 then p else some (replicate n 0))
              ≡ some (replicate n 0))
    pointer zero p = inl refl
    pointer (suc n) p =
        let e : (suc (length {A = ℕ} (replicate n 0)) == 0) ≡ false = ground arith in
        inr (rw e refl)

-- A success writes the bytes that are asked for.
pub written-length :
    (host : Host) (c : CommonArgs) (n type : ℕ) (c' : Context)
    → AreWords c
    → n ≤ u32_max
    → argon2_ctx host.platform (hash_worker_context host (hash_worker host c n)) type ≡ done c'
    → length (bytes_of c'.out) ≡ n
written-length host c n type c' w max h =
    let ctx = hash_worker_context host (hash_worker host c n) in
    let words = context-IsWords host c n w in
    let a =
      (validate_inputs-ok_iff ctx words).0
        (argon2_ctx-IsOutcome host.platform ctx type c' h).valid in
    let (outlen, out) = context-outlen host c n in
    let len : length {A = ℕ} (replicate n 0) ≡ n = length-replicate {A = ℕ} n 0 in
    elim out [
      | inl z ↦ absurd (omega (arith, outlen, a.outlen_min))
      | inr e ↦
          let (tag, e', k) =
            argon2_ctx-out host.platform ctx type c' (replicate n 0) words h e
              (omega (arith, outlen, len)) in
          ap (λ (x : Option Bytes). length (bytes_of x)) e' ∙ (k ∙ len)
    ]

resolved_inj : {A : Type 0} (x y : A) → resolved x ≡ resolved y → x ≡ y
resolved_inj x y h = cc

resolved-ne-rejected : {A : Type 0} (x : A) (r : Rejection) → rejected r ≡ resolved x → ⊥
resolved-ne-rejected x r h = cc

-- The settlings that the two workers make of one result.
settled_iff :
    (bad : Bool) (r : Result Context) (e : Bytes)
    → ((c : Context) → r ≡ done c → length (bytes_of c.out) ≡ length e)
    → (settled_by bad r (λ c. constant_time_compare (bytes_of c.out) e (length e)) ≡ resolved true)
      ↔ (settled_by bad r (λ c. bytes_of c.out) ≡ resolved e)
unfolding settled_by
settled_iff true r e h =
    (λ x. absurd (resolved-ne-rejected true _ x), λ x. absurd (resolved-ne-rejected e _ x))
settled_iff false (fail code) e h =
    (λ x. absurd (resolved-ne-rejected true _ x), λ x. absurd (resolved-ne-rejected e _ x))
settled_iff false (done c) e h =
    let k = constant_time_compare_iff (bytes_of c.out) e (length e) (h c refl) refl in
    (λ x. ap resolved (k.0 (resolved_inj _ true x)), λ x. ap resolved (k.1 (resolved_inj _ e x)))

-- The worker of a verification settles by the result that the worker of a hash has.
verify_worker-settled :
    (host : Host) (c : CommonArgs) (e : Bytes)
    → let k = hash_worker host c (length e) in
      settle_verify (execute_verify host (verify_worker host c e))
      ≡ settled_by
          (unsecured_hash k)
          (argon2_ctx host.platform (hash_worker_context host k) k.type)
          (λ x. constant_time_compare (bytes_of x.out) e (length e))
unfolding verify_worker hash_worker verify_worker_context hash_worker_context
verify_worker-settled host c e = settle_verify-execute_verify host (verify_worker host c e) refl

hash_worker-settled :
    (host : Host) (c : CommonArgs) (n : ℕ)
    → let k = hash_worker host c n in
      settle_hash (execute_hash host k)
      ≡ settled_by
          (unsecured_hash k)
          (argon2_ctx host.platform (hash_worker_context host k) k.type)
          (λ x. bytes_of x.out)
unfolding hash_worker
hash_worker-settled host c n = settle_hash-execute_hash host (hash_worker host c n) refl

workers_iff :
    (host : Host) (c : CommonArgs) (e : Bytes)
    → AreWords c
    → length e ≤ u32_max
    → (settle_verify (execute_verify host (verify_worker host c e)) ≡ resolved true)
      ↔ (settle_hash (execute_hash host (hash_worker host c (length e))) ≡ resolved e)
workers_iff host c e w max =
    let k = hash_worker host c (length e) in
    rw (verify_worker-settled host c e) (
      rw (hash_worker-settled host c (length e)) (
        settled_iff (unsecured_hash k)
          (argon2_ctx host.platform (hash_worker_context host k) k.type) e
          (λ c' h. written-length host c (length e) k.type c' w max h)))

-- The options that the two functions ask for beyond the common ones do not matter to these.
extract_common_args-same :
    (args : Options) (v : Value)
    → (extract_common_args (record args { expected_hash = v }) ≡ extract_common_args args)
      × (extract_common_args (record args { hash_length = v }) ≡ extract_common_args args)
unfolding extract_common_args
extract_common_args-same args v = (refl, refl)

verify-found :
    (host : Host) (args : Options) (e : Bytes) (c : CommonArgs)
    → extract_common_args args ≡ some c
    → verify host (some (record args { expected_hash = buffer e }))
      ≡ settle_verify (execute_verify host (verify_worker host c e))
unfolding verify get_buffer
verify-found host args e c h = rw (verify, (extract_common_args-same args (buffer e)).0 ∙ h) refl

hash-found :
    (host : Host) (args : Options) (n : ℕ) (c : CommonArgs)
    → n ≤ u32_max
    → extract_common_args args ≡ some c
    → hash host (some (record args { hash_length = number n }))
      ≡ settle_hash (execute_hash host (hash_worker host c n))
unfolding hash get_uint32
hash-found host args n c max h =
    let word : u32 n ≡ n = omega arith in
    rw (hash, (extract_common_args-same args (number n)).1 ∙ h) (rw word refl)

missing :
    (host : Host) (args : Options) (e : Bytes) (n : ℕ)
    → extract_common_args args ≡ none
    → (verify host (some (record args { expected_hash = buffer e })) ≡ resolved true → ⊥)
      × (hash host (some (record args { hash_length = number n })) ≡ resolved e → ⊥)
unfolding verify hash
missing host args e n h = (
  rw (verify, (extract_common_args-same args (buffer e)).0 ∙ h) (resolved-ne-rejected true _),
  rw (hash, (extract_common_args-same args (number n)).1 ∙ h) (resolved-ne-rejected e _),
)

-- For an expected hash of fewer than 2 ^ 32 bytes, whatever else stands in the options and whatever the
-- system gives or refuses, `verify` resolves to true exactly when `hash`, on the same options and the
-- length of the expected hash, resolves to the expected hash.
pub verify-iff_hash :
    (host : Host) (args : Options) (e : Bytes)
    → length e ≤ u32_max
    → (verify host (some (record args { expected_hash = buffer e })) ≡ resolved true)
      ↔ (hash host (some (record args { hash_length = number (length e) })) ≡ resolved e)
verify-iff_hash host args e max =
    elim (extract_common_args args)
        as (λ x.
          extract_common_args args ≡ x
          → (verify host (some (record args { expected_hash = buffer e })) ≡ resolved true)
            ↔ (hash host (some (record args { hash_length = number (length e) })) ≡ resolved e)) [
              | none ↦ λ h.
                  let (no_verify, no_hash) = missing host args e (length e) h in
                  (λ x. absurd (no_verify x), λ x. absurd (no_hash x))
              | some c ↦ λ h. rw (verify-found host args e c h) (
                  rw (hash-found host args (length e) c max h)
                    (workers_iff host c e (extract_common_args-AreWords args c h) max))
            ]
      refl
