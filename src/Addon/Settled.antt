-- ===== src/Addon/Settled.antt =====
-- How the workers of argon2_core.cpp settle their promises.
use argon.Base.{◌≡◌, refl, Bool, true, false, Bool-cases, inl, inr, not, ◌||◌, none, length}
use argon.Param.{Context, Result, done, fail}
use argon.Message.{error_message}
use argon.Api.{argon2_ctx}
use argon.Addon.{Host, constant_time_compare}
use argon.Addon.Worker.{
  HashWorker, VerifyWorker, execute_hash, execute_verify, hash_worker_context,
  verify_worker_context, bytes_of, no_secure_memory,
}
use argon.Addon.Calls.{Settled, Rejection, resolved, rejected, settle_hash, settle_verify}

-- By whether a secure buffer failed and what `argon2_ctx` returned.
unfoldable pub settled_by : {A : Type 0} → Bool → Result Context → (Context → A) → Settled A
settled_by true r f = rejected (Rejection.error no_secure_memory)
settled_by false (done c) f = resolved (f c)
settled_by false (fail e) f = rejected (Rejection.error (error_message e))

abbrev pub unsecured_hash : HashWorker → Bool
unsecured_hash w = not w.plain.ok || not w.secret.ok

abbrev pub unsecured_verify : VerifyWorker → Bool
unsecured_verify w = not w.plain.ok || not w.secret.ok

pub settle_hash-execute_hash :
    (host : Host) (w : HashWorker)
    → w.error ≡ none
    → settle_hash (execute_hash host w)
      ≡ settled_by
          (unsecured_hash w)
          (argon2_ctx host.platform (hash_worker_context host w) w.type)
          (λ c. bytes_of c.out)
unfolding settle_hash execute_hash settled_by
settle_hash-execute_hash host w clean = elim (Bool-cases (unsecured_hash w)) [
  | inl bad ↦ rw bad refl
  | inr secured ↦
      let r = argon2_ctx host.platform (hash_worker_context host w) w.type in
      elim r
          as (λ x.
            r ≡ x
            → settle_hash (execute_hash host w)
              ≡ settled_by (unsecured_hash w) r (λ c. bytes_of c.out)) [
                | done c ↦ λ e. rw secured (rw e (rw clean refl))
                | fail code ↦ λ e. rw secured (rw e refl)
              ]
        refl
]

pub settle_verify-execute_verify :
    (host : Host) (w : VerifyWorker)
    → w.error ≡ none
    → settle_verify (execute_verify host w)
      ≡ settled_by
          (unsecured_verify w)
          (argon2_ctx host.platform (verify_worker_context host w) w.type)
          (λ c. constant_time_compare (bytes_of c.out) w.expected_hash (length w.expected_hash))
unfolding settle_verify execute_verify settled_by
settle_verify-execute_verify host w clean = elim (Bool-cases (unsecured_verify w)) [
  | inl bad ↦ rw bad refl
  | inr secured ↦
      let r = argon2_ctx host.platform (verify_worker_context host w) w.type in
      elim r
          as (λ x.
            r ≡ x
            → settle_verify (execute_verify host w)
              ≡ settled_by (unsecured_verify w) r (λ c.
                constant_time_compare (bytes_of c.out) w.expected_hash (length w.expected_hash))) [
                  | done c ↦ λ e. rw secured (rw e (rw clean refl))
                  | fail code ↦ λ e. rw secured (rw e refl)
                ]
        refl
]
