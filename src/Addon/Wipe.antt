-- ===== src/Addon/Wipe.antt =====
-- The workers of argon2_core.cpp give wiped memory back.
use argon.Base.{
  ℕ, zero, suc, ◌≤◌, ◌≡◌, ◌∙◌, ◌⊎◌, refl, sym, ap, arith, Bool, true, false, Bool-cases, inl, inr,
  not, ◌||◌, ◌==◌, Option, none, some, Bytes, [], ◌∷◌, ◌++◌, All, length, length-append,
  length-drop, replicate, drop, append-nil, if◌then◌else◌, u32, subst,
}
use argon.Param.{Context, ErrorCode, done, fail, ◌>>=◌}
use argon.Phc.{check}
use argon.Validate.{validate_inputs}
use argon.Memory.{initial_hash_context, allocate_memory, finalize}
use argon.Api.{argon2_ctx, instance_of, is_type}
use argon.Api.Outcome.{IsBuffer, argon2_ctx-IsOutcome, initial_hash_context-IsBuffer}
use argon.Addon.{Host, SecureBuffer, secure_buffer, secure_wipe, released, custom_allocate}
use argon.Addon.Worker.{
  CommonArgs, HashWorker, VerifyWorker, hash_worker, verify_worker, execute_hash, execute_verify,
  hash_worker_context, verify_worker_context, context_after, destroy_hash, destroy_verify,
}

-- A null pointer, or zeros.
abbrev pub IsZeros : Option Bytes → Type 0
IsZeros x = (x ≡ none) ⊎ ((n : ℕ) × (x ≡ some (replicate n 0)))

-- The system gives the sizes that it is asked for, or refuses.
abbrev pub GivesSizes : Host → Type 0
GivesSizes host = (alignment size : ℕ) → IsBuffer size (host.memalign alignment size)

some_inj : (x y : Bytes) → some x ≡ some y → x ≡ y
some_inj x y h = cc

drop_all : (n : ℕ) (b : Bytes) → length b ≡ n → drop n b ≡ []
drop_all zero [] h = refl
drop_all zero (x ∷ b) h = absurd (omega arith)
drop_all (suc n) [] h = refl
drop_all (suc n) (x ∷ b) h = drop_all n b (omega arith)

secure_wipe-IsZeros : (n : ℕ) (x : Option Bytes) → IsBuffer n x → IsZeros (secure_wipe x n)
unfolding secure_wipe
secure_wipe-IsZeros n none h = inl refl
secure_wipe-IsZeros n (some bytes) (inl h) = cc
secure_wipe-IsZeros n (some bytes) (inr (buf, e, k)) =
    inr (n, wiped_all n bytes (ap length (some_inj bytes buf e) ∙ k))
  where
    wiped_all :
        (n : ℕ) (b : Bytes)
        → length b ≡ n
        → (if n == 0 then some b else some (replicate n 0 ++ drop n b)) ≡ some (replicate n 0)
    wiped_all zero [] h = refl
    wiped_all zero (x ∷ b) h = absurd (omega arith)
    wiped_all (suc n) b h =
        let test : (suc n == 0) ≡ false = ground arith in
        rw test (rw (drop_all (suc n) b h) (ap some (append-nil (replicate (suc n) 0))))

-- The buffer of a password or a secret has its size.
built-IsBuffer :
    (b : Bool) (x : Option Bytes) (bytes : Bytes)
    → IsBuffer (length bytes) x
    → let s : SecureBuffer =
        if b then record { pointer = none; size = length bytes; ok = true } else (elim x [
          | none ↦ record { pointer = none; size = length bytes; ok = false }
          | some memory ↦ record {
            pointer = some (bytes ++ drop (length bytes) memory);
            size = length bytes;
            ok = true;
          }
        ]) in
      IsBuffer s.size s.pointer
built-IsBuffer true x bytes h = inl refl
built-IsBuffer false none bytes h = inl refl
built-IsBuffer false (some memory) bytes (inl h) = cc
built-IsBuffer false (some memory) bytes (inr (buf, e, k)) =
    let same : length memory ≡ length bytes = ap length (some_inj memory buf e) ∙ k in
    inr (
      bytes ++ drop (length bytes) memory,
      refl,
      omega (
        arith,
        length-append bytes (drop (length bytes) memory),
        length-drop (length bytes) memory,
        same,
      ),
    )

pub secure_buffer-IsBuffer :
    (host : Host) (bytes : Bytes)
    → GivesSizes host
    → IsBuffer (secure_buffer host bytes).size (secure_buffer host bytes).pointer
unfolding secure_buffer custom_allocate
secure_buffer-IsBuffer host bytes h =
    built-IsBuffer (length bytes == 0) (custom_allocate host (length bytes)) bytes
      (h _ (length bytes))

-- The two pointers of a context, with the sizes of their buffers.
record AreBuffers (n k : ℕ) (pwd secret : Option Bytes) : Type 0 where
  pwd_buffer : IsBuffer n pwd
  secret_buffer : IsBuffer k secret

-- After `argon2_ctx`, whatever it returns, the password and the secret have their sizes.
module _ (host : Host) (c : Context) (type n k : ℕ) (h : AreBuffers n k c.pwd c.secret)
    (pwdlen : c.pwdlen ≤ n) (secretlen : c.secretlen ≤ k) where
  hashed : AreBuffers n k (initial_hash_context c).pwd (initial_hash_context c).secret
  hashed =
      let (pwd, secret) =
        initial_hash_context-IsBuffer c n k h.pwd_buffer pwdlen h.secret_buffer secretlen in
      record { pwd_buffer = pwd; secret_buffer = secret }

  succeeded :
      (c' : Context) → argon2_ctx host.platform c type ≡ done c' → AreBuffers n k c'.pwd c'.secret
  unfolding finalize
  succeeded c' e =
      let o = argon2_ctx-IsOutcome host.platform c type c' e in
      subst (λ (x : Context). AreBuffers n k x.pwd x.secret) (sym o.finalized) hashed

  failed : AreBuffers n k (context_after host c type).pwd (context_after host c type).secret
  unfolding context_after
  failed =
      let r = check (validate_inputs (some c)) >>= λ valid.
      (if is_type type then done valid else fail ErrorCode.incorrect_type) >>= λ typed.
      allocate_memory host.platform c (instance_of c type).memory_blocks in
      elim r
        as (λ x.
          let left : Context = elim x [ done memory ↦ initial_hash_context c | fail e ↦ c ] in
          AreBuffers n k left.pwd left.secret) [ done memory ↦ hashed | fail e ↦ h ]

-- The two secure buffers of a worker have their sizes.
abbrev HaveSizes : SecureBuffer → SecureBuffer → Type 0
HaveSizes plain secret = AreBuffers plain.size secret.size plain.pointer secret.pointer

u32-le : (x : ℕ) → u32 x ≤ x
u32-le x = omega arith

execute_hash-HaveSizes :
    (host : Host) (w : HashWorker)
    → HaveSizes w.plain w.secret
    → HaveSizes (execute_hash host w).plain (execute_hash host w).secret
unfolding execute_hash hash_worker_context
execute_hash-HaveSizes host w h = elim (Bool-cases (not w.plain.ok || not w.secret.ok)) [
  | inl bad ↦ rw bad h
  | inr secured ↦
      let ctx = hash_worker_context host w in
      let r = argon2_ctx host.platform ctx w.type in
      let p = u32-le w.plain.size in
      let s = u32-le w.secret.size in
      elim r as (λ x. r ≡ x → HaveSizes (execute_hash host w).plain (execute_hash host w).secret) [
        | done c ↦ λ e. rw secured (rw e (succeeded host ctx w.type _ _ h p s c e))
        | fail code ↦ λ e. rw secured (rw e (failed host ctx w.type _ _ h p s))
      ]
        refl
]

execute_verify-HaveSizes :
    (host : Host) (w : VerifyWorker)
    → HaveSizes w.plain w.secret
    → HaveSizes (execute_verify host w).plain (execute_verify host w).secret
unfolding execute_verify verify_worker_context
execute_verify-HaveSizes host w h = elim (Bool-cases (not w.plain.ok || not w.secret.ok)) [
  | inl bad ↦ rw bad h
  | inr secured ↦
      let ctx = verify_worker_context host w in
      let r = argon2_ctx host.platform ctx w.type in
      let p = u32-le w.plain.size in
      let s = u32-le w.secret.size in
      elim r
          as (λ x. r ≡ x → HaveSizes (execute_verify host w).plain (execute_verify host w).secret) [
            | done c ↦ λ e. rw secured (rw e (succeeded host ctx w.type _ _ h p s c e))
            | fail code ↦ λ e. rw secured (rw e (failed host ctx w.type _ _ h p s))
          ]
        refl
]

vector-IsZeros : (v : Bytes) → IsZeros (secure_wipe (some v) (length v))
vector-IsZeros v = secure_wipe-IsZeros (length v) (some v) (inr (v, refl, refl))

hash_worker-HaveSizes :
    (host : Host) (c : CommonArgs) (n : ℕ)
    → GivesSizes host
    → HaveSizes (hash_worker host c n).plain (hash_worker host c n).secret
unfolding hash_worker
hash_worker-HaveSizes host c n h = record {
  pwd_buffer = secure_buffer-IsBuffer host c.password h;
  secret_buffer = secure_buffer-IsBuffer host c.secret h;
}

verify_worker-HaveSizes :
    (host : Host) (c : CommonArgs) (e : Bytes)
    → GivesSizes host
    → HaveSizes (verify_worker host c e).plain (verify_worker host c e).secret
unfolding verify_worker
verify_worker-HaveSizes host c e h = record {
  pwd_buffer = secure_buffer-IsBuffer host c.password h;
  secret_buffer = secure_buffer-IsBuffer host c.secret h;
}

-- Where the system gives the sizes that it is asked for or refuses, every block of memory that a worker
-- of `hash` or of `verify` releases for its hash, its secret and its password holds zeros, after any
-- success or failure of its run.
pub destroy-IsZeros :
    (host : Host) (c : CommonArgs) (n : ℕ) (e : Bytes)
    → GivesSizes host
    → All IsZeros (destroy_hash (execute_hash host (hash_worker host c n)))
      × All IsZeros (destroy_verify (execute_verify host (verify_worker host c e)))
unfolding destroy_hash destroy_verify released
destroy-IsZeros host c n e h =
    let w = execute_hash host (hash_worker host c n) in
    let v = execute_verify host (verify_worker host c e) in
    let k = execute_hash-HaveSizes host (hash_worker host c n) (hash_worker-HaveSizes host c n h) in
    let k' =
      execute_verify-HaveSizes host (verify_worker host c e) (verify_worker-HaveSizes host c e h) in
    (
      (
        vector-IsZeros w.hash,
        (
          secure_wipe-IsZeros w.secret.size w.secret.pointer k.secret_buffer,
          (secure_wipe-IsZeros w.plain.size w.plain.pointer k.pwd_buffer, tt),
        ),
      ),
      (
        vector-IsZeros v.computed_hash,
        (
          secure_wipe-IsZeros v.secret.size v.secret.pointer k'.secret_buffer,
          (secure_wipe-IsZeros v.plain.size v.plain.pointer k'.pwd_buffer, tt),
        ),
      ),
    )
