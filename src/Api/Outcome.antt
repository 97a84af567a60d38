-- ===== src/Api/Outcome.antt =====
-- What `argon2_ctx` of argon2/src/argon2.c leaves in the context when it succeeds.
use argon.Base.{
  ℕ, ◌-◌, ◌*◌, ◌%◌, ◌/◌, ◌≤◌, ◌<◌, ◌≡◌, ◌∙◌, ◌⊎◌, inl, inr, refl, sym, ap, arith, Bool, true,
  Bool-cases, Option, none, some, Bytes, IsBytes, ◌++◌, length, length-append, length-drop,
  length-replicate, replicate, drop, ◌==◌, if◌then◌else◌, u32_max, sub32,
}
use argon.Param.{Context, ErrorCode, done, fail, >>=-eq-done, IsWords}
use argon.Instance.{Instance}
use argon.Validate.{validate_inputs}
use argon.Validate.Bounds.{validate_inputs-ok_iff}
use argon.Phc.{check}
use argon.Phc.RoundTrip.{check_done}
use argon.Block.{Block, store_block}
use argon.Fill.{Memory, block_at}
use argon.Memory.{
  Platform, allocate_memory, initialize, initial_hash_context, cleared_pwd, cleared_secret,
  fill_memory_blocks, finalize, finalize_loop,
}
use argon.Blake2b.Long.{blake2b_long}
use argon.Blake2b.Long.Total.{blake2b_long-HasDigest}
use argon.Api.{instance_of, is_type, argon2_ctx}

done_inj : {A : Type 0} (x y : A) → done x ≡ done y → x ≡ y
done_inj x y h = cc

-- A success has passed the checks, and its context is the one that `finalize` makes.
pub record IsOutcome (c : Context) (type : ℕ) (c' : Context) : Type 0 where
  pub valid : validate_inputs (some c) ≡ ErrorCode.ok
  pub known : is_type type ≡ true
  pub memory : Memory
  pub finalized : c' ≡ finalize (initial_hash_context c) (instance_of c type) memory

pub argon2_ctx-IsOutcome :
    (platform : Platform) (c : Context) (type : ℕ) (c' : Context)
    → argon2_ctx platform c type ≡ done c'
    → IsOutcome c type c'
unfolding argon2_ctx initialize
argon2_ctx-IsOutcome platform c type c' h =
    let (valid, e, h₁) = >>=-eq-done (check (validate_inputs (some c))) _ h in
    let (typed, e₁, h₂) =
      >>=-eq-done (if is_type type then done valid else fail ErrorCode.incorrect_type) _ h₁ in
    let (r, e₂, h₃) = >>=-eq-done (initialize platform (instance_of c type) c) _ h₂ in
    let (m, e₃, h₄) = >>=-eq-done (fill_memory_blocks platform (instance_of c type) r.0) _ h₃ in
    let (m₀, e₄, h₅) =
      >>=-eq-done (allocate_memory platform c (instance_of c type).memory_blocks) _ e₂ in
    let left : initial_hash_context c ≡ r.1 =
      ap (λ (x : Memory × Context). x.1) (done_inj _ r h₅) in
    record {
      valid = check_done (validate_inputs (some c)) e;
      known = known_type (is_type type) valid typed e₁;
      memory = m;
      finalized =
          sym (done_inj _ c' h₄)
          ∙ ap (λ (x : Context). finalize x (instance_of c type) m) (sym left);
    }
  where
    known_type :
        (b : Bool) (x y : Unit {0})
        → (if b then done x else fail ErrorCode.incorrect_type) ≡ done y
        → b ≡ true
    known_type b x y h = ground arith

-- `initial_hash` writes nothing but the password and the secret.
initial_hash_context-same :
    (c : Context)
    → ((initial_hash_context c).out ≡ c.out) × ((initial_hash_context c).outlen ≡ c.outlen)
unfolding initial_hash_context cleared_pwd cleared_secret
initial_hash_context-same c = grind arith

-- A null pointer, or a buffer of `n` bytes.
abbrev pub IsBuffer : ℕ → Option Bytes → Type 0
IsBuffer n x = (x ≡ none) ⊎ ((buf : Bytes) × (x ≡ some buf) × (length buf ≡ n))

wiped : ℕ → Bytes → Bytes
wiped n bytes = replicate n 0 ++ drop n bytes

length-wiped : (n : ℕ) (bytes : Bytes) → n ≤ length bytes → length (wiped n bytes) ≡ length bytes
unfolding wiped
length-wiped n bytes h = omega (
  arith,
  length-append (replicate n 0) (drop n bytes),
  length-replicate {A = ℕ} n 0,
  length-drop n bytes,
)

cleared_pwd-pwd :
    (c : Context)
    → ((cleared_pwd c).pwd ≡ c.pwd)
      ⊎ ((buf : Bytes) × (c.pwd ≡ some buf) × ((cleared_pwd c).pwd ≡ some (wiped c.pwdlen buf)))
unfolding cleared_pwd wiped
cleared_pwd-pwd c =
    elim c.pwd
        as (λ x.
          (c.pwd ≡ x)
          → (((cleared_pwd c).pwd ≡ c.pwd)
              ⊎ ((buf : Bytes) × (c.pwd ≡ some buf)
                  × ((cleared_pwd c).pwd ≡ some (wiped c.pwdlen buf))))) [
                    | none ↦ λ e. inl (rw e refl)
                    | some buf ↦ λ e. elim (Bool-cases (c.flags % 2 == 1)) [
                      | inl set ↦ inr (buf, e, rw e (rw set refl))
                      | inr unset ↦ inl (rw e (rw unset refl))
                    ]
                  ]
      refl

cleared_secret-secret :
    (c : Context)
    → ((cleared_secret c).secret ≡ c.secret)
      ⊎ ((buf : Bytes) × (c.secret ≡ some buf)
          × ((cleared_secret c).secret ≡ some (wiped c.secretlen buf)))
unfolding cleared_secret wiped
cleared_secret-secret c =
    elim c.secret
        as (λ x.
          (c.secret ≡ x)
          → (((cleared_secret c).secret ≡ c.secret)
              ⊎ ((buf : Bytes) × (c.secret ≡ some buf)
                  × ((cleared_secret c).secret ≡ some (wiped c.secretlen buf))))) [
                    | none ↦ λ e. inl (rw e refl)
                    | some buf ↦ λ e. elim (Bool-cases (c.flags / 2 % 2 * 2 == 2)) [
                      | inl set ↦ inr (buf, e, rw e (rw set refl))
                      | inr unset ↦ inl (rw e (rw unset refl))
                    ]
                  ]
      refl

wiped-IsBuffer :
    (n len : ℕ) (x x' : Option Bytes)
    → (x' ≡ x) ⊎ ((buf : Bytes) × (x ≡ some buf) × (x' ≡ some (wiped len buf)))
    → len ≤ n
    → IsBuffer n x
    → IsBuffer n x'
wiped-IsBuffer n len x x' (inl same) h (inl e) = inl (same ∙ e)
wiped-IsBuffer n len x x' (inl same) h (inr (buf, e, k)) = inr (buf, same ∙ e, k)
wiped-IsBuffer n len x x' (inr (buf, e, e')) h (inl null) = absurd (clash buf (sym e ∙ null))
  where
    clash : (b : Bytes) → some b ≡ none → ⊥
    clash b h = cc
wiped-IsBuffer n len x x' (inr (buf, e, e')) h (inr (buf', f, k)) =
    let same : buf ≡ buf' = cc in
    let size : length buf ≡ n = ap length same ∙ k in
    inr (wiped len buf, e', length-wiped len buf (omega (arith, size)) ∙ size)

other_fields :
    (c : Context)
    → ((cleared_secret (cleared_pwd c)).pwd ≡ (cleared_pwd c).pwd)
      × ((cleared_pwd c).secret ≡ c.secret)
      × ((cleared_pwd c).secretlen ≡ c.secretlen)
unfolding cleared_pwd cleared_secret
other_fields c = grind arith

-- The password and the secret keep their lengths when they are wiped.
pub initial_hash_context-IsBuffer :
    (c : Context) (n k : ℕ)
    → IsBuffer n c.pwd
    → c.pwdlen ≤ n
    → IsBuffer k c.secret
    → c.secretlen ≤ k
    → IsBuffer n (initial_hash_context c).pwd × IsBuffer k (initial_hash_context c).secret
unfolding initial_hash_context
initial_hash_context-IsBuffer c n k pwd pwdlen secret secretlen =
    let (kept, sec, seclen) = other_fields c in
    (
      rw kept (wiped-IsBuffer n c.pwdlen c.pwd (cleared_pwd c).pwd (cleared_pwd-pwd c) pwdlen pwd),
      wiped-IsBuffer k (cleared_pwd c).secretlen (cleared_pwd c).secret _
          (cleared_secret-secret (cleared_pwd c)) (omega (arith, seclen)) (rw sec secret),
    )

-- The exclusive or of the last blocks of the lanes.
pub last_column : Instance → Memory → Block
last_column i m = finalize_loop i m (i.lanes - 1) 1 (block_at m (sub32 i.lane_length 1))

-- The tag that `finalize` writes.
pub finalize-digest :
    (c : Context) (i : Instance) (m : Memory) (buf : Bytes)
    → c.out ≡ some buf
    → 0 < c.outlen
    → c.outlen ≤ u32_max
    → (digest : Bytes) × ((finalize c i m).out ≡ some (digest ++ drop c.outlen buf))
      × (length digest ≡ c.outlen)
      × IsBytes digest
      × (blake2b_long c.outlen (store_block (last_column i m)) ≡ some digest)
unfolding finalize last_column
finalize-digest c i m buf e pos max =
    let (digest, hashed, len, bytes) =
      blake2b_long-HasDigest c.outlen (store_block (last_column i m)) pos max in
    (digest, rw e (rw hashed refl), len, bytes, hashed)

finalize-out :
    (c : Context) (i : Instance) (m : Memory) (buf : Bytes)
    → c.out ≡ some buf
    → 0 < c.outlen
    → c.outlen ≤ u32_max
    → c.outlen ≤ length buf
    → (tag : Bytes) × ((finalize c i m).out ≡ some tag) × (length tag ≡ length buf)
finalize-out c i m buf e pos max room =
    let (digest, out, len, bytes, hashed) = finalize-digest c i m buf e pos max in
    (
      digest ++ drop c.outlen buf,
      out,
      omega (arith, length-append digest (drop c.outlen buf), length-drop c.outlen buf, len),
    )

-- Where `argon2_ctx` succeeds on a context of 32-bit words whose buffer has room for the tag, the
-- buffer keeps its length.
pub argon2_ctx-out :
    (platform : Platform) (c : Context) (type : ℕ) (c' : Context) (buf : Bytes)
    → IsWords c
    → argon2_ctx platform c type ≡ done c'
    → c.out ≡ some buf
    → c.outlen ≤ length buf
    → (tag : Bytes) × (c'.out ≡ some tag) × (length tag ≡ length buf)
argon2_ctx-out platform c type c' buf w h e room =
    let o = argon2_ctx-IsOutcome platform c type c' h in
    let a = (validate_inputs-ok_iff c w).0 o.valid in
    let (out, outlen) = initial_hash_context-same c in
    let (tag, e', len) =
      finalize-out (initial_hash_context c) (instance_of c type) o.memory buf (out ∙ e)
        (omega (arith, outlen, a.outlen_min)) (omega (arith, outlen, w.outlen_word))
        (omega (arith, outlen)) in
    (tag, ap (λ (x : Context). x.out) o.finalized ∙ e', len)
