-- ===== src/Api/Total.antt =====
-- Where the system gives all that is asked for, `argon2_ctx` of argon2/src/argon2.c succeeds on a valid
-- context, and its tag depends on the hashed inputs only.
use argon.Base.{ℕ, ◌≤◌, ◌≡◌, ◌∙◌, refl, ap, true, some}
use argon.Param.{Context, ErrorCode, done, IsWords}
use argon.Instance.{Instance}
use argon.Validate.{validate_inputs}
use argon.Validate.Bounds.{IsAdmissible, validate_inputs-ok_iff}
use argon.Fill.{Memory}
use argon.Memory.{
  Platform, allocate_memory, initialize, initial_hash, initial_hash_context, fill_first_blocks,
  fill_memory_blocks, finalize,
}
use argon.Memory.Contents.{fill_memory_blocks-Agree, fill_first_blocks-Agree}
use argon.Memory.Total.{IsGenerous, allocate_memory-Succeeds, fill_memory_blocks-Succeeds}
use argon.Api.{instance_of, is_type, argon2_ctx}
use argon.Api.Align.{IsSetUp, instance_of-IsSetUp}

-- The stages of `argon2_ctx`, one after the other.
argon2_ctx_stages :
    (platform : Platform) (c : Context) (type : ℕ) (m₀ m : Memory)
    → let i = instance_of c type in
      validate_inputs (some c) ≡ ErrorCode.ok
      → is_type type ≡ true
      → allocate_memory platform c i.memory_blocks ≡ done m₀
      → fill_memory_blocks platform i (fill_first_blocks (initial_hash c type) i m₀) ≡ done m
      → argon2_ctx platform c type ≡ done (finalize (initial_hash_context c) i m)
unfolding argon2_ctx initialize instance_of
argon2_ctx_stages platform c type m₀ m valid known allocated filled =
    rw valid (rw known (rw allocated (rw filled refl)))

passes_min : (c : Context) (type : ℕ) → IsAdmissible c → 1 ≤ (instance_of c type).passes
unfolding instance_of
passes_min c type a = a.t_cost_min

-- A context that differs from `c` in nothing that the memory depends on.
pub record IsAlike (c c' : Context) (type : ℕ) : Type 0 where
  pub valid : validate_inputs (some c') ≡ ErrorCode.ok
  pub same_instance : instance_of c' type ≡ instance_of c type
  pub same_hash : initial_hash c' type ≡ initial_hash c type

module _ (platform : Platform) (g : IsGenerous platform) (c : Context) (type : ℕ) (w : IsWords c)
    (known : is_type type ≡ true) (valid : validate_inputs (some c) ≡ ErrorCode.ok) where
  abbrev i : Instance
  i = instance_of c type

  set_up : IsSetUp c type i
  set_up = instance_of-IsSetUp c type w valid

  -- A filled memory, with which every context that is alike is finished.
  pub argon2_ctx-finalize :
      (m : Memory) × ((c' : Context)
        → IsAlike c c' type
        → argon2_ctx platform c' type ≡ done (finalize (initial_hash_context c') i m))
  argon2_ctx-finalize =
      let a = set_up.aligned in
      let num = i.memory_blocks in
      let (m₀, e₀, len₀) = allocate_memory-Succeeds platform g c num a.blocks_word in
      let first = fill_first_blocks (initial_hash c type) i m₀ in
      let (m, e) = fill_memory_blocks-Succeeds platform g i first a.lanes_min in
      let passes = passes_min c type ((validate_inputs-ok_iff c w).0 valid) in
      (
        m,
        λ c' h.
            let (m₁, e₁, len₁) = allocate_memory-Succeeds platform g c' num a.blocks_word in
            let same =
              fill_memory_blocks-Agree platform i a _ _ passes
                (fill_first_blocks-Agree (initial_hash c type) i m₁ m₀ a len₁ len₀) in
            argon2_ctx_stages platform c' type m₁ m h.valid known (rw h.same_instance e₁)
              (rw h.same_instance (rw h.same_hash (same ∙ e)))
            ∙ ap (λ (j : Instance). done (finalize (initial_hash_context c') j m)) h.same_instance,
      )
