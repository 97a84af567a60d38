-- ===== src/Api/Contents.antt =====
-- `argon2_ctx` of argon2/src/argon2.c does not depend on what the allocated memory holds.
use argon.Base.{
  ℕ, ◌≤◌, ◌≡◌, ◌∙◌, ◌⊎◌, inl, inr, refl, sym, ap, Option, none, some, length, ◌*◌, ◌/◌, ◌==◌,
  if◌then◌else◌, Bool, true, false, u64,
}
use argon.Param.{Context, ErrorCode, Result, done, fail, ◌>>=◌, >>=-eq, IsWords}
use argon.Instance.{Instance, IsAligned, block_size}
use argon.Validate.{validate_inputs}
use argon.Validate.Bounds.{IsAdmissible, validate_inputs-ok_iff}
use argon.Phc.{check}
use argon.Phc.RoundTrip.{check_done}
use argon.Fill.{Memory}
use argon.Memory.{
  Platform, allocate_memory, initialize, initial_hash, initial_hash_context, fill_first_blocks,
  fill_memory_blocks, finalize,
}
use argon.Memory.Allocator.{with_allocator, fill_memory_blocks-with_allocator}
use argon.Memory.Contents.{fill_memory_blocks-Agree, fill_first_blocks-Agree}
use argon.Api.{instance_of, is_type, argon2_ctx}
use argon.Api.Align.{instance_of-IsSetUp}

-- Two allocators fail alike, or both give the number of blocks that is asked for.
abbrev pub Given : ℕ → Option Memory → Option Memory → Type 0
Given num x y =
    ((x ≡ none) × (y ≡ none))
    ⊎ ((m m' : Memory) × (x ≡ some m) × (y ≡ some m') × (length m ≡ num) × (length m' ≡ num))

module _ (platform : Platform) (c : Context) (type : ℕ) where
  abbrev i : Instance
  i = instance_of c type

  after : Memory → Result Context
  after m =
      fill_memory_blocks platform i (fill_first_blocks (initial_hash c i.type) i m) >>= λ memory.
      done (finalize (initial_hash_context c) i memory)

  after-eq :
      (m m' : Memory)
      → IsAligned i
      → 1 ≤ i.passes
      → length m ≡ i.memory_blocks
      → length m' ≡ i.memory_blocks
      → after m ≡ after m'
  unfolding after
  after-eq m m' a passes e e' =
      ap (λ (x : Result Memory). x >>= λ memory. done (finalize (initial_hash_context c) i memory))
        (fill_memory_blocks-Agree platform i a _ _ passes
          (fill_first_blocks-Agree (initial_hash c i.type) i m m' a e e'))

  -- From what the allocator gives for a size that is in range or not.
  finished : Bool → Option Memory → Result Context
  unfolding after
  finished false x = fail ErrorCode.memory_allocation_error
  finished true none = fail ErrorCode.memory_allocation_error
  finished true (some m) = after m

  finished-eq :
      (b : Bool) (x y : Option Memory)
      → IsAligned i
      → 1 ≤ i.passes
      → Given i.memory_blocks x y
      → finished b x ≡ finished b y
  unfolding finished
  finished-eq false x y a passes h = refl
  finished-eq true x y a passes (inl (e, e')) = rw e (rw e' refl)
  finished-eq true x y a passes (inr (m, m', e, e', len, len')) =
      rw e (rw e' (after-eq m m' a passes len len'))

  in_range : Bool
  in_range = u64 (i.memory_blocks * block_size) / block_size == i.memory_blocks

  allocated :
      (f : Context → ℕ → Option Memory) (b : Bool) (x : Option Memory)
      → let memory : Result Memory =
          if b
          then (elim x [
            | none ↦ fail ErrorCode.memory_allocation_error
            | some memory ↦ done memory
          ])
          else fail ErrorCode.memory_allocation_error in
        let first : Result (Memory × Context) = memory >>= λ m.
        done (fill_first_blocks (initial_hash c i.type) i m, initial_hash_context c) in
        (first >>= λ r.
        fill_memory_blocks (with_allocator platform f) i r.0 >>= λ m. done (finalize r.1 i m))
        ≡ finished b x
  unfolding finished after
  allocated f false x = refl
  allocated f true none = refl
  allocated f true (some m) = rw (
      fill_memory_blocks-with_allocator platform f i
        (fill_first_blocks (initial_hash c i.type) i m))

  -- `argon2_ctx`, by what the allocator gives.
  argon2_ctx-finished :
      (f : Context → ℕ → Option Memory)
      → argon2_ctx (with_allocator platform f) c type ≡ (
          check (validate_inputs (some c)) >>= λ valid.
          (if is_type type then done valid else fail ErrorCode.incorrect_type) >>= λ typed.
          finished in_range (f c i.memory_blocks))
  unfolding argon2_ctx initialize allocate_memory in_range
  argon2_ctx-finished f = >>=-eq (check (validate_inputs (some c))) (λ valid e.
      >>=-eq (if is_type type then done valid else fail ErrorCode.incorrect_type)
        (λ typed e'. allocated f in_range (f c i.memory_blocks)))

-- For a context of 32-bit words, where two allocators both fail, or both give the number of blocks that
-- is asked for, `argon2_ctx` returns the same with either: no block that it has not written reaches
-- the result.
pub argon2_ctx-with_allocator :
    (platform : Platform) (f g : Context → ℕ → Option Memory) (c : Context) (type : ℕ)
    → IsWords c
    → let num = (instance_of c type).memory_blocks in
      Given num (f c num) (g c num)
      → argon2_ctx (with_allocator platform f) c type
        ≡ argon2_ctx (with_allocator platform g) c type
argon2_ctx-with_allocator platform f g c type w h =
    argon2_ctx-finished platform c type f
    ∙ (>>=-eq (check (validate_inputs (some c))) (λ valid e.
          >>=-eq (if is_type type then done valid else fail ErrorCode.incorrect_type) (λ typed e'.
            let ok = check_done (validate_inputs (some c)) e in
            finished-eq platform c type (in_range platform c type) _ _
              (instance_of-IsSetUp c type w ok).aligned
              (passes_min c type ((validate_inputs-ok_iff c w).0 ok)) h))
        ∙ sym (argon2_ctx-finished platform c type g))
  where
    passes_min : (c : Context) (type : ℕ) → IsAdmissible c → 1 ≤ (instance_of c type).passes
    passes_min c type a = unfold instance_of in a.t_cost_min
