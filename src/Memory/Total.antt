-- ===== src/Memory/Total.antt =====
-- Where the system gives all that is asked for, the stages of argon2/src/core.c succeed.
use argon.Base.{
  ℕ, zero, suc, ◌+◌, ◌-◌, ◌*◌, ◌/◌, ◌≤◌, ◌≡◌, refl, arith, true, false, some, Bytes, length, ltb,
  ◌==◌, ==_iff, u32_max, u64, Bool-cases, inl, inr,
}
use argon.Param.{Context, Result, done, ◌>>=◌, sync_points}
use argon.Instance.{Instance, Position, block_size}
use argon.Fill.{Memory, fill_segment}
use argon.Memory.{
  Platform, position_of, allocate_memory, join_all, slice_mt, pass_mt, passes_mt,
  fill_memory_blocks_st, fill_memory_blocks_mt, fill_memory_blocks,
}

-- Every allocation gives what is asked for, and every thread can be created and joined.
pub record IsGenerous (platform : Platform) : Type 0 where
  pub memory :
      (c : Context) (num : ℕ)
      → (m : Memory) × (platform.memory_of c num ≡ some m) × (length m ≡ num)
  pub buffer : (n : ℕ) → (buf : Bytes) × (platform.buffer_of n ≡ some buf) × (length buf ≡ n)
  pub tables : platform.thread_tables ≡ true
  pub created : (p : Position) → platform.creates p ≡ true
  pub joined : (p : Position) → platform.joins p ≡ true

abbrev pub Succeeds {ℓ} : {A : Type ℓ} → Result A → Type ℓ
Succeeds {A = A} r = (a : A) × (r ≡ done a)

module _ (platform : Platform) (g : IsGenerous platform) where
  pub allocate_memory-Succeeds :
      (c : Context) (num : ℕ)
      → num ≤ u32_max
      → (m : Memory) × (allocate_memory platform c num ≡ done m) × (length m ≡ num)
  unfolding allocate_memory
  allocate_memory-Succeeds c num h =
      let (m, e, len) = g.memory c num in
      let room : (u64 (num * block_size) / block_size == num) ≡ true =
        (==_iff (u64 (num * block_size) / block_size) num).1 (omega arith) in
      (m, rw (allocate_memory, room) (rw e refl), len)

  join_all-true : (r s n l : ℕ) → join_all platform r s n l ≡ true
  unfolding join_all
  join_all-true r s zero l = refl
  join_all-true r s (suc n) l =
      rw (g.joined (position_of r s l)) (rw (join_all-true r s n (l + 1)) refl)

  slice_mt-Succeeds :
      (i : Instance) (r s n l : ℕ) (m : Memory) → Succeeds (slice_mt platform i r s n l m)
  unfolding slice_mt
  slice_mt-Succeeds i r s zero l m =
      rw (join_all-true r s i.threads (i.lanes - i.threads)) (m, refl)
  slice_mt-Succeeds i r s (suc n) l m =
      let rest = slice_mt-Succeeds i r s n (l + 1) (fill_segment i (position_of r s l) m) in
      rw (g.created (position_of r s l)) (
        rw (g.joined (position_of r s (l - i.threads)))
          (elim (Bool-cases (ltb l i.threads)) [ inl low ↦ rw low rest | inr high ↦ rw high rest ]))

  bind-Succeeds :
      {A B : Type 0} (r : Result A) (f : A → Result B)
      → Succeeds r
      → ((a : A) → Succeeds (f a))
      → Succeeds (r >>= f)
  bind-Succeeds r f (a, e) h = rw e (h a)

  pass_mt-Succeeds : (i : Instance) (r n s : ℕ) (m : Memory) → Succeeds (pass_mt platform i r n s m)
  unfolding pass_mt
  pass_mt-Succeeds i r zero s m = (m, refl)
  pass_mt-Succeeds i r (suc n) s m =
      bind-Succeeds (slice_mt platform i r s i.lanes 0 m) (pass_mt platform i r n (s + 1))
        (slice_mt-Succeeds i r s i.lanes 0 m) (λ m'. pass_mt-Succeeds i r n (s + 1) m')

  passes_mt-Succeeds : (i : Instance) (n r : ℕ) (m : Memory) → Succeeds (passes_mt platform i n r m)
  unfolding passes_mt
  passes_mt-Succeeds i zero r m = (m, refl)
  passes_mt-Succeeds i (suc n) r m =
      bind-Succeeds (pass_mt platform i r sync_points 0 m) (passes_mt platform i n (r + 1))
        (pass_mt-Succeeds i r sync_points 0 m) (λ m'. passes_mt-Succeeds i n (r + 1) m')

  pub fill_memory_blocks-Succeeds :
      (i : Instance) (m : Memory) → 1 ≤ i.lanes → Succeeds (fill_memory_blocks platform i m)
  unfolding fill_memory_blocks fill_memory_blocks_mt fill_memory_blocks_st
  fill_memory_blocks-Succeeds i m h =
      let some_lane : (i.lanes == 0) ≡ false = ground arith in
      rw some_lane (elim (Bool-cases (i.threads == 1)) [
        | inl one ↦ rw one (_, refl)
        | inr more ↦ rw more (rw g.tables (passes_mt-Succeeds i i.passes 0 m))
      ])
