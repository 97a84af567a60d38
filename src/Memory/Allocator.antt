-- ===== src/Memory/Allocator.antt =====
-- The allocator of a platform has no part in filling the memory.
use argon.Base.{ℕ, zero, suc, ◌+◌, ◌-◌, ◌≡◌, refl, Option}
use argon.Param.{Context, >>=-eq, sync_points}
use argon.Instance.{Instance}
use argon.Fill.{Memory, fill_segment}
use argon.Memory.{
  Platform, position_of, join_all, slice_mt, pass_mt, passes_mt, fill_memory_blocks_mt,
  fill_memory_blocks,
}

module _ (platform : Platform) (f : Context → ℕ → Option Memory) where
  abbrev pub with_allocator : Platform
  with_allocator = record platform { memory_of = f }

  join_all-with_allocator :
      (r s n l : ℕ) → join_all with_allocator r s n l ≡ join_all platform r s n l
  unfolding join_all
  join_all-with_allocator r s zero l = refl
  join_all-with_allocator r s (suc n) l = rw (join_all-with_allocator r s n (l + 1))

  slice_mt-with_allocator :
      (i : Instance) (r s n l : ℕ) (m : Memory)
      → slice_mt with_allocator i r s n l m ≡ slice_mt platform i r s n l m
  unfolding slice_mt
  slice_mt-with_allocator i r s zero l m =
      rw (join_all-with_allocator r s i.threads (i.lanes - i.threads))
  slice_mt-with_allocator i r s (suc n) l m =
      rw (slice_mt-with_allocator i r s n (l + 1) (fill_segment i (position_of r s l) m))

  pass_mt-with_allocator :
      (i : Instance) (r n s : ℕ) (m : Memory)
      → pass_mt with_allocator i r n s m ≡ pass_mt platform i r n s m
  unfolding pass_mt
  pass_mt-with_allocator i r zero s m = refl
  pass_mt-with_allocator i r (suc n) s m =
      rw (slice_mt-with_allocator i r s i.lanes 0 m) (
        >>=-eq (slice_mt platform i r s i.lanes 0 m)
          (λ x e. pass_mt-with_allocator i r n (s + 1) x))

  passes_mt-with_allocator :
      (i : Instance) (n r : ℕ) (m : Memory)
      → passes_mt with_allocator i n r m ≡ passes_mt platform i n r m
  unfolding passes_mt
  passes_mt-with_allocator i zero r m = refl
  passes_mt-with_allocator i (suc n) r m = rw (pass_mt-with_allocator i r sync_points 0 m) (
      >>=-eq (pass_mt platform i r sync_points 0 m) (λ x e. passes_mt-with_allocator i n (r + 1) x))

  pub fill_memory_blocks-with_allocator :
      (i : Instance) (m : Memory)
      → fill_memory_blocks with_allocator i m ≡ fill_memory_blocks platform i m
  unfolding fill_memory_blocks fill_memory_blocks_mt
  fill_memory_blocks-with_allocator i m = rw (passes_mt-with_allocator i i.passes 0 m)
