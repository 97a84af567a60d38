-- ===== src/Memory/Threads.antt =====
-- Filling with threads against filling without them, and which calls of the system it takes.
use argon.Base.{
  ℕ, zero, suc, ◌+◌, ◌-◌, ◌≤◌, ◌<◌, ◌≡◌, ◌⊎◌, inl, inr, ◌∙◌, ap, subst, Bool, true, arith, ◌&&◌,
  ◌||◌, ltb, if◌then◌else◌,
}
use native.Mathlib.Decide.{ℕ_discrete}
use argon.Param.{Result, ErrorCode, done, fail, >>=-eq-done, sync_points}
use argon.Instance.{Instance}
use argon.Fill.{Memory, fill_segment}
use argon.Memory.{
  Platform, position_of, join_all, slice_mt, pass_mt, passes_mt, fill_memory_blocks_mt,
}
use argon.Memory.{slice_st, pass_st, passes_st, fill_memory_blocks_st, fill_memory_blocks}

-- A chosen failure is no success.
branch-done :
    (p : Bool) (x : Result Memory) (e : ErrorCode) (m : Memory)
    → (if p then x else fail e) ≡ done m
    → (p ≡ true) × (x ≡ done m)
branch-done p x e m h = ground arith

done_inj : (m m' : Memory) → done m ≡ done m' → m ≡ m'
done_inj m m' h = cc

and-true : (p q : Bool) → (p && q) ≡ true → (p ≡ true) × (q ≡ true)
and-true p q h = ground arith

module _ (platform : Platform) (i : Instance) where
  -- In a slice of a pass, what is left from lane `l` on: the lanes whose threads are still to be
  -- created, and those whose threads are still to be joined.
  record AreAwaited (r s l : ℕ) : Type 0 where
    created : (k : ℕ) → l ≤ k → k < i.lanes → platform.creates (position_of r s k) ≡ true
    joined : (k : ℕ) → l ≤ k + i.threads → k < i.lanes → platform.joins (position_of r s k) ≡ true

  join_all-joins :
      (r s n l : ℕ)
      → join_all platform r s n l ≡ true
      → (k : ℕ) → l ≤ k
      → k < l + n
      → platform.joins (position_of r s k) ≡ true
  unfolding join_all
  join_all-joins r s zero l h k low high = absurd (omega arith)
  join_all-joins r s (suc n) l h k low high =
      let (first, rest) = and-true _ _ h in
      elim (ℕ_discrete l k) [
        | yes e ↦ subst (λ x. platform.joins (position_of r s x) ≡ true) e first
        | no ne ↦ join_all-joins r s n (l + 1) rest k (omega arith) (omega arith)
      ]

  oldest-joined :
      (r s l : ℕ)
      → (ltb l i.threads || platform.joins (position_of r s (l - i.threads))) ≡ true
      → (k : ℕ) → l ≡ k + i.threads
      → platform.joins (position_of r s k) ≡ true
  oldest-joined r s l oldest k e =
      let same : l - i.threads ≡ k = omega arith in
      subst (λ x. platform.joins (position_of r s x) ≡ true) same (ground arith)

  slice_mt-AreAwaited :
      (r s n l : ℕ) (memory m : Memory)
      → i.threads ≤ i.lanes
      → l + n ≡ i.lanes
      → slice_mt platform i r s n l memory ≡ done m
      → AreAwaited r s l × (slice_st i r s n l memory ≡ m)
  unfolding slice_mt slice_st
  slice_mt-AreAwaited r s zero l memory m few count h =
      let (all, e) =
        branch-done (join_all platform r s i.threads (i.lanes - i.threads)) (done memory)
          ErrorCode.thread_fail m h in
      (
        record {
          created = λ k low high. absurd (omega arith);
          joined = λ k low high.
              join_all-joins r s i.threads (i.lanes - i.threads) all k (omega arith) (omega arith);
        },
        done_inj memory m e,
      )
  slice_mt-AreAwaited r s (suc n) l memory m few count h =
      let next = fill_segment i (position_of r s l) memory in
      let free = ltb l i.threads || platform.joins (position_of r s (l - i.threads)) in
      let creates = platform.creates (position_of r s l) in
      let (both, e) =
        branch-done (free && creates) (slice_mt platform i r s n (l + 1) next) ErrorCode.thread_fail
          m h in
      let (oldest, created) = and-true free creates both in
      let (rest, same) = slice_mt-AreAwaited r s n (l + 1) next m few (omega arith) e in
      (
        record {
          created = λ k low high. elim (ℕ_discrete l k) [
            | yes e ↦ subst (λ x. platform.creates (position_of r s x) ≡ true) e created
            | no ne ↦ rest.created k (omega arith) high
          ];
          joined = λ k low high. elim (ℕ_discrete l (k + i.threads)) [
            | yes e ↦ oldest-joined r s l oldest k e
            | no ne ↦ rest.joined k (omega arith) high
          ];
        },
        same,
      )

  -- The calls for a slice of a pass succeed, for every lane.
  abbrev Waits : ℕ → ℕ → Type 0
  Waits r s =
      (k : ℕ)
      → k < i.lanes
      → (platform.creates (position_of r s k) ≡ true) × (platform.joins (position_of r s k) ≡ true)

  slice_mt-done :
      (r s : ℕ) (memory m : Memory)
      → i.threads ≤ i.lanes
      → slice_mt platform i r s i.lanes 0 memory ≡ done m
      → Waits r s × (slice_st i r s i.lanes 0 memory ≡ m)
  slice_mt-done r s memory m few h =
      let (w, e) = slice_mt-AreAwaited r s i.lanes 0 memory m few (omega arith) h in
      (λ k lt. (w.created k (omega arith) lt, w.joined k (omega arith) lt), e)

  pass_mt-done :
      (r n s : ℕ) (memory m : Memory)
      → i.threads ≤ i.lanes
      → pass_mt platform i r n s memory ≡ done m
      → ((x : ℕ) → s ≤ x → x < s + n → Waits r x) × (pass_st i r n s memory ≡ m)
  unfolding pass_mt pass_st
  pass_mt-done r zero s memory m few h = (λ x low high. absurd (omega arith), done_inj memory m h)
  pass_mt-done r (suc n) s memory m few h =
      let (m₁, e, rest) = >>=-eq-done (slice_mt platform i r s i.lanes 0 memory) _ h in
      let (now, same) = slice_mt-done r s memory m₁ few e in
      let (later, ends) = pass_mt-done r n (s + 1) m₁ m few rest in
      (
        λ x low high. elim (ℕ_discrete s x) [
          | yes e' ↦ subst (Waits r) e' now
          | no ne ↦ later x (omega arith) (omega arith)
        ],
        ap (pass_st i r n (s + 1)) same ∙ ends,
      )

  passes_mt-done :
      (n r : ℕ) (memory m : Memory)
      → i.threads ≤ i.lanes
      → passes_mt platform i n r memory ≡ done m
      → ((x : ℕ) → r ≤ x → x < r + n → (s : ℕ) → s < sync_points → Waits x s)
        × (passes_st i n r memory ≡ m)
  unfolding passes_mt passes_st
  passes_mt-done zero r memory m few h = (λ x low high. absurd (omega arith), done_inj memory m h)
  passes_mt-done (suc n) r memory m few h =
      let (m₁, e, rest) = >>=-eq-done (pass_mt platform i r sync_points 0 memory) _ h in
      let (now, same) = pass_mt-done r sync_points 0 memory m₁ few e in
      let (later, ends) = passes_mt-done n (r + 1) m₁ m few rest in
      (
        λ x low high. elim (ℕ_discrete r x) [
          | yes e' ↦
              subst (λ y. (s : ℕ) → s < sync_points → Waits y s) e'
                (λ s lt. now s (omega arith) (omega arith))
          | no ne ↦ later x (omega arith) (omega arith)
        ],
        ap (passes_st i n (r + 1)) same ∙ ends,
      )

  mt-done :
      (memory m : Memory)
      → i.threads ≤ i.lanes
      → fill_memory_blocks_mt platform i memory ≡ done m
      → ((r s : ℕ) → r < i.passes → s < sync_points → Waits r s)
        × (fill_memory_blocks_st i memory ≡ done m)
  unfolding fill_memory_blocks_mt fill_memory_blocks_st
  mt-done memory m few h =
      let (_, e) =
        branch-done platform.thread_tables (passes_mt platform i i.passes 0 memory)
          ErrorCode.memory_allocation_error m h in
      let (all, same) = passes_mt-done i.passes 0 memory m few e in
      (λ r s lt slice. all r (omega arith) (omega arith) s slice, ap done same)

-- With no more threads than lanes, for a lane in a slice of one of the passes: when
-- `fill_memory_blocks` succeeds, the memory is the one that `fill_memory_blocks_st` makes, and unless
-- there is one thread only, the thread of that lane in that slice has been created and joined, and
-- neither call has failed.
pub fill_memory_blocks-done :
    (platform : Platform) (i : Instance) (memory m : Memory) (r s l : ℕ)
    → i.threads ≤ i.lanes
    → r < i.passes
    → s < sync_points
    → l < i.lanes
    → fill_memory_blocks platform i memory ≡ done m
    → (fill_memory_blocks_st i memory ≡ done m)
      × ((i.threads ≡ 1)
          ⊎ ((platform.creates (position_of r s l) ≡ true)
              × (platform.joins (position_of r s l) ≡ true)))
unfolding fill_memory_blocks
fill_memory_blocks-done platform i memory m r s l few pass slice lane h =
    elim (ℕ_discrete i.threads 1) [
      | yes one ↦ (ground arith, inl one)
      | no several ↦
          let e : fill_memory_blocks_mt platform i memory ≡ done m = ground arith in
          let (all, same) = mt-done platform i memory m few e in
          (same, inr (all r s pass slice l lane))
    ]
