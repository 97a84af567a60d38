-- ===== src/Memory/Contents.antt =====
-- `fill_memory_blocks` of argon2/src/core.c, with threads or without, over memories that agree in the
-- first blocks of the lanes, and the blocks that `fill_first_blocks` writes.
use argon.Base.{
  ℕ, zero, suc, ◌+◌, ◌-◌, ◌*◌, ◌≤◌, ◌<◌, ◌≡◌, ◌≢◌, ◌∙◌, refl, sym, ap, arith, length, length-set,
  set, get_or-set_ne, get_or-set_self, get_or-set_ge, subst, Bool, true, false, ◌&&◌, ◌||◌, ltb,
  if◌then◌else◌, Bytes, u32,
}
use native.Mathlib.Decide.{ℕ_discrete, dec_lt}
use argon.Param.{sync_points, Result, ErrorCode, done, fail, ◌>>=◌}
use argon.Instance.{Instance, IsAligned}
use argon.Block.{Block, load_block}
use argon.Fill.{Memory, zero_block, block_at, fill_segment}
use argon.Fill.Place.{place-lt}
use argon.Fill.Agree.{IsWritten, Agree}
use argon.Fill.FirstPass.{fill_segment-Agree}
use argon.Memory.{
  Platform, position_of, join_all, slice_mt, pass_mt, passes_mt, fill_memory_blocks_mt,
  fill_memory_blocks_st, fill_memory_blocks, first_block, fill_first_loop, fill_first_blocks,
}
use argon.Memory.First.{next_slice, whole-eq, passes_st-Agree}

-- Two runs fail alike, or succeed with memories that are related.
Related : (Memory → Memory → Type 0) → Result Memory → Result Memory → Type 0
Related R (done m) (done m') = R m m'
Related R (fail e) (fail e') = e ≡ e'
Related R (done m) (fail e) = ⊥
Related R (fail e) (done m) = ⊥

Related-branch :
    (R : Memory → Memory → Type 0) (b : Bool) (x y : Result Memory) (e : ErrorCode)
    → Related R x y
    → Related R (if b then x else fail e) (if b then y else fail e)
unfolding Related
Related-branch R true x y e h = h
Related-branch R false x y e h = refl

Related-bind :
    (R S : Memory → Memory → Type 0) (x y : Result Memory) (f g : Memory → Result Memory)
    → Related R x y
    → ((m m' : Memory) → R m m' → Related S (f m) (g m'))
    → Related S (x >>= f) (y >>= g)
unfolding Related
Related-bind R S (done m) (done m') f g h k = k m m' h
Related-bind R S (fail e) (fail e') f g h k = h
Related-bind R S (done m) (fail e) f g h k = absurd h
Related-bind R S (fail e) (done m) f g h k = absurd h

Related-eq : (x y : Result Memory) → Related (λ m m'. m ≡ m') x y → x ≡ y
unfolding Related
Related-eq (done m) (done m') h = ap done h
Related-eq (fail e) (fail e') h = ap fail h
Related-eq (done m) (fail e) h = absurd h
Related-eq (fail e) (done m) h = absurd h

-- The two memories agree before slice `s` of the first pass.
AtSlice : Instance → ℕ → Memory → Memory → Type 0
AtSlice i s = Agree i (s * i.segment_length) 0 0

module _ (platform : Platform) (i : Instance) (a : IsAligned i) where
  slice_mt-Related :
      (s n l : ℕ) (m m' : Memory)
      → s < sync_points
      → l + n ≡ i.lanes
      → Agree i (s * i.segment_length) l 0 m m'
      → Related (AtSlice i (s + 1)) (slice_mt platform i 0 s n l m) (slice_mt platform i 0 s n l m')
  unfolding slice_mt Related AtSlice
  slice_mt-Related s zero l m m' slice e g =
      Related-branch (AtSlice i (s + 1)) (join_all platform 0 s i.threads (i.lanes - i.threads))
        (done m) (done m') ErrorCode.thread_fail
        (next_slice i s m m'
          (subst (λ (k : ℕ). Agree i (s * i.segment_length) k 0 m m') (omega arith) g))
  slice_mt-Related s (suc n) l m m' slice e g =
      let p = position_of 0 s l in
      let free = ltb l i.threads || platform.joins (position_of 0 s (l - i.threads)) in
      Related-branch (AtSlice i (s + 1)) (free && platform.creates p) _ _ ErrorCode.thread_fail (
        slice_mt-Related s n (l + 1) (fill_segment i p m) (fill_segment i p m') slice (omega arith)
          (fill_segment-Agree i p m m' a refl (omega arith) slice g))

  pass_mt-Related :
      (n s : ℕ) (m m' : Memory)
      → s + n ≡ sync_points
      → AtSlice i s m m'
      → Related (λ x y. x ≡ y) (pass_mt platform i 0 n s m) (pass_mt platform i 0 n s m')
  unfolding pass_mt Related AtSlice
  pass_mt-Related zero s m m' e g =
      whole-eq i m m' a (subst (λ (k : ℕ). Agree i (k * i.segment_length) 0 0 m m') (omega arith) g)
  pass_mt-Related (suc n) s m m' e g =
      Related-bind (AtSlice i (s + 1)) (λ x y. x ≡ y) _ _ _ _
        (slice_mt-Related s i.lanes 0 m m' (omega arith) (omega arith) g)
        (λ x y k. pass_mt-Related n (s + 1) x y (omega arith) k)

  passes_mt-Agree :
      (n : ℕ) (m m' : Memory)
      → 1 ≤ n
      → Agree i 0 0 0 m m'
      → passes_mt platform i n 0 m ≡ passes_mt platform i n 0 m'
  unfolding passes_mt AtSlice
  passes_mt-Agree zero m m' h g = absurd (omega arith)
  passes_mt-Agree (suc n) m m' h g =
      ap (λ (x : Result Memory). x >>= passes_mt platform i n 1)
        (Related-eq _ _ (
          pass_mt-Related sync_points 0 m m' refl
            (subst (λ (k : ℕ). Agree i k 0 0 m m') (omega arith) g)))

  pub fill_memory_blocks-Agree :
      (m m' : Memory)
      → 1 ≤ i.passes
      → Agree i 0 0 0 m m'
      → fill_memory_blocks platform i m ≡ fill_memory_blocks platform i m'
  unfolding fill_memory_blocks fill_memory_blocks_mt fill_memory_blocks_st
  fill_memory_blocks-Agree m m' h g =
      rw (passes_mt-Agree i.passes m m' h g) (rw (passes_st-Agree i m m' a g i.passes h) refl)

-- A write that two memories of one size share.
same_write :
    (m m' : Memory) (c x : ℕ) (v : Block)
    → length m ≡ length m'
    → (c ≢ x → block_at m x ≡ block_at m' x)
    → block_at (set m c v) x ≡ block_at (set m' c v) x
same_write m m' c x v len h = elim (ℕ_discrete c x) [
  | no ne ↦
      get_or-set_ne m c x v zero_block ne ∙ (h ne ∙ sym (get_or-set_ne m' c x v zero_block ne))
  | yes same ↦ elim (dec_lt x (length m)) [
    | yes lt ↦ rw same (
        get_or-set_self m x v zero_block lt ∙ sym (get_or-set_self m' x v zero_block (omega arith)))
    | no ge ↦
        get_or-set_ge m c x v zero_block (omega arith)
        ∙ sym (get_or-set_ge m' c x v zero_block (omega arith))
  ]
]

-- The first two blocks of the lanes before `l` agree.
record AgreeFirst (i : Instance) (l : ℕ) (m m' : Memory) : Type 0 where
  count : length m ≡ i.memory_blocks
  count' : length m' ≡ i.memory_blocks
  same :
      (lane r : ℕ)
      → lane < l
      → r < 2
      → block_at m (lane * i.lane_length + r) ≡ block_at m' (lane * i.lane_length + r)

first_lane :
    (i : Instance) (l : ℕ) (v w : Block) (m m' : Memory)
    → IsAligned i
    → l < i.lanes
    → AgreeFirst i l m m'
    → let write = λ (x : Memory).
      set (set x (u32 (l * i.lane_length + 0)) v) (u32 (l * i.lane_length + 1)) w in
      AgreeFirst i (l + 1) (write m) (write m')
first_lane i l v w m m' a max g =
    let (_, fits) = place-lt i l 0 a max (omega arith) in
    let c = u32 (l * i.lane_length + 0) in
    let c' = u32 (l * i.lane_length + 1) in
    let e : c ≡ l * i.lane_length = omega arith in
    let e' : c' ≡ l * i.lane_length + 1 = omega arith in
    let n = length-set m c v in
    let n' = length-set m' c v in
    record {
      count = length-set (set m c v) c' w ∙ (n ∙ g.count);
      count' = length-set (set m' c v) c' w ∙ (n' ∙ g.count');
      same = λ lane r lt two.
          same_write (set m c v) (set m' c v) c' (lane * i.lane_length + r) w
            (n ∙ (g.count ∙ sym (n' ∙ g.count')))
            (λ ne'. same_write m m' c (lane * i.lane_length + r) v (g.count ∙ sym g.count') (λ ne.
              elim (dec_lt lane l) [
                | yes before ↦ g.same lane r before two
                | no ge ↦
                    let here : lane * i.lane_length ≡ l * i.lane_length =
                      ap (λ (k : ℕ). k * i.lane_length) (omega arith) in
                    elim (ℕ_discrete r 0) [
                      | yes zero_row ↦ absurd (ne (omega (arith, e)))
                      | no one ↦ absurd (ne' (omega (arith, e')))
                    ]
              ]));
    }

fill_first_loop-AgreeFirst :
    (i : Instance) (blockhash : Bytes) (n l : ℕ) (bytes : Bytes) (m m' : Memory)
    → IsAligned i
    → l + n ≤ i.lanes
    → AgreeFirst i l m m'
    → AgreeFirst i
        (l + n)
        (fill_first_loop i blockhash n l bytes m)
        (fill_first_loop i blockhash n l bytes m')
unfolding fill_first_loop
fill_first_loop-AgreeFirst i blockhash zero l bytes m m' a max g =
    subst (λ (k : ℕ). AgreeFirst i k m m') (omega arith) g
fill_first_loop-AgreeFirst i blockhash (suc n) l bytes m m' a max g =
    let bytes₀ = first_block blockhash 0 l bytes in
    let bytes₁ = first_block blockhash 1 l bytes₀ in
    let rest =
      fill_first_loop-AgreeFirst i blockhash n (l + 1) bytes₁ _ _ a (omega arith)
        (first_lane i l (load_block bytes₀) (load_block bytes₁) m m' a (omega arith) g) in
    subst
      (λ (k : ℕ).
        AgreeFirst i k (fill_first_loop i blockhash (suc n) l bytes m)
          (fill_first_loop i blockhash (suc n) l bytes m'))
      (omega arith) rest

pub fill_first_blocks-Agree :
    (blockhash : Bytes) (i : Instance) (m m' : Memory)
    → IsAligned i
    → length m ≡ i.memory_blocks
    → length m' ≡ i.memory_blocks
    → Agree i 0 0 0 (fill_first_blocks blockhash i m) (fill_first_blocks blockhash i m')
unfolding fill_first_blocks IsWritten
fill_first_blocks-Agree blockhash i m m' a count count' =
    let g =
      fill_first_loop-AgreeFirst i blockhash i.lanes 0 _ m m' a (omega arith)
        (record { count = count; count' = count'; same = λ lane r lt two. absurd (omega arith) }) in
    record {
      count = g.count;
      count' = g.count';
      same = λ lane r lt lt' w. g.same lane r (omega arith) (ground arith);
    }
