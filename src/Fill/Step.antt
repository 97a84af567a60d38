-- ===== src/Fill/Step.antt =====
-- A round of `fill_segment` reads and writes outside the segments that other lanes are writing.
use argon.Base.{
  ℕ, ◌+◌, ◌*◌, ◌≤◌, ◌<◌, ◌≡◌, ◌≢◌, ◌∙◌, ◌⊎◌, inl, inr, refl, sym, ap, arith, set, get_or-set_ne,
  Bool, true, false, ◌==◌, if◌then◌else◌, u32,
}
use native.Mathlib.Decide.{ℕ_discrete}
use argon.Param.{version_10}
use argon.Instance.{Instance, Position, IsAligned}
use argon.Block.{Block, fill_block}
use argon.Fill.{
  Memory, Segment, zero_block, block_at, rotated, refreshed, pseudo_rand, ref_offset, segment_step,
}
use argon.Block.Overwrite.{fill_block_plain}
use argon.Fill.Place.{
  IsInside, IsAt, current_row, current_row-lt, prev_row, prev_row-lt, slice_start, place-ne,
  ref_offset-IsReference,
}

abbrev pub with_xor : Instance → Position → Bool
with_xor i p = if i.version == version_10 then false else if p.pass == 0 then false else true

-- The block that a round writes, over a memory.
unfoldable pub next_block : Instance → Position → Segment → Memory → Block
next_block i p s m =
    let word = pseudo_rand i p (record s { memory = m }) in
    fill_block (block_at m (rotated i s)) (block_at m (ref_offset i p word))
      (block_at m s.curr_offset) (with_xor i p)

-- A round writes one block; the rest of what it does is the same over every memory.
abbrev pub after_round : Instance → Position → Segment → Memory → Segment
after_round i p s m = record {
  memory = m;
  address_block = (refreshed i p s).0;
  input_block = (refreshed i p s).1;
  prev_offset = u32 (rotated i s + 1);
  curr_offset = u32 (s.curr_offset + 1);
}

pub segment_step_lem :
    (i : Instance) (p : Position) (s : Segment) (m : Memory)
    → segment_step i p (record s { memory = m })
      ≡ after_round i p s (set m s.curr_offset (next_block i p s m))
unfolding segment_step next_block refreshed rotated
segment_step_lem i p s m = refl

pseudo_rand-eq :
    (i : Instance) (p : Position) (s : Segment) (m m' : Memory)
    → block_at m (rotated i s) ≡ block_at m' (rotated i s)
    → pseudo_rand i p (record s { memory = m }) ≡ pseudo_rand i p (record s { memory = m' })
unfolding pseudo_rand refreshed rotated
pseudo_rand-eq i p s m m' e = rw e

fill_block-eq :
    (i : Instance) (p : Position) (prev ref next next' : Block)
    → (p.pass ≡ 0) ⊎ (next ≡ next')
    → fill_block prev ref next (with_xor i p) ≡ fill_block prev ref next' (with_xor i p)
fill_block-eq i p prev ref next next' (inl first) =
    let plain : with_xor i p ≡ false = ground arith in
    rw plain (fill_block_plain prev ref next next')
fill_block-eq i p prev ref next next' (inr e) = rw e

-- Memories that agree where a round reads give the same block.
pub next_block-eq :
    (i : Instance) (p : Position) (s : Segment) (m m' : Memory)
    → block_at m (rotated i s) ≡ block_at m' (rotated i s)
    → ((word : ℕ) → block_at m (ref_offset i p word) ≡ block_at m' (ref_offset i p word))
    → (p.pass ≡ 0) ⊎ (block_at m s.curr_offset ≡ block_at m' s.curr_offset)
    → next_block i p s m ≡ next_block i p s m'
unfolding next_block
next_block-eq i p s m m' prev ref curr =
    let word' = pseudo_rand i p (record s { memory = m' }) in
    rw (pseudo_rand-eq i p s m m' prev) (
      rw prev (
        rw (ref word') (
          fill_block-eq i p (block_at m' (rotated i s)) (block_at m' (ref_offset i p word'))
            (block_at m s.curr_offset) (block_at m' s.curr_offset) curr)))

-- A block of the segment that another lane writes in the same slice.
pub record IsForeign (i : Instance) (p : Position) (x : ℕ) : Type 0 where
  pub lane : ℕ
  pub r : ℕ
  pub offset_eq : x ≡ lane * i.lane_length + r
  pub other : lane ≢ p.lane
  pub low : slice_start i p ≤ r
  pub high : r < slice_start i p + i.segment_length
  pub r_max : r < i.lane_length

module _ (i : Instance) (p : Position) (x : ℕ) (a : IsAligned i) (h : IsInside i p)
    (f : IsForeign i p x) where
  own-ne : (r : ℕ) → r < i.lane_length → x ≢ p.lane * i.lane_length + r
  own-ne r lt e =
      place-ne i.lane_length f.lane p.lane f.r r f.other f.r_max lt (sym f.offset_eq ∙ e)

  ref-ne : (word : ℕ) → x ≢ ref_offset i p word
  ref-ne word e =
      let ref = ref_offset-IsReference i p word a h in
      let e' : f.lane * i.lane_length + f.r ≡ ref.lane * i.lane_length + ref.r =
        sym f.offset_eq ∙ (e ∙ ref.offset_eq) in
      elim (ℕ_discrete f.lane ref.lane) [
        | yes same ↦
            let same_r : f.r ≡ ref.r = omega (arith, ap (λ (k : ℕ). k * i.lane_length) same) in
            elim ref.other [ inl own ↦ f.other (same ∙ own) | inr out ↦ ground arith ]
        | no ne ↦ place-ne i.lane_length f.lane ref.lane f.r ref.r ne f.r_max ref.r_max e'
      ]

  current_row-ne : x ≢ p.lane * i.lane_length + current_row i p
  current_row-ne = own-ne (current_row i p) (current_row-lt i p a h)

  prev_row-ne : x ≢ p.lane * i.lane_length + prev_row i p
  prev_row-ne = own-ne (prev_row i p) (prev_row-lt i p a h)

  foreign-read : (m : Memory) (y : Block) (z : ℕ) → x ≢ z → block_at (set m x y) z ≡ block_at m z
  foreign-read m y z ne = get_or-set_ne m x z y zero_block ne

  -- A round writes the same block before and after a foreign write.
  pub next_block-set :
      (s : Segment) (m : Memory) (y : Block)
      → IsAt i p s
      → next_block i p s (set m x y) ≡ next_block i p s m
  next_block-set s m y at_p =
      next_block-eq i p s (set m x y) m
        (foreign-read m y (rotated i s) (λ e. prev_row-ne (e ∙ at_p.prev_eq)))
        (λ word. foreign-read m y (ref_offset i p word) (ref-ne word))
        (inr (foreign-read m y s.curr_offset (λ e. current_row-ne (e ∙ at_p.curr_eq))))
