-- ===== src/Fill/Agree.antt =====
-- In the first pass, what `fill_segment` makes does not depend on blocks that are not written yet.
use argon.Base.{
  ℕ, zero, suc, ◌+◌, ◌*◌, ◌≤◌, ◌<◌, ◌≡◌, ◌≢◌, ◌∙◌, ◌⊎◌, inl, inr, refl, sym, ap, arith, length,
  length-set, set, get_or-set_ne, get_or-set_self,
}
use native.Mathlib.Decide.{ℕ_discrete}
use argon.Instance.{Instance, Position, IsAligned}
use argon.Block.{Block}
use argon.Fill.{Memory, Segment, zero_block, block_at, rotated, ref_offset, segment_step}
use argon.Fill.Place.{
  IsInside, IsAt, current_row, current_row-lt, prev_row, prev_row-lt, slice_start, place-ne,
  place-lt, ref_offset-IsReference,
}
use argon.Fill.Step.{next_block, next_block-eq, segment_step_lem}

-- The row `r` of lane `lane` is written when the lanes before `l` are through with the slice that
-- starts at row `first`, and lane `l` has written `k` blocks of it. The first two rows are written
-- before.
unfoldable pub IsWritten : Instance → ℕ → ℕ → ℕ → ℕ → ℕ → Type 0
IsWritten i first l k lane r =
    (r < 2)
    ⊎ (r < first)
    ⊎ ((lane < l) × (r < first + i.segment_length))
    ⊎ ((lane ≡ l) × (r < first + k))

-- Two memories of the instance agree in what is written.
pub record Agree (i : Instance) (first l k : ℕ) (m m' : Memory) : Type 0 where
  pub count : length m ≡ i.memory_blocks
  pub count' : length m' ≡ i.memory_blocks
  pub same :
      (lane r : ℕ)
      → lane < i.lanes
      → r < i.lane_length
      → IsWritten i first l k lane r
      → block_at m (lane * i.lane_length + r) ≡ block_at m' (lane * i.lane_length + r)

-- What is written may be given otherwise.
pub Agree-weaken :
    (i : Instance) (first l k first' l' k' : ℕ) (m m' : Memory)
    → ((lane r : ℕ)
        → lane < i.lanes
        → IsWritten i first' l' k' lane r
        → IsWritten i first l k lane r)
    → Agree i first l k m m'
    → Agree i first' l' k' m m'
Agree-weaken i first l k first' l' k' m m' w h = record {
  count = h.count;
  count' = h.count';
  same = λ lane r lt lt' written. h.same lane r lt lt' (w lane r lt written);
}

le-mul : (s q : ℕ) → s ≢ 0 → q ≤ s * q
le-mul zero q h = absurd (h refl)
le-mul (suc s) q h = omega arith

-- In the first pass, a block that is filled has a block before it.
prev_row-IsWritten :
    (i : Instance) (p : Position)
    → IsAligned i
    → IsInside i p
    → p.pass ≡ 0
    → IsWritten i (slice_start i p) p.lane p.index p.lane (prev_row i p)
unfolding IsWritten
prev_row-IsWritten i p a h first_pass = elim h.first [
  | inl later ↦ absurd (later first_pass)
  | inr (inl ne) ↦ let le = le-mul p.slice i.segment_length ne in ground arith
  | inr (inr two) ↦ ground arith
]

module _ (i : Instance) (p : Position) (s : Segment) (m m' : Memory) (a : IsAligned i)
    (h : IsInside i p) (at_p : IsAt i p s) (first_pass : p.pass ≡ 0)
    (g : Agree i (slice_start i p) p.lane p.index m m') where
  same_prev : block_at m (rotated i s) ≡ block_at m' (rotated i s)
  unfolding IsWritten
  same_prev = rw at_p.prev_eq (
      g.same p.lane (prev_row i p) h.lane_max (prev_row-lt i p a h)
        (prev_row-IsWritten i p a h first_pass))

  same_ref : (word : ℕ) → block_at m (ref_offset i p word) ≡ block_at m' (ref_offset i p word)
  unfolding IsWritten
  same_ref word =
      let ref = ref_offset-IsReference i p word a h in
      rw ref.offset_eq (
        g.same ref.lane ref.r ref.lane_max ref.r_max (elim ref.other [
          | inl own ↦ elim ref.own [
            | inl ne ↦ absurd (ne own)
            | inr (_, _, low) ↦ inr (
                inr (
                  inr (
                    own,
                    elim low [ inl later ↦ absurd (later first_pass) | inr lt ↦ omega arith ],
                  )))
          ]
          | inr (inl low) ↦ inr (inl low)
          | inr (inr (later, _)) ↦ absurd (later first_pass)
        ]))

  next_block-Agree : next_block i p s m ≡ next_block i p s m'
  next_block-Agree = next_block-eq i p s m m' same_prev same_ref (inl first_pass)

module _ (i : Instance) (p : Position) (s : Segment) (m m' : Memory) (a : IsAligned i)
    (h : IsInside i p) (at_p : IsAt i p s) (first_pass : p.pass ≡ 0)
    (g : Agree i (slice_start i p) p.lane p.index m m') where
  in_memory : s.curr_offset < i.memory_blocks
  in_memory =
      let lt = place-lt i p.lane (current_row i p) a h.lane_max (current_row-lt i p a h) in
      omega (arith, at_p.curr_eq)

  -- The block of the round is the same; another block that is written was written before.
  same_after :
      (v : Block) (lane r : ℕ)
      → lane < i.lanes
      → r < i.lane_length
      → IsWritten i (slice_start i p) p.lane (p.index + 1) lane r
      → let x = lane * i.lane_length + r in
        block_at (set m s.curr_offset v) x ≡ block_at (set m' s.curr_offset v) x
  unfolding IsWritten
  same_after v lane r lt lt' written =
      let c = s.curr_offset in
      let x = lane * i.lane_length + r in
      let row = current_row i p in
      let own : c ≡ p.lane * i.lane_length + row = at_p.curr_eq in
      let kept = λ (ne : c ≢ x) (w : IsWritten i (slice_start i p) p.lane p.index lane r).
        get_or-set_ne m c x v zero_block ne
        ∙ (g.same lane r lt lt' w ∙ sym (get_or-set_ne m' c x v zero_block ne)) in
      elim (ℕ_discrete lane p.lane) [
        | no ne ↦
            kept
              (λ e.
                place-ne i.lane_length p.lane lane row r (λ e'. ne (sym e'))
                  (current_row-lt i p a h) lt' (sym own ∙ e))
              (ground arith)
        | yes same ↦ elim (ℕ_discrete r row) [
          | no ne ↦
              kept (λ e. ne (omega (arith, own, ap (λ (k : ℕ). k * i.lane_length) same)))
                (ground arith)
          | yes same_row ↦
              let place : x ≡ c = omega (arith, own, ap (λ (k : ℕ). k * i.lane_length) same) in
              rw place (
                get_or-set_self m c v zero_block (omega (arith, g.count, in_memory))
                ∙ sym (get_or-set_self m' c v zero_block (omega (arith, g.count', in_memory))))
        ]
      ]

module _ (i : Instance) (p : Position) (s : Segment) (m m' : Memory) (a : IsAligned i)
    (h : IsInside i p) (at_p : IsAt i p s) (first_pass : p.pass ≡ 0)
    (g : Agree i (slice_start i p) p.lane p.index m m') where
  pub segment_step-Agree :
      Agree i
        (slice_start i p)
        p.lane
        (p.index + 1)
        (segment_step i p (record s { memory = m })).memory
        (segment_step i p (record s { memory = m' })).memory
  segment_step-Agree =
      let v = next_block i p s m in
      rw (segment_step_lem i p s m) (
        rw (segment_step_lem i p s m') (
          rw (sym (next_block-Agree i p s m m' a h at_p first_pass g)) (record {
            count = length-set m s.curr_offset v ∙ g.count;
            count' = length-set m' s.curr_offset v ∙ g.count';
            same = same_after i p s m m' a h at_p first_pass g v;
          })))
