-- ===== src/Index/Area.antt =====
-- The relative position lies in the reference area, and the area is what the comment of
-- `index_alpha` lists.
use argon.Base.{
  ℕ, zero, suc, ◌+◌, ◌-◌, ◌*◌, ◌/◌, ◌^◌, ◌≤◌, ◌<◌, ◌≡◌, ◌≢◌, Bool, true, ◌⊎◌, ◌==◌, if◌then◌else◌,
  arith, u32_max, u64,
}
use argon.Param.{sync_points}
use argon.Instance.{Instance, Position, IsAligned}
use argon.Index.{area_size, relative_position}

scaled-le : (area r : ℕ) → r < 2 ^ 32 → area * r ≤ area * (2 ^ 32 - 1)
scaled-le area r h = grind arith

-- The product of the area with a word keeps within 64 bits, and its high word within the area.
scaled-lt : (area r : ℕ) → 0 < area → area ≤ u32_max → r < 2 ^ 32 → u64 (area * r) / 2 ^ 32 < area
scaled-lt area r pos fits h = omega (arith, scaled-le area r h)

squared-lt : (r : ℕ) → r < 2 ^ 32 → u64 (r * r) / 2 ^ 32 < 2 ^ 32
squared-lt r h = omega arith

pub relative_position-lt :
    (area r : ℕ) → 0 < area → area ≤ u32_max → relative_position area r < area
unfolding relative_position
relative_position-lt area r pos fits =
    omega (arith, scaled-lt area (u64 (r * r) / 2 ^ 32) pos fits (omega arith))

-- A position at which `fill_segment` asks for a reference block, with the answer to
-- `ref_lane == position.lane`. In the first slice of the first pass the two first blocks are there,
-- and only the own lane is used.
pub record IsPosition (i : Instance) (p : Position) (same_lane : Bool) : Type 0 where
  pub slice_max : p.slice < sync_points
  pub index_max : p.index < i.segment_length
  pub first : (p.pass ≢ 0) ⊎ (p.slice ≢ 0) ⊎ ((2 ≤ p.index) × (same_lane ≡ true))

-- The products of the slice with the segment length.
pub record IsCut (i : Instance) (p : Position) : Type 0 where
  pub lane_word : i.lane_length ≤ u32_max
  pub four : i.lane_length ≡ 4 * i.segment_length
  pub next : (p.slice + 1) * i.segment_length ≡ p.slice * i.segment_length + i.segment_length
  pub inside : p.slice * i.segment_length + i.segment_length ≤ i.lane_length
  pub positive : (p.slice ≡ 0) ⊎ (i.segment_length ≤ p.slice * i.segment_length)
  pub last : (p.slice ≢ 3) ⊎ (p.slice * i.segment_length ≡ 3 * i.segment_length)
  pub before : (p.slice ≡ 3) ⊎ (p.slice * i.segment_length + 2 * i.segment_length ≤ i.lane_length)

slice_cases :
    (s g : ℕ)
    → s < 4
    → ((s ≡ 0) × (s * g ≡ 0))
      ⊎ ((s ≡ 1) × (s * g ≡ g))
      ⊎ ((s ≡ 2) × (s * g ≡ 2 * g))
      ⊎ ((s ≡ 3) × (s * g ≡ 3 * g))
slice_cases zero g h = omega arith
slice_cases (suc zero) g h = omega arith
slice_cases (suc (suc zero)) g h = omega arith
slice_cases (suc (suc (suc zero))) g h = omega arith
slice_cases (suc (suc (suc (suc s)))) g h = absurd (omega arith)

pub IsPosition-IsCut :
    (i : Instance) (p : Position) → IsAligned i → p.slice < sync_points → IsCut i p
IsPosition-IsCut i p a h = record {
  lane_word = grind arith;
  four = omega arith;
  next = omega arith;
  inside = omega (arith, slice_cases p.slice i.segment_length h);
  positive = omega (arith, slice_cases p.slice i.segment_length h);
  last = omega (arith, slice_cases p.slice i.segment_length h);
  before = omega (arith, slice_cases p.slice i.segment_length h);
}

-- The blocks that may be referred to, as the comment in `index_alpha` counts them: in the first pass
-- the finished segments, later the three last ones; in the own lane also the blocks of this segment
-- but the previous one; elsewhere at index 0 not the last block.
unfoldable pub available : Instance → Position → Bool → ℕ
available i p same_lane =
    let finished = if p.pass == 0 then p.slice * i.segment_length else 3 * i.segment_length in
    if same_lane then finished + p.index - 1 else if p.index == 0 then finished - 1 else finished

-- On an aligned instance, at a position where a reference is asked for, the 32-bit computation of the
-- size of the reference area gives the count of the available blocks, which is positive and less than
-- the length of the lane.
pub area_size-available :
    (i : Instance) (p : Position) (same_lane : Bool)
    → IsAligned i
    → IsPosition i p same_lane
    → (area_size i p same_lane ≡ available i p same_lane)
      × (0 < available i p same_lane)
      × (available i p same_lane < i.lane_length)
unfolding area_size available
area_size-available i p same_lane a h = let c = IsPosition-IsCut i p a h.slice_max in ground arith
