-- ===== src/Index/Window.antt =====
-- Which blocks `index_alpha` refers to: never one that is being written.
use argon.Base.{ℕ, ◌+◌, ◌-◌, ◌*◌, ◌%◌, ◌≤◌, ◌<◌, ◌≡◌, ◌≢◌, ◌∙◌, ◌⊎◌, inl, inr, Bool, true, false}
use argon.Base.{arith, u64}
use native.Mathlib.Nat.{mod-eq_of_lt, mod-eq-sub-mod}
use native.Mathlib.Decide.{dec_lt}
use argon.Param.{sync_points}
use argon.Instance.{Instance, Position, IsAligned}
use argon.Index.{area_size, relative_position, start_position, index_alpha}
use argon.Index.Area.{relative_position-lt, IsPosition, IsPosition-IsCut, available}
use argon.Index.Area.{area_size-available}

mod_twice : (t m : ℕ) → t < 2 * m → ((t < m) × (t % m ≡ t)) ⊎ ((m ≤ t) × (t % m ≡ t - m))
mod_twice t m h = elim (dec_lt t m) [
  | yes below ↦ inl (below, mod-eq_of_lt below)
  | no above ↦ inr (omega arith, mod-eq-sub-mod (omega arith) ∙ mod-eq_of_lt (omega arith))
]

-- Where the window of references starts, with the products exact.
start_position_cases :
    (i : Instance) (p : Position)
    → IsAligned i
    → p.slice < sync_points
    → ((p.pass ≡ 0) × (start_position i p ≡ 0))
      ⊎ ((p.pass ≢ 0) × (p.slice ≡ 3) × (start_position i p ≡ 0))
      ⊎ ((p.pass ≢ 0)
          × (p.slice < 3)
          × (start_position i p ≡ p.slice * i.segment_length + i.segment_length))
unfolding start_position
start_position_cases i p a h = let c = IsPosition-IsCut i p a h in ground arith

-- The index is a place in the window, taken round the lane.
index_alpha_cases :
    (i : Instance) (p : Position) (r : ℕ) (same_lane : Bool)
    → IsAligned i
    → IsPosition i p same_lane
    → (rel : ℕ) × (rel < available i p same_lane)
      × (((start_position i p + rel < i.lane_length)
            × (index_alpha i p r same_lane ≡ start_position i p + rel))
          ⊎ ((i.lane_length ≤ start_position i p + rel)
              × (index_alpha i p r same_lane ≡ start_position i p + rel - i.lane_length)))
unfolding index_alpha
index_alpha_cases i p r same_lane a h =
    let c = IsPosition-IsCut i p a h.slice_max in
    let (exact, positive, below) = area_size-available i p same_lane a h in
    let rel = relative_position (area_size i p same_lane) r in
    let rel_lt : rel < available i p same_lane =
      omega (arith, relative_position-lt (area_size i p same_lane) r (omega arith) (omega arith)) in
    let s = start_position_cases i p a h.slice_max in
    let t = start_position i p + rel in
    let no_wrap : u64 t ≡ t = omega arith in
    (
      rel,
      rel_lt,
      elim (mod_twice t i.lane_length (omega arith)) [
        | inl (lt, e) ↦ inl (lt, rw (no_wrap, e) (omega arith))
        | inr (le, e) ↦ inr (le, rw (no_wrap, e) (omega arith))
      ],
    )

-- A reference into another lane. The index lies in the lane and outside the slice that the other
-- lanes are writing at the same time; in the first pass it lies before that slice, in a segment that
-- is finished.
pub index_alpha-other_lane :
    (i : Instance) (p : Position) (r : ℕ)
    → IsAligned i
    → IsPosition i p false
    → (index_alpha i p r false < i.lane_length)
      × ((index_alpha i p r false < p.slice * i.segment_length)
          ⊎ ((p.pass ≢ 0)
              × (p.slice * i.segment_length + i.segment_length ≤ index_alpha i p r false)))
unfolding available
index_alpha-other_lane i p r a h =
    let c = IsPosition-IsCut i p a h.slice_max in
    let s = start_position_cases i p a h.slice_max in
    let (rel, rel_lt, place) = index_alpha_cases i p r false a h in ground arith

-- A reference into the own lane. The index lies in the lane; it is not the block being written nor
-- the one before it, round the lane; inside the current segment it is a block already written in this
-- pass, and in the first pass it lies before the previous block.
pub index_alpha-same_lane :
    (i : Instance) (p : Position) (r : ℕ)
    → IsAligned i
    → IsPosition i p true
    → let x = index_alpha i p r true in
      let cur = p.slice * i.segment_length + p.index in
      (x < i.lane_length)
      × (x ≢ cur)
      × (x + 1 ≢ cur)
      × ((cur ≢ 0) ⊎ (x + 1 ≢ i.lane_length))
      × ((x < cur) ⊎ (p.slice * i.segment_length + i.segment_length ≤ x))
      × ((p.pass ≢ 0) ⊎ (x + 1 < cur))
unfolding available
index_alpha-same_lane i p r a h =
    let c = IsPosition-IsCut i p a h.slice_max in
    let s = start_position_cases i p a h.slice_max in
    let (rel, rel_lt, place) = index_alpha_cases i p r true a h in ground arith
