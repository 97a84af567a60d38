-- ===== src/Index/Tests.antt =====
-- `index_alpha` at inputs.
use argon.Base.{◌+◌, ◌*◌, ◌≤◌, ◌<◌, ◌≡◌, ◌≢◌, ◌⊎◌, inl, Bool, true, false, refl, arith}
use argon.Instance.{Instance, Position, IsAligned}
use argon.Index.{area_size, relative_position, start_position, index_alpha}
use argon.Index.Area.{IsPosition, available, area_size-available}
use argon.Index.Window.{index_alpha-other_lane, index_alpha-same_lane}

-- Two lanes of sixteen blocks.
abbrev pub two_lanes : Instance
two_lanes = record {
  version = 0x13;
  passes = 3;
  memory_blocks = 32;
  segment_length = 4;
  lane_length = 16;
  lanes = 2;
  threads = 2;
  type = 2;
}

abbrev pub middle : Position
middle = record { pass = 1; lane = 0; slice = 2; index = 1 }

pub two_lanes-IsAligned : IsAligned two_lanes
two_lanes-IsAligned = omega arith

middle-IsPosition : (same_lane : Bool) → IsPosition two_lanes middle same_lane
middle-IsPosition same_lane = record {
  slice_max = omega arith;
  index_max = omega arith;
  first = inl (omega arith);
}

-- The largest random value refers to the oldest block of the window.
oldest : index_alpha two_lanes middle 0xffff_ffff true ≡ 12
unfolding index_alpha area_size relative_position start_position
oldest = refl

newest : index_alpha two_lanes middle 0 true ≡ 7
unfolding index_alpha area_size relative_position start_position
newest = refl

index_alpha-other_lane_example :
    (index_alpha two_lanes middle 77 false < 16)
    × ((index_alpha two_lanes middle 77 false < middle.slice * 4)
        ⊎ ((middle.pass ≢ 0) × (middle.slice * 4 + 4 ≤ index_alpha two_lanes middle 77 false)))
index_alpha-other_lane_example =
    index_alpha-other_lane two_lanes middle 77 two_lanes-IsAligned (middle-IsPosition false)

index_alpha-same_lane_example :
    let x = index_alpha two_lanes middle 77 true in
    let cur = middle.slice * 4 + middle.index in
    (x < 16)
    × (x ≢ cur)
    × (x + 1 ≢ cur)
    × ((cur ≢ 0) ⊎ (x + 1 ≢ 16))
    × ((x < cur) ⊎ (middle.slice * 4 + 4 ≤ x))
    × ((middle.pass ≢ 0) ⊎ (x + 1 < cur))
index_alpha-same_lane_example =
    index_alpha-same_lane two_lanes middle 77 two_lanes-IsAligned (middle-IsPosition true)

area_size-available_example :
    (area_size two_lanes middle true ≡ available two_lanes middle true)
    × (0 < available two_lanes middle true)
    × (available two_lanes middle true < 16)
area_size-available_example =
    area_size-available two_lanes middle true two_lanes-IsAligned (middle-IsPosition true)
