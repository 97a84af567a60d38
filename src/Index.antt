-- ===== src/Index.antt =====
-- `index_alpha` of argon2/src/core.c, in the 32-bit and 64-bit arithmetic of the source.
pub mod Area
pub mod Window
pub mod Tests
use argon.Base.{ℕ, ◌+◌, ◌-◌, ◌*◌, ◌/◌, ◌%◌, ◌^◌, Bool, ◌==◌, if◌then◌else◌, u32, u64, sub32, sub64}
use argon.Base.{u32_max}
use argon.Param.{sync_points}
use argon.Instance.{Instance, Position}

-- `((position->index == 0) ? (-1) : 0)`, converted to an unsigned word.
abbrev pub minus_one_at_zero : ℕ → ℕ
minus_one_at_zero index = if index == 0 then u32_max else 0

-- `reference_area_size`.
pub area_size : Instance → Position → Bool → ℕ
area_size i p same_lane =
    if p.pass == 0
    then (if p.slice == 0
        then sub32 p.index 1
        else if same_lane
        then sub32 (u32 (u32 (p.slice * i.segment_length) + p.index)) 1
        else u32 (u32 (p.slice * i.segment_length) + minus_one_at_zero p.index))
    else if same_lane
    then sub32 (u32 (sub32 i.lane_length i.segment_length + p.index)) 1
    else u32 (sub32 i.lane_length i.segment_length + minus_one_at_zero p.index)

-- `relative_position`.
pub relative_position : ℕ → ℕ → ℕ
relative_position area pseudo_rand =
    let squared = u64 (pseudo_rand * pseudo_rand) / 2 ^ 32 in
    sub64 (sub32 area 1) (u64 (area * squared) / 2 ^ 32)

pub start_position : Instance → Position → ℕ
start_position i p =
    if p.pass == 0
    then 0
    else if p.slice == sync_points - 1
    then 0
    else u32 ((p.slice + 1) * i.segment_length)

pub index_alpha : Instance → Position → ℕ → Bool → ℕ
index_alpha i p pseudo_rand same_lane = u32 (
    u64 (start_position i p + relative_position (area_size i p same_lane) pseudo_rand)
    % i.lane_length)
