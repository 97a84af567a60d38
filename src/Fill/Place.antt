-- ===== src/Fill/Place.antt =====
-- Where the blocks stand that a round of `fill_segment` reads and writes: lane by lane, row by row.
use argon.Base.{
  ℕ, zero, suc, ◌+◌, ◌-◌, ◌*◌, ◌%◌, ◌^◌, ◌≤◌, ◌<◌, ◌≡◌, ◌≢◌, ◌∙◌, ◌⊎◌, inl, inr, refl, ap, arith,
  true, false, Bool-cases, ◌==◌, ==_iff, if◌then◌else◌, u32, sub32, u32_max,
}
use native.Mathlib.Decide.{dec_lt}
use native.Mathlib.Nat.{add-mul-mod_self_right, mod-eq_of_lt, mul_comm, add_comm}
use argon.Param.{sync_points}
use argon.Instance.{Instance, Position, IsAligned}
use argon.Index.{index_alpha}
use argon.Index.Area.{IsPosition, IsPosition-IsCut}
use argon.Index.Window.{index_alpha-other_lane, index_alpha-same_lane}
use argon.Fill.{
  Memory, Segment, segment_start, segment_step, starting_index, rotated, ref_lane, ref_offset,
}

pub row_end : (k n len : ℕ) → k < n → k * len + len ≤ n * len
row_end k zero len h = absurd (omega arith)
row_end zero (suc n) len h = omega arith
row_end (suc k) (suc n) len h = omega (arith, row_end k n len (omega arith))

-- Rows of different lanes are different blocks.
pub place-ne : (len k k' r r' : ℕ) → k ≢ k' → r < len → r' < len → k * len + r ≢ k' * len + r'
place-ne len k k' r r' ne h h' e = elim (dec_lt k k') [
  | yes lt ↦ omega (arith, row_end k k' len lt)
  | no ge ↦ omega (arith, row_end k' k len (omega arith))
]

place-mod : (len k r : ℕ) → r < len → (k * len + r) % len ≡ r
place-mod len k r h =
    ap (λ (x : ℕ). x % len) (add_comm (k * len) r)
    ∙ (add-mul-mod_self_right r k len ∙ mod-eq_of_lt h)

-- A position whose block `fill_segment` writes: the first two blocks of a lane are there before.
pub record IsInside (i : Instance) (p : Position) : Type 0 where
  pub lane_max : p.lane < i.lanes
  pub slice_max : p.slice < sync_points
  pub index_max : p.index < i.segment_length
  pub first : (p.pass ≢ 0) ⊎ (p.slice ≢ 0) ⊎ (2 ≤ p.index)

abbrev pub slice_start : Instance → Position → ℕ
slice_start i p = p.slice * i.segment_length

-- The row of the block that is written, and of the one before it, round the lane.
abbrev pub current_row : Instance → Position → ℕ
current_row i p = p.slice * i.segment_length + p.index

abbrev pub prev_row : Instance → Position → ℕ
prev_row i p = if current_row i p == 0 then i.lane_length - 1 else current_row i p - 1

pub current_row-lt :
    (i : Instance) (p : Position) → IsAligned i → IsInside i p → current_row i p < i.lane_length
current_row-lt i p a h = let c = IsPosition-IsCut i p a h.slice_max in omega (arith, c.inside)

pub prev_row-lt :
    (i : Instance) (p : Position) → IsAligned i → IsInside i p → prev_row i p < i.lane_length
prev_row-lt i p a h = let lt = current_row-lt i p a h in ground arith

pub place-lt :
    (i : Instance) (lane r : ℕ)
    → IsAligned i
    → lane < i.lanes
    → r < i.lane_length
    → (lane * i.lane_length + r < i.memory_blocks)
      × (lane * i.lane_length + i.lane_length ≤ u32_max)
place-lt i lane r a h k = omega (arith, row_end lane i.lanes i.lane_length h)

-- The segment's variables fit the position.
pub record IsAt (i : Instance) (p : Position) (s : Segment) : Type 0 where
  pub curr_eq : s.curr_offset ≡ p.lane * i.lane_length + current_row i p
  pub prev_eq : rotated i s ≡ p.lane * i.lane_length + prev_row i p

-- What the offsets of the next round are.
rotate_lem :
    (i : Instance) (s : Segment) (base r : ℕ)
    → s.curr_offset ≡ base + r
    → s.curr_offset % i.lane_length ≡ r
    → base + i.lane_length ≤ u32_max
    → r < i.lane_length
    → (s.prev_offset ≡ base + (if r == 0 then i.lane_length - 1 else r - 1)) ⊎ (r ≡ 1)
    → rotated i s ≡ base + (if r == 0 then i.lane_length - 1 else r - 1)
unfolding rotated
rotate_lem i s base r curr rem fits lt prev = ground arith

prev_start :
    (len base r c : ℕ)
    → c ≡ base + r
    → c % len ≡ r
    → base + len ≤ u32_max
    → r < len
    → (if c % len == 0 then sub32 (u32 (c + len)) 1 else sub32 c 1)
      ≡ base + (if r == 0 then len - 1 else r - 1)
prev_start len base r c curr rem fits lt = ground arith

pub segment_start-IsAt :
    (i : Instance) (p : Position) (memory : Memory)
    → p.index ≡ starting_index p
    → IsAligned i
    → IsInside i p
    → IsAt i p (segment_start i p memory)
unfolding segment_start
segment_start-IsAt i p memory e a h =
    let s = segment_start i p memory in
    let base = p.lane * i.lane_length in
    let (_, fits) = place-lt i p.lane (current_row i p) a h.lane_max (current_row-lt i p a h) in
    let lt = current_row-lt i p a h in
    let curr : s.curr_offset ≡ base + current_row i p = omega (arith) in
    let rem : s.curr_offset % i.lane_length ≡ current_row i p =
      rw curr (place-mod i.lane_length p.lane (current_row i p) lt) in
    record {
      curr_eq = curr;
      prev_eq =
          rotate_lem i s base (current_row i p) curr rem fits lt
            (inl (prev_start i.lane_length base (current_row i p) s.curr_offset curr rem fits lt));
    }

-- The offsets behind a round fit the next position.
pub segment_step-IsAt :
    (i : Instance) (p : Position) (s : Segment)
    → IsAligned i
    → IsInside i p
    → p.index + 1 < i.segment_length
    → IsAt i p s
    → IsAt i (record p { index = p.index + 1 }) (segment_step i p s)
unfolding segment_step
segment_step-IsAt i p s a h more at_p =
    let s' = segment_step i p s in
    let base = p.lane * i.lane_length in
    let c = IsPosition-IsCut i p a h.slice_max in
    let lt = current_row-lt i p a h in
    let (_, fits) = place-lt i p.lane (current_row i p) a h.lane_max lt in
    let next : s'.curr_offset ≡ base + (current_row i p + 1) = omega (arith, at_p.curr_eq) in
    let lt' : current_row i p + 1 < i.lane_length = omega (arith, c.inside) in
    let rem : s'.curr_offset % i.lane_length ≡ current_row i p + 1 =
      rw next (place-mod i.lane_length p.lane (current_row i p + 1) lt') in
    let row_next : current_row i p + 1 ≡ p.slice * i.segment_length + (p.index + 1) = omega arith in
    let prev' : s'.prev_offset ≡ u32 (rotated i s + 1) = refl in
    let prev = at_p.prev_eq in
    let r = rotate_lem i s' base (current_row i p + 1) next rem fits lt' (ground arith) in
    record {
      curr_eq = next ∙ omega arith;
      prev_eq = r ∙ ap (λ (x : ℕ). base + (if x == 0 then i.lane_length - 1 else x - 1)) row_next;
    }

-- What `fill_segment` may read as the reference block of a position.
pub record IsReference (i : Instance) (p : Position) (x : ℕ) : Type 0 where
  pub lane : ℕ
  pub r : ℕ
  pub offset_eq : x ≡ lane * i.lane_length + r
  pub lane_max : lane < i.lanes
  pub r_max : r < i.lane_length
  pub own :
      (lane ≢ p.lane)
      ⊎ ((r ≢ current_row i p)
          × ((r < current_row i p) ⊎ (slice_start i p + i.segment_length ≤ r))
          × ((p.pass ≢ 0) ⊎ (r + 1 < current_row i p)))
  pub other :
      (lane ≡ p.lane)
      ⊎ (r < slice_start i p)
      ⊎ ((p.pass ≢ 0) × (slice_start i p + i.segment_length ≤ r))

ref_lane-lt :
    (i : Instance) (p : Position) (word : ℕ)
    → IsAligned i
    → p.lane < i.lanes
    → ref_lane i p word < i.lanes
unfolding ref_lane
ref_lane-lt i p word a h = ground arith

ref_offset_lem :
    (i : Instance) (p : Position) (word lane : ℕ)
    → IsAligned i
    → ref_lane i p word ≡ lane
    → lane < i.lanes
    → index_alpha i p (word % 2 ^ 32) (lane == p.lane) < i.lane_length
    → ref_offset i p word ≡ lane * i.lane_length + index_alpha i p (word % 2 ^ 32) (lane == p.lane)
unfolding ref_offset
ref_offset_lem i p word lane a e lt in_lane =
    let x = index_alpha i p (word % 2 ^ 32) (lane == p.lane) in
    let (_, fits) = place-lt i lane 0 a lt (omega arith) in
    let swap = mul_comm i.lane_length lane in rw e (omega arith)

ref_lane_free :
    (i : Instance) (p : Position) (word : ℕ)
    → ref_lane i p word ≢ p.lane
    → (p.pass ≢ 0) ⊎ (p.slice ≢ 0)
unfolding ref_lane
ref_lane_free i p word ne = ground arith

module _ (i : Instance) (p : Position) (word : ℕ) (a : IsAligned i) (h : IsInside i p) where
  own_lane : ref_lane i p word ≡ p.lane → IsReference i p (ref_offset i p word)
  own_lane e =
      let pos : IsPosition i p true = record {
        slice_max = h.slice_max;
        index_max = h.index_max;
        first = ground arith;
      } in
      let (in_lane, not_curr, _, _, written, first) =
        index_alpha-same_lane i p (word % 2 ^ 32) a pos in
      let test : (p.lane == p.lane) ≡ true = (==_iff p.lane p.lane).1 refl in
      record {
        lane = p.lane;
        r = index_alpha i p (word % 2 ^ 32) true;
        offset_eq =
            ref_offset_lem i p word p.lane a e h.lane_max (rw test in_lane)
            ∙ ap (λ b. p.lane * i.lane_length + index_alpha i p (word % 2 ^ 32) b) test;
        lane_max = h.lane_max;
        r_max = in_lane;
        own = inr (not_curr, written, first);
        other = inl refl;
      }

  other_lane : (ref_lane i p word == p.lane) ≡ false → IsReference i p (ref_offset i p word)
  other_lane test =
      let ne : ref_lane i p word ≢ p.lane = ground arith in
      let free = ref_lane_free i p word ne in
      let pos : IsPosition i p false = record {
        slice_max = h.slice_max;
        index_max = h.index_max;
        first = ground arith;
      } in
      let (in_lane, outside) = index_alpha-other_lane i p (word % 2 ^ 32) a pos in
      let lane = ref_lane i p word in
      let lt = ref_lane-lt i p word a h.lane_max in
      record {
        lane = lane;
        r = index_alpha i p (word % 2 ^ 32) false;
        offset_eq =
            ref_offset_lem i p word lane a refl lt (rw test in_lane)
            ∙ ap (λ b. lane * i.lane_length + index_alpha i p (word % 2 ^ 32) b) test;
        lane_max = lt;
        r_max = in_lane;
        own = inl ne;
        other = inr outside;
      }

  pub ref_offset-IsReference : IsReference i p (ref_offset i p word)
  ref_offset-IsReference = elim (Bool-cases (ref_lane i p word == p.lane)) [
    | inl same ↦ own_lane ((==_iff (ref_lane i p word) p.lane).0 same)
    | inr test ↦ other_lane test
  ]
