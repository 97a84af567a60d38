-- ===== src/Api/Align.antt =====
-- The memory that `argon2_ctx` asks for.
use argon.Base.{ℕ, zero, suc, ◌+◌, ◌*◌, ◌/◌, ◌≤◌, ◌<◌, ◌≡◌, ◌∙◌, refl, sym, ap, arith, some, u32}
use argon.Param.{Context, ErrorCode, IsWords, sync_points}
use argon.Instance.{Instance, IsAligned}
use argon.Validate.{validate_inputs}
use argon.Validate.Bounds.{IsAdmissible, validate_inputs-ok_iff}
use argon.Api.{instance_of, memory_min}

quotient_min : (q x m : ℕ) → m < q * x + x → 2 * x ≤ m → 2 ≤ q
quotient_min zero x m h k = absurd (omega arith)
quotient_min (suc zero) x m h k = absurd (omega arith)
quotient_min (suc (suc q)) x m h k = omega arith

-- The segments of the memory, for `m` blocks and `lanes` lanes.
module _ (m lanes : ℕ) (pos : 1 ≤ lanes) (room : 8 * lanes ≤ m) where
  cut_max : m / (lanes * 4) * (lanes * 4) ≤ m
  cut_max = omega arith

  cut_rest : m < m / (lanes * 4) * (lanes * 4) + lanes * 4
  cut_rest = omega arith

  cut_min : 2 ≤ m / (lanes * 4)
  cut_min = quotient_min (m / (lanes * 4)) (lanes * 4) m cut_rest (omega arith)

product_eq : (q lanes : ℕ) → q * (lanes * 4) ≡ lanes * (q * 4)
product_eq q lanes = grind arith

lane-le : (q lanes : ℕ) → 1 ≤ lanes → q * 4 ≤ lanes * (q * 4)
lane-le q zero h = absurd (omega arith)
lane-le q (suc lanes) h = omega arith

-- What `argon2_ctx` makes of a context that `validate_inputs` accepts.
pub record IsSetUp (c : Context) (type : ℕ) (i : Instance) : Type 0 where
  pub aligned : IsAligned i
  pub blocks_max : i.memory_blocks ≤ c.m_cost
  pub blocks_min : c.m_cost < i.memory_blocks + 4 * c.lanes
  pub same_lanes : i.lanes ≡ c.lanes
  pub threads_min : 1 ≤ i.threads
  pub threads_max : i.threads ≤ i.lanes

memory_min_lem : (c : Context) → IsWords c → IsAdmissible c → memory_min c ≡ c.m_cost
unfolding memory_min
memory_min_lem c w a = ground arith

-- The fields of the instance, without wrap-around.
record IsExact (c : Context) (q : ℕ) (i : Instance) : Type 0 where
  segment_eq : i.segment_length ≡ q
  lane_eq : i.lane_length ≡ q * 4
  blocks_eq : i.memory_blocks ≡ q * (c.lanes * 4)

instance_of-IsExact :
    (c : Context) (type : ℕ)
    → IsWords c
    → IsAdmissible c
    → IsExact c (c.m_cost / (c.lanes * 4)) (instance_of c type)
unfolding instance_of
instance_of-IsExact c type w a =
    let q = c.m_cost / (c.lanes * 4) in
    let word : u32 (c.lanes * sync_points) ≡ c.lanes * 4 = omega arith in
    let total = cut_max c.m_cost c.lanes a.lanes_min a.m_cost_min in
    let lane = lane-le q c.lanes a.lanes_min in
    let same = product_eq q c.lanes in
    let seg : memory_min c / u32 (c.lanes * sync_points) ≡ q =
      rw (memory_min_lem c w a, word) refl in
    record {
      segment_eq = seg;
      lane_eq = rw seg (omega arith);
      blocks_eq = rw seg (rw word (omega arith));
    }

threads_of :
    (c : Context) (type : ℕ)
    → IsAdmissible c
    → (1 ≤ (instance_of c type).threads) × ((instance_of c type).threads ≤ c.lanes)
unfolding instance_of
threads_of c type a = ground arith

instance_lanes : (c : Context) (type : ℕ) → (instance_of c type).lanes ≡ c.lanes
unfolding instance_of
instance_lanes c type = refl

-- For a context of 32-bit words that `validate_inputs` accepts, the instance of `argon2_ctx` has
-- segments of equal length of at least two blocks, its count of blocks is the product of the counts
-- with no wrap-around, the `m_cost` asked for rounded down: at most that number and less than four
-- blocks for each lane below it; and it has between one thread and one for each lane.
pub instance_of-IsSetUp :
    (c : Context) (type : ℕ)
    → IsWords c
    → validate_inputs (some c) ≡ ErrorCode.ok
    → IsSetUp c type (instance_of c type)
instance_of-IsSetUp c type w valid =
    let a = (validate_inputs-ok_iff c w).0 valid in
    let q = c.m_cost / (c.lanes * 4) in
    let e = instance_of-IsExact c type w a in
    let same = product_eq q c.lanes in
    let lanes = instance_lanes c type in
    let threads = threads_of c type a in
    let total = cut_max c.m_cost c.lanes a.lanes_min a.m_cost_min in
    record {
      aligned = record {
        segment_min =
            omega (arith, e.segment_eq, cut_min c.m_cost c.lanes a.lanes_min a.m_cost_min);
        lane_length_eq = e.lane_eq ∙ sym (ap (λ (k : ℕ). k * 4) e.segment_eq);
        blocks_eq = e.blocks_eq ∙ (same ∙ sym (rw (lanes, e.lane_eq) refl));
        blocks_word = omega (arith, e.blocks_eq, w.m_cost_word);
        lanes_min = omega (arith, a.lanes_min);
      };
      blocks_max = omega (arith, e.blocks_eq);
      blocks_min = omega (arith, e.blocks_eq, cut_rest c.m_cost c.lanes a.lanes_min a.m_cost_min);
      same_lanes = lanes;
      threads_min = threads.0;
      threads_max = omega arith;
    }
