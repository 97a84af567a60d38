-- ===== src/Schedule.antt =====
-- The threads of a slice as argon2/src/core.c starts them in `fill_memory_blocks_mt`: each runs
-- `fill_segment` of argon2/src/ref.c on its lane, and the rounds of different threads interleave.
pub mod Commute
pub mod Order
pub mod Sequential
pub mod Slice
pub mod Finished
pub mod Tests
use argon.Base.{ℕ, zero, suc, ◌+◌, ◌-◌, List, [], ◌∷◌, get_or, set, map}
use argon.Instance.{Instance, Position}
use argon.Block.{Block}
use argon.Memory.{position_of}
use argon.Fill.{Memory, Segment, starting_index, segment_start, segment_step}

-- The variables of one thread's loop, with the rounds that are left.
pub record Thread : Type 0 where
  pub index : ℕ
  pub left : ℕ
  pub address_block : Block
  pub input_block : Block
  pub prev_offset : ℕ
  pub curr_offset : ℕ

abbrev pub cursor : Thread → Memory → Segment
cursor t m = record {
  memory = m;
  address_block = t.address_block;
  input_block = t.input_block;
  prev_offset = t.prev_offset;
  curr_offset = t.curr_offset;
}

-- The thread before its first round.
pub thread_start : Instance → Position → Thread
thread_start i p =
    let s = segment_start i p [] in
    record {
      index = starting_index p;
      left = i.segment_length - starting_index p;
      address_block = s.address_block;
      input_block = s.input_block;
      prev_offset = s.prev_offset;
      curr_offset = s.curr_offset;
    }

abbrev pub idle : Thread
idle = record {
  index = 0;
  left = 0;
  address_block = [];
  input_block = [];
  prev_offset = 0;
  curr_offset = 0;
}

-- One round of a thread, by the rounds that are left; a finished thread does nothing.
pub thread_step : ℕ → Instance → Position → Thread → Memory → Memory × Thread
thread_step zero i p t m = (m, t)
thread_step (suc n) i p t m =
    let s = segment_step i (record p { index = t.index }) (cursor t m) in
    (
      s.memory,
      record {
        index = t.index + 1;
        left = n;
        address_block = s.address_block;
        input_block = s.input_block;
        prev_offset = s.prev_offset;
        curr_offset = s.curr_offset;
      },
    )

-- The shared memory and the threads, one for each lane.
pub record System : Type 0 where
  pub memory : Memory
  pub threads : List Thread

-- The thread of lane `l` gets a turn.
pub turn : Instance → ℕ → ℕ → ℕ → System → System
unfolding thread_step
turn i r s l sys =
    let t = get_or sys.threads l idle in
    let next = thread_step t.left i (position_of r s l) t sys.memory in
    record { memory = next.0; threads = set sys.threads l next.1 }

-- The turns of a schedule, one after the other.
pub run : Instance → ℕ → ℕ → List ℕ → System → System
run i r s [] sys = sys
run i r s (l ∷ schedule) sys = run i r s schedule (turn i r s l sys)

-- The threads of the lanes from `l` on, `n` of them.
pub start_threads : Instance → ℕ → ℕ → ℕ → ℕ → List Thread
start_threads i r s zero l = []
start_threads i r s (suc n) l = thread_start i (position_of r s l) ∷ start_threads i r s n (l + 1)

pub start_slice : Instance → ℕ → ℕ → Memory → System
unfolding start_threads
start_slice i r s m = record { memory = m; threads = start_threads i r s i.lanes 0 }
