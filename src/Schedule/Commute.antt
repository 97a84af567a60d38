-- ===== src/Schedule/Commute.antt =====
-- Turns of different lanes commute.
use argon.Base.{
  ℕ, zero, suc, ◌+◌, ◌≡◌, ◌≢◌, ◌∙◌, ◌⊎◌, inl, inr, refl, sym, ap, arith, [], length, length-set,
  get_or, set, get_or-set_ne, get_or-set_self, get_or-set_ge, set-set, subst,
}
use native.Mathlib.Decide.{dec_lt, ℕ_discrete}
use argon.Instance.{Instance, Position, IsAligned}
use argon.Memory.{position_of}
use argon.Fill.{Memory, Segment}
use argon.Fill.Place.{IsInside, IsAt, current_row, segment_step-IsAt, current_row-lt, place-ne}
use argon.Fill.Step.{IsForeign, after_round, next_block, segment_step_lem, next_block-set}
use argon.Schedule.{Thread, cursor, thread_step, idle, System, turn}

-- The position of a thread's next round.
abbrev pub at : Position → Thread → Position
at p t = record p { index = t.index }

-- A thread that is finished, or whose variables fit its position.
pub record IsRunning (i : Instance) (p : Position) (t : Thread) : Type 0 where
  pub inside : IsInside i (at p t)
  pub fits : IsAt i (at p t) (cursor t [])
  pub end : t.index + t.left ≡ i.segment_length

abbrev pub IsThread : Instance → Position → Thread → Type 0
IsThread i p t = (t.left ≡ 0) ⊎ IsRunning i p t

abbrev advanced : Instance → Position → ℕ → Thread → Thread
advanced i p n t =
    let s = after_round i (at p t) (cursor t []) [] in
    record {
      index = t.index + 1;
      left = n;
      address_block = s.address_block;
      input_block = s.input_block;
      prev_offset = s.prev_offset;
      curr_offset = s.curr_offset;
    }

thread_step_lem :
    (n : ℕ) (i : Instance) (p : Position) (t : Thread) (m : Memory)
    → thread_step (suc n) i p t m
      ≡ (set m t.curr_offset (next_block i (at p t) (cursor t []) m), advanced i p n t)
unfolding thread_step
thread_step_lem n i p t m =
    ap
      (λ (s : Segment). (
        s.memory,
        record {
          index = t.index + 1;
          left = n;
          address_block = s.address_block;
          input_block = s.input_block;
          prev_offset = s.prev_offset;
          curr_offset = s.curr_offset;
        },
      ))
      (segment_step_lem i (at p t) (cursor t []) m)

-- The threads of two lanes in one slice.
module _ (i : Instance) (r s l l' : ℕ) (a : IsAligned i) (ne : l ≢ l') where
  abbrev place : Position
  place = position_of r s l

  abbrev place' : Position
  place' = position_of r s l'

  foreign :
      (t t' : Thread)
      → IsRunning i place t
      → IsRunning i place' t'
      → IsForeign i (at place t) t'.curr_offset
  foreign t t' h h' = record {
    lane = l';
    r = current_row i (at place' t');
    offset_eq = h'.fits.curr_eq;
    other = λ e. ne (sym e);
    low = omega arith;
    high = let k = h'.inside in omega (arith, k.index_max);
    r_max = current_row-lt i (at place' t') a h'.inside;
  }

module _ (i : Instance) (r s l l' : ℕ) (a : IsAligned i) (ne : l ≢ l') where
  -- Two rounds commute: the memory is the same, and each thread is left as if it had gone alone.
  pub thread_step-thread_step :
      (n n' : ℕ) (t t' : Thread) (m : Memory)
      → (n ≡ 0) ⊎ IsRunning i (position_of r s l) t
      → (n' ≡ 0) ⊎ IsRunning i (position_of r s l') t'
      → let one = thread_step n i (position_of r s l) t in
        let two = thread_step n' i (position_of r s l') t' in
        ((two (one m).0).0 ≡ (one (two m).0).0)
        × ((two (one m).0).1 ≡ (two m).1)
        × ((one (two m).0).1 ≡ (one m).1)
  thread_step-thread_step zero n' t t' m h h' = unfold thread_step in (refl, refl, refl)
  thread_step-thread_step (suc n) zero t t' m h h' = unfold thread_step in (refl, refl, refl)
  thread_step-thread_step (suc n) (suc n') t t' m (inl z) h' = absurd (omega arith)
  thread_step-thread_step (suc n) (suc n') t t' m (inr h) (inl z) = absurd (omega arith)
  thread_step-thread_step (suc n) (suc n') t t' m (inr h) (inr h') =
      let p = at (position_of r s l) t in
      let p' = at (position_of r s l') t' in
      let f = foreign i r s l l' a ne t t' h h' in
      let f' = foreign i r s l' l a (λ e. ne (sym e)) t' t h' h in
      let c = t.curr_offset in
      let c' = t'.curr_offset in
      let v = next_block i p (cursor t []) m in
      let v' = next_block i p' (cursor t' []) m in
      let own = λ (x : Memory). thread_step_lem n i (position_of r s l) t x in
      let own' = λ (x : Memory). thread_step_lem n' i (position_of r s l') t' x in
      let same : next_block i p (cursor t []) (set m c' v') ≡ v =
        next_block-set i p c' a h.inside f (cursor t []) m v' h.fits in
      let same' : next_block i p' (cursor t' []) (set m c v) ≡ v' =
        next_block-set i p' c a h'.inside f' (cursor t' []) m v h'.fits in
      let apart : c ≢ c' = λ e.
        place-ne i.lane_length l l' (current_row i p) (current_row i p') ne
          (current_row-lt i p a h.inside) (current_row-lt i p' a h'.inside)
          (sym h.fits.curr_eq ∙ (e ∙ h'.fits.curr_eq)) in
      rw (own m) (
        rw (own' m) (
          rw (own' (set m c v))
            (rw (own (set m c' v')) (rw same (rw same' (set-set m c c' v v' apart, refl, refl))))))

-- A round leaves a thread that is finished, or whose variables fit the next position.
advanced-IsThread :
    (n : ℕ) (i : Instance) (p : Position) (t : Thread)
    → IsAligned i
    → t.left ≡ suc n
    → IsRunning i p t
    → IsThread i p (advanced i p n t)
advanced-IsThread n i p t a e h = elim (ℕ_discrete n 0) [
  | yes last ↦ inl last
  | no more ↦
      let next =
        segment_step-IsAt i (at p t) (cursor t []) a h.inside (omega (arith, h.end)) h.fits in
      let inside = h.inside in
      inr (record {
        inside = record {
          lane_max = inside.lane_max;
          slice_max = inside.slice_max;
          index_max = omega (arith, h.end);
          first = ground arith;
        };
        fits =
            subst (λ (s : Segment). IsAt i (record p { index = t.index + 1 }) s)
              (segment_step_lem i (at p t) (cursor t []) []) next;
        end = omega (arith, h.end);
      })
]

thread_step-IsThread :
    (n : ℕ) (i : Instance) (p : Position) (t : Thread) (m : Memory)
    → IsAligned i
    → t.left ≡ n
    → IsThread i p t
    → IsThread i p (thread_step n i p t m).1
thread_step-IsThread zero i p t m a e h = unfold thread_step in h
thread_step-IsThread (suc n) i p t m a e (inl z) = absurd (omega arith)
thread_step-IsThread (suc n) i p t m a e (inr h) =
    rw (thread_step_lem n i p t m) (advanced-IsThread n i p t a e h)

-- One thread for each lane, all fit.
pub record IsReady (i : Instance) (r s : ℕ) (sys : System) : Type 0 where
  pub count : length sys.threads ≡ i.lanes
  pub thread : (l : ℕ) → IsThread i (position_of r s l) (get_or sys.threads l idle)

pub turn-IsReady :
    (i : Instance) (r s l : ℕ) (sys : System)
    → IsAligned i
    → IsReady i r s sys
    → IsReady i r s (turn i r s l sys)
unfolding turn
turn-IsReady i r s l sys a h =
    let t = get_or sys.threads l idle in
    let next = thread_step t.left i (position_of r s l) t sys.memory in
    record {
      count = length-set sys.threads l next.1 ∙ h.count;
      thread = λ k. elim (ℕ_discrete l k) [
        | yes same ↦
            subst
              (λ (x : ℕ). IsThread i (position_of r s x) (get_or (set sys.threads l next.1) x idle))
              same
              (elim (dec_lt l (length sys.threads)) [
                | yes lt ↦ rw (get_or-set_self sys.threads l next.1 idle lt) (
                    thread_step-IsThread t.left i (position_of r s l) t sys.memory a refl
                      (h.thread l))
                | no ge ↦ rw (get_or-set_ge sys.threads l l next.1 idle (omega arith)) (inl refl)
              ])
        | no ne ↦ rw (get_or-set_ne sys.threads l k next.1 idle ne) (h.thread k)
      ];
    }

-- Turns of two lanes commute.
pub turn-turn :
    (i : Instance) (r s l l' : ℕ) (sys : System)
    → IsAligned i
    → IsReady i r s sys
    → l ≢ l'
    → turn i r s l' (turn i r s l sys) ≡ turn i r s l (turn i r s l' sys)
unfolding turn
turn-turn i r s l l' sys a h ne =
    let t = get_or sys.threads l idle in
    let t' = get_or sys.threads l' idle in
    let one = thread_step t.left i (position_of r s l) t sys.memory in
    let two = thread_step t'.left i (position_of r s l') t' sys.memory in
    let (mem, left, right) =
      thread_step-thread_step i r s l l' a ne t.left t'.left t t' sys.memory (h.thread l)
        (h.thread l') in
    rw (get_or-set_ne sys.threads l l' one.1 idle ne) (
      rw (get_or-set_ne sys.threads l' l two.1 idle (λ e. ne (sym e)))
        (rw left (rw right (rw mem (rw (set-set sys.threads l l' one.1 two.1 ne) refl)))))
