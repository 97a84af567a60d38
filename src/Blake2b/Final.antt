-- ===== src/Blake2b/Final.antt =====
-- `blake2b_final` closes the hash of all that was absorbed, so a run of init, updates and final hashes
-- the joined input.
use argon.Base.{ℕ, ◌+◌, ◌-◌, ◌≤◌, ◌<◌, ◌≡◌, ◌∙◌, refl, sym, ap, arith, Option, some, none}
use argon.Base.{List, [], ◌∷◌, ◌++◌, append_assoc, append-nil, Bytes, length, take}
use argon.Base.{length-take, length-replicate, take_all, replicate, ltb, ◌==◌}
use argon.Base.{if◌then◌else◌, Bool, true, false, ==_iff, le→ltb}
use argon.Words.{store_words}
use argon.Blake2b.{
  State, blockbytes, all_ones, outbytes, compress, increment_counter, write_at, update,
}
use argon.Blake2b.{final, set_lastblock, init, init_param, init0, param_block}
use argon.Blake2b.Spec.{count_on, hash_from, hash_from_last}
use argon.Blake2b.Stream.{IsOpen, chain, pending, Absorbs, length-write_at, take-write_at}
use argon.Blake2b.Update.{update-Absorbs}
use argon.Blake2b.Long.{◌>>=◌}

-- The bytes up to the end of the buffer, filled up with zeros.
abbrev padding : State → Bytes
padding s = replicate (blockbytes - s.buflen) 0

filled_up : (s : State) → IsOpen s → write_at s.buf s.buflen (padding s) ≡ pending s ++ padding s
filled_up s o =
    let len : length (padding s) ≡ blockbytes - s.buflen =
      length-replicate (blockbytes - s.buflen) 0 in
    sym (
      take_all (write_at s.buf s.buflen (padding s)) (s.buflen + length (padding s)) (
        omega (
          arith,
          len,
          length-write_at s.buf s.buflen (padding s)
              (omega (arith, len, o.buf_length, o.buflen_max)),
          o.buf_length,
          o.buflen_max,
        )))
    ∙ take-write_at s.buf s.buflen (padding s) (omega (arith, o.buf_length, o.buflen_max))

length-pending : (s : State) → IsOpen s → length (pending s) ≡ s.buflen
length-pending s o = omega (arith, length-take s.buflen s.buf, o.buf_length, o.buflen_max)

-- The state that `blake2b_final` compresses.
abbrev closing : State → State
closing s = set_lastblock (increment_counter s s.buflen)

closing_flags :
    (s : State)
    → IsOpen s
    → closing s ≡ record s {
      t0 = (count_on (chain s) s.buflen).t0;
      t1 = (count_on (chain s) s.buflen).t1;
      f0 = all_ones;
    }
unfolding set_lastblock increment_counter
closing_flags s o = rw o.no_tree refl

-- The digest that is written.
abbrev written : State → Bytes
written s =
    let block = write_at s.buf s.buflen (padding s) in
    take s.outlen (store_words (take 8 (compress (record (closing s) { buf = block }) block).h))

written_lem : (s : State) → IsOpen s → written s ≡ hash_from s.outlen (chain s) (pending s)
unfolding compress
written_lem s o = rw (closing_flags s o) (
    rw (filled_up s o) (
      rw
        (hash_from_last s.outlen (chain s) (pending s)
          (omega (arith, length-pending s o, o.buflen_max)))
        (rw (length-pending s o) (rw o.f1_zero refl))))

branch_done :
    (x : Option (Bytes × State)) (p q : Bool)
    → p ≡ false
    → q ≡ true
    → (if p then none else if q then x else none) ≡ x
branch_done x p q e f = ground arith

-- The state that `blake2b_final` leaves.
abbrev wiped : State → State
wiped s =
    let block = write_at s.buf s.buflen (padding s) in
    record (compress (record (closing s) { buf = block }) block) {
      buf = replicate 128 0;
      h = replicate 8 0;
    }

-- `blake2b_final` succeeds on an open state when the room given is at least the length asked for at
-- the start, and writes the hash of what was absorbed.
pub final-hash :
    (s : State) (outlen : ℕ)
    → IsOpen s
    → s.outlen ≤ outlen
    → final s outlen ≡ some (hash_from s.outlen (chain s) (pending s), wiped s)
unfolding final
final-hash s outlen o room =
    branch_done _ (ltb outlen s.outlen) (s.f0 == 0) (le→ltb _ _ room) ((==_iff s.f0 0).1 o.f0_zero)
    ∙ ap (λ (d : Bytes). some (d, wiped s)) (written_lem s o)

-- The state that `blake2b_init` sets up.
abbrev pub start : ℕ → State
start n = init_param (param_block n 0)

start-IsOpen : (n : ℕ) → IsOpen (start n)
unfolding init_param init0
start-IsOpen n = record {
  f0_zero = refl;
  f1_zero = refl;
  no_tree = refl;
  buf_length = refl;
  buflen_max = omega arith;
}

start_outlen : (n : ℕ) → n ≤ outbytes → (start n).outlen ≡ n
unfolding init_param init0
start_outlen n h = omega arith

pending-start : (n : ℕ) → pending (start n) ≡ []
unfolding init_param init0
pending-start n = refl

init_lem : (n : ℕ) → 0 < n → n ≤ outbytes → init n ≡ some (start n)
unfolding init
init_lem n pos max = ground arith

-- One `blake2b_update` for each piece of the input.
unfoldable pub update_all : State → List Bytes → Option State
update_all s [] = some s
update_all s (piece ∷ pieces) = update s piece >>= λ s'. update_all s' pieces

abbrev pub joined : List Bytes → Bytes
joined [] = []
joined (piece ∷ pieces) = piece ++ joined pieces

update_all-Absorbs :
    (s : State) (pieces : List Bytes)
    → IsOpen s
    → (s' : State) × (update_all s pieces ≡ some s') × Absorbs s (joined pieces) s'
unfolding update_all
update_all-Absorbs s [] o =
    (s, refl, record { still_open = o; same_outlen = refl; same_hash = λ n more. refl })
update_all-Absorbs s (piece ∷ pieces) o =
    let (s₁, e₁, a₁) = update-Absorbs s piece o in
    let (s₂, e₂, a₂) = update_all-Absorbs s₁ pieces a₁.still_open in
    (
      s₂,
      rw e₁ e₂,
      record {
        still_open = a₂.still_open;
        same_outlen = a₂.same_outlen ∙ a₁.same_outlen;
        same_hash = λ n more.
            a₂.same_hash n more
            ∙ (a₁.same_hash n (joined pieces ++ more)
                ∙ ap (λ (l : Bytes). hash_from n (chain s) (pending s ++ l))
                    (sym (append_assoc piece (joined pieces) more)));
      },
    )

-- The digest of the pieces: init, the updates, final.
unfoldable pub digest_of : ℕ → List Bytes → Option Bytes
digest_of n pieces = init n >>= λ s. update_all s pieces >>= λ s'. final s' n >>= λ r. some r.0

behind_start :
    (n : ℕ) (pieces : List Bytes) → pending (start n) ++ (joined pieces ++ []) ≡ joined pieces
behind_start n pieces =
    ap (λ (l : Bytes). l ++ (joined pieces ++ [])) (pending-start n) ∙ append-nil (joined pieces)

-- For a digest length from 1 to 64, init, one update for each piece of the input, empty pieces
-- included, and final succeed, and write the digest that the unbuffered reference function computes
-- of the joined pieces, however the input is cut.
pub digest_of-joined :
    (n : ℕ) (pieces : List Bytes)
    → 0 < n
    → n ≤ outbytes
    → digest_of n pieces ≡ some (hash_from n (chain (start n)) (joined pieces))
unfolding digest_of
digest_of-joined n pieces pos max =
    let (s, e, a) = update_all-Absorbs (start n) pieces (start-IsOpen n) in
    let same : s.outlen ≡ n = a.same_outlen ∙ start_outlen n max in
    let h = a.same_hash n [] in
    rw (init_lem n pos max) (
      rw e (
        rw (final-hash s n a.still_open (omega (arith, same))) (
          ap some (
            ap (λ (k : ℕ). hash_from k (chain s) (pending s)) same
            ∙ (ap (hash_from n (chain s)) (sym (append-nil (pending s)))
                ∙ (h ∙ ap (hash_from n (chain (start n))) (behind_start n pieces)))))))
