-- ===== src/Blake2b/Stream.antt =====
-- The streaming interface computes the hash of the whole message, however it is cut into updates.
use argon.Base.{ℕ, zero, suc, ◌+◌, ◌≤◌, ◌<◌, ◌≡◌, ◌∙◌, refl, sym, ap, arith}
use argon.Base.{◌++◌, append_assoc, Bytes, length, length-append, take, drop}
use argon.Base.{length-take, length-drop, take_append_self}
use argon.Base.{take_append_le, drop_append_le, ltb}
use argon.Base.{u32, Bool-cases, inl, inr}
use argon.Blake2b.{State, blockbytes, compress, increment_counter, write_at, whole_blocks, keep}
use argon.Blake2b.Spec.{Chain, absorb, hash_from, hash_from_block}

-- A state that takes input: not finished, of a sequential hash, its counts within the buffer.
pub record IsOpen (s : State) : Type 0 where
  pub f0_zero : s.f0 ≡ 0
  pub f1_zero : s.f1 ≡ 0
  pub no_tree : s.last_node ≡ 0
  pub buf_length : length s.buf ≡ blockbytes
  pub buflen_max : s.buflen ≤ blockbytes

abbrev pub chain : State → Chain
chain s = record { h = s.h; t0 = s.t0; t1 = s.t1 }

-- The input that waits in the buffer.
abbrev pub pending : State → Bytes
pending s = take s.buflen s.buf

-- `s'` is `s` after the input: what follows is hashed behind it.
pub record Absorbs (s : State) (input : Bytes) (s' : State) : Type 0 where
  pub still_open : IsOpen s'
  pub same_outlen : s'.outlen ≡ s.outlen
  pub same_hash :
      (n : ℕ) (more : Bytes)
      → hash_from n (chain s') (pending s' ++ more)
        ≡ hash_from n (chain s) (pending s ++ (input ++ more))

pub length-write_at :
    (buf : Bytes) (off : ℕ) (src : Bytes)
    → off + length src ≤ length buf
    → length (write_at buf off src) ≡ length buf
length-write_at buf off src h = omega (
  arith,
  length-append (take off buf ++ src) (drop (off + length src) buf),
  length-append (take off buf) src,
  length-take off buf,
  length-drop (off + length src) buf,
)

pub take-write_at :
    (buf : Bytes) (off : ℕ) (src : Bytes)
    → off ≤ length buf
    → take (off + length src) (write_at buf off src) ≡ take off buf ++ src
take-write_at buf off src h =
    take_append_self (take off buf ++ src) (drop (off + length src) buf) (off + length src)
      (omega (arith, length-append (take off buf) src, length-take off buf))

pub keep-Absorbs :
    (s : State) (pin : Bytes)
    → IsOpen s
    → s.buflen + length pin ≤ blockbytes
    → Absorbs s pin (keep (s, pin))
unfolding keep
keep-Absorbs s pin o room = record {
  still_open = record {
    f0_zero = o.f0_zero;
    f1_zero = o.f1_zero;
    no_tree = o.no_tree;
    buf_length = length-write_at s.buf s.buflen pin (omega arith) ∙ o.buf_length;
    buflen_max = omega arith;
  };
  same_outlen = refl;
  same_hash = λ n more.
      let exact : u32 (s.buflen + length pin) ≡ s.buflen + length pin = omega arith in
      ap (λ (l : Bytes). hash_from n (chain s) l)
        (rw exact (
          rw (take-write_at s.buf s.buflen pin (omega arith)) (append_assoc (pending s) pin more)));
}

pub compress-chain :
    (s : State) (block : Bytes)
    → s.f0 ≡ 0
    → s.f1 ≡ 0
    → chain (compress (increment_counter s blockbytes) block) ≡ absorb (chain s) block
unfolding compress increment_counter
compress-chain s block p q = rw (p, q)

-- What the loop over whole blocks leaves: an open state with an empty buffer, and the rest.
pub record IsReduced (s : State) (pin : Bytes) (s' : State) (rest : Bytes) : Type 0 where
  pub still_open : IsOpen s'
  pub empty : s'.buflen ≡ 0
  pub same_outlen : s'.outlen ≡ s.outlen
  pub rest_max : length rest ≤ blockbytes
  pub same_hash :
      (n : ℕ) (more : Bytes)
      → hash_from n (chain s') (rest ++ more) ≡ hash_from n (chain s) (pin ++ more)

-- A full block in front of a longer message.
hash_first_block :
    (n : ℕ) (c : Chain) (pin more : Bytes)
    → blockbytes < length pin
    → hash_from n (absorb c (take blockbytes pin)) (drop blockbytes pin ++ more)
      ≡ hash_from n c (pin ++ more)
hash_first_block n c pin more h = sym (
    hash_from_block n c (pin ++ more) (omega (arith, length-append pin more))
    ∙ rw (take_append_le pin more blockbytes (omega arith))
        (rw (drop_append_le pin more blockbytes (omega arith))))

pub compress-IsOpen :
    (s : State) (block : Bytes)
    → IsOpen s
    → IsOpen (compress (increment_counter s blockbytes) block)
unfolding compress increment_counter
compress-IsOpen s block o = record {
  f0_zero = o.f0_zero;
  f1_zero = o.f1_zero;
  no_tree = o.no_tree;
  buf_length = o.buf_length;
  buflen_max = o.buflen_max;
}

pub compress_keeps :
    (s : State) (block : Bytes)
    → let s' = compress (increment_counter s blockbytes) block in
      (s'.buflen ≡ s.buflen) × (s'.outlen ≡ s.outlen)
unfolding compress increment_counter
compress_keeps s block = (refl, refl)

pub whole_blocks-IsReduced :
    (fuel : ℕ) (s : State) (pin : Bytes)
    → IsOpen s
    → s.buflen ≡ 0
    → length pin ≤ fuel
    → let r = whole_blocks fuel s pin in IsReduced s pin r.0 r.1
unfolding whole_blocks
whole_blocks-IsReduced zero s pin o e h = record {
  still_open = o;
  empty = e;
  same_outlen = refl;
  rest_max = omega arith;
  same_hash = λ n more. refl;
}
whole_blocks-IsReduced (suc fuel) s pin o e h = elim (Bool-cases (ltb blockbytes (length pin))) [
  | inl more ↦
      let block = take blockbytes pin in
      let s' = compress (increment_counter s blockbytes) block in
      let (len_eq, out_eq) = compress_keeps s block in
      let longer : blockbytes < length pin = ground arith in
      let r =
        whole_blocks-IsReduced fuel s' (drop blockbytes pin) (compress-IsOpen s block o)
          (len_eq ∙ e) (omega (arith, length-drop blockbytes pin)) in
      rw more (record {
        still_open = r.still_open;
        empty = r.empty;
        same_outlen = r.same_outlen ∙ out_eq;
        rest_max = r.rest_max;
        same_hash = λ n more.
            r.same_hash n more
            ∙ (rw (compress-chain s block o.f0_zero o.f1_zero)
                (hash_first_block n (chain s) pin more longer));
      })
  | inr last ↦ rw last (record {
    still_open = o;
    empty = e;
    same_outlen = refl;
    rest_max = ground arith;
    same_hash = λ n more. refl;
  })
]
