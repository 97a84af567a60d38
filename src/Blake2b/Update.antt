-- ===== src/Blake2b/Update.antt =====
-- `blake2b_update` absorbs its input, and `blake2b_final` closes the hash of all that was absorbed.
use argon.Base.{ℕ, ◌+◌, ◌-◌, ◌<◌, ◌≡◌, ◌∙◌, refl, sym, ap, arith, Option, some}
use argon.Base.{[], ◌∷◌, ◌++◌, append_assoc, Bytes, length, length-append, take, drop}
use argon.Base.{length-take, length-drop, take-append-drop, take_append_self}
use argon.Base.{drop_append_self, take_all, ltb, ◌==◌}
use argon.Base.{if◌then◌else◌, Bool, true, false, ==_iff, lt→ltb, le→ltb}
use native.Mathlib.Decide.{dec_lt}
use argon.Blake2b.{
  State, blockbytes, compress, increment_counter, write_at, whole_blocks, keep, update,
}
use argon.Blake2b.Spec.{Chain, absorb, hash_from, hash_from_block}
use argon.Blake2b.Stream.{
  IsOpen, chain, pending, Absorbs, length-write_at, take-write_at, keep-Absorbs,
}
use argon.Blake2b.Stream.{compress-chain, compress-IsOpen, compress_keeps, whole_blocks-IsReduced}

pending_nil : (s : State) → s.buflen ≡ 0 → (rest : Bytes) → pending s ++ rest ≡ rest
pending_nil s e rest = ap (λ (k : ℕ). take k s.buf ++ rest) e

-- The state after the first block, which the waiting bytes and the head of the input fill.
abbrev filled : State → Bytes → State
filled s input = record s { buf = write_at s.buf s.buflen (take (blockbytes - s.buflen) input) }

abbrev full : State → Bytes → State
full s input =
    record (compress (increment_counter (filled s input) blockbytes) (filled s input).buf) {
      buflen = 0;
    }

module _ (s : State) (input : Bytes) (o : IsOpen s)
    (long : blockbytes < s.buflen + length input) where
  head_length : length (take (blockbytes - s.buflen) input) ≡ blockbytes - s.buflen
  head_length = omega (arith, length-take (blockbytes - s.buflen) input, o.buflen_max)

  length-filled : length (filled s input).buf ≡ blockbytes
  length-filled =
      length-write_at s.buf s.buflen (take (blockbytes - s.buflen) input)
        (omega (arith, head_length, o.buflen_max, o.buf_length))
      ∙ o.buf_length

  filled-buf : (filled s input).buf ≡ pending s ++ take (blockbytes - s.buflen) input
  filled-buf =
      sym (
        take_all (filled s input).buf (s.buflen + length (take (blockbytes - s.buflen) input))
          (omega (arith, length-filled, head_length, o.buflen_max)))
      ∙ take-write_at s.buf s.buflen (take (blockbytes - s.buflen) input)
          (omega (arith, o.buflen_max, o.buf_length))

  filled-IsOpen : IsOpen (filled s input)
  filled-IsOpen = record {
    f0_zero = o.f0_zero;
    f1_zero = o.f1_zero;
    no_tree = o.no_tree;
    buf_length = length-filled;
    buflen_max = o.buflen_max;
  }

  full-IsOpen : IsOpen (full s input)
  full-IsOpen =
      let c = compress-IsOpen (filled s input) (filled s input).buf filled-IsOpen in
      record {
        f0_zero = c.f0_zero;
        f1_zero = c.f1_zero;
        no_tree = c.no_tree;
        buf_length = c.buf_length;
        buflen_max = omega arith;
      }

  message_eq :
      (more : Bytes)
      → pending s ++ (input ++ more)
        ≡ (pending s ++ take (blockbytes - s.buflen) input)
          ++ (drop (blockbytes - s.buflen) input ++ more)
  message_eq more =
      ap (λ (l : Bytes). pending s ++ (l ++ more))
        (sym (take-append-drop (blockbytes - s.buflen) input))
      ∙ simp append_assoc

  block_length : length (pending s ++ take (blockbytes - s.buflen) input) ≡ blockbytes
  block_length = omega (
    arith,
    length-append (pending s) (take (blockbytes - s.buflen) input),
    length-take s.buflen s.buf,
    head_length,
    o.buflen_max,
    o.buf_length,
  )

  tail_length : 0 < length (drop (blockbytes - s.buflen) input)
  tail_length = omega (arith, length-drop (blockbytes - s.buflen) input, o.buflen_max)

  full_hash :
      (n : ℕ) (more : Bytes)
      → hash_from n (chain (full s input)) (drop (blockbytes - s.buflen) input ++ more)
        ≡ hash_from n (chain s) (pending s ++ (input ++ more))
  full_hash n more =
      let block = pending s ++ take (blockbytes - s.buflen) input in
      let rest = drop (blockbytes - s.buflen) input ++ more in
      ap (λ (c : Chain). hash_from n c rest)
        (compress-chain (filled s input) (filled s input).buf o.f0_zero o.f1_zero)
      ∙ (ap (λ (b : Bytes). hash_from n (absorb (chain s) b) rest) filled-buf
          ∙ sym (
              ap (λ (l : Bytes). hash_from n (chain s) l) (message_eq more)
              ∙ (hash_from_block n (chain s) (block ++ rest) (
                    omega (
                      arith,
                      length-append block rest,
                      length-append (drop (blockbytes - s.buflen) input) more,
                      block_length,
                      tail_length,
                    ))
                  ∙ rw (take_append_self block rest blockbytes block_length)
                      (rw (drop_append_self block rest blockbytes block_length)))))

  update_long-Absorbs : Absorbs s input (
      keep (
        whole_blocks
          (length (drop (blockbytes - s.buflen) input))
          (full s input)
          (drop (blockbytes - s.buflen) input)))
  update_long-Absorbs =
      let rest = drop (blockbytes - s.buflen) input in
      let r =
        whole_blocks-IsReduced (length rest) (full s input) rest full-IsOpen refl (omega arith) in
      let w = whole_blocks (length rest) (full s input) rest in
      let k = keep-Absorbs w.0 w.1 r.still_open (omega (arith, r.empty, r.rest_max)) in
      record {
        still_open = k.still_open;
        same_outlen =
            k.same_outlen
            ∙ (r.same_outlen ∙ (compress_keeps (filled s input) (filled s input).buf).1);
        same_hash = λ n more.
            k.same_hash n more
            ∙ (ap (λ (l : Bytes). hash_from n (chain w.0) l) (pending_nil w.0 r.empty (w.1 ++ more))
                ∙ (r.same_hash n more ∙ full_hash n more));
      }

-- The branch that a test chooses.
branch_then : (x y : Option State) (p : Bool) → p ≡ true → (if p then x else y) ≡ x
branch_then x y p e = ground arith

branch_last : (x y : Option State) (p : Bool) → p ≡ false → (if p then x else y) ≡ y
branch_last x y p e = ground arith

length_cons : (b : ℕ) (input : Bytes) → (length (b ∷ input) == 0) ≡ false
length_cons b input = ground arith

-- `blake2b_update` succeeds on every open state and every input, and leaves an open state that has
-- absorbed the input: whatever follows is hashed behind what waited in the buffer and the input.
pub update-Absorbs :
    (s : State) (input : Bytes)
    → IsOpen s
    → (s' : State) × (update s input ≡ some s') × Absorbs s input s'
unfolding update
update-Absorbs s [] o =
    (s, refl, record { still_open = o; same_outlen = refl; same_hash = λ n more. refl })
update-Absorbs s (b ∷ input) o = elim (dec_lt blockbytes (s.buflen + length (b ∷ input))) [
  | yes long ↦ (
    keep (
        whole_blocks (length (drop (blockbytes - s.buflen) (b ∷ input))) (full s (b ∷ input))
          (drop (blockbytes - s.buflen) (b ∷ input))),
    branch_last _ _ (length (b ∷ input) == 0) (length_cons b input)
        ∙ (branch_then _ _ (s.f0 == 0) ((==_iff s.f0 0).1 o.f0_zero)
            ∙ branch_then _ _ (ltb blockbytes (s.buflen + length (b ∷ input))) (lt→ltb _ _ long)),
    update_long-Absorbs s (b ∷ input) o long,
  )
  | no short ↦ (
    keep (s, b ∷ input),
    branch_last _ _ (length (b ∷ input) == 0) (length_cons b input)
        ∙ (branch_then _ _ (s.f0 == 0) ((==_iff s.f0 0).1 o.f0_zero)
            ∙ branch_last _ _ (ltb blockbytes (s.buflen + length (b ∷ input)))
                (le→ltb _ _ (omega arith))),
    keep-Absorbs s (b ∷ input) o (omega arith),
  )
]
