-- ===== src/Opt/FillBlock.antt =====
-- `fill_block` of argon2/src/opt.c computes the block that `fill_block` of argon2/src/ref.c computes.
use argon.Base.{
  ℕ, zero, suc, ◌+◌, ◌*◌, ◌/◌, ◌%◌, ◌<◌, ◌≡◌, ◌∙◌, refl, sym, ap, arith, Bool, true, false, bit_xor,
  bit_xor_comm, length, length-replicate, replicate, get_or, eq_of_get_or,
}
use argon.Block.{Block, fill_block, nomsg_rounds, row, column, xor_block}
use argon.Block.WellFormed.{IsBlock, xor_block-IsBlock, get_or-xor_words}
use argon.Compress.Bounds.{length-xor_words}
use argon.Simd.Round.{IsTarget}
use argon.Simd.{M128, Target}
use argon.Opt.{
  VectorState, owords_in_block, zero_register, register_at, take_in, write_out, opt_rounds,
  column_registers, row_registers, fill_block_opt,
}
use argon.Opt.Flatten.{flatten, half, length-flatten, get_or-flatten}
use argon.Opt.Round.{flatten-opt_rounds}
use argon.Opt.Loops.{
  mixed_in, held, length-take_in, take_in_inside, length-write_out, write_out_inside,
  write_out-flatten,
}

half_xor :
    (s : Target) (doc : IsTarget s) (b : ℕ) (x y : M128)
    → half b (s.ops.xor_si128 x y) ≡ bit_xor (half b x) (half b y)
unfolding half
half_xor s doc zero x y = rw (doc.documented.xor_eq x y) refl
half_xor s doc (suc b) x y = rw (doc.documented.xor_eq x y) refl

half_low :
    (b : Block) (i : ℕ) → half 0 (get_or b (2 * i) 0, get_or b (2 * i + 1) 0) ≡ get_or b (2 * i) 0
unfolding half
half_low b i = refl

half_high :
    (b : Block) (i : ℕ)
    → half 1 (get_or b (2 * i) 0, get_or b (2 * i + 1) 0) ≡ get_or b (2 * i + 1) 0
unfolding half
half_high b i = refl

half_loadu :
    (s : Target) (doc : IsTarget s) (b : Block) (x : ℕ)
    → half (x % 2) (s.ops.loadu_si128 b (x / 2)) ≡ get_or b x 0
half_loadu s doc b x =
    rw (doc.documented.loadu_eq b (x / 2)) (pick (x % 2) (omega arith) (omega arith))
  where
    pick :
        (r : ℕ)
        → r < 2
        → x ≡ 2 * (x / 2) + r
        → half r (get_or b (2 * (x / 2)) 0, get_or b (2 * (x / 2) + 1) 0) ≡ get_or b x 0
    pick zero h e = half_low b (x / 2) ∙ ap (λ (y : ℕ). get_or b y 0) (omega arith)
    pick (suc zero) h e = half_high b (x / 2) ∙ ap (λ (y : ℕ). get_or b y 0) (omega arith)
    pick (suc (suc r)) h e = absurd (omega arith)

-- A state is the words of a block where its registers are.
flatten_eq :
    (st : VectorState) (b : Block)
    → 2 * length st ≡ length b
    → ((x : ℕ) → x < length b → half (x % 2) (register_at st (x / 2)) ≡ get_or b x 0)
    → flatten st ≡ b
flatten_eq st b e h =
    let n = length-flatten st in
    eq_of_get_or (flatten st) b 0 (n ∙ e) (λ x lt. get_or-flatten st x ∙ h x (omega (arith, n)))

-- `block_tmp` of the reference before the rounds, from `blockR`.
block_tmp : Block → Block → Bool → Block
block_tmp r next true = xor_block r next
block_tmp r next false = r

fill_block_lem :
    (prev ref next : Block) (with_xor : Bool)
    → let r = xor_block ref prev in
      fill_block prev ref next with_xor
      ≡ xor_block (block_tmp r next with_xor) (nomsg_rounds row 8 0 (nomsg_rounds column 8 0 r))
unfolding fill_block block_tmp
fill_block_lem prev ref next true = refl
fill_block_lem prev ref next false = refl

module _ (s : Target) (doc : IsTarget s) (st : VectorState) (ref next : Block) (with_xor : Bool)
    (len : length st ≡ owords_in_block) (h : IsBlock (flatten st)) (k : IsBlock ref)
    (l : IsBlock next) where
  abbrev taken_in : VectorState × VectorState
  taken_in =
      take_in s ref next with_xor owords_in_block 0 st (replicate owords_in_block zero_register)

  lengths : (length taken_in.0 ≡ owords_in_block) × (length taken_in.1 ≡ owords_in_block)
  lengths =
      let (p, q) =
        length-take_in s ref next with_xor owords_in_block 0 st
          (replicate owords_in_block zero_register) in
      (p ∙ len, q ∙ length-replicate {A = M128} owords_in_block zero_register)

  inside :
      (x : ℕ)
      → x < 128
      → (register_at taken_in.0 (x / 2) ≡ mixed_in s ref next with_xor st (x / 2))
        × (register_at taken_in.1 (x / 2) ≡ held s ref next with_xor st (x / 2))
  inside x lt =
      take_in_inside s ref next with_xor owords_in_block 0 (x / 2) st
        (replicate owords_in_block zero_register) (omega arith) (omega arith) (omega (arith, len))
        (omega (arith, length-replicate {A = M128} owords_in_block zero_register))

  mixed_in_word :
      (x : ℕ)
      → half (x % 2) (mixed_in s ref next with_xor st (x / 2))
        ≡ get_or (xor_block ref (flatten st)) x 0
  mixed_in_word x =
      half_xor s doc (x % 2) (register_at st (x / 2)) (s.ops.loadu_si128 ref (x / 2))
      ∙ (ap (λ (w : ℕ). bit_xor w (half (x % 2) (s.ops.loadu_si128 ref (x / 2))))
            (sym (get_or-flatten st x))
          ∙ (ap (bit_xor (get_or (flatten st) x 0)) (half_loadu s doc ref x)
              ∙ (bit_xor_comm (get_or (flatten st) x 0) (get_or ref x 0)
                  ∙ sym (get_or-xor_words ref (flatten st) x (k.count ∙ sym h.count)))))

  -- `blockR` of the reference.
  abbrev block_r : Block
  block_r = xor_block ref (flatten st)

  block_r-IsBlock : IsBlock block_r
  block_r-IsBlock = xor_block-IsBlock ref (flatten st) k h

  block_tmp-IsBlock : (b : Bool) → IsBlock (block_tmp block_r next b)
  unfolding block_tmp
  block_tmp-IsBlock true = xor_block-IsBlock block_r next block_r-IsBlock l
  block_tmp-IsBlock false = block_r-IsBlock

  held_word :
      (b : Bool) (x : ℕ)
      → half (x % 2) (held s ref next b st (x / 2)) ≡ get_or (block_tmp block_r next b) x 0
  unfolding block_tmp
  held_word false x = mixed_in_word x
  held_word true x =
      half_xor s doc (x % 2) (mixed_in s ref next true st (x / 2)) (s.ops.loadu_si128 next (x / 2))
      ∙ (ap (λ (w : ℕ). bit_xor w (half (x % 2) (s.ops.loadu_si128 next (x / 2)))) (mixed_in_word x)
          ∙ (ap (bit_xor (get_or block_r x 0)) (half_loadu s doc next x)
              ∙ sym (get_or-xor_words block_r next x (block_r-IsBlock.count ∙ sym l.count))))

  flatten-taken_in :
      (flatten taken_in.0 ≡ block_r) × (flatten taken_in.1 ≡ block_tmp block_r next with_xor)
  flatten-taken_in =
      let r = block_r-IsBlock.count in
      let t : length (block_tmp block_r next with_xor) ≡ 128 =
        let w = block_tmp-IsBlock with_xor in w.count in
      (
        flatten_eq taken_in.0 block_r (omega (arith, lengths.0, r))
            (λ x lt. ap (half (x % 2)) (inside x (omega (arith, r))).0 ∙ mixed_in_word x),
        flatten_eq taken_in.1 (block_tmp block_r next with_xor) (omega (arith, lengths.1, t))
            (λ x lt. ap (half (x % 2)) (inside x (omega (arith, t))).1 ∙ held_word with_xor x),
      )

  -- The words behind the rounds.
  abbrev mixed_block : Block
  mixed_block = nomsg_rounds row 8 0 (nomsg_rounds column 8 0 block_r)

  -- With intrinsics that do what their documentation says and forms of the macros that turn and rotate
  -- words of 64 bits, for 64 registers, a reference block and a next block of 64-bit words: `fill_block` of opt.c leaves the block that `fill_block` of ref.c computes,
  -- from the words of the registers as the previous block, both in the registers and in the next block.
  pub fill_block_opt_lem :
      let r = fill_block_opt s st ref next with_xor in
      let b = fill_block (flatten st) ref next with_xor in
      (length r.0 ≡ owords_in_block) × (flatten r.0 ≡ b) × (r.1 ≡ b)
  unfolding fill_block_opt
  fill_block_opt_lem =
      let b = fill_block (flatten st) ref next with_xor in
      let (e, e') = flatten-taken_in in
      let t = block_tmp-IsBlock with_xor in
      let st' = opt_rounds s row_registers 8 0 (opt_rounds s column_registers 8 0 taken_in.0) in
      let rounds = flatten-opt_rounds s taken_in.0 doc lengths.0 (rw e block_r-IsBlock.word) in
      let mixed : flatten st' ≡ mixed_block =
        rounds.1 ∙ ap (λ (v : Block). nomsg_rounds row 8 0 (nomsg_rounds column 8 0 v)) e in
      let out = write_out s taken_in.1 owords_in_block 0 st' next in
      let n : length out.0 ≡ owords_in_block =
        length-write_out s taken_in.1 owords_in_block 0 st' next ∙ rounds.0 in
      let size : length mixed_block ≡ 128 =
        sym (ap length mixed) ∙ omega (arith, length-flatten st', rounds.0) in
      let z = block_tmp block_r next with_xor in
      let total : length (xor_block z mixed_block) ≡ 128 =
        length-xor_words z mixed_block (omega (arith, t.count, size)) ∙ t.count in
      let same : flatten out.0 ≡ b =
        flatten_eq out.0 (xor_block z mixed_block) (omega (arith, n, total)) (λ x lt.
          ap (half (x % 2)) (
            write_out_inside s taken_in.1 owords_in_block 0 (x / 2) st' next (omega arith)
              (omega (arith, total)) (omega (arith, total, rounds.0)))
          ∙ (half_xor s doc (x % 2) (register_at st' (x / 2)) (register_at taken_in.1 (x / 2))
              ∙ (bit_xor_comm _ _
                  ∙ (ap (λ (w : ℕ). bit_xor w (half (x % 2) (register_at st' (x / 2))))
                        (sym (get_or-flatten taken_in.1 x) ∙ ap (λ (v : Block). get_or v x 0) e')
                      ∙ (ap (bit_xor (get_or z x 0))
                            (sym (get_or-flatten st' x) ∙ ap (λ (v : Block). get_or v x 0) mixed)
                          ∙ sym (get_or-xor_words z mixed_block x (t.count ∙ sym size)))))))
        ∙ sym (fill_block_lem (flatten st) ref next with_xor) in
      (n, same, write_out-flatten s doc taken_in.1 owords_in_block st' next rounds.0 l.count ∙ same)
