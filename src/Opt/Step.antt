-- ===== src/Opt/Step.antt =====
-- A round of `fill_segment` of argon2/src/opt.c does what a round of argon2/src/ref.c does.
use argon.Base.{
  ℕ, ◌+◌, ◌%◌, ◌≡◌, ◌∙◌, refl, sym, ap, arith, false, ◌==◌, ◌&&◌, length, replicate, get_or, set,
  u64, u32, if◌then◌else◌,
}
use argon.Instance.{Instance, Position, addresses_in_block}
use argon.Block.{Block, fill_block, init_block_value}
use argon.Block.WellFormed.{IsBlock, fill_block-IsBlock, set-IsBlock}
use argon.Block.Overwrite.{fill_block_plain}
use argon.Fill.{
  Segment, zero_block, block_at, data_independent, next_addresses, refreshed, rotated, pseudo_rand,
  ref_offset, segment_step,
}
use argon.Fill.WellFormed.{HasBlocks, zero_block-IsBlock}
use argon.Fill.Step.{next_block, with_xor, segment_step_lem}
use argon.Simd.Round.{IsTarget}
use argon.Simd.{Target}
use argon.Opt.{
  VectorState, OptSegment, owords_in_block, zero_register, fill_block_opt, next_addresses_opt,
  refreshed_opt, pseudo_rand_opt, segment_step_opt,
}
use argon.Opt.Flatten.{flatten}
use argon.Opt.FillBlock.{fill_block_opt_lem}

flatten-zeros : flatten (replicate owords_in_block zero_register) ≡ zero_block
unfolding flatten zero_block init_block_value
flatten-zeros = refl

module _ (s : Target) (doc : IsTarget s) where
  -- From a state of zeros, over any block.
  from_zeros :
      (ref next : Block)
      → IsBlock ref
      → IsBlock next
      → (fill_block_opt s (replicate owords_in_block zero_register) ref next false).1
        ≡ fill_block zero_block ref zero_block false
  from_zeros ref next h k =
      let z = replicate owords_in_block zero_register in
      let r =
        fill_block_opt_lem s doc z ref next false refl (rw flatten-zeros zero_block-IsBlock) h k in
      r.2
      ∙ (ap (λ (b : Block). fill_block b ref next false) flatten-zeros
          ∙ fill_block_plain zero_block ref next zero_block)

  pub next_addresses_opt_lem :
      (address input : Block)
      → IsBlock address
      → IsBlock input
      → next_addresses_opt s address input ≡ next_addresses input
  unfolding next_addresses_opt next_addresses
  next_addresses_opt_lem address input h k =
      let z = zero_block-IsBlock in
      let zeros = replicate owords_in_block zero_register in
      let next = set input 6 (u64 (get_or input 6 0 + 1)) in
      let next_block = set-IsBlock input 6 (u64 (get_or input 6 0 + 1)) k (omega arith) in
      let one = from_zeros next address next_block h in
      let b = fill_block zero_block next zero_block false in
      let is_b = fill_block-IsBlock zero_block next zero_block false z next_block z in
      let two = from_zeros b b is_b is_b ∙ fill_block_plain zero_block b zero_block b in
      let second = λ (a : Block). (fill_block_opt s zeros a a false).1 in
      ap (λ (a : Block). (a, next)) (ap second one ∙ two)

  refreshed_opt_lem :
      (i : Instance) (p : Position) (v : Segment)
      → HasBlocks v
      → refreshed_opt s i p v ≡ refreshed i p v
  unfolding refreshed_opt refreshed
  refreshed_opt_lem i p v h =
      ap
        (λ (r : Block × Block).
          if data_independent i p && (p.index % addresses_in_block == 0)
          then r
          else (v.address_block, v.input_block))
        (next_addresses_opt_lem v.address_block v.input_block h.address h.input)

  pseudo_rand_opt_lem :
      (i : Instance) (p : Position) (v : Segment)
      → HasBlocks v
      → pseudo_rand_opt s i p v ≡ pseudo_rand i p v
  unfolding pseudo_rand_opt pseudo_rand
  pseudo_rand_opt_lem i p v h =
      ap
        (λ (r : Block × Block).
          if data_independent i p
          then get_or r.0 (p.index % addresses_in_block) 0
          else get_or (block_at v.memory (rotated i v)) 0 0)
        (refreshed_opt_lem i p v h)

  module _ (i : Instance) (p : Position) (st : VectorState) (v : Segment) (h : HasBlocks v)
      (count : length st ≡ owords_in_block)
      (prev : flatten st ≡ block_at v.memory (rotated i v)) where
    abbrev pub stepped : OptSegment
    stepped = segment_step_opt s i p (record { vars = v; state = st })

    abbrev ref_block : ℕ → Block
    ref_block word = block_at v.memory (ref_offset i p word)

    -- `fill_block` at a round.
    round_block :
        let word = pseudo_rand_opt s i p v in
        let r =
          fill_block_opt s st (ref_block word) (block_at v.memory v.curr_offset) (with_xor i p) in
        (length r.0 ≡ owords_in_block)
        × (flatten r.0 ≡ next_block i p v v.memory)
        × (r.1 ≡ next_block i p v v.memory)
    unfolding next_block
    round_block =
        let word = pseudo_rand_opt s i p v in
        let r =
          fill_block_opt_lem s doc st (ref_block word) (block_at v.memory v.curr_offset)
            (with_xor i p) count (rw prev (h.blocks (rotated i v))) (h.blocks (ref_offset i p word))
            (h.blocks v.curr_offset) in
        let same : fill_block (flatten st) (ref_block word) (block_at v.memory v.curr_offset)
              (with_xor i p)
            ≡ next_block i p v v.memory =
          λ j.
            fill_block (prev j) (ref_block (pseudo_rand_opt_lem i p v h j))
              (block_at v.memory v.curr_offset) (with_xor i p) in
        (r.0, r.1 ∙ same, r.2 ∙ same)

    pub stepped-vars : stepped.vars ≡ segment_step i p v
    unfolding segment_step_opt
    stepped-vars =
        let blocks = refreshed_opt_lem i p v h in
        (λ j. record {
          memory = set v.memory v.curr_offset (round_block.2 j);
          address_block = (blocks j).0;
          input_block = (blocks j).1;
          prev_offset = u32 (rotated i v + 1);
          curr_offset = u32 (v.curr_offset + 1);
        })
        ∙ sym (segment_step_lem i p v v.memory)

    pub stepped-state :
        (length stepped.state ≡ owords_in_block)
        × (flatten stepped.state ≡ next_block i p v v.memory)
    unfolding segment_step_opt
    stepped-state = (round_block.0, round_block.1)
