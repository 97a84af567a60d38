-- ===== src/Blake2b/Spec.antt =====
-- The hash of a whole message, with no buffer: full blocks one after the other while more than one
-- block is left, then the last block, filled up with zeros, with the flag of the last block.
use argon.Base.{
  ℕ, zero, suc, ◌+◌, ◌-◌, ◌≤◌, ◌<◌, ◌≡◌, ◌∙◌, refl, arith, List, ◌++◌, Bytes, length, take, drop,
}
use argon.Base.{
  length-drop, replicate, ltb, if◌then◌else◌, u64, true, Bool-cases, inl, inr, lt→ltb, le→ltb,
}
use argon.Words.{store_words}
use argon.Compress.{compress_words}
use argon.Blake2b.{blockbytes, all_ones}

-- The chaining words and the two words of the counter.
pub record Chain : Type 0 where
  pub h : List ℕ
  pub t0 : ℕ
  pub t1 : ℕ

-- The counter is a number of 128 bits, in two words.
abbrev pub count_on : Chain → ℕ → Chain
count_on c inc =
    let t = u64 (c.t0 + inc) in record c { t0 = t; t1 = u64 (c.t1 + (if ltb t inc then 1 else 0)) }

abbrev pub absorb : Chain → Bytes → Chain
absorb c block =
    let c' = count_on c blockbytes in record c' { h = compress_words c'.h c'.t0 c'.t1 0 0 block }

abbrev pub close : ℕ → Chain → Bytes → Bytes
close outlen c msg =
    let c' = count_on c (length msg) in
    let block = msg ++ replicate (blockbytes - length msg) 0 in
    take outlen (store_words (take 8 (compress_words c'.h c'.t0 c'.t1 all_ones 0 block)))

hash_fuel : ℕ → ℕ → Chain → Bytes → Bytes
hash_fuel zero outlen c msg = close outlen c msg
hash_fuel (suc fuel) outlen c msg =
    let more = hash_fuel fuel outlen (absorb c (take blockbytes msg)) (drop blockbytes msg) in
    if ltb blockbytes (length msg) then more else close outlen c msg

-- The digest of `msg` behind what the chain has absorbed.
pub hash_from : ℕ → Chain → Bytes → Bytes
hash_from outlen c msg = hash_fuel (length msg) outlen c msg

hash_fuel-enough :
    (f g outlen : ℕ) (c : Chain) (msg : Bytes)
    → length msg ≤ f
    → length msg ≤ g
    → hash_fuel f outlen c msg ≡ hash_fuel g outlen c msg
unfolding hash_fuel
hash_fuel-enough zero zero outlen c msg p q = refl
hash_fuel-enough zero (suc g) outlen c msg p q = rw (le→ltb blockbytes (length msg) (omega arith))
hash_fuel-enough (suc f) zero outlen c msg p q = rw (le→ltb blockbytes (length msg) (omega arith))
hash_fuel-enough (suc f) (suc g) outlen c msg p q =
    elim (Bool-cases (ltb blockbytes (length msg))) [
      | inl more ↦ rw more (
          hash_fuel-enough f g outlen (absorb c (take blockbytes msg)) (drop blockbytes msg)
            (short f p more) (short g q more))
      | inr last ↦ rw last
    ]
  where
    short :
        (k : ℕ)
        → length msg ≤ suc k
        → ltb blockbytes (length msg) ≡ true
        → length (drop blockbytes msg) ≤ k
    short k le more = ground (arith, length-drop blockbytes msg)

-- A message of more than one block.
pub hash_from_block :
    (outlen : ℕ) (c : Chain) (msg : Bytes)
    → blockbytes < length msg
    → hash_from outlen c msg
      ≡ hash_from outlen (absorb c (take blockbytes msg)) (drop blockbytes msg)
unfolding hash_from
hash_from_block outlen c msg h =
    hash_fuel-enough (length msg) (suc (length msg)) outlen c msg (omega arith) (omega arith)
    ∙ (step
        ∙ hash_fuel-enough (length msg) (length (drop blockbytes msg)) outlen
            (absorb c (take blockbytes msg)) (drop blockbytes msg)
            (omega (arith, length-drop blockbytes msg)) (omega arith))
  where
    step :
        hash_fuel (suc (length msg)) outlen c msg
        ≡ hash_fuel (length msg) outlen (absorb c (take blockbytes msg)) (drop blockbytes msg)
    step = unfold hash_fuel in rw (lt→ltb blockbytes (length msg) h)

-- A message of at most one block.
pub hash_from_last :
    (outlen : ℕ) (c : Chain) (msg : Bytes)
    → length msg ≤ blockbytes
    → hash_from outlen c msg ≡ close outlen c msg
unfolding hash_from
hash_from_last outlen c msg h =
    hash_fuel-enough (length msg) (suc (length msg)) outlen c msg (omega arith) (omega arith) ∙ step
  where
    step : hash_fuel (suc (length msg)) outlen c msg ≡ close outlen c msg
    step = unfold hash_fuel in rw (le→ltb blockbytes (length msg) h)
