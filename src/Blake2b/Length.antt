-- ===== src/Blake2b/Length.antt =====
-- The digests have the lengths that are asked for, and `blake2b_long` returns one for every length.
use argon.Base.{ℕ, zero, suc, ◌-◌, ◌≤◌, ◌<◌, ◌≡◌, ◌∙◌, ap, arith, Option, some}
use argon.Base.{
  IsByte, IsBytes, All-take, List, ◌++◌, Bytes, length, length-take, length-drop, replicate, take,
  drop,
}
use argon.Words.{load_words, store_words}
use argon.Words.RoundTrip.{store_words-IsBytes, length-store_words, length-load_words}
use argon.Compress.{compress_words, iv}
use native.Mathlib.Decide.{dec_lt}
use argon.Compress.Bounds.{length-xor_words, length-compress_words}
use argon.Blake2b.{init_param, param_block, init0, blockbytes, all_ones, outbytes}
use argon.Blake2b.Spec.{Chain, absorb, close, count_on, hash_from, hash_from_last, hash_from_block}
use argon.Blake2b.Stream.{chain}
use argon.Blake2b.Final.{start, joined, digest_of, digest_of-joined}

length-close :
    (outlen : ℕ) (c : Chain) (msg : Bytes)
    → outlen ≤ outbytes
    → length c.h ≡ 8
    → length (close outlen c msg) ≡ outlen
length-close outlen c msg h eight =
    let c' = count_on c (length msg) in
    let words =
      compress_words c'.h c'.t0 c'.t1 all_ones 0 (msg ++ replicate (blockbytes - length msg) 0) in
    let count : length words ≡ 8 = length-compress_words c'.h c'.t0 c'.t1 all_ones 0 _ eight in
    omega (
      arith,
      count,
      length-take outlen (store_words (take 8 words)),
      length-store_words (take 8 words),
      length-take 8 words,
    )

close-IsBytes : (outlen : ℕ) (c : Chain) (msg : Bytes) → IsBytes (close outlen c msg)
close-IsBytes outlen c msg = All-take IsByte outlen _ (store_words-IsBytes _)

-- By the number of bytes, which bounds the length of the message.
length-hash_from :
    (n outlen : ℕ) (c : Chain) (msg : Bytes)
    → length msg ≤ n
    → outlen ≤ outbytes
    → length c.h ≡ 8
    → length (hash_from outlen c msg) ≡ outlen
length-hash_from zero outlen c msg le room eight =
    ap length (hash_from_last outlen c msg (omega arith)) ∙ length-close outlen c msg room eight
length-hash_from (suc n) outlen c msg le room eight = elim (dec_lt blockbytes (length msg)) [
  | no last ↦
      ap length (hash_from_last outlen c msg (omega arith)) ∙ length-close outlen c msg room eight
  | yes more ↦
      let c' = count_on c blockbytes in
      let block = take blockbytes msg in
      ap length (hash_from_block outlen c msg more)
      ∙ length-hash_from n outlen (absorb c block) (drop blockbytes msg)
          (omega (arith, length-drop blockbytes msg)) room
          (length-compress_words c'.h c'.t0 c'.t1 0 0 block eight)
]

hash_from-IsBytes :
    (n outlen : ℕ) (c : Chain) (msg : Bytes) → length msg ≤ n → IsBytes (hash_from outlen c msg)
hash_from-IsBytes zero outlen c msg le =
    rw (hash_from_last outlen c msg (omega arith)) (close-IsBytes outlen c msg)
hash_from-IsBytes (suc n) outlen c msg le = elim (dec_lt blockbytes (length msg)) [
  | no last ↦ rw (hash_from_last outlen c msg (omega arith)) (close-IsBytes outlen c msg)
  | yes more ↦ rw (hash_from_block outlen c msg more) (
      hash_from-IsBytes n outlen (absorb c (take blockbytes msg)) (drop blockbytes msg)
        (omega (arith, length-drop blockbytes msg)))
]

-- A digest of `n` bytes.
abbrev pub HasDigest : ℕ → Option Bytes → Type 0
HasDigest n r = (digest : Bytes) × (r ≡ some digest) × (length digest ≡ n) × IsBytes digest

start_words : (n : ℕ) → length (start n).h ≡ 8
unfolding init_param init0
start_words n =
    let p = load_words 8 (param_block n 0) in
    length-xor_words iv p (omega (arith, length-load_words 8 (param_block n 0)))

-- init, the updates and final write a digest of the length asked for.
pub digest_of-HasDigest :
    (n : ℕ) (pieces : List Bytes) → 0 < n → n ≤ outbytes → HasDigest n (digest_of n pieces)
digest_of-HasDigest n pieces pos max =
    let msg = joined pieces in
    let c = chain (start n) in
    (
      hash_from n c msg,
      digest_of-joined n pieces pos max,
      length-hash_from (length msg) n c msg (omega arith) max (start_words n),
      hash_from-IsBytes (length msg) n c msg (omega arith),
    )
