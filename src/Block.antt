-- ===== src/Block.antt =====
-- Blocks of argon2/src/core.c, the round function of argon2/src/blake2/blamka-round-ref.h and
-- `fill_block` of argon2/src/ref.c.
pub mod Overwrite
pub mod RoundTrip
pub mod WellFormed
pub mod Tests
use argon.Base.{
  ℕ, zero, suc, ◌+◌, ◌*◌, ◌/◌, ◌%◌, ◌^◌, bit_xor, Bool, List, [], ◌∷◌, Bytes, get_or, set,
}
use argon.Base.{replicate, take, u64, if◌then◌else◌}
use argon.Words.{load_words, store_words, rotr64}
use argon.Compress.{xor_words}
use argon.Instance.{qwords_in_block}

-- `block`: 128 words.
abbrev pub Block : Type 0
Block = List ℕ

-- `init_block_value(b, in)`: every byte is `in`.
unfoldable pub init_block_value : ℕ → Block
init_block_value byte = replicate qwords_in_block (byte * 0x0101_0101_0101_0101)

-- `xor_block`.
abbrev pub xor_block : Block → Block → Block
xor_block dst src = xor_words dst src

pub load_block : Bytes → Block
load_block input = load_words qwords_in_block input

pub store_block : Block → Bytes
store_block b = store_words (take qwords_in_block b)

-- `fBlaMka`.
unfoldable pub f_blamka : ℕ → ℕ → ℕ
f_blamka x y = let xy = u64 ((x % 2 ^ 32) * (y % 2 ^ 32)) in u64 (u64 (x + y) + u64 (2 * xy))

-- `G` on four words.
unfoldable pub blamka_mix : ℕ → ℕ → ℕ → ℕ → List ℕ
unfolding f_blamka
blamka_mix a₀ b₀ c₀ d₀ =
    let a₁ = f_blamka a₀ b₀ in
    let d₁ = rotr64 (bit_xor d₀ a₁) 32 in
    let c₁ = f_blamka c₀ d₁ in
    let b₁ = rotr64 (bit_xor b₀ c₁) 24 in
    let a₂ = f_blamka a₁ b₁ in
    let d₂ = rotr64 (bit_xor d₁ a₂) 16 in
    let c₂ = f_blamka c₁ d₂ in let b₂ = rotr64 (bit_xor b₁ c₂) 63 in a₂ ∷ b₂ ∷ c₂ ∷ d₂ ∷ []

-- `G(v[a], v[b], v[c], v[d])` in place.
unfoldable pub blamka_step : ℕ → ℕ → ℕ → ℕ → Block → Block
unfolding blamka_mix
blamka_step a b c d v =
    let q = blamka_mix (get_or v a 0) (get_or v b 0) (get_or v c 0) (get_or v d 0) in
    set (set (set (set v a (get_or q 0 0)) b (get_or q 1 0)) c (get_or q 2 0)) d (get_or q 3 0)

-- `BLAKE2_ROUND_NOMSG` on the sixteen words at `at 0` to `at 15`.
unfoldable pub round_nomsg : (ℕ → ℕ) → Block → Block
unfolding blamka_step
round_nomsg at v₀ =
    let v₁ = blamka_step (at 0) (at 4) (at 8) (at 12) v₀ in
    let v₂ = blamka_step (at 1) (at 5) (at 9) (at 13) v₁ in
    let v₃ = blamka_step (at 2) (at 6) (at 10) (at 14) v₂ in
    let v₄ = blamka_step (at 3) (at 7) (at 11) (at 15) v₃ in
    let v₅ = blamka_step (at 0) (at 5) (at 10) (at 15) v₄ in
    let v₆ = blamka_step (at 1) (at 6) (at 11) (at 12) v₅ in
    let v₇ = blamka_step (at 2) (at 7) (at 8) (at 13) v₆ in
    blamka_step (at 3) (at 4) (at 9) (at 14) v₇

-- Where the `k`-th argument of the `i`-th round stands, in the loop over columns and in the one over
-- rows.
unfoldable pub column : ℕ → ℕ → ℕ
column i k = 16 * i + k

unfoldable pub row : ℕ → ℕ → ℕ
row i k = 2 * i + 16 * (k / 2) + k % 2

-- `for (i = 0; i < 8; ++i)`, with the rounds that are left.
unfoldable pub nomsg_rounds : (ℕ → ℕ → ℕ) → ℕ → ℕ → Block → Block
unfolding round_nomsg
nomsg_rounds at zero i v = v
nomsg_rounds at (suc n) i v = nomsg_rounds at n (i + 1) (round_nomsg (at i) v)

-- The content of `next_block` afterwards. The blocks are read before `next_block` is written, so they
-- may be the same one.
unfoldable pub fill_block : Block → Block → Block → Bool → Block
unfolding nomsg_rounds column row
fill_block prev_block ref_block next_block with_xor =
    let r = xor_block ref_block prev_block in
    let tmp = if with_xor then xor_block r next_block else r in
    let z = nomsg_rounds row 8 0 (nomsg_rounds column 8 0 r) in xor_block tmp z
