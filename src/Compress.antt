-- ===== src/Compress.antt =====
-- The compression function of argon2/src/blake2/blake2b.c: its tables, `G`, `ROUND` and
-- `blake2b_compress` on the words of the state.
pub mod Bounds
use argon.Base.{
  ℕ, zero, suc, ◌+◌, ◌*◌, bit_xor, List, [], ◌∷◌, ◌++◌, Bytes, take, drop, get_or, set, u64,
}
use argon.Words.{load_words, rotr64}

abbrev pub iv : List ℕ
iv =
    0x6a09e667f3bcc908 ∷ 0xbb67ae8584caa73b ∷ 0x3c6ef372fe94f82b ∷ 0xa54ff53a5f1d36f1
    ∷ 0x510e527fade682d1 ∷ 0x9b05688c2b3e6c1f ∷ 0x1f83d9abfb41bd6b ∷ 0x5be0cd19137e2179 ∷ []

abbrev sigma_row_0 : List ℕ
sigma_row_0 = 0 ∷ 1 ∷ 2 ∷ 3 ∷ 4 ∷ 5 ∷ 6 ∷ 7 ∷ 8 ∷ 9 ∷ 10 ∷ 11 ∷ 12 ∷ 13 ∷ 14 ∷ 15 ∷ []

abbrev sigma_row_1 : List ℕ
sigma_row_1 = 14 ∷ 10 ∷ 4 ∷ 8 ∷ 9 ∷ 15 ∷ 13 ∷ 6 ∷ 1 ∷ 12 ∷ 0 ∷ 2 ∷ 11 ∷ 7 ∷ 5 ∷ 3 ∷ []

-- `blake2b_sigma`; its two last rows are the two first once more.
abbrev pub sigma : List (List ℕ)
sigma =
    sigma_row_0
    ∷ sigma_row_1
    ∷ (11 ∷ 8 ∷ 12 ∷ 0 ∷ 5 ∷ 2 ∷ 15 ∷ 13 ∷ 10 ∷ 14 ∷ 3 ∷ 6 ∷ 7 ∷ 1 ∷ 9 ∷ 4 ∷ [])
    ∷ (7 ∷ 9 ∷ 3 ∷ 1 ∷ 13 ∷ 12 ∷ 11 ∷ 14 ∷ 2 ∷ 6 ∷ 5 ∷ 10 ∷ 4 ∷ 0 ∷ 15 ∷ 8 ∷ [])
    ∷ (9 ∷ 0 ∷ 5 ∷ 7 ∷ 2 ∷ 4 ∷ 10 ∷ 15 ∷ 14 ∷ 1 ∷ 11 ∷ 12 ∷ 6 ∷ 8 ∷ 3 ∷ 13 ∷ [])
    ∷ (2 ∷ 12 ∷ 6 ∷ 10 ∷ 0 ∷ 11 ∷ 8 ∷ 3 ∷ 4 ∷ 13 ∷ 7 ∷ 5 ∷ 15 ∷ 14 ∷ 1 ∷ 9 ∷ [])
    ∷ (12 ∷ 5 ∷ 1 ∷ 15 ∷ 14 ∷ 13 ∷ 4 ∷ 10 ∷ 0 ∷ 7 ∷ 6 ∷ 3 ∷ 9 ∷ 2 ∷ 8 ∷ 11 ∷ [])
    ∷ (13 ∷ 11 ∷ 7 ∷ 14 ∷ 12 ∷ 1 ∷ 3 ∷ 9 ∷ 5 ∷ 0 ∷ 15 ∷ 4 ∷ 8 ∷ 6 ∷ 2 ∷ 10 ∷ [])
    ∷ (6 ∷ 15 ∷ 14 ∷ 9 ∷ 11 ∷ 3 ∷ 0 ∷ 8 ∷ 12 ∷ 2 ∷ 13 ∷ 7 ∷ 1 ∷ 4 ∷ 10 ∷ 5 ∷ [])
    ∷ (10 ∷ 2 ∷ 8 ∷ 4 ∷ 7 ∷ 6 ∷ 1 ∷ 5 ∷ 15 ∷ 11 ∷ 9 ∷ 14 ∷ 3 ∷ 12 ∷ 13 ∷ 0 ∷ [])
    ∷ sigma_row_0
    ∷ sigma_row_1
    ∷ []

abbrev pub xor_words : List ℕ → List ℕ → List ℕ
xor_words [] ys = []
xor_words (x ∷ xs) [] = []
xor_words (x ∷ xs) (y ∷ ys) = bit_xor x y ∷ xor_words xs ys

-- The quarter round of `G`, on its two message words and four of the words `v`.
pub mix : ℕ → ℕ → ℕ → ℕ → ℕ → ℕ → List ℕ
mix x y a₀ b₀ c₀ d₀ =
    let a₁ = u64 (u64 (a₀ + b₀) + x) in
    let d₁ = rotr64 (bit_xor d₀ a₁) 32 in
    let c₁ = u64 (c₀ + d₁) in
    let b₁ = rotr64 (bit_xor b₀ c₁) 24 in
    let a₂ = u64 (u64 (a₁ + b₁) + y) in
    let d₂ = rotr64 (bit_xor d₁ a₂) 16 in
    let c₂ = u64 (c₁ + d₂) in let b₂ = rotr64 (bit_xor b₁ c₂) 63 in a₂ ∷ b₂ ∷ c₂ ∷ d₂ ∷ []

-- `G(r, i, v[a], v[b], v[c], v[d])`.
pub g_step : List ℕ → ℕ → ℕ → ℕ → ℕ → ℕ → ℕ → List ℕ → List ℕ
unfolding mix
g_step m r i a b c d v =
    let row = get_or sigma r [] in
    let x = get_or m (get_or row (2 * i) 0) 0 in
    let y = get_or m (get_or row (2 * i + 1) 0) 0 in
    let q = mix x y (get_or v a 0) (get_or v b 0) (get_or v c 0) (get_or v d 0) in
    set (set (set (set v a (get_or q 0 0)) b (get_or q 1 0)) c (get_or q 2 0)) d (get_or q 3 0)

-- `ROUND(r)`.
pub round : List ℕ → ℕ → List ℕ → List ℕ
unfolding g_step
round m r v₀ =
    let v₁ = g_step m r 0 0 4 8 12 v₀ in
    let v₂ = g_step m r 1 1 5 9 13 v₁ in
    let v₃ = g_step m r 2 2 6 10 14 v₂ in
    let v₄ = g_step m r 3 3 7 11 15 v₃ in
    let v₅ = g_step m r 4 0 5 10 15 v₄ in
    let v₆ = g_step m r 5 1 6 11 12 v₅ in
    let v₇ = g_step m r 6 2 7 8 13 v₆ in g_step m r 7 3 4 9 14 v₇

-- `for (r = 0; r < 12; ++r) ROUND(r)`, with the rounds that are left.
pub rounds : List ℕ → ℕ → ℕ → List ℕ → List ℕ
unfolding round
rounds m zero r v = v
rounds m (suc n) r v = rounds m n (r + 1) (round m r v)

-- What `blake2b_compress` makes of the chaining words.
pub compress_words : List ℕ → ℕ → ℕ → ℕ → ℕ → Bytes → List ℕ
compress_words h t0 t1 f0 f1 block =
    let m = load_words 16 block in
    let tail = xor_words (drop 4 iv) (t0 ∷ t1 ∷ f0 ∷ f1 ∷ []) in
    let v = rounds m 12 0 (take 8 h ++ take 4 iv ++ tail) in
    xor_words (xor_words h (take 8 v)) (drop 8 v)
