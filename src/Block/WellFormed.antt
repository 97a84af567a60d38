-- ===== src/Block/WellFormed.antt =====
-- A block is 128 words of 64 bits, and the operations of argon2/src/core.c and argon2/src/ref.c on
-- blocks keep it so.
use argon.Base.{
  ℕ, zero, suc, ◌+◌, ◌*◌, ◌/◌, ◌^◌, ◌<◌, ◌≡◌, ◌∙◌, refl, arith, Bool, Bool-cases, inl, inr, bit_xor,
  bit_xor-lt, bit_or-lt, List, [], ◌∷◌, length, length-set, length-replicate, get_or, set,
  get_or-set_ne, get_or-set_self, get_or-set_ge, replicate, u64,
}
use native.Mathlib.Decide.{ℕ_discrete, dec_lt}
use native.Mathlib.Nat.{div-le_self}
use argon.Words.{rotr64}
use argon.Compress.{xor_words}
use argon.Compress.Bounds.{length-xor_words}
use argon.Instance.{qwords_in_block}
use argon.Block.{
  Block, init_block_value, xor_block, f_blamka, blamka_mix, blamka_step, round_nomsg, nomsg_rounds,
  column, row, fill_block,
}

-- Every word of the list fits 64 bits.
abbrev pub InWords : List ℕ → Type 0
InWords b = (j : ℕ) → get_or b j 0 < 2 ^ 64

pub record IsBlock (b : Block) : Type 0 where
  pub count : length b ≡ qwords_in_block
  pub word : InWords b

pub get_or-xor_words :
    (xs ys : List ℕ) (j : ℕ)
    → length xs ≡ length ys
    → get_or (xor_words xs ys) j 0 ≡ bit_xor (get_or xs j 0) (get_or ys j 0)
get_or-xor_words [] [] j h = refl
get_or-xor_words [] (y ∷ ys) j h = absurd (omega arith)
get_or-xor_words (x ∷ xs) [] j h = absurd (omega arith)
get_or-xor_words (x ∷ xs) (y ∷ ys) zero h = refl
get_or-xor_words (x ∷ xs) (y ∷ ys) (suc j) h = get_or-xor_words xs ys j (omega arith)

pub xor_block-IsBlock : (a b : Block) → IsBlock a → IsBlock b → IsBlock (xor_block a b)
xor_block-IsBlock a b h k =
    let same : length a ≡ length b = omega (arith, h.count, k.count) in
    record {
      count = length-xor_words a b (omega arith) ∙ h.count;
      word = λ j. rw (get_or-xor_words a b j same) (bit_xor-lt 64 _ _ (h.word j) (k.word j));
    }

pub set-InWords : (v : List ℕ) (i x : ℕ) → InWords v → x < 2 ^ 64 → InWords (set v i x)
set-InWords v i x h k j = elim (ℕ_discrete i j) [
  | no ne ↦ rw (get_or-set_ne v i j x 0 ne) (h j)
  | yes same ↦ elim (dec_lt j (length v)) [
    | no ge ↦ rw (get_or-set_ge v i j x 0 (omega arith)) (omega arith)
    | yes lt ↦ rw same (rw (get_or-set_self v j x 0 lt) k)
  ]
]

pub f_blamka-lt : (x y : ℕ) → f_blamka x y < 2 ^ 64
unfolding f_blamka
f_blamka-lt x y = omega arith

pub rotr64-lt : (w c : ℕ) → w < 2 ^ 64 → rotr64 w c < 2 ^ 64
unfolding rotr64
rotr64-lt w c h =
    let le = div-le_self w (2 ^ c) in
    bit_or-lt 64 (w / 2 ^ c) (u64 _) (omega (arith, le)) (omega arith)

blamka_mix-InWords : (a b c d : ℕ) → b < 2 ^ 64 → d < 2 ^ 64 → InWords (blamka_mix a b c d)
unfolding blamka_mix
blamka_mix-InWords a₀ b₀ c₀ d₀ hb hd =
    let a₁ = f_blamka a₀ b₀ in
    let d₁ = rotr64 (bit_xor d₀ a₁) 32 in
    let c₁ = f_blamka c₀ d₁ in
    let b₁ = rotr64 (bit_xor b₀ c₁) 24 in
    let a₂ = f_blamka a₁ b₁ in
    let d₂ = rotr64 (bit_xor d₁ a₂) 16 in
    let c₂ = f_blamka c₁ d₂ in
    let b₂ = rotr64 (bit_xor b₁ c₂) 63 in
    let hd₁ = rotr64-lt (bit_xor d₀ a₁) 32 (bit_xor-lt 64 d₀ a₁ hd (f_blamka-lt a₀ b₀)) in
    let hb₁ = rotr64-lt (bit_xor b₀ c₁) 24 (bit_xor-lt 64 b₀ c₁ hb (f_blamka-lt c₀ d₁)) in
    let hd₂ = rotr64-lt (bit_xor d₁ a₂) 16 (bit_xor-lt 64 d₁ a₂ hd₁ (f_blamka-lt a₁ b₁)) in
    let hb₂ = rotr64-lt (bit_xor b₁ c₂) 63 (bit_xor-lt 64 b₁ c₂ hb₁ (f_blamka-lt c₁ d₂)) in
    four a₂ b₂ c₂ d₂ (f_blamka-lt a₁ b₁) hb₂ (f_blamka-lt c₁ d₂) hd₂
  where
    four :
        (a b c d : ℕ)
        → a < 2 ^ 64
        → b < 2 ^ 64
        → c < 2 ^ 64
        → d < 2 ^ 64
        → InWords (a ∷ b ∷ c ∷ d ∷ [])
    four a b c d p q r s zero = p
    four a b c d p q r s (suc zero) = q
    four a b c d p q r s (suc (suc zero)) = r
    four a b c d p q r s (suc (suc (suc zero))) = s
    four a b c d p q r s (suc (suc (suc (suc j)))) = omega arith

-- A list of words of one length stays such a list.
abbrev pub Fits : ℕ → List ℕ → Type 0
Fits n v = (length v ≡ n) × InWords v

pub blamka_step-Fits : (n a b c d : ℕ) (v : Block) → Fits n v → Fits n (blamka_step a b c d v)
unfolding blamka_step
blamka_step-Fits n a b c d v (len, h) =
    let q = blamka_mix (get_or v a 0) (get_or v b 0) (get_or v c 0) (get_or v d 0) in
    let k =
      blamka_mix-InWords (get_or v a 0) (get_or v b 0) (get_or v c 0) (get_or v d 0) (h b) (h d) in
    let v₁ = set v a (get_or q 0 0) in
    let v₂ = set v₁ b (get_or q 1 0) in
    let v₃ = set v₂ c (get_or q 2 0) in
    (
      length-set v₃ d _ ∙ (length-set v₂ c _ ∙ (length-set v₁ b _ ∙ (length-set v a _ ∙ len))),
      set-InWords v₃ d _
          (set-InWords v₂ c _ (set-InWords v₁ b _ (set-InWords v a _ h (k 0)) (k 1)) (k 2)) (k 3),
    )

pub round_nomsg-Fits : (n : ℕ) (at : ℕ → ℕ) (v : Block) → Fits n v → Fits n (round_nomsg at v)
unfolding round_nomsg
round_nomsg-Fits n at v h =
    let step = λ (a b c d : ℕ) (u : Block) (k : Fits n u).
      blamka_step-Fits n (at a) (at b) (at c) (at d) u k in
    step 3 4 9 14 _ (
      step 2 7 8 13 _ (
        step 1 6 11 12 _ (
          step 0 5 10 15 _
            (step 3 7 11 15 _ (step 2 6 10 14 _ (step 1 5 9 13 _ (step 0 4 8 12 v h)))))))

pub nomsg_rounds-Fits :
    (n : ℕ) (at : ℕ → ℕ → ℕ) (k i : ℕ) (v : Block) → Fits n v → Fits n (nomsg_rounds at k i v)
unfolding nomsg_rounds
nomsg_rounds-Fits n at zero i v h = h
nomsg_rounds-Fits n at (suc k) i v h =
    nomsg_rounds-Fits n at k (i + 1) (round_nomsg (at i) v) (round_nomsg-Fits n (at i) v h)

-- `fill_block` makes a block of blocks.
pub fill_block-IsBlock :
    (prev ref next : Block) (with_xor : Bool)
    → IsBlock prev
    → IsBlock ref
    → IsBlock next
    → IsBlock (fill_block prev ref next with_xor)
unfolding fill_block
fill_block-IsBlock prev ref next with_xor p r n =
    let x = xor_block-IsBlock ref prev r p in
    let z =
      nomsg_rounds-Fits 128 row 8 0 _ (nomsg_rounds-Fits 128 column 8 0 _ (x.count, x.word)) in
    let w : IsBlock (nomsg_rounds row 8 0 (nomsg_rounds column 8 0 (xor_block ref prev))) = record {
      count = z.0;
      word = z.1;
    } in
    elim (Bool-cases with_xor) [
      | inl on ↦ rw on (xor_block-IsBlock _ _ (xor_block-IsBlock _ _ x n) w)
      | inr off ↦ rw off (xor_block-IsBlock _ _ x w)
    ]

replicate-InWords : (n x : ℕ) → x < 2 ^ 64 → InWords (replicate n x)
replicate-InWords zero x h j = omega arith
replicate-InWords (suc n) x h zero = h
replicate-InWords (suc n) x h (suc j) = replicate-InWords n x h j

pub init_block_value-IsBlock : (byte : ℕ) → byte < 256 → IsBlock (init_block_value byte)
unfolding init_block_value
init_block_value-IsBlock byte h = record {
  count = length-replicate {A = ℕ} qwords_in_block (byte * 0x0101_0101_0101_0101);
  word = replicate-InWords qwords_in_block (byte * 0x0101_0101_0101_0101) (omega arith);
}

pub set-IsBlock : (b : Block) (i x : ℕ) → IsBlock b → x < 2 ^ 64 → IsBlock (set b i x)
set-IsBlock b i x h k = record {
  count = length-set b i x ∙ h.count;
  word = set-InWords b i x h.word k;
}
