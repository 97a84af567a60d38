-- ===== src/Compress/Bounds.antt =====
-- The compression keeps the number of words.
use argon.Base.{
  ℕ, zero, suc, ◌+◌, ◌≤◌, ◌≡◌, ◌∙◌, refl, arith, List, [], ◌∷◌, ◌++◌, Bytes, length, length-append,
  length-set, length-take, length-drop, take, drop,
}
use argon.Words.{load_words}
use argon.Compress.{iv, xor_words, g_step, round, rounds, compress_words}

pub length-xor_words :
    (xs ys : List ℕ) → length xs ≤ length ys → length (xor_words xs ys) ≡ length xs
length-xor_words [] ys h = refl
length-xor_words (x ∷ xs) [] h = absurd (omega arith)
length-xor_words (x ∷ xs) (y ∷ ys) h = omega (arith, length-xor_words xs ys (omega arith))

length-g_step :
    (m : List ℕ) (r i a b c d : ℕ) (v : List ℕ) → length (g_step m r i a b c d v) ≡ length v
unfolding g_step
length-g_step m r i a b c d v = simp length-set

length-round : (m : List ℕ) (r : ℕ) (v : List ℕ) → length (round m r v) ≡ length v
unfolding round
length-round m r v = simp length-g_step

length-rounds : (m : List ℕ) (n r : ℕ) (v : List ℕ) → length (rounds m n r v) ≡ length v
unfolding rounds
length-rounds m zero r v = refl
length-rounds m (suc n) r v = length-rounds m n (r + 1) (round m r v) ∙ length-round m r v

folded :
    (h v : List ℕ)
    → length h ≡ 8
    → length v ≡ 16
    → length (xor_words (xor_words h (take 8 v)) (drop 8 v)) ≡ 8
folded h v eight sixteen =
    let first = length-xor_words h (take 8 v) (omega (arith, length-take 8 v)) in
    omega (
      arith,
      first,
      length-drop 8 v,
      length-xor_words (xor_words h (take 8 v)) (drop 8 v) (omega (arith, first, length-drop 8 v)),
    )

filled :
    (h ws tail : List ℕ)
    → length h ≡ 8
    → length ws + length tail ≡ 8
    → length (take 8 h ++ ws ++ tail) ≡ 16
filled h ws tail p q =
    omega (arith, length-append (take 8 h ++ ws) tail, length-append (take 8 h) ws, length-take 8 h)

pub length-compress_words :
    (h : List ℕ) (t0 t1 f0 f1 : ℕ) (block : Bytes)
    → length h ≡ 8
    → length (compress_words h t0 t1 f0 f1 block) ≡ 8
unfolding compress_words
length-compress_words h t0 t1 f0 f1 block eight =
    let tail = xor_words (drop 4 iv) (t0 ∷ t1 ∷ f0 ∷ f1 ∷ []) in
    let v = take 8 h ++ take 4 iv ++ tail in
    folded h (rounds (load_words 16 block) 12 0 v) eight
      (length-rounds (load_words 16 block) 12 0 v ∙ filled h (take 4 iv) tail eight refl)
