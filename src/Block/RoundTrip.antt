-- ===== src/Block/RoundTrip.antt =====
-- Storing a block and loading it again.
use argon.Base.{ℕ, ◌^◌, ◌<◌, ◌≡◌, ◌∙◌, sym, ap, arith, All, length, take_all}
use argon.Instance.{qwords_in_block}
use argon.Words.{load_words, store_words}
use argon.Words.RoundTrip.{load_words-store_words}
use argon.Block.{Block, load_block, store_block}

-- A block of 128 words of 64 bits is loaded back from the 1024 bytes that it is stored in.
pub load_block-store_block :
    (b : Block)
    → length b ≡ qwords_in_block
    → All (λ w. w < 2 ^ 64) b
    → load_block (store_block b) ≡ b
unfolding load_block store_block
load_block-store_block b len words =
    ap (λ (l : Block). load_words qwords_in_block (store_words l))
      (take_all b qwords_in_block (omega arith))
    ∙ (ap (λ (n : ℕ). load_words n (store_words b)) (sym len) ∙ load_words-store_words b words)
