-- ===== src/Words.antt =====
-- Little-endian words of argon2/src/blake2/blake2-impl.h, and `rotr64`.
pub mod RoundTrip
use argon.Base.{
  ℕ, zero, suc, ◌+◌, ◌-◌, ◌*◌, ◌/◌, ◌%◌, ◌^◌, bit_or, List, [], ◌∷◌, ◌++◌, Bytes, take, drop, u64,
}

-- `n` bytes of a word, the lowest first.
pub store_le : ℕ → ℕ → Bytes
store_le zero w = []
store_le (suc n) w = (w % 256) ∷ store_le n (w / 256)

pub load_le : Bytes → ℕ
load_le [] = 0
load_le (b ∷ bs) = b + 256 * load_le bs

unfoldable pub store32 : ℕ → Bytes
unfolding store_le
store32 w = store_le 4 w

pub store64 : ℕ → Bytes
unfolding store_le
store64 w = store_le 8 w

-- The word that the first eight bytes spell.
pub load64 : Bytes → ℕ
unfolding load_le
load64 src = load_le (take 8 src)

unfoldable pub load32 : Bytes → ℕ
unfolding load_le
load32 src = load_le (take 4 src)

-- `for (i = 0; i < n; ++i) m[i] = load64(src + 8 * i)`.
pub load_words : ℕ → Bytes → List ℕ
load_words zero src = []
load_words (suc n) src = load64 src ∷ load_words n (drop 8 src)

-- `for (i = 0; i < n; ++i) store64(dst + 8 * i, m[i])`.
pub store_words : List ℕ → Bytes
store_words [] = []
store_words (w ∷ ws) = store64 w ++ store_words ws

unfoldable pub rotr64 : ℕ → ℕ → ℕ
rotr64 w c = bit_or (w / 2 ^ c) (u64 (w * 2 ^ (64 - c)))
