-- ===== src/Words/RoundTrip.antt =====
-- Storing and loading words are inverse to one another.
use argon.Base.{ℕ, zero, suc, ◌*◌, ◌/◌, ◌^◌, ◌<◌, ◌≡◌, refl, ap, arith}
use argon.Base.{
  List, [], ◌∷◌, ◌++◌, Bytes, IsByte, IsBytes, All, All-append, length, drop, drop_append_self,
  length-append,
}
use native.Mathlib.Nat.{pow-suc}
use argon.Words.{store_le, load_le, load32, store32, store64, load64, load_words, store_words}

pub length-store_le : (n w : ℕ) → length (store_le n w) ≡ n
unfolding store_le
length-store_le zero w = refl
length-store_le (suc n) w = ap suc (length-store_le n (w / 256))

load_le-store_le : (n w : ℕ) → w < 256 ^ n → load_le (store_le n w) ≡ w
unfolding store_le load_le
load_le-store_le zero w h = omega arith
load_le-store_le (suc n) w h =
    omega (arith, load_le-store_le n (w / 256) (omega (arith, pow-suc 256 n)))

-- A 64-bit word is read back from the bytes that it was stored in, whatever follows them.
pub load64-store64 : (w : ℕ) (rest : Bytes) → w < 2 ^ 64 → load64 (store64 w ++ rest) ≡ w
unfolding load64 store64
load64-store64 w rest h = omega arith

pub length-store64 : (w : ℕ) → length (store64 w) ≡ 8
unfolding store64
length-store64 w = refl

-- The words of a block are read back from the bytes that they were stored in.
pub load_words-store_words :
    (ws : List ℕ) → All (λ w. w < 2 ^ 64) ws → load_words (length ws) (store_words ws) ≡ ws
unfolding load_words store_words
load_words-store_words [] h = refl
load_words-store_words (w ∷ ws) h = rw (load64-store64 w (store_words ws) h.0) (
    rw (drop_append_self (store64 w) (store_words ws) 8 (length-store64 w))
      (ap (λ (l : List ℕ). w ∷ l) (load_words-store_words ws h.1)))

pub length-store_words : (ws : List ℕ) → length (store_words ws) ≡ 8 * length ws
unfolding store_words
length-store_words [] = refl
length-store_words (w ∷ ws) =
    omega
      (arith, length-append (store64 w) (store_words ws), length-store64 w, length-store_words ws)

pub length-load_words : (n : ℕ) (src : Bytes) → length (load_words n src) ≡ n
unfolding load_words
length-load_words zero src = refl
length-load_words (suc n) src = ap suc (length-load_words n (drop 8 src))

store_le-IsBytes : (n w : ℕ) → IsBytes (store_le n w)
unfolding store_le
store_le-IsBytes zero w = tt
store_le-IsBytes (suc n) w = (omega arith, store_le-IsBytes n (w / 256))

pub store_words-IsBytes : (ws : List ℕ) → IsBytes (store_words ws)
unfolding store_words store64
store_words-IsBytes [] = tt
store_words-IsBytes (w ∷ ws) =
    All-append IsByte (store_le 8 w) (store_words ws) (store_le-IsBytes 8 w)
      (store_words-IsBytes ws)

load_le-lt : (bs : Bytes) → IsBytes bs → load_le bs < 256 ^ length bs
unfolding load_le
load_le-lt [] h = omega arith
load_le-lt (b ∷ bs) h = omega (arith, load_le-lt bs h.1, pow-suc 256 (length bs), h.0)

pub load32-store32 : (w : ℕ) (rest : Bytes) → w < 2 ^ 32 → load32 (store32 w ++ rest) ≡ w
unfolding load32 store32
load32-store32 w rest h = omega arith

pub length-store32 : (w : ℕ) → length (store32 w) ≡ 4
unfolding store32
length-store32 w = refl
