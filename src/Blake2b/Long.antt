-- ===== src/Blake2b/Long.antt =====
-- `blake2b_init_key`, the one-shot `blake2b` and the variable-length `blake2b_long`. A null key comes
-- with length 0, and a null input is not given.
pub mod Total
use argon.Base.{
  ℕ, zero, suc, ◌+◌, ◌-◌, ◌*◌, ◌/◌, Bool, true, false, ◌||◌, Option, none, some, [], ◌∷◌, ◌++◌,
  Bytes,
}
use argon.Base.{length, take, replicate, ltb, ◌==◌, if◌then◌else◌, u32, u32_max}
use argon.Words.{store32}
use argon.Blake2b.{State, blockbytes, outbytes, keybytes, init, init_param, param_block, update}
use argon.Blake2b.{final, write_at}

infixl 5 ◌>>=◌
abbrev pub ◌>>=◌ {ℓ κ} : {A : Type ℓ} {B : Type κ} → Option A → (A → Option B) → Option B
none >>= f = none
some a >>= f = f a

pub init_key : ℕ → Bytes → Option State
init_key outlen key =
    if (outlen == 0) || ltb outbytes outlen
    then none
    else if (length key == 0) || ltb keybytes (length key)
    then none
    else update (init_param (param_block outlen (length key)))
        (write_at (replicate blockbytes 0) 0 key)

-- `none` is -1.
pub blake2b : ℕ → Bytes → Bytes → Option Bytes
blake2b outlen input key =
    if (outlen == 0) || ltb outbytes outlen
    then none
    else if ltb keybytes (length key)
    then none
    else do
      s ← if ltb 0 (length key) then init_key outlen key else init outlen
      s' ← update s input
      (digest, _) ← final s' outlen
      some digest

-- What follows the loop over `toproduce`.
pub last_piece : Bytes → ℕ → Bytes → Option Bytes
last_piece out_buffer toproduce out = do
  digest ← blake2b toproduce out_buffer []
  some (out ++ take toproduce digest)

-- The loop over `toproduce`; the fuel counts the rounds.
pub long_loop : ℕ → Bytes → ℕ → Bytes → Option Bytes
unfolding last_piece
long_loop zero out_buffer toproduce out = none
long_loop (suc fuel) out_buffer toproduce out = elim (ltb outbytes toproduce) [
  | true ↦ blake2b outbytes out_buffer [] >>= λ digest.
      long_loop fuel digest (toproduce - outbytes / 2) (out ++ take (outbytes / 2) digest)
  | false ↦ last_piece out_buffer toproduce out
]

pub blake2b_long : ℕ → Bytes → Option Bytes
blake2b_long outlen input =
    if ltb u32_max outlen
    then none
    else if ltb outbytes outlen
    then (do
      s ← init outbytes
      s' ← update s (store32 outlen)
      s'' ← update s' input
      (out_buffer, _) ← final s'' outbytes
      long_loop outlen out_buffer (outlen - outbytes / 2) (take (outbytes / 2) out_buffer))
    else do
      s ← init outlen
      s' ← update s (store32 outlen)
      s'' ← update s' input
      (out, _) ← final s'' outlen
      some out
