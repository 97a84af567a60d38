-- ===== src/Blake2b/Long/Total.antt =====
-- `blake2b_long` returns, with enough fuel, a digest of every length up to 2 ^ 32 - 1.
use argon.Base.{
  ℕ, zero, suc, ◌+◌, ◌-◌, ◌/◌, ◌≤◌, ◌<◌, ◌≡◌, ◌∙◌, refl, ap, arith, Option, some, none, Bool-cases,
  inl, inr,
}
use argon.Base.{
  IsByte, IsBytes, All-append, All-take, true, false, ◌||◌, [], ◌∷◌, ◌++◌, Bytes, length,
  length-append, length-take, take, ltb, u32_max, ◌==◌,
}
use argon.Words.{store32}
use argon.Blake2b.{State, outbytes, init, update, final}
use argon.Blake2b.Final.{update_all, digest_of}
use argon.Blake2b.Length.{HasDigest, digest_of-HasDigest}
use argon.Blake2b.Long.{◌>>=◌, blake2b, last_piece, long_loop, blake2b_long}

bind_some : (y : Option State) (g : State → Option Bytes) → (y >>= g) ≡ (y >>= (λ s. some s) >>= g)
bind_some none g = refl
bind_some (some s) g = refl

-- One update is a list of one.
one_update :
    (n : ℕ) (input : Bytes) (x : Option State)
    → (x >>= λ s. update s input >>= λ s'. final s' n >>= λ r. some r.0)
      ≡ (x >>= λ s. update_all s (input ∷ []) >>= λ s'. final s' n >>= λ r. some r.0)
unfolding update_all
one_update n input none = refl
one_update n input (some s) = bind_some (update s input) (λ s'. final s' n >>= λ r. some r.0)

>>=-eq-some :
    {A B : Type 0} (m : Option A) (f : A → Option B) {b : B}
    → (m >>= f) ≡ some b
    → (a : A) × (m ≡ some a) × (f a ≡ some b)
>>=-eq-some none f h = cc
>>=-eq-some (some a) f h = (a, refl, h)

some_inj : (d d' : Bytes) → some d ≡ some d' → d ≡ d'
some_inj d d' h = cc

-- Two updates and final after init, all of which succeed, and the digest they write.
record IsRun (n : ℕ) (first input : Bytes) : Type 0 where
  opened : State
  behind_first : State
  behind_input : State
  closed : State
  digest : Bytes
  init_eq : init n ≡ some opened
  first_eq : update opened first ≡ some behind_first
  input_eq : update behind_first input ≡ some behind_input
  final_eq : final behind_input n ≡ some (digest, closed)
  digest_length : length digest ≡ n
  digest_bytes : IsBytes digest

two_updates : (n : ℕ) (first input : Bytes) → 0 < n → n ≤ outbytes → IsRun n first input
unfolding digest_of update_all
two_updates n first input pos max =
    let (d, e, len, bytes) = digest_of-HasDigest n (first ∷ input ∷ []) pos max in
    let (s₀, e₀, h₀) = >>=-eq-some (init n) _ e in
    let (s₂, e₂, h₂) = >>=-eq-some (update_all s₀ (first ∷ input ∷ [])) _ h₀ in
    let (r, e₃, h₃) = >>=-eq-some (final s₂ n) _ h₂ in
    let (s₁, f₁, g₁) = >>=-eq-some (update s₀ first) _ e₂ in
    let (s₂', f₂, g₂) = >>=-eq-some (update s₁ input) _ g₁ in
    record {
      opened = s₀;
      behind_first = s₁;
      behind_input = s₂;
      closed = r.1;
      digest = r.0;
      init_eq = e₀;
      first_eq = f₁;
      input_eq = f₂ ∙ g₂;
      final_eq = e₃;
      digest_length = ap length (some_inj r.0 d h₃) ∙ len;
      digest_bytes = rw (some_inj r.0 d h₃) bytes;
    }

-- Without a key `blake2b` is init, one update and final.
blake2b_lem :
    (n : ℕ) (input : Bytes) → 0 < n → n ≤ outbytes → blake2b n input [] ≡ digest_of n (input ∷ [])
unfolding blake2b digest_of update_all
blake2b_lem n input pos max =
    let valid : ((n == 0) || ltb outbytes n) ≡ false = ground arith in
    rw valid (one_update n input (init n))

blake2b-HasDigest :
    (n : ℕ) (input : Bytes) → 0 < n → n ≤ outbytes → HasDigest n (blake2b n input [])
blake2b-HasDigest n input pos max =
    let (d, e, len, bytes) = digest_of-HasDigest n (input ∷ []) pos max in
    (d, blake2b_lem n input pos max ∙ e, len, bytes)

long_loop-HasDigest :
    (fuel : ℕ) (out_buffer : Bytes) (toproduce : ℕ) (out : Bytes)
    → outbytes / 2 < toproduce
    → toproduce < fuel
    → IsBytes out
    → HasDigest (length out + toproduce) (long_loop fuel out_buffer toproduce out)
unfolding long_loop last_piece
long_loop-HasDigest zero b toproduce out low h bytes = absurd (omega arith)
long_loop-HasDigest (suc fuel) b toproduce out low h bytes =
    elim (Bool-cases (ltb outbytes toproduce)) [
      | inl more ↦
          let (d, e, len, db) = blake2b-HasDigest outbytes b (omega arith) (omega arith) in
          let out' = out ++ take (outbytes / 2) d in
          let len' : length out' ≡ length out + 32 =
            omega
              (arith, length-append out (take (outbytes / 2) d), length-take (outbytes / 2) d) in
          let bytes' = All-append IsByte out _ bytes (All-take IsByte (outbytes / 2) d db) in
          let (r, f, all, rb) =
            long_loop-HasDigest fuel d (toproduce - outbytes / 2) out' (ground arith) (ground arith)
              bytes' in
          (r, rw (long_loop, more) (rw e f), omega (arith, all, len'), rb)
      | inr last ↦
          let (d, e, len, db) = blake2b-HasDigest toproduce b (omega arith) (ground arith) in
          (
            out ++ take toproduce d,
            rw (long_loop, last) (rw e refl),
            omega (arith, length-append out (take toproduce d), length-take toproduce d),
            All-append IsByte out _ bytes (All-take IsByte toproduce d db),
          )
    ]

short_case :
    (outlen : ℕ) (input : Bytes)
    → 0 < outlen
    → outlen ≤ outbytes
    → HasDigest outlen (blake2b_long outlen input)
unfolding blake2b_long
short_case outlen input pos max =
    let r = two_updates outlen (store32 outlen) input pos max in
    let word : ltb u32_max outlen ≡ false = ground arith in
    let short : ltb outbytes outlen ≡ false = ground arith in
    (
      r.digest,
      rw word (rw short (rw r.init_eq (rw r.first_eq (rw r.input_eq (rw r.final_eq refl))))),
      r.digest_length,
      r.digest_bytes,
    )

long_case :
    (outlen : ℕ) (input : Bytes)
    → outbytes < outlen
    → outlen ≤ u32_max
    → HasDigest outlen (blake2b_long outlen input)
unfolding blake2b_long
long_case outlen input low max =
    let r = two_updates outbytes (store32 outlen) input (omega arith) (omega arith) in
    let word : ltb u32_max outlen ≡ false = ground arith in
    let long : ltb outbytes outlen ≡ true = ground arith in
    let head = take (outbytes / 2) r.digest in
    let (d, e, len, bytes) =
      long_loop-HasDigest outlen r.digest (outlen - outbytes / 2) head (omega arith) (omega arith)
        (All-take IsByte (outbytes / 2) r.digest r.digest_bytes) in
    (
      d,
      rw word (rw long (rw r.init_eq (rw r.first_eq (rw r.input_eq (rw r.final_eq e))))),
      omega (arith, len, length-take (outbytes / 2) r.digest, r.digest_length),
      bytes,
    )

-- For every digest length from 1 to 2 ^ 32 - 1 and every input `blake2b_long` succeeds, and its
-- digest has that length and consists of bytes.
pub blake2b_long-HasDigest :
    (outlen : ℕ) (input : Bytes)
    → 0 < outlen
    → outlen ≤ u32_max
    → HasDigest outlen (blake2b_long outlen input)
blake2b_long-HasDigest outlen input pos max = elim (Bool-cases (ltb outbytes outlen)) [
  | inl more ↦ long_case outlen input (ground arith) max
  | inr last ↦ short_case outlen input pos (ground arith)
]
