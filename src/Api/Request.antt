-- ===== src/Api/Request.antt =====
-- The requests that argon2/src/argon2.c accepts, and the tag that `argon2_ctx` makes for one, in
-- `argon2_hash` and in `argon2_verify`.
use argon.Base.{
  ℕ, ◌*◌, ◌≤◌, ◌<◌, ◌≡◌, ◌∙◌, ◌⊎◌, inl, inr, refl, ap, arith, true, false, Option, some, [], Bytes,
  IsBytes, ◌++◌, length, take, drop, take-take, take_append_self, u32, u32_max,
}
use argon.Param.{Context, ErrorCode, Result, done, IsWords, max_lanes, version_number, type_string}
use argon.Instance.{Instance}
use argon.Validate.{is_null, validate_inputs}
use argon.Validate.Bounds.{IsAdmissible, validate_inputs-ok_iff}
use argon.Block.{store_block}
use argon.Fill.{Memory}
use argon.Memory.{
  Platform, initial_hash, prehash_pieces, initial_hash_context, cleared_pwd, cleared_secret,
  finalize,
}
use argon.Memory.Total.{IsGenerous}
use argon.Blake2b.Long.{blake2b_long}
use argon.Blake2b.Long.Total.{blake2b_long-HasDigest}
use argon.Api.{instance_of, is_type, argon2_ctx, hash_context}
use argon.Api.Outcome.{last_column, finalize-digest}
use argon.Api.Total.{IsAlike, argon2_ctx-finalize}

-- The arguments of `argon2_hash` that are documented as valid, with the bytes behind the pointer to
-- the salt.
pub record IsRequest (t_cost m_cost parallelism : ℕ) (pwd : Option Bytes) (pwdlen : ℕ)
    (salt : Bytes) (saltlen hashlen : ℕ) : Type 0 where
  pub t_cost_min : 1 ≤ t_cost
  pub t_cost_word : t_cost ≤ u32_max
  pub m_cost_min : 8 * parallelism ≤ m_cost
  pub m_cost_word : m_cost ≤ u32_max
  pub lanes_min : 1 ≤ parallelism
  pub lanes_max : parallelism ≤ max_lanes
  pub pwd_given : (is_null pwd ≡ false) ⊎ (pwdlen ≡ 0)
  pub pwdlen_word : pwdlen ≤ u32_max
  pub saltlen_min : 8 ≤ saltlen
  pub saltlen_word : saltlen ≤ u32_max
  pub salt_room : saltlen ≤ length salt
  pub salt_bytes : IsBytes salt
  pub hashlen_min : 4 ≤ hashlen
  pub hashlen_word : hashlen ≤ u32_max

pub named_type :
    (type : ℕ) {name : Bytes} → type_string type false ≡ some name → is_type type ≡ true
unfolding type_string is_type
named_type type e = ground arith

-- With no flag set nothing is wiped.
initial_hash_context_same : (c : Context) → c.flags ≡ 0 → initial_hash_context c ≡ c
unfolding initial_hash_context cleared_pwd cleared_secret
initial_hash_context_same c e = grind arith

-- The context with another buffer for the tag.
abbrev pub with_out : Context → Bytes → Context
with_out c buf = record c { out = some buf }

-- A run of `argon2_ctx` that leaves a digest in the buffer for the tag, and changes nothing else.
pub record IsTagged (c : Context) (digest : Bytes) (r : Result Context) : Type 0 where
  pub tag : Bytes
  pub result_eq : r ≡ done (with_out c tag)
  pub tag_eq : take c.outlen tag ≡ digest

finalize-IsTagged :
    (c : Context) (i : Instance) (m : Memory) (buf digest : Bytes) (r : Result Context)
    → r ≡ done (finalize (initial_hash_context c) i m)
    → c.flags ≡ 0
    → c.out ≡ some buf
    → 0 < c.outlen
    → c.outlen ≤ u32_max
    → blake2b_long c.outlen (store_block (last_column i m)) ≡ some digest
    → IsTagged c digest r
unfolding finalize
finalize-IsTagged c i m buf digest r h flags e pos max hashed =
    let (d, out, len, bytes, hashed') = finalize-digest c i m buf e pos max in
    let same : d ≡ digest = cc in
    let written : finalize c i m ≡ with_out c (d ++ drop c.outlen buf) =
      λ j. record c { out = out j } in
    record {
      tag = d ++ drop c.outlen buf;
      result_eq =
          h
          ∙ ap done
              (ap (λ (x : Context). finalize x i m) (initial_hash_context_same c flags) ∙ written);
      tag_eq = take_append_self d (drop c.outlen buf) c.outlen len ∙ same;
    }

module _ (t_cost m_cost parallelism : ℕ) (pwd : Option Bytes) (pwdlen : ℕ) (salt : Bytes)
    (saltlen hashlen : ℕ)
    (q : IsRequest t_cost m_cost parallelism pwd pwdlen salt saltlen hashlen) where
  -- The context that `argon2_hash` makes, with its buffer, for any salt.
  unfoldable pub context : Bytes → Bytes → Context
  context s out =
      hash_context t_cost m_cost parallelism pwd pwdlen (some s) saltlen out hashlen version_number

  pub context-IsWords : (s out : Bytes) → IsWords (context s out)
  unfolding context hash_context
  context-IsWords s out = record {
    outlen_word = omega arith;
    pwdlen_word = omega arith;
    saltlen_word = omega arith;
    secretlen_word = omega arith;
    adlen_word = omega arith;
    t_cost_word = q.t_cost_word;
    m_cost_word = q.m_cost_word;
    lanes_word = omega (arith, q.lanes_max);
    threads_word = omega (arith, q.lanes_max);
    version_word = omega arith;
  }

  pub given : (is_null pwd ≡ false) ⊎ (u32 pwdlen ≡ 0)
  given = elim q.pwd_given [ inl some_pwd ↦ inl some_pwd | inr none_pwd ↦ inr (omega arith) ]

  context-IsAdmissible : (s out : Bytes) → IsAdmissible (context s out)
  unfolding context hash_context
  context-IsAdmissible s out = record {
    out_given = refl;
    outlen_min = omega (arith, q.hashlen_min, q.hashlen_word);
    pwd_given = given;
    salt_given = inl refl;
    saltlen_min = omega (arith, q.saltlen_min, q.saltlen_word);
    secret_given = inr refl;
    ad_given = inr refl;
    m_cost_min = q.m_cost_min;
    t_cost_min = q.t_cost_min;
    lanes_min = q.lanes_min;
    lanes_max = q.lanes_max;
    threads_min = q.lanes_min;
    threads_max = q.lanes_max;
    callbacks = refl;
  }

  pub context-valid : (s out : Bytes) → validate_inputs (some (context s out)) ≡ ErrorCode.ok
  context-valid s out =
      (validate_inputs-ok_iff (context s out) (context-IsWords s out)).1
        (context-IsAdmissible s out)

  -- `argon2_verify` hashes with a salt of its own.
  abbrev pub copied : Bytes
  copied = take (u32 saltlen) salt

  context-IsAlike :
      (s s' out out' : Bytes) (type : ℕ)
      → take (u32 saltlen) s' ≡ take (u32 saltlen) s
      → IsAlike (context s out) (context s' out') type
  unfolding context hash_context instance_of initial_hash prehash_pieces
  context-IsAlike s s' out out' type e = record {
    valid = context-valid s' out';
    same_instance = refl;
    same_hash = rw e refl;
  }

  module _ (platform : Platform) (g : IsGenerous platform) (type : ℕ)
      (known : is_type type ≡ true) where
    -- The two runs of `argon2_ctx` leave one digest.
    pub record AreRuns : Type 0 where
      pub digest : Bytes
      pub size : length digest ≡ u32 hashlen
      pub bytes : IsBytes digest
      pub first :
          (out : Bytes)
          → IsTagged (context salt out) digest (argon2_ctx platform (context salt out) type)
      pub second :
          (out : Bytes)
          → IsTagged (context copied out) digest (argon2_ctx platform (context copied out) type)

    pub runs : AreRuns
    unfolding context hash_context
    runs =
        let (m, finish) =
          argon2_ctx-finalize platform g (context salt []) type (context-IsWords salt []) known
            (context-valid salt []) in
        let i = instance_of (context salt []) type in
        let (digest, hashed, len, bytes) =
          blake2b_long-HasDigest (u32 hashlen) (store_block (last_column i m))
            (omega (arith, q.hashlen_min, q.hashlen_word)) (omega arith) in
        let tagged = λ (s out : Bytes) (e : take (u32 saltlen) s ≡ copied).
          finalize-IsTagged (context s out) i m out digest
            (argon2_ctx platform (context s out) type)
            (finish (context s out) (context-IsAlike salt s [] out type e)) refl refl
            (omega (arith, q.hashlen_min, q.hashlen_word)) (omega arith) hashed in
        record {
          digest = digest;
          size = len;
          bytes = bytes;
          first = λ out. tagged salt out refl;
          second = λ out. tagged copied out (take-take (u32 saltlen) salt);
        }
