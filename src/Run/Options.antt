-- ===== src/Run/Options.antt =====
-- What the options of the command line make of the settings.
use argon.Base.{
  ℕ, zero, suc, ◌+◌, ◌^◌, ◌≤◌, ◌≡◌, ◌⊎◌, inl, inr, refl, arith, Bool, true, false, ◌||◌, List, [],
  ◌∷◌, Bytes, codes, ltb, u32, u32_max,
}
use argon.Param.{
  max_memory, max_time, max_threads, max_lanes, version_10, version_13, argon2_d, argon2_i,
  argon2_id,
}
use argon.Run.{
  Outcome, go, Settings, defaults, same, bad_number, max_memory_bits, at_most_u32, set_m_cost,
  set_m, set_k, set_t, set_p, set_v, with_argument, memory_option, with_type, option, options,
}
use argon.Run.Ensures.{Ensures, branch, guarded, chain}

-- A type that the library knows.
abbrev pub IsVariant : ℕ → Type 0
IsVariant type = (type ≡ argon2_d) ⊎ ((type ≡ argon2_i) ⊎ (type ≡ argon2_id))

-- The settings, as far as the options are tested one by one.
pub record Fits (s : Settings) : Type 0 where
  pub memory : (1 ≤ s.m_cost) × (s.m_cost ≤ max_memory)
  pub time : (1 ≤ s.t_cost) × (s.t_cost ≤ max_time)
  pub parallelism : (1 ≤ s.lanes) × (s.lanes ≤ max_lanes)
  pub one_thread_each : s.threads ≡ s.lanes
  pub known_type : IsVariant s.type
  pub known_version : (s.version ≡ version_10) ⊎ (s.version ≡ version_13)
  pub output : s.outlen ≤ u32_max

at_most_u32-bounds : (x : ℕ) → 1 ≤ x → (1 ≤ at_most_u32 x) × (at_most_u32 x ≤ u32_max)
unfolding at_most_u32
at_most_u32-bounds x h = ground arith

set_m_cost-Fits :
    (m_cost : ℕ) (s : Settings)
    → (1 ≤ m_cost) × (m_cost ≤ u32_max)
    → Fits s
    → Ensures Fits (set_m_cost m_cost s)
unfolding set_m_cost Ensures
set_m_cost-Fits m_cost s b f = guarded Fits (ltb max_memory m_cost) _ _ (λ _. record {
  memory = b;
  time = f.time;
  parallelism = f.parallelism;
  one_thread_each = f.one_thread_each;
  known_type = f.known_type;
  known_version = f.known_version;
  output = f.output;
})

power : (k : ℕ) → 1 ≤ 2 ^ k
power zero = omega arith
power (suc k) = let r = power k in omega arith

set_m-Fits : (input : ℕ) (s : Settings) → Fits s → Ensures Fits (set_m input s)
unfolding set_m
set_m-Fits input s f = guarded Fits (bad_number input || ltb max_memory_bits input) _ _ (λ _.
    set_m_cost-Fits (at_most_u32 (2 ^ input)) s (at_most_u32-bounds (2 ^ input) (power input)) f)

set_k-Fits : (input : ℕ) (s : Settings) → Fits s → Ensures Fits (set_k input s)
unfolding set_k
set_k-Fits input s f =
    guarded Fits (bad_number input) _ _
      (λ h. set_m_cost-Fits (at_most_u32 input) s (at_most_u32-bounds input (ground arith)) f)

set_t-Fits : (input : ℕ) (s : Settings) → Fits s → Ensures Fits (set_t input s)
unfolding set_t Ensures
set_t-Fits input s f = guarded Fits (bad_number input || ltb max_time input) _ _ (λ h. record {
  memory = f.memory;
  time = ground arith;
  parallelism = f.parallelism;
  one_thread_each = f.one_thread_each;
  known_type = f.known_type;
  known_version = f.known_version;
  output = f.output;
})

set_p-Fits : (input : ℕ) (s : Settings) → Fits s → Ensures Fits (set_p input s)
unfolding set_p Ensures
set_p-Fits input s f =
    guarded Fits (bad_number input || (ltb max_threads input || ltb max_lanes input)) _ _ (λ h.
      record {
        memory = f.memory;
        time = f.time;
        parallelism = ground arith;
        one_thread_each = refl;
        known_type = f.known_type;
        known_version = f.known_version;
        output = f.output;
      })

with_version :
    (v : ℕ) (s : Settings)
    → (v ≡ version_10) ⊎ (v ≡ version_13)
    → Fits s
    → Fits (record s { version = v })
with_version v s h f = record {
  memory = f.memory;
  time = f.time;
  parallelism = f.parallelism;
  one_thread_each = f.one_thread_each;
  known_type = f.known_type;
  known_version = h;
  output = f.output;
}

set_v-Fits : (argument : Bytes) (s : Settings) → Fits s → Ensures Fits (set_v argument s)
unfolding set_v Ensures
set_v-Fits argument s f =
    branch Fits (same argument (codes "10")) _ _ (λ _. with_version version_10 s (inl refl) f)
      (λ _.
        branch Fits (same argument (codes "13")) _ _ (λ _. with_version version_13 s (inr refl) f)
          (λ _. tt))

with_outlen : (n : ℕ) (s : Settings) → Fits s → Fits (record s { outlen = u32 n })
with_outlen n s f = record {
  memory = f.memory;
  time = f.time;
  parallelism = f.parallelism;
  one_thread_each = f.one_thread_each;
  known_type = f.known_type;
  known_version = f.known_version;
  output = omega arith;
}

-- Fields that the invariant does not name.
refitted :
    (type types_specified : ℕ) (m_cost_specified encoded_only raw_only : Bool) (s : Settings)
    → IsVariant type
    → Fits s
    → Fits (record s {
      type = type;
      types_specified = types_specified;
      m_cost_specified = m_cost_specified;
      encoded_only = encoded_only;
      raw_only = raw_only;
    })
refitted type types_specified m_cost_specified encoded_only raw_only s h f = record {
  memory = f.memory;
  time = f.time;
  parallelism = f.parallelism;
  one_thread_each = f.one_thread_each;
  known_type = h;
  known_version = f.known_version;
  output = f.output;
}

abbrev FirstFits : Settings × Bool → Type 0
FirstFits r = Fits r.0

with_argument-Fits :
    (missing : Bytes) (f : Bytes → Outcome Settings) (rest : List Bytes)
    → ((argument : Bytes) → Ensures Fits (f argument))
    → Ensures FirstFits (with_argument missing f rest)
unfolding Ensures
with_argument-Fits missing f [] h = tt
with_argument-Fits missing f (argument ∷ rest) h =
    chain FirstFits Fits (f argument) _ (h argument) (λ s k. k)

memory_option-Fits :
    (missing : Bytes) (f : Bytes → Settings → Outcome Settings) (s : Settings) (rest : List Bytes)
    → ((argument : Bytes) (t : Settings) → Fits t → Ensures Fits (f argument t))
    → Fits s
    → Ensures FirstFits (memory_option missing f s rest)
unfolding memory_option
memory_option-Fits missing f s rest h k = guarded FirstFits s.m_cost_specified _ _ (λ _.
    with_argument-Fits missing _ rest (λ argument.
      h argument _
        (refitted s.type s.types_specified true s.encoded_only s.raw_only s k.known_type k)))

with_type-Fits :
    (type : ℕ) (s : Settings) → IsVariant type → Fits s → Ensures FirstFits (with_type type s)
unfolding with_type Ensures
with_type-Fits type s h f =
    refitted type (s.types_specified + 1) s.m_cost_specified s.encoded_only s.raw_only s h f

option-Fits :
    (strtoul : Bytes → ℕ) (s : Settings) (a : Bytes) (rest : List Bytes)
    → Fits s
    → Ensures FirstFits (option strtoul s a rest)
unfolding option Ensures
option-Fits strtoul s a rest f = guarded FirstFits (same a (codes "-h")) _ _ (λ _.
    branch FirstFits (same a (codes "-m")) _ _
      (λ _. memory_option-Fits _ _ s rest (λ n. set_m-Fits (strtoul n)) f)
      (λ _.
        branch FirstFits (same a (codes "-k")) _ _
          (λ _. memory_option-Fits _ _ s rest (λ n. set_k-Fits (strtoul n)) f)
          (λ _.
            branch FirstFits (same a (codes "-t")) _ _
              (λ _. with_argument-Fits _ _ rest (λ n. set_t-Fits (strtoul n) s f))
              (λ _.
                branch FirstFits (same a (codes "-p")) _ _
                  (λ _. with_argument-Fits _ _ rest (λ n. set_p-Fits (strtoul n) s f))
                  (λ _.
                    branch FirstFits (same a (codes "-l")) _ _
                      (λ _.
                        with_argument-Fits _ (λ n. go (record s { outlen = u32 (strtoul n) })) rest
                          (λ n. with_outlen (strtoul n) s f))
                      (λ _.
                        branch FirstFits (same a (codes "-i")) _ _
                          (λ _. with_type-Fits argon2_i s (inr (inl refl)) f)
                          (λ _.
                            branch FirstFits (same a (codes "-d")) _ _
                              (λ _. with_type-Fits argon2_d s (inl refl) f)
                              (λ _.
                                branch FirstFits (same a (codes "-id")) _ _
                                  (λ _. with_type-Fits argon2_id s (inr (inr refl)) f)
                                  (λ _.
                                    branch FirstFits (same a (codes "-e")) _ _
                                      (λ _.
                                        refitted s.type s.types_specified s.m_cost_specified true
                                          s.raw_only s f.known_type f)
                                      (λ _.
                                        branch FirstFits (same a (codes "-r")) _ _
                                          (λ _.
                                            refitted s.type s.types_specified s.m_cost_specified
                                              s.encoded_only true s f.known_type f)
                                          (λ _.
                                            branch FirstFits (same a (codes "-v")) _ _
                                              (λ _.
                                                with_argument-Fits _ _ rest (λ v. set_v-Fits v s f))
                                              (λ _. tt))))))))))))

pub options-Fits :
    (strtoul : Bytes → ℕ) (s : Settings) (taken : Bool) (rest : List Bytes)
    → Fits s
    → Ensures Fits (options strtoul s taken rest)
unfolding options Ensures
options-Fits strtoul s taken [] f = f
options-Fits strtoul s true (a ∷ rest) f = options-Fits strtoul s false rest f
options-Fits strtoul s false (a ∷ rest) f =
    chain Fits FirstFits (option strtoul s a rest) _ (option-Fits strtoul s a rest f)
      (λ r k. options-Fits strtoul r.0 r.1 rest k)

pub defaults-Fits : Fits defaults
defaults-Fits = record {
  memory = omega arith;
  time = omega arith;
  parallelism = omega arith;
  one_thread_each = refl;
  known_type = inr (inl refl);
  known_version = inr refl;
  output = omega arith;
}
