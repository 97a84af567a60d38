-- ===== src/Addon/Rejections.antt =====
-- Which options `Hash` of argon2_core.cpp refuses with a `TypeError`.
use argon.Base.{ℕ, ◌≡◌, ◌↔◌, ◌∙◌, refl, sym, Option, none, some, Bytes, codes, u32}
use argon.Addon.{Host}
use argon.Addon.Worker.{CommonArgs, HashWorker, hash_worker, execute_hash}
use argon.Addon.Calls.{
  Value, buffer, number, Options, Settled, Rejection, resolved, rejected, ◌>>=◌, get_buffer,
  get_uint32, extract_common_args, hash, settle_hash,
}
use argon.Addon.Calls.{bind-some}

abbrev pub HoldsBuffer : Value → Type 0
HoldsBuffer v = (bytes : Bytes) × (v ≡ buffer bytes)

abbrev pub HoldsNumber : Value → Type 0
HoldsNumber v = (n : ℕ) × (v ≡ number n)

-- The options of a hash have the kinds that the addon asks for.
pub record IsWellTyped (args : Options) : Type 0 where
  pub password_kind : HoldsBuffer args.password
  pub salt_kind : HoldsBuffer args.salt
  pub secret_kind : HoldsBuffer args.secret
  pub ad_kind : HoldsBuffer args.ad
  pub m_kind : HoldsNumber args.m
  pub t_kind : HoldsNumber args.t
  pub p_kind : HoldsNumber args.p
  pub version_kind : HoldsNumber args.version
  pub type_kind : HoldsNumber args.type
  pub hash_length_kind : HoldsNumber args.hash_length

buffer_kind : (v : Value) (b : Bytes) → get_buffer v ≡ some b → HoldsBuffer v
unfolding get_buffer
buffer_kind (buffer bytes) b h = (bytes, refl)
buffer_kind (number n) b h = cc
buffer_kind Value.other_value b h = cc

number_kind : (v : Value) (n : ℕ) → get_uint32 v ≡ some n → HoldsNumber v
unfolding get_uint32
number_kind (buffer bytes) n h = cc
number_kind (number k) n h = (k, refl)
number_kind Value.other_value n h = cc

buffer_given : (v : Value) → HoldsBuffer v → (b : Bytes) × (get_buffer v ≡ some b)
unfolding get_buffer
buffer_given v (bytes, e) = (bytes, rw e refl)

number_given : (v : Value) → HoldsNumber v → (n : ℕ) × (get_uint32 v ≡ some n)
unfolding get_uint32
number_given v (k, e) = (u32 k, rw e refl)

-- What `Hash` reads of its options.
found : Options → Option (CommonArgs × ℕ)
found args = extract_common_args args >>= λ common.
    get_uint32 args.hash_length >>= λ hash_length. some (common, hash_length)

found-IsWellTyped : (args : Options) (r : CommonArgs × ℕ) → found args ≡ some r → IsWellTyped args
unfolding found extract_common_args
found-IsWellTyped args r h =
    let (c, e, k) = bind-some (extract_common_args args) _ h in
    let (n, n_eq, _) = bind-some (get_uint32 args.hash_length) _ k in
    let (password, password_eq, h₁) = bind-some (get_buffer args.password) _ e in
    let (salt, salt_eq, h₂) = bind-some (get_buffer args.salt) _ h₁ in
    let (secret, secret_eq, h₃) = bind-some (get_buffer args.secret) _ h₂ in
    let (ad, ad_eq, h₄) = bind-some (get_buffer args.ad) _ h₃ in
    let (m, m_eq, h₅) = bind-some (get_uint32 args.m) _ h₄ in
    let (t, t_eq, h₆) = bind-some (get_uint32 args.t) _ h₅ in
    let (p, p_eq, h₇) = bind-some (get_uint32 args.p) _ h₆ in
    let (v, v_eq, h₈) = bind-some (get_uint32 args.version) _ h₇ in
    let (type, type_eq, _) = bind-some (get_uint32 args.type) _ h₈ in
    record {
      password_kind = buffer_kind args.password password password_eq;
      salt_kind = buffer_kind args.salt salt salt_eq;
      secret_kind = buffer_kind args.secret secret secret_eq;
      ad_kind = buffer_kind args.ad ad ad_eq;
      m_kind = number_kind args.m m m_eq;
      t_kind = number_kind args.t t t_eq;
      p_kind = number_kind args.p p p_eq;
      version_kind = number_kind args.version v v_eq;
      type_kind = number_kind args.type type type_eq;
      hash_length_kind = number_kind args.hash_length n n_eq;
    }

IsWellTyped-found :
    (args : Options) → IsWellTyped args → (r : CommonArgs × ℕ) × (found args ≡ some r)
unfolding found extract_common_args
IsWellTyped-found args h =
    let (password, e₁) = buffer_given args.password h.password_kind in
    let (salt, e₂) = buffer_given args.salt h.salt_kind in
    let (secret, e₃) = buffer_given args.secret h.secret_kind in
    let (ad, e₄) = buffer_given args.ad h.ad_kind in
    let (m, e₅) = number_given args.m h.m_kind in
    let (t, e₆) = number_given args.t h.t_kind in
    let (p, e₇) = number_given args.p h.p_kind in
    let (version, e₈) = number_given args.version h.version_kind in
    let (type, e₉) = number_given args.type h.type_kind in
    let (hash_length, e) = number_given args.hash_length h.hash_length_kind in
    let c : CommonArgs = record {
      password = password;
      salt = salt;
      secret = secret;
      ad = ad;
      m = m;
      t = t;
      p = p;
      version = version;
      type = type;
    } in
    (
      (c, hash_length),
      rw e₁ (rw e₂ (rw e₃ (rw e₄ (rw e₅ (rw e₆ (rw e₇ (rw e₈ (rw e₉ (rw e refl))))))))),
    )

hash-read :
    (host : Host) (args : Options) (r : CommonArgs × ℕ)
    → found args ≡ some r
    → hash host (some args) ≡ settle_hash (execute_hash host (hash_worker host r.0 r.1))
unfolding hash found
hash-read host args r k = rw (hash, k) refl

settle_hash-error :
    (w : HashWorker) (message : Bytes) → settle_hash w ≡ rejected (Rejection.type_error message) → ⊥
unfolding settle_hash
settle_hash-error w message =
    elim w.error
      as (λ x.
        let settled : Settled Bytes = elim x [
          | none ↦ resolved w.hash
          | some text ↦ rejected (Rejection.error text)
        ] in
        settled ≡ rejected (Rejection.type_error message) → ⊥) [
          | none ↦ λ h. cc
          | some text ↦ λ h. cc
        ]

-- `hash` on an object rejects with a `TypeError` exactly when one of its options is not of the kind that
-- the addon asks for.
pub hash-type_error_iff :
    (host : Host) (args : Options)
    → ((message : Bytes) × (hash host (some args) ≡ rejected (Rejection.type_error message)))
      ↔ (¬ IsWellTyped args)
unfolding hash found
hash-type_error_iff host args = (
  λ (message, e) typed.
      let (r, k) = IsWellTyped-found args typed in
      settle_hash-error (execute_hash host (hash_worker host r.0 r.1)) message
        (sym (hash-read host args r k) ∙ e),
  λ untyped.
      elim (found args)
          as (λ x.
            found args ≡ x
            → (message : Bytes) × (hash host (some args)
                ≡ rejected (Rejection.type_error message))) [
                  | none ↦ λ k. (
                    codes "hash: invalid or missing option (expected Buffers and numbers)",
                    rw (hash, found, k) refl,
                  )
                  | some r ↦ λ k. absurd (untyped (found-IsWellTyped args r k))
                ]
        refl,
)
