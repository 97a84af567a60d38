-- ===== src/Validate/Bounds.antt =====
-- What `validate_inputs` accepts, as bounds on the context.
use argon.Base.{◌*◌, ◌≤◌, ◌≡◌, ◌∙◌, ◌↔◌, ◌⊎◌, false, some, arith}
use argon.Param.{Context, ErrorCode, IsWords, max_lanes, max_threads}
use argon.Validate.{is_null, validate_costs, validate_optional, validate, validate_inputs}

-- The bounds that the documentation of the parameters states, without wrap-around.
pub record IsAdmissible (c : Context) : Type 0 where
  pub out_given : is_null c.out ≡ false
  pub outlen_min : 4 ≤ c.outlen
  pub pwd_given : (is_null c.pwd ≡ false) ⊎ (c.pwdlen ≡ 0)
  pub salt_given : (is_null c.salt ≡ false) ⊎ (c.saltlen ≡ 0)
  pub saltlen_min : 8 ≤ c.saltlen
  pub secret_given : (is_null c.secret ≡ false) ⊎ (c.secretlen ≡ 0)
  pub ad_given : (is_null c.ad ≡ false) ⊎ (c.adlen ≡ 0)
  pub m_cost_min : 8 * c.lanes ≤ c.m_cost
  pub t_cost_min : 1 ≤ c.t_cost
  pub lanes_min : 1 ≤ c.lanes
  pub lanes_max : c.lanes ≤ max_lanes
  pub threads_min : 1 ≤ c.threads
  pub threads_max : c.threads ≤ max_threads
  pub callbacks : c.allocate_cbk ≡ c.free_cbk

record IsCosts (c : Context) : Type 0 where
  m_cost_min : 8 * c.lanes ≤ c.m_cost
  t_cost_min : 1 ≤ c.t_cost
  lanes_min : 1 ≤ c.lanes
  lanes_max : c.lanes ≤ max_lanes
  threads_min : 1 ≤ c.threads
  threads_max : c.threads ≤ max_threads
  callbacks : c.allocate_cbk ≡ c.free_cbk

IsCosts-sound : (c : Context) → IsWords c → validate_costs c ≡ ErrorCode.ok → IsCosts c
unfolding validate_costs
IsCosts-sound c w h = ground arith

costs_complete : (c : Context) → IsWords c → IsCosts c → validate_costs c ≡ ErrorCode.ok
unfolding validate_costs
costs_complete c w h = ground arith

record IsOptional (c : Context) : Type 0 where
  secret_given : (is_null c.secret ≡ false) ⊎ (c.secretlen ≡ 0)
  ad_given : (is_null c.ad ≡ false) ⊎ (c.adlen ≡ 0)

IsOptional-sound :
    (c : Context)
    → validate_optional c ≡ ErrorCode.ok
    → IsOptional c × (validate_costs c ≡ ErrorCode.ok)
unfolding validate_optional
IsOptional-sound c h = (ground arith, ground arith)

optional_complete :
    (c : Context) → IsWords c → IsOptional c → validate_optional c ≡ validate_costs c
unfolding validate_optional
optional_complete c w h = ground arith

record IsRequired (c : Context) : Type 0 where
  out_given : is_null c.out ≡ false
  outlen_min : 4 ≤ c.outlen
  pwd_given : (is_null c.pwd ≡ false) ⊎ (c.pwdlen ≡ 0)
  salt_given : (is_null c.salt ≡ false) ⊎ (c.saltlen ≡ 0)
  saltlen_min : 8 ≤ c.saltlen

IsRequired-sound :
    (c : Context) → validate c ≡ ErrorCode.ok → IsRequired c × (validate_optional c ≡ ErrorCode.ok)
unfolding validate
IsRequired-sound c h = (ground arith, ground arith)

required_complete : (c : Context) → IsWords c → IsRequired c → validate c ≡ validate_optional c
unfolding validate
required_complete c w h = ground arith

validate_sound : (c : Context) → IsWords c → validate c ≡ ErrorCode.ok → IsAdmissible c
validate_sound c w h =
    let (r, h') = IsRequired-sound c h in
    let (o, h'') = IsOptional-sound c h' in
    let k = IsCosts-sound c w h'' in
    record {
      out_given = r.out_given;
      outlen_min = r.outlen_min;
      pwd_given = r.pwd_given;
      salt_given = r.salt_given;
      saltlen_min = r.saltlen_min;
      secret_given = o.secret_given;
      ad_given = o.ad_given;
      m_cost_min = k.m_cost_min;
      t_cost_min = k.t_cost_min;
      lanes_min = k.lanes_min;
      lanes_max = k.lanes_max;
      threads_min = k.threads_min;
      threads_max = k.threads_max;
      callbacks = k.callbacks;
    }

validate_complete : (c : Context) → IsWords c → IsAdmissible c → validate c ≡ ErrorCode.ok
validate_complete c w a =
    let r : IsRequired c = record {
      out_given = a.out_given;
      outlen_min = a.outlen_min;
      pwd_given = a.pwd_given;
      salt_given = a.salt_given;
      saltlen_min = a.saltlen_min;
    } in
    let o : IsOptional c = record { secret_given = a.secret_given; ad_given = a.ad_given } in
    let k : IsCosts c = record {
      m_cost_min = a.m_cost_min;
      t_cost_min = a.t_cost_min;
      lanes_min = a.lanes_min;
      lanes_max = a.lanes_max;
      threads_min = a.threads_min;
      threads_max = a.threads_max;
      callbacks = a.callbacks;
    } in
    required_complete c w r ∙ (optional_complete c w o ∙ costs_complete c w k)

-- On a context of 32-bit words `validate_inputs` returns `ARGON2_OK` exactly when the context is
-- admissible: the output is given, every null pointer has length 0, and the bounds hold as numbers,
-- so that the wrapping product `8 * lanes` lets no context through.
pub validate_inputs-ok_iff :
    (c : Context) → IsWords c → (validate_inputs (some c) ≡ ErrorCode.ok) ↔ IsAdmissible c
unfolding validate_inputs
validate_inputs-ok_iff c w = (validate_sound c w, validate_complete c w)
