-- ===== src/Validate/Tests.antt =====
-- A context at the smallest costs, and runs of `validate_inputs`.
use argon.Base.{◌^◌, ◌≡◌, ◌↔◌, refl, false, none, some, codes, arith}
use argon.Param.{Context, ErrorCode, IsWords}
use argon.Validate.{validate_costs, validate_optional, validate, validate_inputs}
use argon.Validate.Bounds.{IsAdmissible, validate_inputs-ok_iff}

abbrev pub sample : Context
sample = record {
  out = some (codes "....");
  outlen = 4;
  pwd = some (codes "password");
  pwdlen = 8;
  salt = some (codes "somesalt");
  saltlen = 8;
  secret = none;
  secretlen = 0;
  ad = none;
  adlen = 0;
  t_cost = 1;
  m_cost = 16;
  lanes = 2;
  threads = 2;
  version = 0x13;
  allocate_cbk = false;
  free_cbk = false;
  flags = 0;
}

-- 8 * 2 ^ 29 wraps to 0, and the test on the lanes refuses the context.
abbrev many_lanes : Context
many_lanes = record sample { lanes = 2 ^ 29 }

sample-IsWords : IsWords sample
sample-IsWords = omega arith

validate_inputs-ok_iff_example :
    (validate_inputs (some sample) ≡ ErrorCode.ok) ↔ IsAdmissible sample
validate_inputs-ok_iff_example = validate_inputs-ok_iff sample (omega arith)

sample_is_accepted : validate_inputs (some sample) ≡ ErrorCode.ok
unfolding validate_inputs validate validate_optional validate_costs
sample_is_accepted = refl

too_many_lanes : validate_inputs (some many_lanes) ≡ ErrorCode.lanes_too_many
unfolding validate_inputs validate validate_optional validate_costs
too_many_lanes = refl
