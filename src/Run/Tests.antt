-- ===== src/Run/Tests.antt =====
-- The command line at inputs.
use argon.Base.{◌-◌, ◌≡◌, refl, ℕ, List, [], ◌∷◌, Bytes, codes, get_or, true, false, arith}
use argon.Param.{version_number, argon2_id}
use argon.Memory.Tests.{generous}
use argon.Phc.Tests.{sample_needs, id_is_named}
use argon.Api.Tests.{generous-IsGenerous, sample-Request}
use argon.Run.Hash.{Printed, run_argon2}
use argon.Run.Verified.{run_argon2-verified}
use argon.Run.{
  Invocation, go, defaults, same, set_t, set_p, with_type, option, options, checked, invocation_of,
}
use argon.Run.Bounds.{IsReady, invocation_of-IsReady}

-- The value of a number of one digit.
abbrev first_digit : Bytes → ℕ
first_digit str = get_or str 0 48 - 48

abbrev arguments : List Bytes
arguments =
    codes "somesalt"
    ∷ codes "-id"
    ∷ codes "-t"
    ∷ codes "2"
    ∷ codes "-p"
    ∷ codes "4"
    ∷ codes "-l"
    ∷ codes "8"
    ∷ codes "-e"
    ∷ []

abbrev invocation : Invocation
invocation = record {
  pwd = codes "password";
  salt = codes "somesalt";
  settings = record defaults {
    t_cost = 2;
    lanes = 4;
    threads = 4;
    type = 2;
    types_specified = 1;
    outlen = 8;
    encoded_only = true;
  };
}

invocation_of-arguments : invocation_of first_digit (codes "password") arguments ≡ go invocation
unfolding invocation_of options option checked set_t set_p with_type same
invocation_of-arguments = refl

invocation_of-IsReady_example : IsReady invocation
invocation_of-IsReady_example =
    invocation_of-IsReady first_digit (codes "password") arguments invocation_of-arguments

run_argon2-verified_example :
    (p : Printed) × (run_argon2 generous 4
        (codes "password")
        (codes "somesalt")
        1
        16
        2
        2
        argon2_id
        false
        false
        version_number
      ≡ go p)
    × (p.verified ≡ true)
run_argon2-verified_example =
    run_argon2-verified generous 4 (codes "password") (codes "somesalt") 1 16 2 argon2_id false
      false generous-IsGenerous (sample-Request (codes "password")) id_is_named sample_needs
      (omega arith)
