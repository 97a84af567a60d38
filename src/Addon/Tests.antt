-- ===== src/Addon/Tests.antt =====
-- The addon at inputs.
use argon.Base.{
  ◌≡◌, ◌↔◌, refl, arith, inr, true, some, none, Bytes, codes, replicate, length-replicate, All,
}
use argon.Memory.Tests.{generous}
use argon.Addon.{Host, constant_time_compare}
use argon.Addon.Worker.{
  CommonArgs, hash_worker, verify_worker, execute_hash, execute_verify, destroy_hash,
  destroy_verify,
}
use argon.Addon.Calls.{Value, buffer, number, Options, Rejection, resolved, rejected, hash, verify}
use argon.Addon.Compare.{constant_time_compare_iff}
use argon.Addon.Verify.{verify-iff_hash}
use argon.Addon.Wipe.{IsZeros, GivesSizes, destroy-IsZeros}
use argon.Addon.Rejections.{IsWellTyped, hash-type_error_iff}

abbrev linux : Host
linux = record {
  platform = generous;
  memalign = λ alignment size. some (replicate size 7);
  empty_vector = none;
}

linux-GivesSizes : GivesSizes linux
linux-GivesSizes alignment size = inr (replicate size 7, refl, length-replicate size 7)

abbrev options : Options
options = record {
  password = buffer (codes "password");
  salt = buffer (codes "somesalt");
  secret = buffer (codes "pepper");
  ad = buffer (codes "");
  m = number 16;
  t = number 1;
  p = number 2;
  version = number 0x13;
  type = number 2;
  hash_length = number 4;
  expected_hash = Value.other_value;
}

-- The salt is a number.
abbrev wrong : Options
wrong = record options { salt = number 8 }

abbrev common : CommonArgs
common = record {
  password = codes "password";
  salt = codes "somesalt";
  secret = codes "pepper";
  ad = codes "";
  m = 16;
  t = 1;
  p = 2;
  version = 0x13;
  type = 2;
}

verify-iff_hash_example :
    (verify linux (some (record options { expected_hash = buffer (codes "tag1") })) ≡ resolved true)
    ↔ (hash linux (some (record options { hash_length = number 4 })) ≡ resolved (codes "tag1"))
verify-iff_hash_example = verify-iff_hash linux options (codes "tag1") (omega arith)

destroy-IsZeros_example :
    All IsZeros (destroy_hash (execute_hash linux (hash_worker linux common 4)))
    × All IsZeros
        (destroy_verify (execute_verify linux (verify_worker linux common (codes "tag1"))))
destroy-IsZeros_example = destroy-IsZeros linux common 4 (codes "tag1") linux-GivesSizes

hash-type_error_iff_example :
    ((message : Bytes) × (hash linux (some wrong) ≡ rejected (Rejection.type_error message)))
    ↔ (¬ IsWellTyped wrong)
hash-type_error_iff_example = hash-type_error_iff linux wrong

constant_time_compare_iff_example :
    (constant_time_compare (codes "tag1") (codes "tag2") 4 ≡ true) ↔ (codes "tag1" ≡ codes "tag2")
constant_time_compare_iff_example =
    constant_time_compare_iff (codes "tag1") (codes "tag2") 4 refl refl
