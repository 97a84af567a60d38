-- ===== src/Run/Verified.antt =====
-- Proofs about `run` of argon2/src/run.c.
use argon.Base.{
  ℕ, ◌+◌, ◌≤◌, ◌≡◌, refl, arith, Bool, true, false, not, ◌||◌, none, some, Bytes, length, ltb,
  if◌then◌else◌, u32, u64, u32_max, le→ltb,
}
use argon.Param.{ErrorCode, version_number, type_string}
use argon.Memory.{Platform}
use argon.Phc.{encodedlen}
use argon.Memory.Total.{IsGenerous, Succeeds}
use argon.Api.{Written, argon2_hash, argon2_verify}
use argon.Api.Request.{IsRequest}
use argon.Api.Accept.{argon2_verify-argon2_hash}
use argon.Run.{go}
use argon.Run.Hash.{Printed, or_fatal, or_message, print_written, run_argon2}

print_written-verified :
    (platform : Platform) (pwd : Bytes) (type : ℕ) (encoded_only raw_only : Bool) (w : Written)
    → w.code ≡ ErrorCode.ok
    → Succeeds (argon2_verify platform w.encoded (some pwd) (length pwd) type)
    → (p : Printed) × (print_written platform pwd type encoded_only raw_only w ≡ go p)
      × (p.verified ≡ not (encoded_only || raw_only))
unfolding print_written or_message
print_written-verified platform pwd type true raw_only w ok (c, v) =
    let p : Printed = record {
      hash = if raw_only then w.hash else none;
      encoded = w.encoded;
      verified = false;
    } in
    (p, rw ok refl, refl)
print_written-verified platform pwd type false true w ok (c, v) =
    let p : Printed = record { hash = w.hash; encoded = none; verified = false } in
    (p, rw ok refl, refl)
print_written-verified platform pwd type false false w ok (c, v) =
    let p : Printed = record { hash = w.hash; encoded = w.encoded; verified = true } in
    (p, rw ok (rw v refl), refl)

-- When memory and threads are there, for a request with as many threads as lanes that `argon2_hash`
-- admits, a type with a name, and an encoded length, its zero included, of at most 2 ^ 32 - 1:
-- `run` for the current version ends without an error, and where neither `-e` nor `-r` was given
-- its verification of the hash it has printed succeeds.
pub run_argon2-verified :
    (platform : Platform) (outlen : ℕ) (pwd salt : Bytes) (t_cost m_cost lanes type : ℕ)
    (encoded_only raw_only : Bool) {name : Bytes} {n : ℕ}
    → IsGenerous platform
    → IsRequest t_cost m_cost lanes (some pwd) (length pwd) salt (length salt) outlen
    → type_string type false ≡ some name
    → encodedlen t_cost m_cost lanes (length salt) outlen type ≡ some n
    → n ≤ u32_max
    → (p : Printed) × (run_argon2 platform outlen pwd salt t_cost m_cost lanes lanes type
          encoded_only raw_only version_number
        ≡ go p)
      × (p.verified ≡ not (encoded_only || raw_only))
unfolding run_argon2 or_fatal
run_argon2-verified platform outlen pwd salt t m l type e r {n = n} g q named needs le =
    let (ok, (text, text_eq, (c, verified))) =
      argon2_verify-argon2_hash platform t m l (some pwd) (length pwd) salt (length salt) true
        outlen n type g q named needs (omega arith) le in
    let (out, out_eq, _) = g.buffer (u32 (outlen + 1)) in
    let (buf, buf_eq, _) = g.buffer (u64 (n + 1)) in
    let words = q.saltlen_word in
    let short : ltb u32_max (length salt) ≡ false = le→ltb u32_max (length salt) words in
    let same : u32 (length salt) ≡ length salt = omega (arith, words) in
    let (p, eq, flag) =
      print_written-verified platform pwd type e r
        (argon2_hash platform t m l (some pwd) (length pwd) (some salt) (length salt) true outlen
          true n type version_number)
        ok (c, rw text_eq verified) in
    (p, rw (short, out_eq, same, needs, buf_eq) eq, flag)
