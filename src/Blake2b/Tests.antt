-- ===== src/Blake2b/Tests.antt =====
-- The theorems of the hash at inputs.
use argon.Base.{◌≡◌, arith, some, List, [], ◌∷◌, Bytes, codes, replicate}
use argon.Blake2b.Spec.{hash_from}
use argon.Blake2b.Stream.{chain}
use argon.Blake2b.Length.{HasDigest}
use argon.Blake2b.Long.{blake2b_long}
use argon.Blake2b.Long.Total.{blake2b_long-HasDigest}
use argon.Blake2b.Final.{start, joined, digest_of, digest_of-joined}

-- Two pieces that meet inside the second block, with an empty one between them.
abbrev pieces : List Bytes
pieces = replicate 100 1 ∷ [] ∷ replicate 200 2 ∷ []

digest_of-joined_example :
    digest_of 32 pieces ≡ some (hash_from 32 (chain (start 32)) (joined pieces))
digest_of-joined_example = digest_of-joined 32 pieces (omega arith) (omega arith)

blake2b_long-HasDigest_example : HasDigest 1024 (blake2b_long 1024 (codes "seed"))
blake2b_long-HasDigest_example =
    blake2b_long-HasDigest 1024 (codes "seed") (omega arith) (omega arith)
