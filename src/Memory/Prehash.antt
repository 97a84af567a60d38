-- ===== src/Memory/Prehash.antt =====
-- The digest that `initial_hash` writes, and the message that Argon2 prescribes for it.
use argon.Base.{ℕ, ◌≡◌, refl, arith, Bytes, ◌++◌, length, append_assoc, append-nil}
use argon.Param.{Context, counted}
use argon.Instance.{prehash_digest_length}
use argon.Words.{store32}
use argon.Blake2b.Spec.{hash_from}
use argon.Blake2b.Stream.{chain}
use argon.Blake2b.Final.{start, joined, digest_of-joined}
use argon.Memory.{prehash_pieces, initial_hash}
use argon.Memory.Injective.{AreCounted}

-- A byte string behind its length, as a little-endian word.
framed : Bytes → Bytes
framed xs = store32 (length xs) ++ xs

-- The message of the prehashing digest: degree of parallelism, tag length, memory size, number of
-- passes, version and type as little-endian words, and the four byte strings.
pub prehash_message : ℕ → ℕ → ℕ → ℕ → ℕ → ℕ → Bytes → Bytes → Bytes → Bytes → Bytes
prehash_message p tag_length m t v y pwd salt secret ad =
    store32 p
    ++ store32 tag_length
    ++ store32 m
    ++ store32 t
    ++ store32 v
    ++ store32 y
    ++ framed pwd
    ++ framed salt
    ++ framed secret
    ++ framed ad

joined-prehash_pieces :
    (c : Context) (type : ℕ)
    → AreCounted c
    → joined (prehash_pieces c type)
      ≡ prehash_message c.lanes c.outlen c.m_cost c.t_cost c.version type
          (counted c.pwd c.pwdlen)
          (counted c.salt c.saltlen)
          (counted c.secret c.secretlen)
          (counted c.ad c.adlen)
unfolding prehash_pieces prehash_message framed
joined-prehash_pieces c type n =
    rw (n.pwd_count, n.salt_count, n.secret_count, n.ad_count) (simp (append_assoc, append-nil))

-- For a context whose pointers hold as many bytes as their lengths say, `initial_hash` writes the
-- 64-byte BLAKE2b digest of the message that Argon2 prescribes: the degree of parallelism, the tag
-- length, the memory size, the number of passes, the version and the type, then the password, the salt,
-- the secret and the associated data, each behind its length.
pub initial_hash-message :
    (c : Context) (type : ℕ)
    → AreCounted c
    → initial_hash c type
      ≡ hash_from prehash_digest_length (chain (start prehash_digest_length)) (
          prehash_message c.lanes c.outlen c.m_cost c.t_cost c.version type
            (counted c.pwd c.pwdlen)
            (counted c.salt c.saltlen)
            (counted c.secret c.secretlen)
            (counted c.ad c.adlen))
unfolding initial_hash
initial_hash-message c type n =
    let e = joined-prehash_pieces c type n in
    rw (digest_of-joined 64 (prehash_pieces c type) (omega arith) (omega arith)) (rw e refl)
