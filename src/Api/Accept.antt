-- ===== src/Api/Accept.antt =====
-- `argon2_verify` of argon2/src/argon2.c accepts what `argon2_hash` writes.
use argon.Base.{
  ℕ, ◌≤◌, ◌≡◌, ◌≢◌, ◌∙◌, ◌⊎◌, inl, inr, refl, ap, arith, Bool, true, false, Option, some, Bytes,
  length, take, take-take, u32, u32_max,
}
use argon.Param.{ErrorCode, fail, version_number, type_string}
use argon.Phc.{encodedlen}
use argon.Phc.Encode.{phc_text}
use argon.Phc.RoundTrip.{restored}
use argon.Memory.{Platform}
use argon.Memory.Total.{IsGenerous, Succeeds}
use argon.Api.{
  is_type, argon2_verify_ctx, Written, hash_context, argon2_hash, verify_context, argon2_verify,
}
use argon.Api.Request.{IsRequest, named_type, context, given, runs}
use argon.Api.Text.{text_needs, text_encoded, text_decoded}
use argon.Api.Stages.{
  write_results_lem, argon2_verify_ctx_cases, check_lengths-ok, argon2_hash_stages,
  argon2_verify_stages,
}

-- A request, a type with a name and a buffer that has the room for its text.
module _ (platform : Platform) (g : IsGenerous platform) (t_cost m_cost parallelism : ℕ)
    (salt : Bytes) (saltlen hashlen room type : ℕ) {name : Bytes} {n : ℕ}
    (named : type_string type false ≡ some name)
    (needs : encodedlen t_cost m_cost parallelism saltlen hashlen type ≡ some n) (le : n ≤ room)
    (fits : n ≤ u32_max) where
  abbrev Request : Option Bytes → ℕ → Type 0
  Request pwd pwdlen = IsRequest t_cost m_cost parallelism pwd pwdlen salt saltlen hashlen

  abbrev hashed : Option Bytes → ℕ → Bool → Written
  hashed pwd pwdlen wants_hash =
      argon2_hash platform t_cost m_cost parallelism pwd pwdlen (some salt) saltlen wants_hash
        hashlen true room type version_number

  abbrev known : is_type type ≡ true
  known = named_type type named

  -- What `argon2_hash` writes, and what `argon2_verify` does with the text.
  record IsHashed (pwd : Option Bytes) (pwdlen : ℕ) (digest : Bytes) : Type 0 where
    text : Bytes
    code_eq : (wants_hash : Bool) → (hashed pwd pwdlen wants_hash).code ≡ ErrorCode.ok
    text_eq : (wants_hash : Bool) → (hashed pwd pwdlen wants_hash).encoded ≡ some text
    hash_eq : (hashed pwd pwdlen true).hash ≡ some digest
    verify_eq :
        (pwd' : Option Bytes) (pwdlen' : ℕ) (q' : Request pwd' pwdlen')
        → (fresh : Bytes) × (argon2_verify platform (some text) pwd' pwdlen' type
            ≡ argon2_verify_ctx platform
                (context t_cost m_cost parallelism pwd' pwdlen' salt saltlen hashlen q'
                  (take (u32 saltlen) salt)
                  fresh)
                digest
                type)

  abbrev digest_of_request : (pwd : Option Bytes) (pwdlen : ℕ) → Request pwd pwdlen → Bytes
  digest_of_request pwd pwdlen q =
      (runs t_cost m_cost parallelism pwd pwdlen salt saltlen hashlen q platform g type
        known).digest

  request-IsHashed :
      (pwd : Option Bytes) (pwdlen : ℕ) (q : Request pwd pwdlen)
      → IsHashed pwd pwdlen (digest_of_request pwd pwdlen q)
  unfolding hash_context context verify_context
  request-IsHashed pwd pwdlen q =
      let r =
        runs t_cost m_cost parallelism pwd pwdlen salt saltlen hashlen q platform g type known in
      let (out, out_given, _) = g.buffer hashlen in
      let first = r.first out in
      let tag = first.tag in
      let c = context t_cost m_cost parallelism pwd pwdlen salt saltlen hashlen q salt tag in
      let text = phc_text c name in
      let needed =
        text_needs t_cost m_cost parallelism pwd pwdlen salt saltlen hashlen q type named needs tag
          r.digest r.size r.bytes first.tag_eq in
      let encoded =
        text_encoded t_cost m_cost parallelism pwd pwdlen salt saltlen hashlen q type named needs
          tag r.digest r.size r.bytes first.tag_eq room le in
      let lengths =
        check_lengths-ok pwdlen saltlen hashlen q.pwdlen_word q.saltlen_word q.hashlen_min
          q.hashlen_word in
      let run = λ (wants_hash : Bool).
        argon2_hash_stages platform t_cost m_cost parallelism pwd pwdlen (some salt) saltlen
          wants_hash hashlen true room type version_number out c lengths out_given
          first.result_eq in
      let written = λ (wants_hash : Bool).
        write_results_lem wants_hash room hashlen type c text (omega (arith, needed)) encoded in
      let word : hashlen ≡ u32 hashlen = omega (arith, q.hashlen_word) in
      let tag_again : take (u32 hashlen) (take (u32 hashlen) tag) ≡ r.digest =
        take-take (u32 hashlen) tag ∙ first.tag_eq in
      record {
        text = text;
        code_eq = λ wants. ap (λ (w : Written). w.code) (run wants) ∙ (written wants).0;
        text_eq = λ wants. ap (λ (w : Written). w.encoded) (run wants) ∙ (written wants).1;
        hash_eq =
            ap (λ (w : Written). w.hash) (run true)
            ∙ ((written true).2
                ∙ (ap (λ (k : ℕ). some (take k (take (u32 hashlen) tag))) word
                    ∙ ap some tag_again));
        verify_eq = λ pwd' pwdlen' q'.
            let (buf, buf_given, _) = g.buffer (length text) in
            let (fresh, fresh_given, _) = g.buffer (u32 hashlen) in
            let decoded =
              text_decoded t_cost m_cost parallelism pwd pwdlen salt saltlen hashlen q type named
                needs tag r.digest r.size r.bytes first.tag_eq pwd' pwdlen' buf
                (given t_cost m_cost parallelism pwd' pwdlen' salt saltlen hashlen q') in
            (
              fresh,
              argon2_verify_stages platform text pwd' pwdlen' type buf fresh
                    (restored (verify_context (length text) buf buf pwd' pwdlen') c) q'.pwdlen_word
                    (omega (arith, needed)) buf_given decoded fresh_given
                  ∙ ap
                      (λ (d : Bytes).
                        argon2_verify_ctx platform
                          (context t_cost m_cost parallelism pwd' pwdlen' salt saltlen hashlen q'
                            (take (u32 saltlen) salt) fresh)
                          d type)
                      tag_again,
            );
      }

  -- The digest of the second password decides.
  verify_cases :
      (pwd pwd' : Option Bytes) (pwdlen pwdlen' : ℕ) (q : Request pwd pwdlen)
      (q' : Request pwd' pwdlen')
      → let d = digest_of_request pwd pwdlen q in
        let d' = digest_of_request pwd' pwdlen' q' in
        let r =
          argon2_verify platform (some (request-IsHashed pwd pwdlen q).text) pwd' pwdlen' type in
        ((d ≡ d') × Succeeds r) ⊎ ((d ≢ d') × (r ≡ fail ErrorCode.verify_mismatch))
  unfolding context hash_context
  verify_cases pwd pwd' pwdlen pwdlen' q q' =
      let h = request-IsHashed pwd pwdlen q in
      let (fresh, e) = h.verify_eq pwd' pwdlen' q' in
      let r =
        runs t_cost m_cost parallelism pwd pwdlen salt saltlen hashlen q platform g type known in
      let r' =
        runs t_cost m_cost parallelism pwd' pwdlen' salt saltlen hashlen q' platform g type known in
      rw e (
        argon2_verify_ctx_cases platform
          (context t_cost m_cost parallelism pwd' pwdlen' salt saltlen hashlen q'
            (take (u32 saltlen) salt) fresh)
          type r.digest r'.digest (r'.second fresh) r.size r.bytes r'.size r'.bytes)

some_ne : (d d' : Bytes) → d ≢ d' → some d ≢ some d'
some_ne d d' h e = h (some_inj d d' e)
  where
    some_inj : (d d' : Bytes) → some d ≡ some d' → d ≡ d'
    some_inj d d' h = cc

-- Where the system gives all that is asked for: for valid arguments, a type that has a name, and a buffer
-- for the text of at least the size that `argon2_encodedlen` names, which fits 32 bits, `argon2_hash`
-- with the current version returns `ARGON2_OK` and writes a text, and `argon2_verify` of this text with a
-- valid password succeeds where `argon2_hash` writes the same hash for this password as for the first,
-- and else returns `ARGON2_VERIFY_MISMATCH`.
pub argon2_verify_cases :
    (platform : Platform) (t_cost m_cost parallelism : ℕ) (pwd pwd' : Option Bytes)
    (pwdlen pwdlen' : ℕ) (salt : Bytes) (saltlen hashlen room type : ℕ) {name : Bytes} {n : ℕ}
    → IsGenerous platform
    → IsRequest t_cost m_cost parallelism pwd pwdlen salt saltlen hashlen
    → IsRequest t_cost m_cost parallelism pwd' pwdlen' salt saltlen hashlen
    → type_string type false ≡ some name
    → encodedlen t_cost m_cost parallelism saltlen hashlen type ≡ some n
    → n ≤ room
    → n ≤ u32_max
    → let hash = λ (p : Option Bytes) (len : ℕ).
      argon2_hash platform t_cost m_cost parallelism p len
        (some salt)
        saltlen
        true
        hashlen
        true
        room
        type
        version_number in
      let w = hash pwd pwdlen in
      (w.code ≡ ErrorCode.ok)
      × ((text : Bytes) × (w.encoded ≡ some text)
          × (let r = argon2_verify platform (some text) pwd' pwdlen' type in
              ((w.hash ≡ (hash pwd' pwdlen').hash) × Succeeds r)
              ⊎ ((w.hash ≢ (hash pwd' pwdlen').hash) × (r ≡ fail ErrorCode.verify_mismatch))))
argon2_verify_cases platform t m p pwd pwd' pwdlen pwdlen' salt saltlen hashlen room type g q q'
      named needs le fits =
    let h =
      request-IsHashed platform g t m p salt saltlen hashlen room type named needs le fits pwd
        pwdlen q in
    let h' =
      request-IsHashed platform g t m p salt saltlen hashlen room type named needs le fits pwd'
        pwdlen' q' in
    (
      h.code_eq true,
      (
        h.text,
        h.text_eq true,
        rw h.hash_eq (
            rw h'.hash_eq
              (elim (verify_cases platform g t m p salt saltlen hashlen room type named needs le
                fits pwd pwd' pwdlen pwdlen' q q') [
                  | inl (same, ok) ↦ inl (ap some same, ok)
                  | inr (other, mismatch) ↦ inr (some_ne _ _ other, mismatch)
                ])),
      ),
    )

-- Under the same conditions `argon2_hash` returns `ARGON2_OK`, whether the raw hash is asked for or not,
-- and writes a text for which and the same password `argon2_verify` succeeds: where the system gives all
-- that is asked for, the arguments are valid, the type has a name, and the buffer has at least the size
-- that `argon2_encodedlen` names, which fits 32 bits.
pub argon2_verify-argon2_hash :
    (platform : Platform) (t_cost m_cost parallelism : ℕ) (pwd : Option Bytes) (pwdlen : ℕ)
    (salt : Bytes) (saltlen : ℕ) (wants_hash : Bool) (hashlen room type : ℕ) {name : Bytes} {n : ℕ}
    → IsGenerous platform
    → IsRequest t_cost m_cost parallelism pwd pwdlen salt saltlen hashlen
    → type_string type false ≡ some name
    → encodedlen t_cost m_cost parallelism saltlen hashlen type ≡ some n
    → n ≤ room
    → n ≤ u32_max
    → let w =
        argon2_hash platform t_cost m_cost parallelism pwd pwdlen
          (some salt)
          saltlen
          wants_hash
          hashlen
          true
          room
          type
          version_number in
      (w.code ≡ ErrorCode.ok)
      × ((text : Bytes) × (w.encoded ≡ some text)
          × Succeeds (argon2_verify platform (some text) pwd pwdlen type))
argon2_verify-argon2_hash platform t m p pwd pwdlen salt saltlen wants_hash hashlen room type g q
      named needs le fits =
    let h =
      request-IsHashed platform g t m p salt saltlen hashlen room type named needs le fits pwd
        pwdlen q in
    (
      h.code_eq wants_hash,
      (
        h.text,
        h.text_eq wants_hash,
        elim (verify_cases platform g t m p salt saltlen hashlen room type named needs le fits pwd
            pwd pwdlen pwdlen q q) [
              | inl (same, ok) ↦ ok
              | inr (other, mismatch) ↦ absurd (other refl)
            ],
      ),
    )
