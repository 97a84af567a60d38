-- ===== src/Memory/Injective.antt =====
-- What `initial_hash` hashes tells its inputs apart.
use argon.Base.{
  ℕ, ◌≤◌, ◌≡◌, ◌∙◌, sym, ap, arith, ◌++◌, Bytes, length, take, drop, take_append_self,
  drop_append_self, u32_max,
}
use argon.Param.{Context, IsWords, counted}
use argon.Words.{store32, load32}
use argon.Words.RoundTrip.{load32-store32, length-store32}
use argon.Blake2b.Final.{joined}
use argon.Memory.{prehash_pieces}

-- The pointers of a context hold as many bytes as their lengths say.
pub record AreCounted (c : Context) : Type 0 where
  pub pwd_count : length (counted c.pwd c.pwdlen) ≡ c.pwdlen
  pub salt_count : length (counted c.salt c.saltlen) ≡ c.saltlen
  pub secret_count : length (counted c.secret c.secretlen) ≡ c.secretlen
  pub ad_count : length (counted c.ad c.adlen) ≡ c.adlen

-- Two contexts and variants ask for the same tag.
pub record SameInputs (c c' : Context) (type type' : ℕ) : Type 0 where
  pub lanes_eq : c.lanes ≡ c'.lanes
  pub outlen_eq : c.outlen ≡ c'.outlen
  pub m_cost_eq : c.m_cost ≡ c'.m_cost
  pub t_cost_eq : c.t_cost ≡ c'.t_cost
  pub version_eq : c.version ≡ c'.version
  pub type_eq : type ≡ type'
  pub pwd_eq : counted c.pwd c.pwdlen ≡ counted c'.pwd c'.pwdlen
  pub salt_eq : counted c.salt c.saltlen ≡ counted c'.salt c'.saltlen
  pub secret_eq : counted c.secret c.secretlen ≡ counted c'.secret c'.secretlen
  pub ad_eq : counted c.ad c.adlen ≡ counted c'.ad c'.adlen

word_front :
    (w w' : ℕ) (xs xs' : Bytes)
    → w ≤ u32_max
    → w' ≤ u32_max
    → store32 w ++ xs ≡ store32 w' ++ xs'
    → (w ≡ w') × (xs ≡ xs')
word_front w w' xs xs' h h' e = (
  sym (load32-store32 w xs (omega arith)) ∙ (ap load32 e ∙ load32-store32 w' xs' (omega arith)),
  sym (drop_append_self (store32 w) xs 4 (length-store32 w))
      ∙ (ap (drop 4) e ∙ drop_append_self (store32 w') xs' 4 (length-store32 w')),
)

bytes_front :
    (ys ys' xs xs' : Bytes)
    → length ys ≡ length ys'
    → ys ++ xs ≡ ys' ++ xs'
    → (ys ≡ ys') × (xs ≡ xs')
bytes_front ys ys' xs xs' len e =
    let n = length ys' in
    (
      sym (take_append_self ys xs n len)
          ∙ (ap (take n) e ∙ take_append_self ys' xs' n (omega arith)),
      sym (drop_append_self ys xs n len)
          ∙ (ap (drop n) e ∙ drop_append_self ys' xs' n (omega arith)),
    )

-- A length and as many bytes.
field_front :
    (w w' : ℕ) (ys ys' xs xs' : Bytes)
    → w ≤ u32_max
    → w' ≤ u32_max
    → length ys ≡ w
    → length ys' ≡ w'
    → store32 w ++ (ys ++ xs) ≡ store32 w' ++ (ys' ++ xs')
    → (ys ≡ ys') × (xs ≡ xs')
field_front w w' ys ys' xs xs' h h' len len' e =
    let (same, rest) = word_front w w' (ys ++ xs) (ys' ++ xs') h h' e in
    bytes_front ys ys' xs xs' (omega arith) rest

-- For contexts of 32-bit words whose pointers hold as many bytes as their lengths say, `initial_hash`
-- hashes the same message only where all inputs are the same: no two choices of password, salt, secret,
-- associated data, costs, lanes, tag length, version and variant share a message.
pub joined-prehash_pieces_inj :
    (c c' : Context) (type type' : ℕ)
    → IsWords c
    → IsWords c'
    → type ≤ u32_max
    → type' ≤ u32_max
    → AreCounted c
    → AreCounted c'
    → joined (prehash_pieces c type) ≡ joined (prehash_pieces c' type')
    → SameInputs c c' type type'
unfolding prehash_pieces
joined-prehash_pieces_inj c c' type type' w w' t t' n n' e =
    let (lanes, e₁) = word_front c.lanes c'.lanes _ _ w.lanes_word w'.lanes_word e in
    let (outlen, e₂) = word_front c.outlen c'.outlen _ _ w.outlen_word w'.outlen_word e₁ in
    let (m_cost, e₃) = word_front c.m_cost c'.m_cost _ _ w.m_cost_word w'.m_cost_word e₂ in
    let (t_cost, e₄) = word_front c.t_cost c'.t_cost _ _ w.t_cost_word w'.t_cost_word e₃ in
    let (version, e₅) = word_front c.version c'.version _ _ w.version_word w'.version_word e₄ in
    let (same_type, e₆) = word_front type type' _ _ t t' e₅ in
    let (pwd, e₇) =
      field_front c.pwdlen c'.pwdlen _ _ _ _ w.pwdlen_word w'.pwdlen_word n.pwd_count n'.pwd_count
        e₆ in
    let (salt, e₈) =
      field_front c.saltlen c'.saltlen _ _ _ _ w.saltlen_word w'.saltlen_word n.salt_count
        n'.salt_count e₇ in
    let (secret, e₉) =
      field_front c.secretlen c'.secretlen _ _ _ _ w.secretlen_word w'.secretlen_word n.secret_count
        n'.secret_count e₈ in
    let (ad, _) =
      field_front c.adlen c'.adlen _ _ _ _ w.adlen_word w'.adlen_word n.ad_count n'.ad_count e₉ in
    record {
      lanes_eq = lanes;
      outlen_eq = outlen;
      m_cost_eq = m_cost;
      t_cost_eq = t_cost;
      version_eq = version;
      type_eq = same_type;
      pwd_eq = pwd;
      salt_eq = salt;
      secret_eq = secret;
      ad_eq = ad;
    }
