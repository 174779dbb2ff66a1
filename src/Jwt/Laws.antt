-- ===== src/Jwt/Laws.antt =====
-- What a token has proved when internal/utils/jwt.go accepts it.
use rtz_server.Base.{
  ℕ, Bool, true, false, ◌≡◌, ◌≢◌, ◌↔◌, refl, ◌∙◌, ap, List, [], ◌∷◌, Option, none, some, not, arith,
  if◌then◌else◌, ◌⊎◌, inl, inr, Option-cases, Bool-cases,
}
use rtz_server.GoText.{Str, str_eq}
use rtz_server.GoText.Laws.{str_eq_iff}
use rtz_server.Jwt.{
  Alg, hs256, device_jwt_signing_methods, UserJwt, DeviceJwt, Token, KeyAnswer, use_key, refuse,
  key_panic, Parsed, parsed, rejected, parse_panic, Parser, Keys, accepted, expiring, outcome,
  public_key, user_key, verify_jwt, device_key, verify_device_jwt,
}

pub KeyAnswer-cases :
    {K : Type 0} (a : KeyAnswer K) → ((k : K) × (a ≡ use_key k)) ⊎ ((a ≡ refuse) ⊎ (a ≡ key_panic))
KeyAnswer-cases (use_key k) = inl (k, refl)
KeyAnswer-cases refuse = inr (inl refl)
KeyAnswer-cases key_panic = inr (inr refl)

-- What it takes for a parse to succeed.
pub record Checked {C K : Type 0} (p : Parser C K) (ms : List Alg) (s : Str)
    (kf : Token C → KeyAnswer K) (t : Token C) : Type 0 where
  pub key : K
  pub read : p.peek ms s ≡ some t
  pub keyed : kf t ≡ use_key key
  pub signed : p.verified ms s key ≡ true

module _ {C K : Type 0} (p : Parser C K) (ms : List Alg) (s : Str)
    (kf : Token C → KeyAnswer K) where
  pub Checked-parse :
      (t : Token C) → Checked p ms s kf t → p.parse_with_claims ms s kf ≡ parsed t.claims true
  Checked-parse t c = p.parse_checked ms s kf t c.key c.read c.keyed ∙ rw c.signed

  unsigned_lem :
      (t : Token C) (k : K)
      → p.verified ms s k ≡ false
      → (if p.verified ms s k then parsed t.claims true else rejected) ≡ rejected
  unsigned_lem t k e = rw e

  parse-Checked_at :
      (t : Token C)
      → p.peek ms s ≡ some t
      → (c : C) (v : Bool) → p.parse_with_claims ms s kf ≡ parsed c v
      → Checked p ms s kf t × (t.claims ≡ c)
  parse-Checked_at t read c v e = elim (KeyAnswer-cases (kf t)) [
    | inl (k, keyed) ↦ elim (Bool-cases (p.verified ms s k)) [
      | inl signed ↦
          let checked : Checked p ms s kf t = record {
            key = k;
            read = read;
            keyed = keyed;
            signed = signed;
          } in
          (checked, cc (Checked-parse t checked))
      | inr unsigned ↦ cc (p.parse_checked ms s kf t k read keyed, unsigned_lem t k unsigned)
    ]
    | inr (inl no_key) ↦ cc (p.parse_refused ms s kf t read no_key)
    | inr (inr panic) ↦ cc (p.parse_panics ms s kf t read panic)
  ]

  pub parse-Checked :
      (c : C) (v : Bool)
      → p.parse_with_claims ms s kf ≡ parsed c v
      → (t : Token C) × Checked p ms s kf t × (t.claims ≡ c)
  parse-Checked c v e = elim (Option-cases (p.peek ms s)) [
    | inl unread ↦ cc (p.parse_unread ms s kf unread)
    | inr (t, read) ↦ (t, (parse-Checked_at t read c v e).0, (parse-Checked_at t read c v e).1)
  ]

accepted_injective : {A : Type 0} {a b : A} → accepted a ≡ accepted b → a ≡ b
accepted_injective e = cc

pub outcome-accepted :
    {C A : Type 0} (f : C → A) (r : Parsed C) (a : A)
    → outcome f r ≡ accepted a
    → (c : C) × (r ≡ parsed c true) × (f c ≡ a)
outcome-accepted f (parsed c true) a e = (c, refl, accepted_injective e)
outcome-accepted f (parsed c false) a e = cc
outcome-accepted f rejected a e = cc
outcome-accepted f parse_panic a e = cc

pub expiring_sound :
    {A : Type 0} (at : Option ℕ) (same : Bool) (answer : KeyAnswer A) (k : A)
    → expiring at (if not same then refuse else answer) ≡ use_key k
    → (at ≢ none) × (same ≡ true) × (answer ≡ use_key k)
expiring_sound none same answer k e = cc
expiring_sound (some n) true answer k e = ((λ h. cc), refl, e)
expiring_sound (some n) false answer k e = cc

module _ (keys : Keys) where
  open keys use {Key, secret, pem_decode, parse_pkix_public_key}

  -- What VerifyJWT has checked of a token for the user `uid`.
  pub record UserProof (p : Parser UserJwt Key) (signing_key s : Str) (uid : ℕ) : Type 0 where
    pub token : Token UserJwt
    pub read : p.peek (hs256 ∷ []) s ≡ some token
    pub hmac : token.is_hmac ≡ true
    pub expires : token.claims.expires_at ≢ none
    pub signed : p.verified (hs256 ∷ []) s (secret signing_key) ≡ true
    pub who : token.claims.identity ≡ uid

  user_key_sound :
      (signing_key : Str) (t : Token UserJwt) (k : Key)
      → user_key keys signing_key t ≡ use_key k
      → (t.is_hmac ≡ true) × (t.claims.expires_at ≢ none) × (secret signing_key ≡ k)
  unfolding user_key
  user_key_sound signing_key t k e = (ground arith, ground arith, ground arith)

  user_key_complete :
      (signing_key : Str) (t : Token UserJwt)
      → t.is_hmac ≡ true
      → t.claims.expires_at ≢ none
      → user_key keys signing_key t ≡ use_key (secret signing_key)
  unfolding user_key
  user_key_complete signing_key t h e = ground arith

  -- VerifyJWT accepts exactly the tokens whose signature by the server's secret and whose time
  -- claims the library has verified, which were made by HMAC and carry an expiration, and it
  -- answers with the identity in the token.
  pub verify_jwt_iff :
      (p : Parser UserJwt Key) (signing_key s : Str) (uid : ℕ)
      → (verify_jwt keys p signing_key s ≡ accepted uid) ↔ UserProof p signing_key s uid
  unfolding verify_jwt
  verify_jwt_iff p signing_key s uid = (
    (λ e.
        let (c, got, who) = outcome-accepted (λ c. c.identity) _ uid e in
        let (t, checked, same) =
          parse-Checked p (hs256 ∷ []) s (user_key keys signing_key) c true got in
        let (hmac, expires, key) = user_key_sound signing_key t checked.key checked.keyed in
        record {
          token = t;
          read = checked.read;
          hmac = hmac;
          expires = expires;
          signed = rw key checked.signed;
          who = ap (λ c. c.identity) same ∙ who;
        }),
    λ proof.
        let checked : Checked p (hs256 ∷ []) s (user_key keys signing_key) proof.token = record {
          key = secret signing_key;
          read = proof.read;
          keyed = user_key_complete signing_key proof.token proof.hmac proof.expires;
          signed = proof.signed;
        } in
        rw (Checked-parse p _ s _ proof.token checked) (ap accepted proof.who),
  )

  -- What VerifyDeviceJWT has checked of a token for the device `did`.
  pub record DeviceProof (p : Parser DeviceJwt Key) (did signing_key s : Str) : Type 0 where
    pub token : Token DeviceJwt
    pub block : Str
    pub key : Key
    pub read : p.peek device_jwt_signing_methods s ≡ some token
    pub expires : token.claims.expires_at ≢ none
    pub who : token.claims.identity ≡ did
    pub pem : pem_decode signing_key ≡ some block
    pub parsed_key : parse_pkix_public_key block ≡ some key
    pub signed : p.verified device_jwt_signing_methods s key ≡ true

  public_key_sound :
      (signing_key : Str) (k : Key)
      → public_key keys signing_key ≡ use_key k
      → (b : Str) × (pem_decode signing_key ≡ some b) × (parse_pkix_public_key b ≡ some k)
  unfolding public_key
  public_key_sound signing_key k e = elim (Option-cases (pem_decode signing_key)) [
    | inl no_block ↦ ground arith
    | inr (b, pem) ↦ (b, pem, ground arith)
  ]

  device_key_sound :
      (did signing_key : Str) (t : Token DeviceJwt) (k : Key)
      → device_key keys did signing_key t ≡ use_key k
      → (t.claims.expires_at ≢ none)
        × (t.claims.identity ≡ did)
        × ((b : Str) × (pem_decode signing_key ≡ some b) × (parse_pkix_public_key b ≡ some k))
  unfolding device_key public_key
  device_key_sound did signing_key t k e =
      let (expires, who, key) =
        expiring_sound t.claims.expires_at (str_eq t.claims.identity did)
          (public_key keys signing_key) k e in
      (expires, (str_eq_iff t.claims.identity did).0 who, public_key_sound signing_key k key)

  device_key_complete :
      (did signing_key b : Str) (t : Token DeviceJwt) (k : Key)
      → t.claims.expires_at ≢ none
      → t.claims.identity ≡ did
      → pem_decode signing_key ≡ some b
      → parse_pkix_public_key b ≡ some k
      → device_key keys did signing_key t ≡ use_key k
  unfolding device_key public_key
  device_key_complete did signing_key b t k e who pem key =
      ground (arith, str_eq_iff t.claims.identity did)

  -- VerifyDeviceJWT accepts exactly the tokens that carry an expiration and the device's identity
  -- and are signed, by RS256 or ES256, with the key that the device's PEM text holds.
  pub verify_device_jwt_iff :
      (p : Parser DeviceJwt Key) (did signing_key s : Str)
      → (verify_device_jwt keys p did signing_key s ≡ accepted tt) ↔ DeviceProof p did signing_key s
  unfolding verify_device_jwt
  verify_device_jwt_iff p did signing_key s = (
    (λ e.
        let (c, got, _) = outcome-accepted (λ _. tt) _ tt e in
        let (t, checked, same) =
          parse-Checked p device_jwt_signing_methods s (device_key keys did signing_key) c true
            got in
        let (expires, who, (b, pem, key)) =
          device_key_sound did signing_key t checked.key checked.keyed in
        record {
          token = t;
          block = b;
          key = checked.key;
          read = checked.read;
          expires = expires;
          who = who;
          pem = pem;
          parsed_key = key;
          signed = checked.signed;
        }),
    λ proof.
        let checked : Checked p device_jwt_signing_methods s (device_key keys did signing_key)
            proof.token =
          record {
            key = proof.key;
            read = proof.read;
            keyed =
                device_key_complete did signing_key proof.block proof.token proof.key proof.expires
                  proof.who proof.pem proof.parsed_key;
            signed = proof.signed;
          } in
        rw (Checked-parse p _ s _ proof.token checked) refl,
  )
