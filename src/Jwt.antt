-- ===== src/Jwt.antt =====
-- internal/utils/jwt.go: the tokens of users and of devices. The JWT parser, PEM and X.509 are
-- libraries and stand here as an interface.
pub mod Laws
pub mod Fixtures
mod Tests
use rtz_server.Base.{
  ℕ, Bool, true, false, ◌≡◌, ◌&&◌, List, [], ◌∷◌, Option, none, some, not, if◌then◌else◌,
}
use rtz_server.GoText.{Str, str_eq}

pub data Alg : Type 0 where
  hs256 rs256 es256 : Alg

-- `DeviceJWTSigningMethods`
abbrev pub device_jwt_signing_methods : List Alg
device_jwt_signing_methods = rs256 ∷ es256 ∷ []

-- The claims, with `expires_at` of jwt.RegisteredClaims; its other fields are read by the library.
pub record UserJwt : Type 0 where
  pub expires_at : Option ℕ
  pub identity : ℕ

pub record DeviceJwt : Type 0 where
  pub expires_at : Option ℕ
  pub identity : Str

pub record RegisteredClaims : Type 0 where
  pub expires_at : Option ℕ

-- What a key function is called with: the claims, and whether the token's method is an HMAC.
pub record Token (C : Type 0) : Type 0 where
  pub claims : C
  pub is_hmac : Bool

-- What a key function does: it returns a key, or an error, or it panics.
pub data KeyAnswer (Key : Type 0) : Type 0 where
  use_key : Key → KeyAnswer Key
  refuse : KeyAnswer Key
  key_panic : KeyAnswer Key

-- What ParseWithClaims does: it returns a token with its field Valid, or an error, or it panics.
pub data Parsed (C : Type 0) : Type 0 where
  parsed : C → Bool → Parsed C
  rejected : Parsed C
  parse_panic : Parsed C

-- A parser for claims of type `C`, made by jwt.NewParser with a leeway of five minutes and the
-- given methods. `peek` is the token that the key function is called with: nothing of it has been
-- verified; it is `none` where the parser gives up before that call. `verified` says that the
-- signature fits the key and that the claims on time hold.
pub record Parser (C Key : Type 0) : Type 0 where
  pub peek : List Alg → Str → Option (Token C)
  pub verified : List Alg → Str → Key → Bool
  pub parse_with_claims : List Alg → Str → (Token C → KeyAnswer Key) → Parsed C
  pub parse_unread :
      (ms : List Alg) (s : Str) (kf : Token C → KeyAnswer Key)
      → peek ms s ≡ none
      → parse_with_claims ms s kf ≡ rejected
  pub parse_refused :
      (ms : List Alg) (s : Str) (kf : Token C → KeyAnswer Key) (t : Token C)
      → peek ms s ≡ some t
      → kf t ≡ refuse
      → parse_with_claims ms s kf ≡ rejected
  pub parse_panics :
      (ms : List Alg) (s : Str) (kf : Token C → KeyAnswer Key) (t : Token C)
      → peek ms s ≡ some t
      → kf t ≡ key_panic
      → parse_with_claims ms s kf ≡ parse_panic
  pub parse_checked :
      (ms : List Alg) (s : Str) (kf : Token C → KeyAnswer Key) (t : Token C) (k : Key)
      → peek ms s ≡ some t
      → kf t ≡ use_key k
      → parse_with_claims ms s kf ≡ (if verified ms s k then parsed t.claims true else rejected)

-- The keys. `pem_decode` is pem.Decode, whose block is nil where the text holds none;
-- `parse_pkix_public_key` is x509.ParsePKIXPublicKey.
pub record Keys : Type 1 where
  pub Key : Type 0
  pub secret : Str → Key
  pub pem_decode : Str → Option Str
  pub parse_pkix_public_key : Str → Option Key

-- The outcome of a verification: a value, an error, or a panic.
pub data Verified (A : Type 0) : Type 0 where
  accepted : A → Verified A
  refused : Verified A
  panicked : Verified A

-- A token with no expiration is refused.
abbrev pub expiring : {A : Type 0} → Option ℕ → KeyAnswer A → KeyAnswer A
expiring none k = refuse
expiring (some _) k = k

-- token.Valid is tested after the error.
abbrev pub outcome : {C A : Type 0} → (C → A) → Parsed C → Verified A
outcome f (parsed c valid) = if valid then accepted (f c) else refused
outcome f rejected = refused
outcome f parse_panic = panicked

module _ (keys : Keys) where
  open keys use {Key, secret, pem_decode, parse_pkix_public_key}

  -- `blk, _ := pem.Decode(…)` and `x509.ParsePKIXPublicKey(blk.Bytes)`: a nil block panics.
  unfoldable pub public_key : Str → KeyAnswer Key
  public_key signing_key = elim (pem_decode signing_key) [
    | none ↦ key_panic
    | some blk ↦ elim (parse_pkix_public_key blk) [ none ↦ refuse | some k ↦ use_key k ]
  ]

  unfoldable pub user_key : Str → Token UserJwt → KeyAnswer Key
  user_key signing_key token =
      if not token.is_hmac
      then refuse
      else expiring token.claims.expires_at (use_key (secret signing_key))

  unfoldable pub verify_jwt : Parser UserJwt Key → Str → Str → Verified ℕ
  verify_jwt parser signing_key token_string =
      outcome (λ c. c.identity)
        (parser.parse_with_claims (hs256 ∷ []) token_string (user_key signing_key))

  pub device_key : Str → Str → Token DeviceJwt → KeyAnswer Key
  device_key did signing_key token =
      expiring token.claims.expires_at
        (if not (str_eq token.claims.identity did) then refuse else public_key signing_key)

  pub verify_device_jwt : Parser DeviceJwt Key → Str → Str → Str → Verified (Unit {0})
  verify_device_jwt parser did signing_key token_string =
      outcome (λ _. tt)
        (parser.parse_with_claims device_jwt_signing_methods token_string
          (device_key did signing_key))
