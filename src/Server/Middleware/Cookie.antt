-- ===== src/Server/Middleware/Cookie.antt =====
-- Whom `requireCookieAuth` of internal/server/middleware.go lets through.
use rtz_server.Base.{
  true, ◌≡◌, ◌≢◌, ◌↔◌, refl, ◌∙◌, ap, [], none, some, arith, inl, inr, Bool-cases, Option-cases,
}
use rtz_server.GoText.{Str, is_empty}
use rtz_server.Models.Rows.{Device, Database}
use rtz_server.Models.Gorm.{fetched}
use rtz_server.Models.Queries.{find_device_by_dongle_id}
use rtz_server.Jwt.{
  RegisteredClaims, Token, use_key, outcome, Verified, accepted, refused, panicked, public_key,
  device_jwt_signing_methods,
}
use rtz_server.Jwt.Laws.{Checked, Checked-parse, parse-Checked, outcome-accepted}
use rtz_server.Server.Http.{
  Context, Step, next, panics, ◌>>=◌, require, require_found, unauthorized, try_again, no_dongle_id,
}
use rtz_server.Server.Middleware.{Env, cookie_key, require_cookie_auth}
use rtz_server.Server.Http.Returns.{require_past}
use rtz_server.Server.Middleware.Attempts.{ne_of_is_empty, is_empty_of_ne}
use rtz_server.Server.Http.Returns.{past_found}

module _ (env : Env) where
  open env use {gorm, keys, cookie_tokens}

  -- The cookie is a token with an expiration that verifies under the public key of the device that
  -- the path names.
  pub record CookieProof (c : Context) : Type 0 where
    pub cookie : Str
    pub id : Str
    pub db : Database
    pub device : Device
    pub token : Token RegisteredClaims
    pub key : keys.Key
    pub sent : c.jwt_cookie ≡ some cookie
    pub nonempty : cookie ≢ []
    pub named : c.dongle_id ≡ some id
    pub stored : c.db ≡ some db
    pub found : find_device_by_dongle_id gorm db id ≡ fetched device
    pub read : cookie_tokens.peek device_jwt_signing_methods cookie ≡ some token
    pub expires : token.claims.expires_at ≢ none
    pub keyed : public_key keys device.public_key ≡ use_key key
    pub signed : cookie_tokens.verified device_jwt_signing_methods cookie key ≡ true

  cookie_key_sound :
      (device : Device) (t : Token RegisteredClaims) (k : keys.Key)
      → cookie_key env device t ≡ use_key k
      → (t.claims.expires_at ≢ none) × (public_key keys device.public_key ≡ use_key k)
  unfolding cookie_key
  cookie_key_sound device t k e = elim (Option-cases t.claims.expires_at) [
    | inl never ↦ ground arith
    | inr (n, at) ↦ (λ h. cc, ground arith)
  ]

  cookie_key_complete :
      (device : Device) (t : Token RegisteredClaims) (k : keys.Key)
      → t.claims.expires_at ≢ none
      → public_key keys device.public_key ≡ use_key k
      → cookie_key env device t ≡ use_key k
  unfolding cookie_key
  cookie_key_complete device t k h e = elim (Option-cases t.claims.expires_at) [
    | inl never ↦ absurd (h never)
    | inr (n, at) ↦ rw at e
  ]

  abbrev answered : {A : Type 0} → Context → Verified A → Step
  answered c r = elim r [ accepted _ ↦ next c | refused ↦ unauthorized | panicked ↦ panics ]

  answered_next :
      {A : Type 0} (c c' : Context) (r : Verified A)
      → answered c r ≡ next c'
      → (c ≡ c') × ((a : A) × (r ≡ accepted a))
  answered_next c c' (accepted a) e = (ground arith, (a, refl))
  answered_next c c' refused e = cc
  answered_next c c' panicked e = cc

  abbrev cookie_outcome : Str → Device → Verified (Unit {0})
  cookie_outcome cookie device =
      outcome (λ _. tt {0})
        (cookie_tokens.parse_with_claims device_jwt_signing_methods cookie (cookie_key env device))

  -- The answer for a cookie that is not empty.
  abbrev verified_cookie : Context → Str → Step
  verified_cookie c cookie = require c.dongle_id no_dongle_id >>= λ id.
      require c.db try_again >>= λ db.
      require_found (find_device_by_dongle_id gorm db id) unauthorized >>= λ device.
      answered c (cookie_outcome cookie device)

  verified_cookie-CookieProof :
      (c c' : Context) (cookie : Str)
      → c.jwt_cookie ≡ some cookie
      → cookie ≢ []
      → verified_cookie c cookie ≡ next c'
      → (c ≡ c') × CookieProof c
  verified_cookie-CookieProof c c' cookie sent nonempty e =
      let (id, named, e1) = require_past c.dongle_id no_dongle_id _ (next c') (λ h. cc) e in
      let (db, stored, e2) = require_past c.db try_again _ (next c') (λ h. cc) e1 in
      let (device, found, e3) =
        past_found (find_device_by_dongle_id gorm db id) unauthorized _ (next c') (λ h. cc) e2 in
      let (same, (_, passed)) = answered_next c c' _ e3 in
      let (claims, got, _) = outcome-accepted (λ _. tt {0}) _ tt passed in
      let (t, checked, _) =
        parse-Checked cookie_tokens device_jwt_signing_methods cookie (cookie_key env device) claims
          true got in
      let (expires, keyed) = cookie_key_sound device t checked.key checked.keyed in
      (
        same,
        record {
          cookie = cookie;
          id = id;
          db = db;
          device = device;
          token = t;
          key = checked.key;
          sent = sent;
          nonempty = nonempty;
          named = named;
          stored = stored;
          found = found;
          read = checked.read;
          expires = expires;
          keyed = keyed;
          signed = checked.signed;
        },
      )

  CookieProof-verified_cookie :
      (c : Context) (p : CookieProof c) → verified_cookie c p.cookie ≡ next c
  CookieProof-verified_cookie c p =
      let checked : Checked cookie_tokens device_jwt_signing_methods p.cookie
          (cookie_key env p.device) p.token =
        record {
          key = p.key;
          read = p.read;
          keyed = cookie_key_complete p.device p.token p.key p.expires p.keyed;
          signed = p.signed;
        } in
      let got =
        Checked-parse cookie_tokens device_jwt_signing_methods p.cookie (cookie_key env p.device)
          p.token checked in
      let reached : verified_cookie c p.cookie ≡ answered c (cookie_outcome p.cookie p.device) =
        rw (p.named, p.stored, p.found) in
      reached ∙ ap (λ r. answered c (outcome (λ _. tt {0}) r)) got

  -- `requireCookieAuth` lets a request through exactly if its cookie is a token with an expiration
  -- that verifies under the key of the device in the path. It changes nothing of the context.
  pub require_cookie_auth_iff :
      (c c' : Context) → (require_cookie_auth env c ≡ next c') ↔ ((c ≡ c') × CookieProof c)
  unfolding require_cookie_auth
  require_cookie_auth_iff c c' = (
    λ e.
        let (cookie, sent, e1) = require_past c.jwt_cookie unauthorized _ (next c') (λ h. cc) e in
        elim (Bool-cases (is_empty cookie)) [
          | inl blank ↦ ground arith
          | inr set ↦
              verified_cookie-CookieProof c c' cookie sent (ne_of_is_empty cookie set)
                (ground arith)
        ],
    λ (same, p).
        let set = is_empty_of_ne p.cookie p.nonempty in
        rw (p.sent, set) (CookieProof-verified_cookie c p ∙ ap next same),
  )
