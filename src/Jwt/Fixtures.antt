-- ===== src/Jwt/Fixtures.antt =====
-- Test data: keys that are their own text, and a parser that takes a signature for good if the
-- token starts with the key.
use rtz_server.Base.{none, true, false, ◌≡◌, some, if◌then◌else◌, arith}
use rtz_server.GoText.{Str, codes, has_prefix}
use rtz_server.Jwt.{
  UserJwt, DeviceJwt, RegisteredClaims, Token, KeyAnswer, use_key, refuse, key_panic, Parsed,
  parsed, rejected, parse_panic, Parser, Keys,
}

abbrev pub sample_keys : Keys
sample_keys = record {
  Key = Str;
  secret = λ s. s;
  pem_decode = λ s. some s;
  parse_pkix_public_key = λ s. some s;
}

abbrev pub sample_parse : {C : Type 0} → Token C → Str → (Token C → KeyAnswer Str) → Parsed C
sample_parse t s kf = elim (kf t) [
  | use_key k ↦ if has_prefix s k then parsed t.claims true else rejected
  | refuse ↦ rejected
  | key_panic ↦ parse_panic
]

pub sample_refused :
    {C : Type 0} (t t' : Token C) (s : Str) (kf : Token C → KeyAnswer Str)
    → some t ≡ some t'
    → kf t' ≡ refuse
    → sample_parse t s kf ≡ rejected
sample_refused t t' s kf same e = let e' : kf t ≡ refuse = ground arith in rw (e', sample_parse)

pub sample_panics :
    {C : Type 0} (t t' : Token C) (s : Str) (kf : Token C → KeyAnswer Str)
    → some t ≡ some t'
    → kf t' ≡ key_panic
    → sample_parse t s kf ≡ parse_panic
sample_panics t t' s kf same e = let e' : kf t ≡ key_panic = ground arith in rw (e', sample_parse)

pub sample_checked :
    {C : Type 0} (t t' : Token C) (s k : Str) (kf : Token C → KeyAnswer Str)
    → some t ≡ some t'
    → kf t' ≡ use_key k
    → sample_parse t s kf ≡ (if has_prefix s k then parsed t'.claims true else rejected)
sample_checked t t' s k kf same e =
    let one : t ≡ t' = ground arith in
    let e' : kf t ≡ use_key k = ground arith in rw (e', sample_parse, one)

pub sample_unread :
    {C : Type 0} (t : Token C) (s : Str) (kf : Token C → KeyAnswer Str)
    → some t ≡ none
    → sample_parse t s kf ≡ rejected
sample_unread t s kf e = cc

-- Whatever the text, it reads as the given token.
abbrev pub sample_parser : {C : Type 0} → Token C → Parser C Str
sample_parser t = record {
  peek = λ ms s. some t;
  verified = λ ms s k. has_prefix s k;
  parse_with_claims = λ ms s kf. sample_parse t s kf;
  parse_unread = λ ms s kf e. sample_unread t s kf e;
  parse_refused = λ ms s kf t' e e'. sample_refused t t' s kf e e';
  parse_panics = λ ms s kf t' e e'. sample_panics t t' s kf e e';
  parse_checked = λ ms s kf t' k e e'. sample_checked t t' s k kf e e';
}

abbrev pub sample_user_token : Token UserJwt
sample_user_token = record { claims = record { expires_at = some 1; identity = 7 }; is_hmac = true }

abbrev pub sample_device_token : Token DeviceJwt
sample_device_token = record {
  claims = record { expires_at = some 1; identity = codes "d1" };
  is_hmac = false;
}

abbrev pub sample_cookie_token : Token RegisteredClaims
sample_cookie_token = record { claims = record { expires_at = some 1 }; is_hmac = false }
