-- ===== src/Config/Laws.antt =====
-- Which configurations Config.Validate of internal/config/config.go accepts.
use rtz_server.Base.{
  ℕ, Bool, true, false, ◌≡◌, ◌≢◌, ◌↔◌, refl, ◌⊎◌, inl, inr, [], ◌∷◌, none, some, arith, Bool-cases,
  ◌==◌, ==_iff, not, ◌&&◌, ◌||◌, if◌then◌else◌, Option,
}
use rtz_server.GoText.{Str, codes, str_eq, is_empty}
use rtz_server.GoText.Laws.{str_eq_iff}
use rtz_server.Config.{
  Config, invalid_log_level, parallel_log_parsers_not_zero, validate, driver_sqlite,
  uploads_filesystem, uploads_s3, is_log_level,
}

empty_iff : (s : Str) → (is_empty s ≡ false) ↔ (s ≢ [])
unfolding is_empty
empty_iff [] = (λ e. cc, λ h. absurd (h refl))
empty_iff (c ∷ s) = (λ e h. cc, λ h. refl)

unset_iff : (b : Bool) (s : Str) → ((b && is_empty s) ≡ false) ↔ (b ≡ true → s ≢ [])
unset_iff true s = (λ e _. (empty_iff s).0 e, λ h. (empty_iff s).1 (h refl))
unset_iff false s = (λ e h. cc, λ h. refl)

-- A setting `s` that the driver `d` needs.
chosen_iff : (d d' s : Str) → ((str_eq d d' && is_empty s) ≡ false) ↔ (d ≡ d' → s ≢ [])
chosen_iff d d' s = (
  λ e h. (unset_iff (str_eq d d') s).0 e ((str_eq_iff d d').1 h),
  λ h. (unset_iff (str_eq d d') s).1 (λ e. h ((str_eq_iff d d').0 e)),
)

other_iff : (d d' s : Str) → ((not (str_eq d d') && is_empty s) ≡ false) ↔ (d ≢ d' → s ≢ [])
other_iff d d' s = elim (Bool-cases (str_eq d d')) [
  | inl same ↦ (λ e h. absurd (h ((str_eq_iff d d').0 same)), λ h. rw same refl)
  | inr other ↦ (
    λ e h. (empty_iff s).0 (ground arith),
    λ h.
        let set = (empty_iff s).1 (h (λ same. ground (arith, (str_eq_iff d d').1 same))) in
        rw (other, set),
  )
]

oauth_iff :
    (b : Bool) (s t : Str)
    → ((b && (is_empty s || is_empty t)) ≡ false) ↔ (b ≡ true → (s ≢ []) × (t ≢ []))
oauth_iff true s t = (
  λ e _. ((empty_iff s).0 (ground arith), (empty_iff t).0 (ground arith)),
  λ h.
      let (hs, ht) = h refl in
      let es = (empty_iff s).1 hs in let et = (empty_iff t).1 ht in rw (es, et),
)
oauth_iff false s t = (λ e h. cc, λ h. refl)

abbrev pub IsLogLevel : Str → Type 0
IsLogLevel s =
    (s ≡ codes "debug") ⊎ ((s ≡ codes "info") ⊎ ((s ≡ codes "warn") ⊎ (s ≡ codes "error")))

is_log_level_iff : (s : Str) → (is_log_level s ≡ true) ↔ IsLogLevel s
unfolding is_log_level
is_log_level_iff s =
    let d = str_eq_iff s (codes "debug") in
    let i = str_eq_iff s (codes "info") in
    let w = str_eq_iff s (codes "warn") in
    let r = str_eq_iff s (codes "error") in
    (
      λ e. elim (Bool-cases (str_eq s (codes "debug"))) [
        | inl y ↦ inl (d.0 y)
        | inr n ↦ elim (Bool-cases (str_eq s (codes "info"))) [
          | inl y ↦ inr (inl (i.0 y))
          | inr n' ↦ elim (Bool-cases (str_eq s (codes "warn"))) [
            | inl y ↦ inr (inr (inl (w.0 y)))
            | inr n'' ↦ inr (inr (inr (r.0 (ground arith))))
          ]
        ]
      ],
      λ h. elim h [
        | inl y ↦ let q = d.1 y in rw q
        | inr (inl y) ↦ let q = i.1 y in ground arith
        | inr (inr (inl y)) ↦ let q = w.1 y in ground arith
        | inr (inr (inr y)) ↦ let q = r.1 y in ground arith
      ],
    )

-- What is required of an OAuth client that is enabled.
abbrev pub HasClient : Bool → Str → Str → Type 0
HasClient enabled client_id client_secret = enabled ≡ true → (client_id ≢ []) × (client_secret ≢ [])

-- What the server requires of its configuration.
pub record IsValid (c : Config) : Type 0 where
  pub secret : c.jwt_secret ≢ []
  pub backend : c.http.backend_url ≢ []
  pub tracing : c.http.tracing.enabled ≡ true → c.http.tracing.otlp_endpoint ≢ []
  pub public_token : c.mapbox.public_token ≢ []
  pub secret_token : c.mapbox.secret_token ≢ []
  pub host : c.persistence.database.driver ≢ driver_sqlite → c.persistence.database.host ≢ []
  pub driver : c.persistence.database.driver ≢ []
  pub database : c.persistence.database.database ≢ []
  pub directory :
      c.persistence.uploads.driver ≡ uploads_filesystem
      → c.persistence.uploads.filesystem_options.directory ≢ []
  pub bucket :
      c.persistence.uploads.driver ≡ uploads_s3 → c.persistence.uploads.s3_options.bucket ≢ []
  pub region :
      c.persistence.uploads.driver ≡ uploads_s3 → c.persistence.uploads.s3_options.region ≢ []
  pub nats : c.nats.enabled ≡ true → c.nats.url ≢ []
  pub git_hub :
      HasClient c.auth.git_hub.enabled c.auth.git_hub.client_id c.auth.git_hub.client_secret
  pub google : HasClient c.auth.google.enabled c.auth.google.client_id c.auth.google.client_secret
  pub custom : HasClient c.auth.custom.enabled c.auth.custom.client_id c.auth.custom.client_secret
  pub token_url : c.auth.custom.enabled ≡ true → c.auth.custom.token_url ≢ []
  pub user_url : c.auth.custom.enabled ≡ true → c.auth.custom.user_url ≢ []
  pub parsers : c.parallel_log_parsers ≢ 0
  pub level : IsLogLevel c.log_level

-- A test that returns an error has been passed, if the result is nil.
passed :
    {E : Type 0} (b : Bool) (err : E) (rest : Option E)
    → (if b then some err else rest) ≡ none
    → (b ≡ false) × (rest ≡ none)
passed true err rest e = cc
passed false err rest e = (refl, e)

level_passed : {E : Type 0} (b : Bool) (err : E) → (if b then none else some err) ≡ none → b ≡ true
level_passed true err e = refl
level_passed false err e = cc

validate-IsValid : (c : Config) → validate c ≡ none → IsValid c
unfolding validate
validate-IsValid c e =
    let (secret, e1) = passed _ _ _ e in
    let (backend, e2) = passed _ _ _ e1 in
    let (tracing, e3) = passed _ _ _ e2 in
    let (public_token, e4) = passed _ _ _ e3 in
    let (secret_token, e5) = passed _ _ _ e4 in
    let (host, e6) = passed _ _ _ e5 in
    let (driver, e7) = passed _ _ _ e6 in
    let (database, e8) = passed _ _ _ e7 in
    let (directory, e9) = passed _ _ _ e8 in
    let (bucket, e10) = passed _ _ _ e9 in
    let (region, e11) = passed _ _ _ e10 in
    let (nats, e12) = passed _ _ _ e11 in
    let (git_hub, e13) = passed _ _ _ e12 in
    let (google, e14) = passed _ _ _ e13 in
    let (custom, e15) = passed _ _ _ e14 in
    let (token_url, e16) = passed _ _ _ e15 in
    let (user_url, e17) = passed _ _ _ e16 in
    let (parsers, e18) = passed (c.parallel_log_parsers == 0) parallel_log_parsers_not_zero _ e17 in
    record {
      secret = (empty_iff _).0 secret;
      backend = (empty_iff _).0 backend;
      tracing = (unset_iff _ _).0 tracing;
      public_token = (empty_iff _).0 public_token;
      secret_token = (empty_iff _).0 secret_token;
      host = (other_iff _ _ _).0 host;
      driver = (empty_iff _).0 driver;
      database = (empty_iff _).0 database;
      directory = (chosen_iff _ _ _).0 directory;
      bucket = (chosen_iff _ _ _).0 bucket;
      region = (chosen_iff _ _ _).0 region;
      nats = (unset_iff _ _).0 nats;
      git_hub = (oauth_iff _ _ _).0 git_hub;
      google = (oauth_iff _ _ _).0 google;
      custom = (oauth_iff _ _ _).0 custom;
      token_url = (unset_iff _ _).0 token_url;
      user_url = (unset_iff _ _).0 user_url;
      parsers = λ zero. cc (parsers, (==_iff c.parallel_log_parsers 0).1 zero);
      level = (is_log_level_iff c.log_level).0 (level_passed _ invalid_log_level e18);
    }

nonzero_lem : (n : ℕ) → n ≢ 0 → (n == 0) ≡ false
nonzero_lem n h = ground arith

IsValid-validate : (c : Config) → IsValid c → validate c ≡ none
unfolding validate
IsValid-validate c v = rw (
  (empty_iff _).1 v.secret,
  (empty_iff _).1 v.backend,
  (unset_iff _ _).1 v.tracing,
  (empty_iff _).1 v.public_token,
  (empty_iff _).1 v.secret_token,
  (other_iff _ _ _).1 v.host,
  (empty_iff _).1 v.driver,
  (empty_iff _).1 v.database,
  (chosen_iff _ _ _).1 v.directory,
  (chosen_iff _ _ _).1 v.bucket,
  (chosen_iff _ _ _).1 v.region,
  (unset_iff _ _).1 v.nats,
  (oauth_iff _ _ _).1 v.git_hub,
  (oauth_iff _ _ _).1 v.google,
  (oauth_iff _ _ _).1 v.custom,
  (unset_iff _ _).1 v.token_url,
  (unset_iff _ _).1 v.user_url,
  nonzero_lem _ v.parsers,
  (is_log_level_iff _).1 v.level,
)

-- Validate returns nil exactly for the configurations that have every required setting.
pub validate_iff : (c : Config) → (validate c ≡ none) ↔ IsValid c
validate_iff c = (validate-IsValid c, IsValid-validate c)
