-- ===== src/Config/Defaults.antt =====
-- What the defaults of LoadConfig in internal/config/config.go provide.
use rtz_server.Base.{ℕ, true, ◌≡◌, ◌≢◌, ◌↔◌, refl, ◌⊎◌, inl, inr, [], ◌∷◌, none, arith, Bool-cases}
use rtz_server.GoText.{Str, codes, str_eq, is_empty}
use rtz_server.GoText.Laws.{str_eq_iff}
use rtz_server.Config.{
  Config, validate, driver_sqlite, uploads_filesystem, uploads_s3, or_text, or_number, set_defaults,
  listener_defaults, HttpListener,
}
use rtz_server.Config.Laws.{IsValid, IsLogLevel, HasClient, validate_iff}

or_text_set : (s d : Str) → d ≢ [] → or_text s d ≢ []
unfolding is_empty
or_text_set [] d h = h
or_text_set (c ∷ s) d h = λ e. cc

or_text_keeps : (s d : Str) → s ≢ [] → or_text s d ≡ s
unfolding is_empty
or_text_keeps [] d h = absurd (h refl)
or_text_keeps (c ∷ s) d h = refl

or_text_again : (s d : Str) → d ≢ [] → or_text (or_text s d) d ≡ or_text s d
or_text_again s d h = or_text_keeps (or_text s d) d (or_text_set s d h)

or_number_set : (n d : ℕ) → d ≢ 0 → or_number n d ≢ 0
or_number_set n d h = ground arith

or_number_again : (n d : ℕ) → or_number (or_number n d) d ≡ or_number n d
or_number_again n d = ground arith

listener_again :
    (l : HttpListener) (ipv4 ipv6 : Str) (port : ℕ)
    → ipv4 ≢ []
    → ipv6 ≢ []
    → listener_defaults (listener_defaults l ipv4 ipv6 port) ipv4 ipv6 port
      ≡ listener_defaults l ipv4 ipv6 port
unfolding listener_defaults
listener_again l ipv4 ipv6 port h h' = simp (
  or_text_again l.ipv4_host ipv4 h,
  or_text_again l.ipv6_host ipv6 h',
  or_number_again l.port port,
)

-- What has no default: what it takes of a configuration for the defaults to complete it.
pub record HasEssentials (c : Config) : Type 0 where
  pub secret : c.jwt_secret ≢ []
  pub backend : c.http.backend_url ≢ []
  pub tracing : c.http.tracing.enabled ≡ true → c.http.tracing.otlp_endpoint ≢ []
  pub public_token : c.mapbox.public_token ≢ []
  pub secret_token : c.mapbox.secret_token ≢ []
  pub database :
      (c.persistence.database.driver ≡ [])
      ⊎ ((c.persistence.database.driver ≡ driver_sqlite) ⊎ (c.persistence.database.host ≢ []))
  pub bucket :
      c.persistence.uploads.driver ≡ uploads_s3 → c.persistence.uploads.s3_options.bucket ≢ []
  pub region :
      c.persistence.uploads.driver ≡ uploads_s3 → c.persistence.uploads.s3_options.region ≢ []
  pub nats : c.nats.enabled ≡ true → c.nats.url ≢ []
  pub git_hub :
      HasClient c.auth.git_hub.enabled c.auth.git_hub.client_id c.auth.git_hub.client_secret
  pub google : HasClient c.auth.google.enabled c.auth.google.client_id c.auth.google.client_secret
  pub custom : HasClient c.auth.custom.enabled c.auth.custom.client_id c.auth.custom.client_secret
  pub token_url : c.auth.custom.enabled ≡ true → c.auth.custom.token_url ≢ []
  pub user_url : c.auth.custom.enabled ≡ true → c.auth.custom.user_url ≢ []
  pub level : (c.log_level ≡ []) ⊎ IsLogLevel c.log_level

-- The default of the uploads' driver is not S3.
or_text-s3 : (s : Str) → or_text s uploads_filesystem ≡ uploads_s3 → s ≡ uploads_s3
unfolding is_empty
or_text-s3 [] e = cc
or_text-s3 (c ∷ s) e = e

host_lem :
    (d host : Str)
    → (d ≡ []) ⊎ ((d ≡ driver_sqlite) ⊎ (host ≢ []))
    → or_text d driver_sqlite ≢ driver_sqlite
    → host ≢ []
unfolding is_empty
host_lem d host (inl unset) h = absurd (h (rw unset))
host_lem d host (inr (inl sqlite)) h = absurd (h (rw sqlite))
host_lem d host (inr (inr set)) h = set

host_back :
    (d host : Str)
    → (or_text d driver_sqlite ≢ driver_sqlite → host ≢ [])
    → (d ≡ []) ⊎ ((d ≡ driver_sqlite) ⊎ (host ≢ []))
unfolding is_empty
host_back [] host h = inl refl
host_back (c ∷ d) host h = elim (Bool-cases (str_eq (c ∷ d) driver_sqlite)) [
  | inl same ↦ inr (inl ((str_eq_iff (c ∷ d) driver_sqlite).0 same))
  | inr other ↦
      inr (inr (h (λ e. let same = (str_eq_iff (c ∷ d) driver_sqlite).1 e in cc (same, other))))
]

level_lem : (s : Str) → (s ≡ []) ⊎ IsLogLevel s → IsLogLevel (or_text s (codes "info"))
unfolding is_empty
level_lem [] h = inr (inl refl)
level_lem (c ∷ s) (inl e) = cc
level_lem (c ∷ s) (inr h) = h

level_back : (s : Str) → IsLogLevel (or_text s (codes "info")) → (s ≡ []) ⊎ IsLogLevel s
unfolding is_empty
level_back [] h = inl refl
level_back (c ∷ s) h = inr h

defaults-IsValid : (c : Config) → HasEssentials c → IsValid (set_defaults c)
unfolding set_defaults
defaults-IsValid c h = record {
  secret = h.secret;
  backend = h.backend;
  tracing = h.tracing;
  public_token = h.public_token;
  secret_token = h.secret_token;
  host = host_lem c.persistence.database.driver c.persistence.database.host h.database;
  driver = or_text_set c.persistence.database.driver driver_sqlite (λ e. cc);
  database = or_text_set c.persistence.database.database (codes "rtz.db") (λ e. cc);
  directory = λ _.
      or_text_set c.persistence.uploads.filesystem_options.directory (codes "uploads/") (λ e. cc);
  bucket = λ e. h.bucket (or_text-s3 c.persistence.uploads.driver e);
  region = λ e. h.region (or_text-s3 c.persistence.uploads.driver e);
  nats = h.nats;
  git_hub = h.git_hub;
  google = h.google;
  custom = h.custom;
  token_url = h.token_url;
  user_url = h.user_url;
  parsers = or_number_set c.parallel_log_parsers 4 (λ e. omega arith);
  level = level_lem c.log_level h.level;
}

s3_default : (s : Str) → s ≡ uploads_s3 → or_text s uploads_filesystem ≡ uploads_s3
unfolding is_empty
s3_default s e = rw e refl

IsValid-essentials : (c : Config) → IsValid (set_defaults c) → HasEssentials c
unfolding set_defaults
IsValid-essentials c v = record {
  secret = v.secret;
  backend = v.backend;
  tracing = v.tracing;
  public_token = v.public_token;
  secret_token = v.secret_token;
  database = host_back c.persistence.database.driver c.persistence.database.host v.host;
  bucket = λ e. v.bucket (s3_default c.persistence.uploads.driver e);
  region = λ e. v.region (s3_default c.persistence.uploads.driver e);
  nats = v.nats;
  git_hub = v.git_hub;
  google = v.google;
  custom = v.custom;
  token_url = v.token_url;
  user_url = v.user_url;
  level = level_back c.log_level v.level;
}

-- After the defaults of LoadConfig, Validate returns nil exactly if the settings without a default
-- have been made: the driver and the name of the database, the driver and the directory of the
-- uploads, the number of log parsers and the log level may be left out.
pub validate-set_defaults_iff : (c : Config) → (validate (set_defaults c) ≡ none) ↔ HasEssentials c
validate-set_defaults_iff c = (
  λ e. IsValid-essentials c ((validate_iff (set_defaults c)).0 e),
  λ h. (validate_iff (set_defaults c)).1 (defaults-IsValid c h),
)

-- Filling in the defaults twice is filling them in once.
pub set_defaults_idempotent : (c : Config) → set_defaults (set_defaults c) ≡ set_defaults c
unfolding set_defaults
set_defaults_idempotent c =
    let database = c.persistence.database in
    let uploads = c.persistence.uploads in
    simp (
      listener_again c.http.listener (codes "0.0.0.0") (codes "::") 8080 (λ e. cc) (λ e. cc),
      listener_again c.http.metrics.listener (codes "127.0.0.1") (codes "::1") 8081 (λ e. cc)
          (λ e. cc),
      or_text_again database.driver driver_sqlite (λ e. cc),
      or_text_again database.database (codes "rtz.db") (λ e. cc),
      or_text_again uploads.driver uploads_filesystem (λ e. cc),
      or_text_again uploads.filesystem_options.directory (codes "uploads/") (λ e. cc),
      or_number_again c.parallel_log_parsers 4,
      or_text_again c.log_level (codes "info") (λ e. cc),
    )
