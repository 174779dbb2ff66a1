-- ===== src/Config.antt =====
-- internal/config/config.go: the configuration, the defaults that LoadConfig fills in, and Validate.
-- The flags, the environment and the YAML file are read by libraries.
pub mod Laws
pub mod Defaults
pub mod Flags
pub mod Fixtures
mod Tests
use rtz_server.Base.{ℕ, Bool, not, ◌&&◌, ◌||◌, List, Option, none, some, ◌==◌, if◌then◌else◌}
use rtz_server.GoText.{Str, codes, str_eq, is_empty}

pub record HttpListener : Type 0 where
  pub ipv4_host : Str
  pub ipv6_host : Str
  pub port : ℕ

pub record Tracing : Type 0 where
  pub enabled : Bool
  pub otlp_endpoint : Str

pub record Metrics : Type 0 where
  pub listener : HttpListener
  pub enabled : Bool

pub record HttpConfig : Type 0 where
  pub listener : HttpListener
  pub tracing : Tracing
  pub backend_url : Str
  pub p_prof : Bool
  pub trusted_proxies : List Str
  pub metrics : Metrics
  pub cors_hosts : List Str

pub record DatabaseConfig : Type 0 where
  pub driver : Str
  pub database : Str
  pub username : Str
  pub password : Str
  pub host : Str
  pub port : ℕ
  pub extra_parameters : Str

pub record FilesystemOptions : Type 0 where
  pub directory : Str

pub record S3Options : Type 0 where
  pub region : Str
  pub bucket : Str
  pub endpoint : Str

pub record Uploads : Type 0 where
  pub driver : Str
  pub filesystem_options : FilesystemOptions
  pub s3_options : S3Options

pub record Persistence : Type 0 where
  pub database : DatabaseConfig
  pub uploads : Uploads

-- Google and GitHub have the same fields.
pub record Oauth : Type 0 where
  pub enabled : Bool
  pub client_id : Str
  pub client_secret : Str

pub record Custom : Type 0 where
  pub enabled : Bool
  pub client_id : Str
  pub client_secret : Str
  pub token_url : Str
  pub user_url : Str

pub record Auth : Type 0 where
  pub google : Oauth
  pub git_hub : Oauth
  pub custom : Custom

pub record Mapbox : Type 0 where
  pub secret_token : Str
  pub public_token : Str

pub record Nats : Type 0 where
  pub enabled : Bool
  pub url : Str
  pub token : Str

pub record Config : Type 0 where
  pub http : HttpConfig
  pub persistence : Persistence
  pub registration : Bool
  pub auth : Auth
  pub jwt_secret : Str
  pub mapbox : Mapbox
  pub nats : Nats
  pub parallel_log_parsers : ℕ
  pub log_level : Str

abbrev pub driver_sqlite : Str
driver_sqlite = codes "sqlite"

abbrev pub uploads_filesystem : Str
uploads_filesystem = codes "filesystem"

abbrev pub uploads_s3 : Str
uploads_s3 = codes "s3"

-- A field with its default, where the field has its zero value.
abbrev pub or_text : Str → Str → Str
or_text s d = if is_empty s then d else s

abbrev pub or_number : ℕ → ℕ → ℕ
or_number n d = if n == 0 then d else n

unfoldable pub listener_defaults : HttpListener → Str → Str → ℕ → HttpListener
listener_defaults l ipv4 ipv6 port = record {
  ipv4_host = or_text l.ipv4_host ipv4;
  ipv6_host = or_text l.ipv6_host ipv6;
  port = or_number l.port port;
}

-- The defaults at the end of LoadConfig.
unfoldable pub set_defaults : Config → Config
set_defaults c = record c {
  http = record c.http {
    listener = listener_defaults c.http.listener (codes "0.0.0.0") (codes "::") 8080;
    metrics = record c.http.metrics {
      listener = listener_defaults c.http.metrics.listener (codes "127.0.0.1") (codes "::1") 8081;
    };
  };
  persistence = record {
    database = record c.persistence.database {
      driver = or_text c.persistence.database.driver driver_sqlite;
      database = or_text c.persistence.database.database (codes "rtz.db");
    };
    uploads = record c.persistence.uploads {
      driver = or_text c.persistence.uploads.driver uploads_filesystem;
      filesystem_options = record {
        directory = or_text c.persistence.uploads.filesystem_options.directory (codes "uploads/");
      };
    };
  };
  parallel_log_parsers = or_number c.parallel_log_parsers 4;
  log_level = or_text c.log_level (codes "info");
}

pub data ConfigError : Type 0 where
  jwt_secret_required backend_url_required otlp_endpoint_required : ConfigError
  mapbox_public_token_required mapbox_secret_token_required : ConfigError
  db_host_required database_driver_required db_database_required : ConfigError
  uploads_fs_directory_required uploads_s3_bucket_required uploads_s3_region_required : ConfigError
  nats_url_required git_hub_oauth_required google_oauth_required custom_oauth_required : ConfigError
  custom_token_url_required custom_user_url_required : ConfigError
  parallel_log_parsers_not_zero invalid_log_level : ConfigError

unfoldable pub is_log_level : Str → Bool
is_log_level s =
    str_eq s (codes "debug")
    || str_eq s (codes "info")
    || str_eq s (codes "warn")
    || str_eq s (codes "error")

-- `none` is a nil error.
pub validate : Config → Option ConfigError
validate c =
    if is_empty c.jwt_secret
    then some jwt_secret_required
    else if is_empty c.http.backend_url
    then some backend_url_required
    else if c.http.tracing.enabled && is_empty c.http.tracing.otlp_endpoint
    then some otlp_endpoint_required
    else if is_empty c.mapbox.public_token
    then some mapbox_public_token_required
    else if is_empty c.mapbox.secret_token
    then some mapbox_secret_token_required
    else if not (str_eq c.persistence.database.driver driver_sqlite)
        && is_empty c.persistence.database.host
    then some db_host_required
    else if is_empty c.persistence.database.driver
    then some database_driver_required
    else if is_empty c.persistence.database.database
    then some db_database_required
    else if str_eq c.persistence.uploads.driver uploads_filesystem
        && is_empty c.persistence.uploads.filesystem_options.directory
    then some uploads_fs_directory_required
    else if str_eq c.persistence.uploads.driver uploads_s3
        && is_empty c.persistence.uploads.s3_options.bucket
    then some uploads_s3_bucket_required
    else if str_eq c.persistence.uploads.driver uploads_s3
        && is_empty c.persistence.uploads.s3_options.region
    then some uploads_s3_region_required
    else if c.nats.enabled && is_empty c.nats.url
    then some nats_url_required
    else if c.auth.git_hub.enabled
        && (is_empty c.auth.git_hub.client_id || is_empty c.auth.git_hub.client_secret)
    then some git_hub_oauth_required
    else if c.auth.google.enabled
        && (is_empty c.auth.google.client_id || is_empty c.auth.google.client_secret)
    then some google_oauth_required
    else if c.auth.custom.enabled
        && (is_empty c.auth.custom.client_id || is_empty c.auth.custom.client_secret)
    then some custom_oauth_required
    else if c.auth.custom.enabled && is_empty c.auth.custom.token_url
    then some custom_token_url_required
    else if c.auth.custom.enabled && is_empty c.auth.custom.user_url
    then some custom_user_url_required
    else if c.parallel_log_parsers == 0
    then some parallel_log_parsers_not_zero
    else if is_log_level c.log_level
    then none
    else some invalid_log_level
