-- ===== src/Config/Flags.antt =====
-- internal/config/config.go: `overrideFlags` and the end of LoadConfig. The flags are read by cobra and
-- pflag, which stand here as an interface.
pub mod Written
use Prim.Native.String.{String}
use rtz_server.Base.{ℕ, ◌+◌, ◌&&◌, Bool, leb, List, Option, none, some, map, if◌then◌else◌}
use rtz_server.GoText.{Str}
use rtz_server.Config.{Config, HttpConfig, DatabaseConfig, Uploads, Auth, set_defaults}

-- The value of a flag by its name, `none` where the flag has not been changed. A flag is registered
-- with the type with which it is read, so reading it gives no error.
pub record Flags : Type 0 where
  pub text : String → Option Str
  pub texts : String → Option (List Str)
  pub number : String → Option ℕ
  pub boolean : String → Option Bool

pub changed : {A : Type 0} → Option A → A → A
changed none old = old
changed (some v) old = v

-- strings.ToLower, for the ASCII letters.
abbrev pub to_lower : ℕ → ℕ
to_lower c = if leb 65 c && leb c 90 then c + 32 else c

-- strings.ToLower of the text of a flag.
pub lowered : Option Str → Option Str
lowered none = none
lowered (some s) = some (map to_lower s)

module _ (flags : Flags) where
  open flags use {text, texts, number, boolean}

  pub override_http : HttpConfig → HttpConfig
  unfolding changed
  override_http h = record {
    listener = record {
      ipv4_host = changed (text "http.ipv4_host") h.listener.ipv4_host;
      ipv6_host = changed (text "http.ipv6_host") h.listener.ipv6_host;
      port = changed (number "http.port") h.listener.port;
    };
    tracing = record {
      enabled = changed (boolean "http.tracing.enabled") h.tracing.enabled;
      otlp_endpoint = changed (text "http.tracing.otlp_endpoint") h.tracing.otlp_endpoint;
    };
    backend_url = changed (text "http.backend_url") h.backend_url;
    p_prof = changed (boolean "http.pprof.enabled") h.p_prof;
    trusted_proxies = changed (texts "http.trusted_proxies") h.trusted_proxies;
    metrics = record {
      listener = record {
        ipv4_host = changed (text "http.metrics.ipv4_host") h.metrics.listener.ipv4_host;
        ipv6_host = changed (text "http.metrics.ipv6_host") h.metrics.listener.ipv6_host;
        port = changed (number "http.metrics.port") h.metrics.listener.port;
      };
      enabled = changed (boolean "http.metrics.enabled") h.metrics.enabled;
    };
    cors_hosts = changed (texts "http.cors_hosts") h.cors_hosts;
  }

  pub override_database : DatabaseConfig → DatabaseConfig
  unfolding changed lowered
  override_database d = record {
    driver = changed (lowered (text "persistence.database.driver")) d.driver;
    database = changed (text "persistence.database.database") d.database;
    username = changed (text "persistence.database.username") d.username;
    password = changed (text "persistence.database.password") d.password;
    host = changed (text "persistence.database.host") d.host;
    port = changed (number "persistence.database.port") d.port;
    extra_parameters = changed (text "persistence.database.extra_parameters") d.extra_parameters;
  }

  pub override_uploads : Uploads → Uploads
  unfolding changed lowered
  override_uploads u = record {
    driver = changed (lowered (text "persistence.uploads.driver")) u.driver;
    filesystem_options = record {
      directory =
          changed (text "persistence.uploads.filesystem_options.directory")
            u.filesystem_options.directory;
    };
    s3_options = record {
      region = changed (text "persistence.uploads.s3_options.region") u.s3_options.region;
      bucket = changed (text "persistence.uploads.s3_options.bucket") u.s3_options.bucket;
      endpoint = changed (text "persistence.uploads.s3_options.endpoint") u.s3_options.endpoint;
    };
  }

  pub override_auth : Auth → Auth
  unfolding changed
  override_auth a = record {
    google = record {
      enabled = changed (boolean "auth.google.enabled") a.google.enabled;
      client_id = changed (text "auth.google.client_id") a.google.client_id;
      client_secret = changed (text "auth.google.client_secret") a.google.client_secret;
    };
    git_hub = record {
      enabled = changed (boolean "auth.github.enabled") a.git_hub.enabled;
      client_id = changed (text "auth.github.client_id") a.git_hub.client_id;
      client_secret = changed (text "auth.github.client_secret") a.git_hub.client_secret;
    };
    custom = record {
      enabled = changed (boolean "auth.custom.enabled") a.custom.enabled;
      client_id = changed (text "auth.custom.client_id") a.custom.client_id;
      client_secret = changed (text "auth.custom.client_secret") a.custom.client_secret;
      token_url = changed (text "auth.custom.token_url") a.custom.token_url;
      user_url = changed (text "auth.custom.user_url") a.custom.user_url;
    };
  }

  pub override_flags : Config → Config
  unfolding changed lowered override_http override_database override_uploads override_auth
  override_flags c = record {
    http = override_http c.http;
    persistence = record {
      database = override_database c.persistence.database;
      uploads = override_uploads c.persistence.uploads;
    };
    registration = changed (boolean "registration.enabled") c.registration;
    auth = override_auth c.auth;
    jwt_secret = changed (text "jwt.secret") c.jwt_secret;
    mapbox = record {
      secret_token = changed (text "mapbox.secret_token") c.mapbox.secret_token;
      public_token = changed (text "mapbox.public_token") c.mapbox.public_token;
    };
    nats = record {
      enabled = changed (boolean "nats.enabled") c.nats.enabled;
      url = changed (text "nats.url") c.nats.url;
      token = changed (text "nats.token") c.nats.token;
    };
    parallel_log_parsers = changed (number "parallel_log_parsers") c.parallel_log_parsers;
    log_level = changed (text "log_level") c.log_level;
  }

  -- The configuration of LoadConfig from the one in the file.
  pub load_config : Config → Config
  unfolding override_flags
  load_config file = set_defaults (override_flags file)
