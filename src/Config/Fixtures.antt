-- ===== src/Config/Fixtures.antt =====
-- Test data: configurations for internal/config/config.go, one that leaves out what has a default and
-- one that the flags write.
use rtz_server.Base.{true, false, [], ◌∷◌, some}
use rtz_server.GoText.{codes}
use rtz_server.Config.{Config, HttpListener, Oauth}
use rtz_server.Config.Flags.{Flags}

abbrev pub no_listener : HttpListener
no_listener = record { ipv4_host = []; ipv6_host = []; port = 0 }

abbrev pub no_oauth : Oauth
no_oauth = record { enabled = false; client_id = []; client_secret = [] }

abbrev pub minimal : Config
minimal = record {
  http = record {
    listener = no_listener;
    tracing = record { enabled = false; otlp_endpoint = [] };
    backend_url = codes "http://rtz";
    p_prof = false;
    trusted_proxies = [];
    metrics = record { listener = no_listener; enabled = false };
    cors_hosts = [];
  };
  persistence = record {
    database = record {
      driver = [];
      database = [];
      username = [];
      password = [];
      host = [];
      port = 0;
      extra_parameters = [];
    };
    uploads = record {
      driver = [];
      filesystem_options = record { directory = [] };
      s3_options = record { region = []; bucket = []; endpoint = [] };
    };
  };
  registration = true;
  auth = record {
    google = no_oauth;
    git_hub = no_oauth;
    custom = record {
      enabled = false;
      client_id = [];
      client_secret = [];
      token_url = [];
      user_url = [];
    };
  };
  jwt_secret = codes "secret";
  mapbox = record { secret_token = codes "sk"; public_token = codes "pk" };
  nats = record { enabled = false; url = []; token = [] };
  parallel_log_parsers = 0;
  log_level = [];
}

-- Every text is the name of its flag.
abbrev pub named : Config
named = record {
  http = record {
    listener = record {
      ipv4_host = codes "http.ipv4_host";
      ipv6_host = codes "http.ipv6_host";
      port = 80;
    };
    tracing = record { enabled = true; otlp_endpoint = codes "http.tracing.otlp_endpoint" };
    backend_url = codes "http.backend_url";
    p_prof = true;
    trusted_proxies = codes "http.trusted_proxies" ∷ [];
    metrics = record {
      listener = record {
        ipv4_host = codes "http.metrics.ipv4_host";
        ipv6_host = codes "http.metrics.ipv6_host";
        port = 80;
      };
      enabled = true;
    };
    cors_hosts = codes "http.cors_hosts" ∷ [];
  };
  persistence = record {
    database = record {
      driver = codes "persistence.database.driver";
      database = codes "persistence.database.database";
      username = codes "persistence.database.username";
      password = codes "persistence.database.password";
      host = codes "persistence.database.host";
      port = 80;
      extra_parameters = codes "persistence.database.extra_parameters";
    };
    uploads = record {
      driver = codes "persistence.uploads.driver";
      filesystem_options = record {
        directory = codes "persistence.uploads.filesystem_options.directory";
      };
      s3_options = record {
        region = codes "persistence.uploads.s3_options.region";
        bucket = codes "persistence.uploads.s3_options.bucket";
        endpoint = codes "persistence.uploads.s3_options.endpoint";
      };
    };
  };
  auth = record {
    google = record {
      enabled = true;
      client_id = codes "auth.google.client_id";
      client_secret = codes "auth.google.client_secret";
    };
    git_hub = record {
      enabled = true;
      client_id = codes "auth.github.client_id";
      client_secret = codes "auth.github.client_secret";
    };
    custom = record {
      enabled = true;
      client_id = codes "auth.custom.client_id";
      client_secret = codes "auth.custom.client_secret";
      token_url = codes "auth.custom.token_url";
      user_url = codes "auth.custom.user_url";
    };
  };
  registration = true;
  jwt_secret = codes "jwt.secret";
  mapbox = record {
    secret_token = codes "mapbox.secret_token";
    public_token = codes "mapbox.public_token";
  };
  nats = record { enabled = true; url = codes "nats.url"; token = codes "nats.token" };
  parallel_log_parsers = 80;
  log_level = codes "log_level";
}

abbrev pub named_flags : Flags
named_flags = record {
  text = λ name. some (codes name);
  texts = λ name. some (codes name ∷ []);
  number = λ name. some 80;
  boolean = λ name. some true;
}
