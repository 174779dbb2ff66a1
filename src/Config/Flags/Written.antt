-- ===== src/Config/Flags/Written.antt =====
-- What the flags of internal/config/config.go write: a configuration whose every setting is a flag.
use rtz_server.Base.{◌≡◌, refl, some, map}
use rtz_server.Config.{Config, HttpConfig, DatabaseConfig, Uploads, Auth, set_defaults}
use rtz_server.Config.Flags.{
  Flags, changed, to_lower, lowered, override_http, override_database, override_uploads,
  override_auth, override_flags, load_config,
}

-- The drivers in lower case.
abbrev pub lower_drivers : Config → Config
lower_drivers t = record t {
  persistence = record {
    database = record t.persistence.database {
      driver = map to_lower t.persistence.database.driver;
    };
    uploads = record t.persistence.uploads { driver = map to_lower t.persistence.uploads.driver };
  };
}

module _ (flags : Flags) where
  -- Every flag has been changed, to the setting that its name says.
  pub record AreSetTo (t : Config) : Type 0 where
    pub http_ipv4_host : flags.text "http.ipv4_host" ≡ some t.http.listener.ipv4_host
    pub http_ipv6_host : flags.text "http.ipv6_host" ≡ some t.http.listener.ipv6_host
    pub http_port : flags.number "http.port" ≡ some t.http.listener.port
    pub http_tracing_enabled : flags.boolean "http.tracing.enabled" ≡ some t.http.tracing.enabled
    pub http_tracing_otlp_endpoint :
        flags.text "http.tracing.otlp_endpoint" ≡ some t.http.tracing.otlp_endpoint
    pub http_backend_url : flags.text "http.backend_url" ≡ some t.http.backend_url
    pub http_pprof_enabled : flags.boolean "http.pprof.enabled" ≡ some t.http.p_prof
    pub http_trusted_proxies : flags.texts "http.trusted_proxies" ≡ some t.http.trusted_proxies
    pub http_metrics_ipv4_host :
        flags.text "http.metrics.ipv4_host" ≡ some t.http.metrics.listener.ipv4_host
    pub http_metrics_ipv6_host :
        flags.text "http.metrics.ipv6_host" ≡ some t.http.metrics.listener.ipv6_host
    pub http_metrics_port : flags.number "http.metrics.port" ≡ some t.http.metrics.listener.port
    pub http_metrics_enabled : flags.boolean "http.metrics.enabled" ≡ some t.http.metrics.enabled
    pub http_cors_hosts : flags.texts "http.cors_hosts" ≡ some t.http.cors_hosts
    pub persistence_database_driver :
        flags.text "persistence.database.driver" ≡ some t.persistence.database.driver
    pub persistence_database_database :
        flags.text "persistence.database.database" ≡ some t.persistence.database.database
    pub persistence_database_username :
        flags.text "persistence.database.username" ≡ some t.persistence.database.username
    pub persistence_database_password :
        flags.text "persistence.database.password" ≡ some t.persistence.database.password
    pub persistence_database_host :
        flags.text "persistence.database.host" ≡ some t.persistence.database.host
    pub persistence_database_port :
        flags.number "persistence.database.port" ≡ some t.persistence.database.port
    pub persistence_database_extra_parameters :
        flags.text "persistence.database.extra_parameters"
        ≡ some t.persistence.database.extra_parameters
    pub persistence_uploads_driver :
        flags.text "persistence.uploads.driver" ≡ some t.persistence.uploads.driver
    pub persistence_uploads_filesystem_options_directory :
        flags.text "persistence.uploads.filesystem_options.directory"
        ≡ some t.persistence.uploads.filesystem_options.directory
    pub persistence_uploads_s3_options_region :
        flags.text "persistence.uploads.s3_options.region"
        ≡ some t.persistence.uploads.s3_options.region
    pub persistence_uploads_s3_options_bucket :
        flags.text "persistence.uploads.s3_options.bucket"
        ≡ some t.persistence.uploads.s3_options.bucket
    pub persistence_uploads_s3_options_endpoint :
        flags.text "persistence.uploads.s3_options.endpoint"
        ≡ some t.persistence.uploads.s3_options.endpoint
    pub auth_google_enabled : flags.boolean "auth.google.enabled" ≡ some t.auth.google.enabled
    pub auth_google_client_id : flags.text "auth.google.client_id" ≡ some t.auth.google.client_id
    pub auth_google_client_secret :
        flags.text "auth.google.client_secret" ≡ some t.auth.google.client_secret
    pub auth_github_enabled : flags.boolean "auth.github.enabled" ≡ some t.auth.git_hub.enabled
    pub auth_github_client_id : flags.text "auth.github.client_id" ≡ some t.auth.git_hub.client_id
    pub auth_github_client_secret :
        flags.text "auth.github.client_secret" ≡ some t.auth.git_hub.client_secret
    pub auth_custom_enabled : flags.boolean "auth.custom.enabled" ≡ some t.auth.custom.enabled
    pub auth_custom_client_id : flags.text "auth.custom.client_id" ≡ some t.auth.custom.client_id
    pub auth_custom_client_secret :
        flags.text "auth.custom.client_secret" ≡ some t.auth.custom.client_secret
    pub auth_custom_token_url : flags.text "auth.custom.token_url" ≡ some t.auth.custom.token_url
    pub auth_custom_user_url : flags.text "auth.custom.user_url" ≡ some t.auth.custom.user_url
    pub registration_enabled : flags.boolean "registration.enabled" ≡ some t.registration
    pub jwt_secret : flags.text "jwt.secret" ≡ some t.jwt_secret
    pub mapbox_secret_token : flags.text "mapbox.secret_token" ≡ some t.mapbox.secret_token
    pub mapbox_public_token : flags.text "mapbox.public_token" ≡ some t.mapbox.public_token
    pub nats_enabled : flags.boolean "nats.enabled" ≡ some t.nats.enabled
    pub nats_url : flags.text "nats.url" ≡ some t.nats.url
    pub nats_token : flags.text "nats.token" ≡ some t.nats.token
    pub parallel_log_parsers : flags.number "parallel_log_parsers" ≡ some t.parallel_log_parsers
    pub log_level : flags.text "log_level" ≡ some t.log_level

  override_http-AreSetTo :
      (t : Config) (c : HttpConfig) → AreSetTo t → override_http flags c ≡ t.http
  unfolding override_http changed lowered
  override_http-AreSetTo t c set =
      rw
        (
          set.http_ipv4_host, set.http_ipv6_host, set.http_port, set.http_tracing_enabled,
          set.http_tracing_otlp_endpoint, set.http_backend_url, set.http_pprof_enabled,
          set.http_trusted_proxies, set.http_metrics_ipv4_host, set.http_metrics_ipv6_host,
          set.http_metrics_port, set.http_metrics_enabled, set.http_cors_hosts,
        )
        refl

  override_database-AreSetTo :
      (t : Config) (c : DatabaseConfig)
      → AreSetTo t
      → override_database flags c
        ≡ record t.persistence.database { driver = map to_lower t.persistence.database.driver }
  unfolding override_database changed lowered
  override_database-AreSetTo t c set =
      rw
        (
          set.persistence_database_driver, set.persistence_database_database,
          set.persistence_database_username, set.persistence_database_password,
          set.persistence_database_host, set.persistence_database_port,
          set.persistence_database_extra_parameters,
        )
        refl

  override_uploads-AreSetTo :
      (t : Config) (c : Uploads)
      → AreSetTo t
      → override_uploads flags c
        ≡ record t.persistence.uploads { driver = map to_lower t.persistence.uploads.driver }
  unfolding override_uploads changed lowered
  override_uploads-AreSetTo t c set =
      rw
        (
          set.persistence_uploads_driver, set.persistence_uploads_filesystem_options_directory,
          set.persistence_uploads_s3_options_region, set.persistence_uploads_s3_options_bucket,
          set.persistence_uploads_s3_options_endpoint,
        )
        refl

  override_auth-AreSetTo : (t : Config) (c : Auth) → AreSetTo t → override_auth flags c ≡ t.auth
  unfolding override_auth changed lowered
  override_auth-AreSetTo t c set =
      rw
        (
          set.auth_google_enabled, set.auth_google_client_id, set.auth_google_client_secret,
          set.auth_github_enabled, set.auth_github_client_id, set.auth_github_client_secret,
          set.auth_custom_enabled, set.auth_custom_client_id, set.auth_custom_client_secret,
          set.auth_custom_token_url, set.auth_custom_user_url,
        )
        refl

  -- Where every flag has been changed, each to a setting of one configuration, the configuration that
  -- `LoadConfig` ends with is that one, with its drivers in lower case and with the defaults for what
  -- is zero in it, whatever the file has.
  pub load_config-AreSetTo :
      (t file : Config) → AreSetTo t → load_config flags file ≡ set_defaults (lower_drivers t)
  unfolding load_config override_flags changed
  load_config-AreSetTo t file set =
      let http = override_http-AreSetTo t file.http set in
      let database = override_database-AreSetTo t file.persistence.database set in
      let uploads = override_uploads-AreSetTo t file.persistence.uploads set in
      let auth = override_auth-AreSetTo t file.auth set in
      rw
        (
          http, database, uploads, auth, set.registration_enabled, set.jwt_secret,
          set.mapbox_secret_token, set.mapbox_public_token, set.nats_enabled, set.nats_url,
          set.nats_token, set.parallel_log_parsers, set.log_level,
        )
        refl
