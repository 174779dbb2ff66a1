-- ===== src/Config/Tests.antt =====
-- The properties of internal/config/config.go at small configurations.
use rtz_server.Base.{◌≡◌, refl, none}
use rtz_server.GoText.{is_empty, str_eq}
use rtz_server.Config.{validate, set_defaults, is_log_level}
use rtz_server.Config.Fixtures.{minimal, named, named_flags}
use rtz_server.Config.Flags.{load_config}
use rtz_server.Config.Flags.Written.{AreSetTo, lower_drivers, load_config-AreSetTo}
use rtz_server.Config.Laws.{IsValid, validate_iff}
use rtz_server.Config.Defaults.{HasEssentials, validate-set_defaults_iff}

completed : validate (set_defaults minimal) ≡ none
unfolding validate set_defaults is_empty str_eq is_log_level
completed = refl

validate_iff_example : IsValid (set_defaults minimal)
validate_iff_example = (validate_iff (set_defaults minimal)).0 completed

validate-set_defaults_iff_example : HasEssentials minimal
validate-set_defaults_iff_example = (validate-set_defaults_iff minimal).0 completed

abbrev all_set : AreSetTo named_flags named
all_set = record {
  http_ipv4_host = refl;
  http_ipv6_host = refl;
  http_port = refl;
  http_tracing_enabled = refl;
  http_tracing_otlp_endpoint = refl;
  http_backend_url = refl;
  http_pprof_enabled = refl;
  http_trusted_proxies = refl;
  http_metrics_ipv4_host = refl;
  http_metrics_ipv6_host = refl;
  http_metrics_port = refl;
  http_metrics_enabled = refl;
  http_cors_hosts = refl;
  persistence_database_driver = refl;
  persistence_database_database = refl;
  persistence_database_username = refl;
  persistence_database_password = refl;
  persistence_database_host = refl;
  persistence_database_port = refl;
  persistence_database_extra_parameters = refl;
  persistence_uploads_driver = refl;
  persistence_uploads_filesystem_options_directory = refl;
  persistence_uploads_s3_options_region = refl;
  persistence_uploads_s3_options_bucket = refl;
  persistence_uploads_s3_options_endpoint = refl;
  auth_google_enabled = refl;
  auth_google_client_id = refl;
  auth_google_client_secret = refl;
  auth_github_enabled = refl;
  auth_github_client_id = refl;
  auth_github_client_secret = refl;
  auth_custom_enabled = refl;
  auth_custom_client_id = refl;
  auth_custom_client_secret = refl;
  auth_custom_token_url = refl;
  auth_custom_user_url = refl;
  registration_enabled = refl;
  jwt_secret = refl;
  mapbox_secret_token = refl;
  mapbox_public_token = refl;
  nats_enabled = refl;
  nats_url = refl;
  nats_token = refl;
  parallel_log_parsers = refl;
  log_level = refl;
}

load_config-AreSetTo_example : load_config named_flags minimal ≡ set_defaults (lower_drivers named)
load_config-AreSetTo_example = load_config-AreSetTo named_flags named minimal all_set
