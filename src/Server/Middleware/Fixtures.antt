-- ===== src/Server/Middleware/Fixtures.antt =====
-- Test data: an environment and requests to the middleware of internal/server/middleware.go.
use rtz_server.Base.{false, ◌≡◌, refl, [], none, some}
use rtz_server.GoText.{codes, has_prefix, str_eq, is_empty, trim_prefix, skip}
use rtz_server.Models.Fixtures.{sample_gorm, sample_user, sample_database}
use rtz_server.Models.Queries.{find_user_by_id, find_device_by_dongle_id}
use rtz_server.Jwt.{verify_jwt, user_key}
use rtz_server.Jwt.Fixtures.{
  sample_keys, sample_parser, sample_user_token, sample_device_token, sample_cookie_token,
}
use rtz_server.Server.Http.{of_user, Context, next}
use rtz_server.Server.Middleware.{
  Env, bearer, try_user, try_device, conclude, verify_either, require_auth, check_owner,
  require_device_owner, demo_token, allows,
}

abbrev pub sample_env : Env
sample_env = record {
  gorm = sample_gorm;
  keys = sample_keys;
  user_tokens = sample_parser sample_user_token;
  device_tokens = sample_parser sample_device_token;
  cookie_tokens = sample_parser sample_cookie_token;
  secret = codes "sec";
}

abbrev pub user_request : Context
user_request = record {
  authorization = codes "JWT sec1";
  access_token = [];
  jwt_cookie = some (codes "k1c");
  dongle_id = some (codes "d1");
  db = some sample_database;
  demo = false;
  user = none;
  device = none;
}

abbrev pub known_request : Context
known_request = record user_request { user = some (of_user sample_user) }

abbrev pub unnamed_request : Context
unnamed_request = record user_request { dongle_id = none }

pub known_user : require_auth sample_env 1 user_request ≡ next known_request
unfolding require_auth bearer verify_either try_user try_device conclude has_prefix is_empty
    trim_prefix skip str_eq verify_jwt user_key find_user_by_id demo_token allows
known_user = refl

pub known_owner : require_device_owner sample_env known_request ≡ next known_request
unfolding require_device_owner check_owner find_device_by_dongle_id str_eq is_empty
known_owner = refl
