-- ===== src/Server/Middleware/Tests.antt =====
-- Requests to the middleware of internal/server/middleware.go.
use mathlib.Core.Path.{subst}
use rtz_server.Base.{true, ◌≡◌, ◌≢◌, refl, ◌⊎◌, inl, inr, [], some, arith}
use rtz_server.GoText.{codes, has_prefix, str_eq, is_empty, trim_prefix, skip}
use rtz_server.Models.Rows.{Device, Database}
use rtz_server.Models.Fixtures.{sample_user, sample_database}
use rtz_server.Models.Queries.{find_device_by_dongle_id, list_shared_to_by_user_id}
use rtz_server.Jwt.{public_key}
use rtz_server.Server.Http.{Subject, of_user, next, returned}
use rtz_server.Server.Middleware.{
  bearer, announced_identity, require_auth, check_owner_or_shared, require_device_owner_or_shared,
  require_cookie_auth, allows,
}
use rtz_server.Server.Middleware.Fixtures.{
  sample_env, user_request, known_request, unnamed_request, known_owner, known_user,
}
use rtz_server.Server.Middleware.Auth.{
  Granted, require_auth-Granted, require_auth-ne-returned, require_auth_unnamed_device,
}
use rtz_server.Server.Middleware.Owner.{Owns, IsPresent, require_device_owner_iff}
use rtz_server.Server.Middleware.Shared.{
  OwnsOrShares, IsStored, require_device_owner_or_shared_iff, AreSharesRead,
}
use rtz_server.Server.Middleware.Cookie.{CookieProof, require_cookie_auth_iff}

known_owner_or_shared : require_device_owner_or_shared sample_env known_request ≡ next known_request
unfolding require_device_owner_or_shared check_owner_or_shared find_device_by_dongle_id
    list_shared_to_by_user_id str_eq is_empty
known_owner_or_shared = refl

known_cookie : require_cookie_auth sample_env user_request ≡ next user_request
unfolding require_cookie_auth find_device_by_dongle_id str_eq is_empty has_prefix public_key
known_cookie = refl

require_auth-Granted_example : Granted sample_env 1 user_request known_request
require_auth-Granted_example =
    require_auth-Granted sample_env 1 user_request known_request known_user

require_auth-ne-returned_example : require_auth sample_env 1 user_request ≢ returned user_request
unfolding allows
require_auth-ne-returned_example =
    require_auth-ne-returned sample_env 1 user_request user_request refl

announced : announced_identity sample_env (codes "sec1") ≢ []
unfolding announced_identity
announced e = cc

sent : bearer unnamed_request ≡ some (codes "sec1")
unfolding bearer has_prefix is_empty trim_prefix skip
sent = refl

require_auth_unnamed_device_example :
    require_auth sample_env 2 unnamed_request ≡ returned unnamed_request
unfolding allows
require_auth_unnamed_device_example =
    require_auth_unnamed_device sample_env 2 (codes "sec1") sample_database unnamed_request refl
      refl refl sent refl refl announced

require_device_owner_iff_example :
    (known_request ≡ known_request)
    × ((known_request.demo ≡ true)
        ⊎ ((db : Database) × (device : Device) × (s : Subject) × IsPresent sample_env known_request
              db device s
            × Owns s device))
require_device_owner_iff_example =
    (require_device_owner_iff sample_env known_request known_request).0 known_owner

keyed : (s : Subject) → (known_request.user ≡ some s) ⊎ (known_request.device ≡ some s) → IsStored s
keyed s (inl e) =
    let same : of_user sample_user ≡ s = ground arith in subst IsStored same (λ zero. omega arith)
keyed s (inr e) = cc

require_device_owner_or_shared_iff_example :
    (known_request ≡ known_request)
    × ((known_request.demo ≡ true)
        ⊎ ((db : Database) × (device : Device) × (s : Subject) × IsPresent sample_env known_request
              db device s
            × AreSharesRead sample_env db s
            × OwnsOrShares db s device))
require_device_owner_or_shared_iff_example =
    (require_device_owner_or_shared_iff sample_env known_request known_request keyed).0
      known_owner_or_shared

require_cookie_auth_iff_example :
    (user_request ≡ user_request) × CookieProof sample_env user_request
require_cookie_auth_iff_example =
    (require_cookie_auth_iff sample_env user_request user_request).0 known_cookie
