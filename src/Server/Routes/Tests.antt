-- ===== src/Server/Routes/Tests.antt =====
-- A request to a route of internal/server/routes.go that changes a device.
use mathlib.Core.List.{Memᴰ}
use rtz_server.Base.{◌≡◌, ◌⊎◌, refl, ap, [], ◌∷◌, Option, none, some}
use rtz_server.Models.Rows.{Device, Database}
use rtz_server.Server.Http.{Subject, Context, Step, aborted, next, returned, panics}
use rtz_server.Server.Middleware.{allows}
use rtz_server.Server.Middleware.Fixtures.{
  sample_env, user_request, known_request, known_user, known_owner,
}
use rtz_server.Server.Middleware.Auth.{Granted}
use rtz_server.Server.Middleware.Owner.{Owns, IsPresent}
use rtz_server.Server.Routes.Table.{writes_database, IsGuarded, HasOwnCheck, apply_routes-IsSafe}
use rtz_server.Server.Routes.{RouteEntry, patch, patch_device, auth, owner, Gin, run_guard, reaches}
use rtz_server.Server.Routes.Guarded.{reaches_both, owner_route_lem}

abbrev sample_goes_on : Step → Option Context
sample_goes_on (aborted status message) = none
sample_goes_on (next c) = some c
sample_goes_on (returned c) = some c
sample_goes_on panics = none

abbrev sample_gin : Gin
sample_gin = record {
  goes_on = sample_goes_on;
  stops_aborted = λ status message. refl;
  stops_panics = refl;
  goes_on_next = λ c. refl;
  goes_on_returned = λ c. refl;
}

handled : reaches sample_gin sample_env (auth 1 ∷ owner ∷ []) user_request ≡ some known_request
unfolding run_guard
handled =
    reaches_both sample_gin sample_env (auth 1) owner user_request known_request known_request
      (ap sample_goes_on known_user) (ap sample_goes_on known_owner)

owner_route_lem_example :
    Granted sample_env 1 user_request known_request
    × ((db : Database) × (device : Device) × (s : Subject) × IsPresent sample_env known_request db
          device s
        × Owns s device)
unfolding allows
owner_route_lem_example =
    owner_route_lem sample_gin sample_env 1 user_request known_request refl refl refl handled

abbrev patch_route : RouteEntry
patch_route = record {
  method = patch;
  path = "/v1/devices/:dongle_id";
  guards = auth 1 ∷ owner ∷ [];
  handler = patch_device;
}

apply_routes-IsSafe_example :
    IsGuarded patch_route.guards ⊎ HasOwnCheck patch_route.handler patch_route.guards
unfolding writes_database
apply_routes-IsSafe_example =
    apply_routes-IsSafe patch_route
      (Memᴰ.tail (Memᴰ.tail (Memᴰ.tail (Memᴰ.tail (Memᴰ.tail (Memᴰ.tail (Memᴰ.head refl))))))) refl
