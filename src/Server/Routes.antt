-- ===== src/Server/Routes.antt =====
-- internal/server/routes.go: the table of routes with their guards. How gin runs a chain of handlers
-- is a parameter.
pub mod Guarded
pub mod Table
mod Tests
use Prim.Native.String.{String}
use rtz_server.Base.{ℕ, ◌+◌, Bool, List, [], ◌∷◌, ◌++◌, ◌≡◌, Option, none, some, map}
use rtz_server.Server.Http.{Context, Step, aborted, next, returned, panics}
use rtz_server.Server.Middleware.{
  Env, auth_type_user, auth_type_device, auth_type_demo, require_auth, require_device_owner,
  require_device_owner_or_shared, require_cookie_auth,
}

-- The middleware in front of a handler.
pub data Guard : Type 0 where
  auth : ℕ → Guard
  owner owner_or_shared cookie : Guard

pub data Method : Type 0 where
  get post put patch delete : Method

pub data Handler : Type 0 where
  health get_mapbox_directions get_mapbox_style get_mapbox_style_sprite_asset : Handler
  get_mapbox_tileset get_mapbox_tile rpc_websocket handle_rpc : Handler
  get_me get_route_q_camera get_route_files get_route_file get_athena_offline_queue : Handler
  patch_device post_device_unpair post_device_add_user get_device_location : Handler
  get_device_routes_preserved get_device_routes_segments get_my_devices : Handler
  post_set_destination get_navigation_next put_navigation_locations : Handler
  delete_navigation_location delete_navigation_next get_navigation_locations : Handler
  get_prime_subscription get_device get_device_stats get_upload_url put_upload : Handler
  post_auth get_auth_redirect post_pilot_pair post_pilot_auth : Handler

pub record RouteEntry : Type 0 where
  pub method : Method
  pub path : String
  pub guards : List Guard
  pub handler : Handler

abbrev entry : Method → String → List Guard → Handler → RouteEntry
entry m p gs h = record { method = m; path = p; guards = gs; handler = h }

abbrev user_or_demo : Guard
user_or_demo = auth (auth_type_user + auth_type_demo)

abbrev user_or_device : Guard
user_or_device = auth (auth_type_user + auth_type_device)

abbrev any_type : Guard
any_type = auth (auth_type_user + auth_type_device + auth_type_demo)

abbrev pub v1 : List RouteEntry
v1 =
    entry get "/v1/me" (user_or_demo ∷ []) get_me
    ∷ entry get "/v1/route/:id/qcamera.m3u8" [] get_route_q_camera
    ∷ entry get "/v1/route/:id/files" [] get_route_files
    ∷ entry get "/v1/route_file/:dongle_id/:route/:segment/:filename" [] get_route_file
    ∷ entry get "/v1/devices/:dongle_id/athena_offline_queue" (user_or_demo ∷ owner ∷ [])
        get_athena_offline_queue
    ∷ entry patch "/v1/devices/:dongle_id" (auth auth_type_user ∷ owner ∷ []) patch_device
    ∷ entry post "/v1/devices/:dongle_id/unpair" (auth auth_type_user ∷ owner ∷ [])
        post_device_unpair
    ∷ entry post "/v1/devices/:dongle_id/add_user" (auth auth_type_user ∷ owner ∷ [])
        post_device_add_user
    ∷ entry get "/v1/devices/:dongle_id/location" (user_or_demo ∷ owner_or_shared ∷ [])
        get_device_location
    ∷ entry get "/v1/devices/:dongle_id/routes/preserved" [] get_device_routes_preserved
    ∷ entry get "/v1/devices/:dongle_id/routes_segments" (user_or_demo ∷ owner_or_shared ∷ [])
        get_device_routes_segments
    ∷ entry get "/v1/me/devices" (user_or_demo ∷ []) get_my_devices
    ∷ entry post "/v1/navigation/:dongle_id/set_destination" (user_or_device ∷ owner_or_shared ∷ [])
        post_set_destination
    ∷ entry get "/v1/navigation/:dongle_id/next" (user_or_device ∷ owner_or_shared ∷ [])
        get_navigation_next
    ∷ entry put "/v1/navigation/:dongle_id/locations" (user_or_device ∷ owner_or_shared ∷ [])
        put_navigation_locations
    ∷ entry delete "/v1/navigation/:dongle_id/locations" (user_or_device ∷ owner_or_shared ∷ [])
        delete_navigation_location
    ∷ entry delete "/v1/navigation/:dongle_id/next" (user_or_device ∷ owner_or_shared ∷ [])
        delete_navigation_next
    ∷ entry get "/v1/navigation/:dongle_id/locations" (user_or_device ∷ owner_or_shared ∷ [])
        get_navigation_locations
    ∷ entry get "/v1/prime/subscription" (auth auth_type_user ∷ []) get_prime_subscription
    ∷ []

abbrev pub v1dot1 : List RouteEntry
v1dot1 =
    entry get "/v1.1/devices/:dongle_id" (any_type ∷ owner_or_shared ∷ []) get_device
    ∷ entry get "/v1.1/devices/:dongle_id/stats" (any_type ∷ owner_or_shared ∷ []) get_device_stats
    ∷ []

abbrev pub v1dot4 : List RouteEntry
v1dot4 =
    entry get "/v1.4/:dongle_id/upload_url" (auth auth_type_device ∷ []) get_upload_url
    ∷ entry put "/v1.4/:dongle_id/upload" (auth auth_type_device ∷ []) put_upload
    ∷ []

abbrev pub v2 : List RouteEntry
v2 =
    entry post "/v2/auth" [] post_auth
    ∷ entry get "/v2/auth/:provider/redirect" [] get_auth_redirect
    ∷ entry post "/v2/pilotpair" (auth auth_type_user ∷ []) post_pilot_pair
    ∷ entry post "/v2/pilotauth" [] post_pilot_auth
    ∷ []

-- `applyRoutes`, in its order.
abbrev pub apply_routes : List RouteEntry
apply_routes =
    (entry get "/health" [] health ∷ [])
    ++ v1
    ++ v1dot1
    ++ v1dot4
    ++ v2
    ++ (entry get "/directions/v5/mapbox/driving-traffic/:coords" (auth auth_type_device ∷ [])
          get_mapbox_directions
        ∷ entry get "/styles/v1/:owner/:styleID" (auth auth_type_device ∷ []) get_mapbox_style
        ∷ entry get "/styles/v1/:owner/:styleID/:version/sprite.json" (auth auth_type_device ∷ [])
            get_mapbox_style_sprite_asset
        ∷ entry get "/styles/v1/:owner/:styleID/:version/sprite.png" (auth auth_type_device ∷ [])
            get_mapbox_style_sprite_asset
        ∷ entry get "/v4/:tileset" (auth auth_type_device ∷ []) get_mapbox_tileset
        ∷ entry get "/v4/:tileset/:zoom/:x/:y" (auth auth_type_device ∷ []) get_mapbox_tile
        ∷ entry get "/ws/v2/:dongle_id" (cookie ∷ []) rpc_websocket
        ∷ entry post "/:dongle_id" (user_or_demo ∷ owner_or_shared ∷ []) handle_rpc
        ∷ [])

-- What gin does after a middleware: the chain stops at an abort or a panic, and goes on both after a
-- call of c.Next and after a return without an abort.
pub record Gin : Type 0 where
  pub goes_on : Step → Option Context
  pub stops_aborted : (status : ℕ) (message : String) → goes_on (aborted status message) ≡ none
  pub stops_panics : goes_on panics ≡ none
  pub goes_on_next : (c : Context) → goes_on (next c) ≡ some c
  pub goes_on_returned : (c : Context) → goes_on (returned c) ≡ some c

module _ (gin : Gin) (env : Env) where
  pub run_guard : Guard → Context → Step
  run_guard (auth types) c = require_auth env types c
  run_guard owner c = require_device_owner env c
  run_guard owner_or_shared c = require_device_owner_or_shared env c
  run_guard cookie c = require_cookie_auth env c

  -- The context with which the handler of a route is called, if it is called.
  pub reaches : List Guard → Context → Option Context
  unfolding run_guard
  reaches [] c = some c
  reaches (g ∷ gs) c = elim (gin.goes_on (run_guard g c)) [ none ↦ none | some c' ↦ reaches gs c' ]
