-- ===== src/Server/Routes/Table.antt =====
-- Which guards stand in front of the handlers that write to the database, in internal/server/routes.go.
use mathlib.Core.List.{Memᴰ}
use mathlib.Core.Path.{subst}
use rtz_server.Base.{ℕ, Bool, true, false, ◌≡◌, refl, sym, ◌⊎◌, inl, inr, List, [], ◌∷◌, All}
use rtz_server.Server.Middleware.{allows, auth_type_user, auth_type_device, auth_type_demo}
use rtz_server.Server.Routes.{
  Guard, auth, owner, owner_or_shared, cookie, Handler, health, get_mapbox_directions,
  get_mapbox_style, get_mapbox_style_sprite_asset, get_mapbox_tileset, get_mapbox_tile,
  rpc_websocket, handle_rpc, get_me, get_route_q_camera, get_route_files, get_route_file,
  get_athena_offline_queue, patch_device, post_device_unpair, post_device_add_user,
  get_device_location, get_device_routes_preserved, get_device_routes_segments, get_my_devices,
  post_set_destination, get_navigation_next, put_navigation_locations, delete_navigation_location,
  delete_navigation_next, get_navigation_locations, get_prime_subscription, get_device,
  get_device_stats, get_upload_url, put_upload, post_auth, get_auth_redirect, post_pilot_pair,
  post_pilot_auth, RouteEntry, apply_routes,
}

-- The handlers that write to the database: their functions, or what they call or start (the log queue,
-- the pings of the socket), contain a Create, FirstOrCreate, Save, Update, Updates or Delete.
unfoldable pub writes_database : Handler → Bool
writes_database patch_device = true
writes_database post_device_unpair = true
writes_database post_device_add_user = true
writes_database post_set_destination = true
writes_database get_navigation_next = true
writes_database put_navigation_locations = true
writes_database delete_navigation_location = true
writes_database delete_navigation_next = true
writes_database put_upload = true
writes_database post_auth = true
writes_database post_pilot_pair = true
writes_database post_pilot_auth = true
writes_database rpc_websocket = true
writes_database health = false
writes_database get_mapbox_directions = false
writes_database get_mapbox_style = false
writes_database get_mapbox_style_sprite_asset = false
writes_database get_mapbox_tileset = false
writes_database get_mapbox_tile = false
writes_database handle_rpc = false
writes_database get_me = false
writes_database get_route_q_camera = false
writes_database get_route_files = false
writes_database get_route_file = false
writes_database get_athena_offline_queue = false
writes_database get_device_location = false
writes_database get_device_routes_preserved = false
writes_database get_device_routes_segments = false
writes_database get_my_devices = false
writes_database get_navigation_locations = false
writes_database get_prime_subscription = false
writes_database get_device = false
writes_database get_device_stats = false
writes_database get_upload_url = false
writes_database get_auth_redirect = false

-- `requireAuth` for users without the demo, and a guard for the device behind it.
pub record IsGuarded (gs : List Guard) : Type 0 where
  pub types : ℕ
  pub users : allows types auth_type_user ≡ true
  pub no_demo : allows types auth_type_demo ≡ false
  pub chain : (gs ≡ auth types ∷ owner ∷ []) ⊎ (gs ≡ auth types ∷ owner_or_shared ∷ [])

-- The handlers that have no guard for the owner: two that ask for a token of their own or a login
-- without a guard, one that asks for a token of its own of a user, and two of devices.
pub data HasOwnCheck : Handler → List Guard → Type 0 where
  by_registration : HasOwnCheck post_pilot_auth []
  by_login : HasOwnCheck post_auth []
  by_pairing : HasOwnCheck post_pilot_pair (auth auth_type_user ∷ [])
  by_upload : HasOwnCheck put_upload (auth auth_type_device ∷ [])
  by_socket : HasOwnCheck rpc_websocket (cookie ∷ [])

abbrev pub IsSafe : RouteEntry → Type 0
IsSafe r = writes_database r.handler ≡ true → IsGuarded r.guards ⊎ HasOwnCheck r.handler r.guards

by_owner :
    (types : ℕ)
    → allows types auth_type_user ≡ true
    → allows types auth_type_demo ≡ false
    → IsGuarded (auth types ∷ owner ∷ [])
by_owner types users no_demo = record {
  types = types;
  users = users;
  no_demo = no_demo;
  chain = inl refl;
}

by_owner_or_shared :
    (types : ℕ)
    → allows types auth_type_user ≡ true
    → allows types auth_type_demo ≡ false
    → IsGuarded (auth types ∷ owner_or_shared ∷ [])
by_owner_or_shared types users no_demo = record {
  types = types;
  users = users;
  no_demo = no_demo;
  chain = inr refl;
}

-- Pairs to the right.
infixr 4 ◌&◌
abbrev ◌&◌ : {A B : Type 0} → A → B → A × B
a & b = (a, b)

silent : {P : Type 0} → false ≡ true → P
silent e = cc

apply_routes_lem : All IsSafe apply_routes
unfolding writes_database allows
apply_routes_lem =
    silent
    & silent
    & silent
    & silent
    & silent
    & silent
    & (λ e. inl (by_owner 1 refl refl))
    & (λ e. inl (by_owner 1 refl refl))
    & (λ e. inl (by_owner 1 refl refl))
    & silent
    & silent
    & silent
    & silent
    & (λ e. inl (by_owner_or_shared 3 refl refl))
    & (λ e. inl (by_owner_or_shared 3 refl refl))
    & (λ e. inl (by_owner_or_shared 3 refl refl))
    & (λ e. inl (by_owner_or_shared 3 refl refl))
    & (λ e. inl (by_owner_or_shared 3 refl refl))
    & silent
    & silent
    & silent
    & silent
    & silent
    & (λ e. inr by_upload)
    & (λ e. inr by_login)
    & silent
    & (λ e. inr by_pairing)
    & (λ e. inr by_registration)
    & silent
    & silent
    & silent
    & silent
    & silent
    & silent
    & (λ e. inr by_socket)
    & silent
    & tt

All-Memᴰ : {A : Type 0} (P : A → Type 0) {a : A} (xs : List A) → All P xs → Memᴰ a xs → P a
All-Memᴰ P [] h m = elim m [ ]
All-Memᴰ P (x ∷ xs) (p, h) (Memᴰ.head same) = subst P (sym same) p
All-Memᴰ P (x ∷ xs) (p, h) (Memᴰ.tail m) = All-Memᴰ P xs h m

-- Every route of the table whose handler writes to the database has `requireAuth` in front of it, for
-- users and never for the demo, and behind that `requireDeviceOwner` or `requireDeviceOwnerOrShared`,
-- but for five: `POSTPilotAuth` and `POSTAuth` have no guard, `POSTPilotPair` has `requireAuth` for users
-- alone, `PUTUpload` has it for devices alone, and the socket of devices has `requireCookieAuth`.
pub apply_routes-IsSafe :
    (r : RouteEntry)
    → Memᴰ r apply_routes
    → writes_database r.handler ≡ true
    → IsGuarded r.guards ⊎ HasOwnCheck r.handler r.guards
apply_routes-IsSafe r m = All-Memᴰ IsSafe apply_routes apply_routes_lem m
