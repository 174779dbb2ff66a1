-- ===== src/Controllers/Devices/Tests.antt =====
-- The handlers of internal/server/controllers/v1/devices.go on a small database, and the properties of
-- the modules below this one at such requests.
use rtz_server.Base.{◌≡◌, refl, [], ◌∷◌, none, some, arith}
use rtz_server.Base.Int.{pos, negsuc}
use rtz_server.GoText.{codes, has_prefix, trim_prefix, skip, str_eq, is_empty}
use rtz_server.Models.Rows.{User, Device, Database}
use rtz_server.Models.Gorm.{fetched}
use rtz_server.Models.Queries.{
  find_device_by_dongle_id, find_user_by_google_id, list_shared_to_by_user_id,
}
use rtz_server.Models.Fixtures.{sample_user, sample_device, sample_database}
use rtz_server.Models.Writes.Fixtures.{sample_writes}
use rtz_server.Server.Http.{of_user, Context, next, value}
use rtz_server.Server.Middleware.{require_device_owner_or_shared}
use rtz_server.Server.Middleware.Fixtures.{sample_env, known_request}
use rtz_server.Controllers.Handler.{answered, with_device, IsNamed}
use rtz_server.Controllers.Devices.{
  unix_milli, find_invited, share_with, post_device_add_user, unpair, post_device_unpair,
  update_alias, patch_device, get_device_location,
}
use rtz_server.Controllers.Devices.Sharing.{
  post_device_add_user-IsShared, IsShared, post_device_add_user-next,
}
use rtz_server.Controllers.Devices.Pairing.{without_owner, post_device_unpair-without_owner}

abbrev guest : User
guest = record sample_user { id = 9; google_user_id = some (codes "g") }

abbrev two_users : Database
two_users = record sample_database { users = sample_user ∷ guest ∷ [] }

abbrev owner_request : Context
owner_request = record known_request { db = some two_users }

abbrev after_sharing : Database
after_sharing = record two_users {
  device_shares = record { id = 1; device_id = 3; owner_id = 7; shared_to_user_id = 9 } ∷ [];
}

abbrev guest_request : Context
guest_request = record known_request { db = some after_sharing; user = some (of_user guest) }

unix_milli_tests :
    (unix_milli (some (pos 1999999)) ≡ pos 1) × (unix_milli (some (negsuc 0)) ≡ negsuc 0)
unfolding unix_milli
unix_milli_tests = (refl, refl)

invites : find_invited sample_env.gorm (some two_users) two_users (codes "google_g") ≡ value guest
unfolding find_invited find_user_by_google_id has_prefix trim_prefix skip str_eq
invites = refl

shares :
    post_device_add_user sample_env.gorm sample_writes owner_request (some (codes "google_g"))
    ≡ (answered tt, some after_sharing)
unfolding post_device_add_user share_with with_device find_invited find_user_by_google_id
    find_device_by_dongle_id has_prefix trim_prefix skip str_eq is_empty
shares = refl

lists :
    list_shared_to_by_user_id sample_env.gorm after_sharing 9 ≡ fetched after_sharing.device_shares
unfolding list_shared_to_by_user_id
lists = refl

post_device_add_user-IsShared_example :
    (user : User) × IsShared sample_env.gorm sample_writes owner_request
      (some (codes "google_g"))
      user
      after_sharing
post_device_add_user-IsShared_example =
    post_device_add_user-IsShared sample_env.gorm sample_writes owner_request
      (some (codes "google_g")) after_sharing shares

post_device_add_user-next_example :
    require_device_owner_or_shared sample_env guest_request ≡ next guest_request
post_device_add_user-next_example =
    post_device_add_user-next sample_env sample_writes owner_request guest_request
      (codes "google_g") two_users after_sharing guest refl invites (omega arith) shares refl refl
      refl refl (after_sharing.device_shares, lists)

unpairs :
    post_device_unpair sample_env.gorm sample_writes guest_request
    ≡ (answered tt, some (without_owner sample_device after_sharing))
unfolding post_device_unpair unpair with_device find_device_by_dongle_id str_eq is_empty
unpairs = refl

post_device_unpair-without_owner_example :
    (db : Database) × (device : Device) × IsNamed sample_env.gorm guest_request db device
    × (without_owner sample_device after_sharing ≡ without_owner device db)
post_device_unpair-without_owner_example =
    post_device_unpair-without_owner sample_env.gorm sample_writes guest_request
      (without_owner sample_device after_sharing) unpairs

patches :
    patch_device sample_env.gorm sample_writes owner_request (some none)
    ≡ (answered sample_device, some two_users)
unfolding patch_device update_alias with_device find_device_by_dongle_id str_eq is_empty
patches = refl

no_demo :
    get_device_location sample_env.gorm sample_writes owner_request
    ≡ (answered (record { dongle_id = codes "d1"; lat = 0; lon = 0; time = pos 0 }), some two_users)
unfolding get_device_location with_device find_device_by_dongle_id str_eq is_empty
no_demo = refl
