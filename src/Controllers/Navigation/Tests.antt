-- ===== src/Controllers/Navigation/Tests.antt =====
-- The handlers of internal/server/controllers/v1/navigation.go on a small database, and the properties
-- of the modules below this one at such requests.
use mathlib.Core.List.{Memᴰ}
use rtz_server.Base.{
  ℕ, ◌<◌, ◌^◌, false, true, ◌≡◌, ◌≢◌, ◌↔◌, ◌⊎◌, inl, refl, sym, ◌∙◌, ◌==◌, [], ◌∷◌, none, some,
  arith,
}
use rtz_server.Base.Int.{pos}
use rtz_server.GoText.{codes, str_eq, is_empty}
use rtz_server.GoText.Numbers.{parse_uint, scan_uint, scanned}
use rtz_server.Models.Rows.{Device, Location, Database}
use rtz_server.Models.Writes.{changed_rows, other_rows}
use rtz_server.Models.Queries.{find_device_by_dongle_id}
use rtz_server.Models.Fixtures.{sample_gorm, sample_device, sample_database}
use rtz_server.Models.Writes.Devices.{AreDongleIdsUnique}
use rtz_server.Models.Writes.Fixtures.{sample_writes}
use rtz_server.Server.Http.{Context}
use rtz_server.Server.Middleware.Fixtures.{known_request}
use rtz_server.Controllers.Handler.{answered, failed, with_device, IsNamed}
use rtz_server.Controllers.Navigation.{
  Destination, SaveLocation, Outside, success, one_float, is_online, clear, save_destination,
  set_destination, post_set_destination, with_destination, not_set, next_destination,
  get_navigation_next, delete_next, delete_navigation_next, new_location, make_place, put_location,
  put_navigation_locations, delete_navigation_location,
}
use rtz_server.Controllers.Navigation.Calls.{IsTaken, post_set_destination-saved_next}
use rtz_server.Controllers.Navigation.Destinations.{
  merged, post_set_destination-next, get_navigation_next-once,
}
use rtz_server.Controllers.Navigation.Places.{
  IsLabelled, put_navigation_locations-single, delete_navigation_location-others,
}

abbrev harbour : Destination
harbour = record { latitude = 5; longitude = 6; place_details = []; place_name = codes "harbour" }

-- An hour after the device's last ping.
abbrev offline : Outside
offline = record {
  has_nats = true;
  now = pos 3600000000000;
  new_uuid = some (codes "u");
  call = λ id uuid t. (none, none);
}

-- A minute after it, but for a nanosecond, and a device that takes the destination.
abbrev online : Outside
online = record offline {
  now = pos 59999999999;
  call = λ id uuid t. (some (record { error = []; result = success one_float }), none);
}

abbrev bound : Device
bound = with_destination sample_writes harbour sample_device

abbrev bound_database : Database
bound_database = record sample_database { devices = bound ∷ [] }

abbrev bound_request : Context
bound_request = record known_request { db = some bound_database }

saves :
    post_set_destination sample_gorm sample_writes known_request offline (some harbour)
    ≡ (answered (record { success = true; saved_next = true }), some bound_database)
unfolding post_set_destination set_destination is_online save_destination with_device
    find_device_by_dongle_id str_eq is_empty
saves = refl

takes :
    post_set_destination sample_gorm sample_writes known_request online (some harbour)
    ≡ (answered (record { success = true; saved_next = false }), some sample_database)
unfolding post_set_destination set_destination is_online clear with_device find_device_by_dongle_id
    str_eq is_empty
takes = refl

abbrev named : IsNamed sample_gorm known_request sample_database sample_device
unfolding find_device_by_dongle_id str_eq is_empty
named = record { id = codes "d1"; named = refl; stored = refl; found = refl }

abbrev named_bound : IsNamed sample_gorm bound_request bound_database bound
unfolding find_device_by_dongle_id str_eq is_empty
named_bound = record { id = codes "d1"; named = refl; stored = refl; found = refl }

d1_set : codes "d1" ≢ []
d1_set e = cc

one_row : (a : Device) → AreDongleIdsUnique (record sample_database { devices = a ∷ [] })
one_row a d e (Memᴰ.head p) (Memᴰ.head q) same = p ∙ sym q
one_row a d e (Memᴰ.head p) (Memᴰ.tail m) same = elim m [ ]
one_row a d e (Memᴰ.tail m) q same = elim m [ ]

post_set_destination-saved_next_example :
    (IsTaken online harbour sample_device
      × (false ≡ false)
      × (sample_database ≡ record sample_database {
        devices = changed_rows (λ d. d.id == sample_device.id) not_set sample_database.devices;
      }))
    ⊎ ((¬ IsTaken online harbour sample_device)
        × (false ≡ true)
        × (sample_database ≡ record sample_database {
          devices =
              changed_rows
                (λ d. d.id == sample_device.id)
                (with_destination sample_writes harbour)
                sample_database.devices;
        }))
post_set_destination-saved_next_example =
    post_set_destination-saved_next sample_gorm sample_writes known_request online harbour
      sample_database sample_database sample_device (record { success = true; saved_next = false })
      named takes

post_set_destination-next_example : get_navigation_next sample_gorm sample_writes bound_request ≡ (
  answered (merged harbour sample_device),
  some (record sample_database { devices = not_set bound ∷ [] }),
)
unfolding named
post_set_destination-next_example =
    post_set_destination-next sample_gorm sample_writes known_request bound_request offline harbour
      sample_database bound_database (record { success = true; saved_next = true }) sample_device
      bound (not_set bound ∷ []) named d1_set (one_row sample_device) saves refl refl named_bound
      refl

abbrev read_database : Database
read_database = record sample_database { devices = not_set bound ∷ [] }

abbrev read_request : Context
read_request = record known_request { db = some read_database }

abbrev named_read : IsNamed sample_gorm read_request read_database (not_set bound)
unfolding find_device_by_dongle_id str_eq is_empty
named_read = record { id = codes "d1"; named = refl; stored = refl; found = refl }

reads :
    get_navigation_next sample_gorm sample_writes bound_request
    ≡ (answered (merged harbour sample_device), some read_database)
unfolding get_navigation_next next_destination with_device find_device_by_dongle_id str_eq is_empty
reads = refl

get_navigation_next-once_example :
    get_navigation_next sample_gorm sample_writes read_request
    ≡ (failed 404 "Not found", some read_database)
unfolding named_bound
get_navigation_next-once_example =
    get_navigation_next-once sample_gorm sample_writes bound_request read_request
      (merged harbour sample_device) bound_database read_database bound (not_set bound) named_bound
      d1_set (one_row bound) reads refl named_read

drops :
    delete_navigation_next sample_gorm sample_writes bound_request
    ≡ (answered tt, some read_database)
unfolding delete_navigation_next delete_next with_device find_device_by_dongle_id str_eq is_empty
drops = refl

abbrev new_home : SaveLocation
new_home = record {
  label = codes "home";
  latitude = 1;
  longitude = 2;
  place_details = [];
  place_name = codes "flat";
  save_type = codes "favorite";
}

abbrev old_home : Location
old_home = new_location sample_device new_home 4

abbrev housed : Database
housed = record sample_database { locations = old_home ∷ [] }

abbrev housed_request : Context
housed_request = record known_request { db = some housed }

abbrev named_housed : IsNamed sample_gorm housed_request housed sample_device
unfolding find_device_by_dongle_id str_eq is_empty
named_housed = record { id = codes "d1"; named = refl; stored = refl; found = refl }

abbrev moved : Database
moved = record sample_database { locations = new_location sample_device new_home 1 ∷ [] }

moves :
    put_navigation_locations sample_gorm sample_writes housed_request (some new_home)
    ≡ (answered tt, some moved)
unfolding put_navigation_locations put_location make_place with_device find_device_by_dongle_id
    str_eq is_empty
moves = refl

put_navigation_locations-single_example :
    (id : ℕ) × IsLabelled sample_device (codes "home") (new_location sample_device new_home id)
    × ((l : Location)
        → Memᴰ l moved.locations ↔ (
            (Memᴰ l housed.locations × ¬ IsLabelled sample_device (codes "home") l)
            ⊎ (l ≡ new_location sample_device new_home id)))
put_navigation_locations-single_example =
    put_navigation_locations-single sample_gorm sample_writes housed_request new_home housed moved
      sample_device named_housed (omega arith) (inl refl) moves

removes :
    delete_navigation_location sample_gorm sample_writes housed_request (some (codes "4"))
    ≡ (answered tt, some sample_database)
unfolding delete_navigation_location parse_uint scan_uint
removes = refl

delete_navigation_location-others_example :
    (id : ℕ) × (db : Database) × (parse_uint (codes "4") ≡ scanned id)
    × (id ≢ 0)
    × (id < 2 ^ 32)
    × (housed_request.db ≡ some db)
    × (sample_database ≡ record db { locations = other_rows (λ l. id == l.id) db.locations })
delete_navigation_location-others_example =
    delete_navigation_location-others sample_gorm sample_writes housed_request (codes "4")
      sample_database removes
