-- ===== src/Controllers/Navigation.antt =====
-- internal/server/controllers/v1/navigation.go: the destination of a device, and its saved locations.
pub mod Calls
pub mod Destinations
pub mod Places
mod Tests
use rtz_server.Base.{
  ℕ, ◌+◌, ◌*◌, ◌^◌, Bool, true, false, not, ◌&&◌, List, [], Option, none, some, ◌==◌, leb,
  if◌then◌else◌,
}
use rtz_server.Base.Int.{ℤ, pos, negsuc, ltb_ℤ, sub_ℕ, pos_part, neg_part}
use rtz_server.GoText.{Str, codes, str_eq, is_empty}
use rtz_server.GoText.Numbers.{Scanned, scanned, parse_uint}
use rtz_server.Models.Rows.{Device, Location, Database, Float64}
use rtz_server.Models.Gorm.{Gorm, Fetched, fetched, not_found, query_failed}
use rtz_server.Models.Writes.{Writes}
use rtz_server.Models.Queries.{find_locations_by_device_id}
use rtz_server.Server.Http.{Context, Early, value, answer, ◌>>=◌, require, require_found}
use rtz_server.Server.Rpc.{RpcError, not_connected, nats_no_responders}
use rtz_server.Controllers.Handler.{
  answered, failed, Outcome, bad_request, server_error, with_device,
}

pub record Destination : Type 0 where
  pub latitude : Float64
  pub longitude : Float64
  pub place_details : Str
  pub place_name : Str

pub record SaveLocation : Type 0 where
  pub label : Str
  pub latitude : Float64
  pub longitude : Float64
  pub place_details : Str
  pub place_name : Str
  pub save_type : Str

-- `saved_next` of an answer whose `success` is true.
pub record SetDestination : Type 0 where
  pub success : Bool
  pub saved_next : Bool

-- What `resp.Result` is: no object, an object without "success", or one whose "success" is no number,
-- or the number that it is.
pub data RpcResult : Type 0 where
  no_object no_success no_number : RpcResult
  success : Float64 → RpcResult

pub record RpcResponse : Type 0 where
  pub error : Str
  pub result : RpcResult

-- The outside of a request: whether the connection to NATS is in the context if it has to be, the
-- time in nanoseconds, a new UUID, and what `Call` returns for a device, a UUID and a destination.
pub record Outside : Type 0 where
  pub has_nats : Bool
  pub now : ℤ
  pub new_uuid : Option Str
  pub call : Str → Str → Destination → Option RpcResponse × Option RpcError

abbrev pub one_float : Float64
one_float = 4607182418800017408

-- time.Unix(ping, 0).Add(60 * time.Second).After(now)
unfoldable pub is_online : ℤ → ℤ → Bool
is_online ping now = ltb_ℤ now (sub_ℕ ((pos_part ping + 60) * 10 ^ 9) (neg_part ping * 10 ^ 9))

-- A call that has returned no error has the zero response where it has none.
abbrev pub no_response : RpcResponse
no_response = record { error = []; result = no_object }

abbrev pub response_or_zero : Option RpcResponse → RpcResponse
response_or_zero none = no_response
response_or_zero (some r) = r

abbrev pub call_failed : Option Database → RpcError → Outcome SetDestination
call_failed s nats_no_responders = (failed 404 "Dongle not connected", s)
call_failed s not_connected = (failed 404 "Dongle not connected", s)
call_failed s _ = server_error s

abbrev pub read_result : Option Database → RpcResult → Early (Outcome SetDestination) Bool
read_result s (success x) = value (x == one_float)
read_result s _ = answer (server_error s)

abbrev pub read_call :
    Option Database → Option RpcResponse × Option RpcError → Early (Outcome SetDestination) Bool
read_call s (resp, some e) = answer (call_failed s e)
read_call s (resp, none) =
    let r = response_or_zero resp in
    if is_empty r.error then read_result s r.result else answer (server_error s)

-- Whether the device has taken the destination.
abbrev pub tell_device :
    Option Database → Outside → Str → Destination → Early (Outcome SetDestination) Bool
tell_device s outside dongle_id destination = elim outside.new_uuid [
  | none ↦ answer (server_error s)
  | some uuid ↦ read_call s (outside.call dongle_id uuid destination)
]

-- Updates with a struct, which skips the columns that are zero in it.
abbrev pub with_destination : Writes → Destination → Device → Device
with_destination writes t d = record d {
  destination_set = true;
  destination_latitude = writes.assign Float64 (t.latitude == 0) t.latitude d.destination_latitude;
  destination_longitude =
      writes.assign Float64 (t.longitude == 0) t.longitude d.destination_longitude;
  destination_place_name =
      writes.assign Str (is_empty t.place_name) t.place_name d.destination_place_name;
  destination_place_details =
      writes.assign Str (is_empty t.place_details) t.place_details d.destination_place_details;
}

abbrev pub read_destination : Device → Destination
read_destination device = record {
  latitude = device.destination_latitude;
  longitude = device.destination_longitude;
  place_details = device.destination_place_details;
  place_name = device.destination_place_name;
}

abbrev pub not_set : Device → Device
not_set d = record d { destination_set = false }

-- The label that a new home or work location takes from the older ones.
abbrev pub has_label : Str → Location → Bool
has_label label l = elim l.label [ none ↦ false | some t ↦ str_eq t label ]

abbrev pub new_location : Device → SaveLocation → ℕ → Location
new_location device t id = record {
  id = id;
  device_id = device.id;
  latitude = t.latitude;
  longitude = t.longitude;
  label = if is_empty t.label then none else some t.label;
  place_details = t.place_details;
  place_name = t.place_name;
  save_type = t.save_type;
}

abbrev pub below_2_32 : Scanned → Option ℕ
below_2_32 (scanned n) = if leb (2 ^ 32) n then none else some n
below_2_32 (Scanned.failed _) = none

-- strconv.ParseUint(text, 10, 32)
abbrev pub uint32 : Str → Option ℕ
uint32 text = below_2_32 (parse_uint text)

module _ (gorm : Gorm) (writes : Writes) where
  abbrev update_device : Database → Device → (Device → Device) → Option (List Device)
  update_device db device f = writes.update Device (λ d. d.id == device.id) f db.devices

  unfoldable pub save_destination :
      Context → Destination → Database → Device → Outcome SetDestination
  save_destination c destination db device = do
    devices ←
        require (update_device db device (with_destination writes destination)) (server_error c.db)
    (
      answered (record { success = true; saved_next = true }),
      some (record db { devices = devices }),
    )

  unfoldable pub clear : Context → Database → Device → Outcome SetDestination
  clear c db device = do
    devices ← require (update_device db device not_set) (server_error c.db)
    (
      answered (record { success = true; saved_next = false }),
      some (record db { devices = devices }),
    )

  unfoldable pub set_destination :
      Context → Outside → Destination → Database → Device → Outcome SetDestination
  unfolding is_online clear save_destination
  set_destination c outside destination db device =
      if is_online device.last_athena_ping outside.now
      then (do
        taken ← tell_device c.db outside device.dongle_id destination
        if taken then clear c db device else save_destination c destination db device)
      else save_destination c destination db device

  unfoldable pub post_set_destination :
      Context → Outside → Option Destination → Outcome SetDestination
  post_set_destination c outside body = do
    destination ← require body (bad_request c.db "Invalid request")
    _ ← require c.dongle_id (bad_request c.db "dongle_id is required")
    if outside.has_nats
        then with_device gorm c (set_destination c outside destination)
        else server_error c.db

  unfoldable pub next_destination : Context → Database → Device → Outcome Destination
  next_destination c db device =
      if device.destination_set
      then (do
        devices ← require (update_device db device not_set) (server_error c.db)
        (answered (read_destination device), some (record db { devices = devices })))
      else (failed 404 "Not found", c.db)

  unfoldable pub get_navigation_next : Context → Outcome Destination
  get_navigation_next c = with_device gorm c (next_destination c)

  unfoldable pub delete_next : Context → Database → Device → Outcome (Unit {0})
  delete_next c db device = do
    devices ← require (update_device db device not_set) (server_error c.db)
    (answered tt, some (record db { devices = devices }))

  unfoldable pub delete_navigation_next : Context → Outcome (Unit {0})
  delete_navigation_next c = with_device gorm c (delete_next c)

  unfoldable pub get_navigation_locations : Context → Outcome (List Location)
  get_navigation_locations c = with_device gorm c (λ db device. do
    locations ← require_found (find_locations_by_device_id gorm db device.id) (server_error c.db)
    (answered locations, c.db))

  abbrev delete_labelled : Str → Database → Device → Option (List Location)
  delete_labelled label db device =
      writes.delete Location true (λ l. gorm.num_cond device.id l.device_id && has_label label l)
        db.locations

  -- The locations once a home or work location has made place for the new one.
  unfoldable pub make_place : Str → Database → Device → Option (List Location)
  make_place label db device =
      if str_eq label (codes "home")
      then delete_labelled (codes "home") db device
      else if str_eq label (codes "work")
      then delete_labelled (codes "work") db device
      else some db.locations

  unfoldable pub put_location : Context → SaveLocation → Database → Device → Outcome (Unit {0})
  put_location c t db device = do
    rest ← require (make_place t.label db device) (server_error c.db)
    locations ←
        require (writes.create Location (λ l. l.id) (new_location device t) rest)
          (server_error (some (record db { locations = rest })))
    (answered tt, some (record db { locations = locations }))

  unfoldable pub put_navigation_locations : Context → Option SaveLocation → Outcome (Unit {0})
  put_navigation_locations c body = do
    location ← require body (bad_request c.db "Invalid request")
    if is_empty location.save_type
        then bad_request c.db "save_type is required"
        else with_device gorm c (put_location c location)

  unfoldable pub delete_navigation_location : Context → Option Str → Outcome (Unit {0})
  delete_navigation_location c body = do
    text ← require body (bad_request c.db "Invalid request")
    id ← require (uint32 text) (bad_request c.db "Invalid request")
    db ← require c.db (server_error c.db)
    locations ←
        require (writes.delete Location (not (id == 0)) (λ l. gorm.num_cond id l.id) db.locations)
          (server_error c.db)
    (answered tt, some (record db { locations = locations }))
