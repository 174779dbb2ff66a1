-- ===== src/Controllers/Pilot.antt =====
-- internal/server/controllers/v2/pilot.go: a user takes a device for its own, and a device registers.
pub mod Pairing
pub mod Granted
pub mod Stops
pub mod Registration
pub mod Malformed
pub mod Unique
mod Tests
use rtz_server.Base.{
  ℕ, Bool, true, false, not, List, [], ◌∷◌, ◌++◌, Option, none, some, ◌==◌, length, if◌then◌else◌,
}
use rtz_server.Base.Int.{ℤ, pos}
use rtz_server.GoText.{Str, is_empty}
use rtz_server.GoText.Numbers.{NumError, parse_int}
use rtz_server.Luhn.{luhn_valid}
use rtz_server.Jwt.{
  Token, KeyAnswer, use_key, refuse, key_panic, Parsed, parsed, rejected, parse_panic, Parser, Keys,
  expiring, public_key, device_jwt_signing_methods,
}
use rtz_server.Models.Rows.{User, Device, Database, Time}
use rtz_server.Models.Gorm.{Gorm, Fetched, fetched, not_found, query_failed}
use rtz_server.Models.Writes.{Writes}
use rtz_server.Models.Queries.{find_device_by_dongle_id, find_device_by_serial}
use rtz_server.Models.DongleId.{Generated, generated, random_failed, pending, generate_dongle_id}
use rtz_server.Server.Http.{Context, Early, value, answer, ◌>>=◌, require, require_found}
use rtz_server.Controllers.Handler.{
  Reply, answered, failed, crash, Outcome, bad_request, server_error, current_user,
}

pub record PilotPairJwtClaims : Type 0 where
  pub expires_at : Option ℕ
  pub identity : Str
  pub pair : Bool

pub record RegisterJwtClaims : Type 0 where
  pub expires_at : Option ℕ
  pub register : Bool

pub record Paired : Type 0 where
  pub first_pair : Bool
  pub dongle_id : Str

-- `token, err := …ParseWithClaims(…)`, with the answers to an error and to a token that is not valid,
-- which are the same.
abbrev pub require_parsed : {R C : Type 0} → Parsed C → R → R → Early R C
require_parsed (parsed c valid) refusal panicked = if valid then value c else answer refusal
require_parsed rejected refusal panicked = answer refusal
require_parsed parse_panic refusal panicked = answer panicked

-- Updates with a struct: an owner whose key is 0 is not written.
abbrev pub with_owner : Writes → User → Device → Device
with_owner writes user d = record d {
  owner_id = writes.assign ℕ (user.id == 0) user.id d.owner_id;
  is_paired = true;
}

module _ (gorm : Gorm) (writes : Writes) (keys : Keys) where
  -- The key under which a token for pairing is verified: that of the device which it names.
  unfoldable pub pair_key : Database → Token PilotPairJwtClaims → KeyAnswer keys.Key
  pair_key db token = expiring token.claims.expires_at (
      if not token.claims.pair
      then refuse
      else if is_empty token.claims.identity
      then refuse
      else elim (find_device_by_dongle_id gorm db token.claims.identity) [
        | fetched device ↦ public_key keys device.public_key
        | not_found ↦ refuse
        | query_failed ↦ refuse
      ])

  unfoldable pub pair_device : Context → Database → PilotPairJwtClaims → Outcome Paired
  pair_device c db claims = do
    device ← require_found (find_device_by_dongle_id gorm db claims.identity) (server_error c.db)
    user ← current_user c
    devices ←
        require (writes.update Device (λ d. d.id == device.id) (with_owner writes user) db.devices)
          (server_error c.db)
    (
      answered (record { first_pair = not device.is_paired; dongle_id = device.dongle_id }),
      some (record db { devices = devices }),
    )

  -- `pair_token` is the form's, "" where it has none.
  unfoldable pub post_pilot_pair :
      Parser PilotPairJwtClaims keys.Key → Context → Str → Outcome Paired
  unfolding pair_device pair_key
  post_pilot_pair parser c pair_token =
      if is_empty pair_token then bad_request c.db "pair_token is required" else (do
        db ← require c.db (server_error c.db)
        claims ←
            require_parsed
              (parser.parse_with_claims device_jwt_signing_methods pair_token (pair_key db))
              (bad_request c.db "pair_token is invalid") (crash, c.db)
        pair_device c db claims)

-- The query of a registration; `none` where the request has not the parameter.
pub record PilotAuthQuery : Type 0 where
  pub imei : Option Str
  pub imei2 : Option Str
  pub serial : Option Str
  pub public_key : Option Str
  pub register_token : Option Str

-- The bodies that the handler writes, in order: the first has the status. `none` where it still
-- waits for random bytes.
abbrev pub Registered : Type 0
Registered = Option (List (Reply Str) × Option Database)

-- The last body, after those that have been said.
abbrev pub stop : Option Database → List (Reply Str) → Reply Str → Registered
stop db said reply = some (said ++ (reply ∷ []), db)

abbrev pub complain : Option NumError → Reply Str → List (Reply Str)
complain none reply = []
complain (some _) reply = reply ∷ []

-- A number that does not parse is complained of, but the handler goes on with the number that
-- strconv.ParseInt gives.
abbrev pub complaint : Str → Reply Str → List (Reply Str)
complaint text reply = complain (parse_int text).1 reply

-- The number of an IMEI that may be missing, which is then 0.
abbrev pub optional_number : Str → ℤ
optional_number text = if is_empty text then pos 0 else (parse_int text).0

abbrev pub optional_complaint : Str → Reply Str → List (Reply Str)
optional_complaint text reply = if is_empty text then [] else complaint text reply

-- The test of the second IMEI, after what the first one has made the handler say.
abbrev pub check_second :
    Option Database → List (Reply Str) → Option Str → Early Registered (List (Reply Str))
check_second db said none = answer (stop db said (failed 400 "imei2 is required"))
check_second db said (some imei2) =
    let said2 = said ++ optional_complaint imei2 (failed 400 "imei2 is not an integer") in
    if not (luhn_valid (optional_number imei2))
    then answer (stop db said2 (failed 400 "imei2 is invalid"))
    else value said2

abbrev pub check_first :
    Option Database → Option Str → Option Str → Early Registered (List (Reply Str))
check_first db none imei2 = answer (stop db [] (failed 400 "imei is required"))
check_first db (some imei) imei2 =
    let said = complaint imei (failed 400 "imei is not an integer") in
    if not (length imei == 15)
    then answer (stop db [] (failed 400 "imei must be 15 characters"))
    else if not (luhn_valid (parse_int imei).0)
    then answer (stop db said (failed 400 "imei is invalid"))
    else check_second db said imei2

-- The tests of both IMEIs, which give what has been said so far.
unfoldable pub check_imeis : Option Database → PilotAuthQuery → Early Registered (List (Reply Str))
check_imeis db q = check_first db q.imei q.imei2

-- A parameter that is not empty.
abbrev pub filled : Option Str → Option Str
filled none = none
filled (some s) = if is_empty s then none else some s

-- The row that is created, with the defaults of its columns.
abbrev pub new_device : Str → Str → Str → Time → ℕ → Device
new_device dongle_id serial public_key now id = record {
  id = id;
  alias = none;
  dongle_id = dongle_id;
  serial = serial;
  public_key = public_key;
  is_paired = false;
  prime = true;
  prime_type = 1;
  trial_claimed = true;
  device_type = [];
  last_gps_time = none;
  last_gps_lat = none;
  last_gps_lng = none;
  last_gps_speed = none;
  last_gps_bearing = none;
  openpilot_version = [];
  last_athena_ping = pos 0;
  destination_set = false;
  destination_latitude = 0;
  destination_longitude = 0;
  destination_place_details = [];
  destination_place_name = [];
  owner_id = 0;
  created_at = now;
}

-- The error of GenerateDongleID is logged and passed over: its dongle id is then "".
abbrev pub dongle_id_or_empty : Generated → Option Str
dongle_id_or_empty (generated s) = some s
dongle_id_or_empty random_failed = some []
dongle_id_or_empty pending = none

-- The error of this query is not looked at: only a row refuses the registration.
abbrev pub serial_is_taken : Fetched Device → Bool
serial_is_taken (fetched d) = true
serial_is_taken not_found = false
serial_is_taken query_failed = false

module _ (gorm : Gorm) (writes : Writes) (keys : Keys) where
  unfoldable pub register_key : keys.Key → Token RegisterJwtClaims → KeyAnswer keys.Key
  register_key key token =
      expiring token.claims.expires_at (if not token.claims.register then refuse else use_key key)

  -- The row with the dongle id, where there is one.
  abbrev pub created :
      Option Database → List (Reply Str) → Database → Str → Option (List Device) → Registered
  created s said db dongle_id none = stop s said (failed 500 "Try again later")
  created s said db dongle_id (some devices) =
      stop (some (record db { devices = devices })) said (answered dongle_id)

  unfoldable pub create_row :
      List (Reply Str) → Database → Str → Str → Time → Option Str → Registered
  create_row said db serial public_key now none = none
  create_row said db serial public_key now (some dongle_id) =
      created (some db) said db dongle_id
        (writes.create Device (λ d. d.id) (new_device dongle_id serial public_key now) db.devices)

  -- `reads` are the random bytes that the generator is given.
  unfoldable pub create_device :
      List (Reply Str) → Database → Str → Str → Time → List (Option (List ℕ)) → Registered
  unfolding create_row
  create_device said db serial public_key now reads =
      if serial_is_taken (find_device_by_serial gorm db serial)
      then stop (some db) said (failed 400 "serial is already registered")
      else create_row said db serial public_key now
          (dongle_id_or_empty (generate_dongle_id gorm db reads))

  -- The token, under the key that the public key of the query has given.
  unfoldable pub verify_with :
      Parser RegisterJwtClaims keys.Key
      → Option Database
      → List (Reply Str)
      → Str
      → KeyAnswer keys.Key
      → Early Registered RegisterJwtClaims
  unfolding register_key
  verify_with parser db said token key_panic = answer (stop db said crash)
  verify_with parser db said token refuse =
      answer (stop db said (failed 400 "public_key is invalid"))
  verify_with parser db said token (use_key key) =
      require_parsed (parser.parse_with_claims device_jwt_signing_methods token (register_key key))
        (stop db said (failed 400 "register_token is invalid")) (stop db said crash)

  -- `enabled` is `config.Registration.Enabled`.
  unfoldable pub post_pilot_auth :
      Parser RegisterJwtClaims keys.Key
      → Bool
      → Option Database
      → PilotAuthQuery
      → Time
      → List (Option (List ℕ))
      → Registered
  unfolding check_imeis create_device verify_with
  post_pilot_auth parser enabled s q now reads =
      if not enabled then stop s [] (failed 404 "Registration is disabled") else (do
        said ← check_imeis s q
        serial ← require (filled q.serial) (stop s said (failed 400 "serial is required"))
        signing_key ←
            require (filled q.public_key) (stop s said (failed 400 "public_key is required"))
        token ← require q.register_token (stop s said (failed 400 "register_token is required"))
        _ ← verify_with parser s said token (public_key keys signing_key)
        db ← require s (stop s said (failed 500 "Try again later"))
        create_device said db serial signing_key now reads)
