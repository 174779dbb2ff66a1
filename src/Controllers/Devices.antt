-- ===== src/Controllers/Devices.antt =====
-- internal/server/controllers/v1/devices.go: the handlers that change a device, and its location.
pub mod Sharing
pub mod Pairing
mod Tests
use rtz_server.Base.{
  ℕ, ◌/◌, ◌^◌, Bool, true, false, ◌&&◌, List, Option, none, some, ◌==◌, if◌then◌else◌,
}
use rtz_server.Base.Int.{ℤ, pos, negsuc}
use rtz_server.GoText.{Str, codes, has_prefix, trim_prefix}
use rtz_server.GoText.Numbers.{NumError, parse_int}
use rtz_server.Models.Rows.{User, Device, DeviceShare, Database, Float64, Time}
use rtz_server.Models.Gorm.{Gorm, Fetched, fetched, not_found, query_failed}
use rtz_server.Models.Writes.{Writes}
use rtz_server.Models.Queries.{
  find_user_by_google_id, find_user_by_git_hub_id, find_user_by_custom_id,
}
use rtz_server.Server.Http.{Context, Early, value, answer, ◌>>=◌, require}
use rtz_server.Controllers.Handler.{
  answered, failed, crash, Outcome, bad_request, server_error, current_user, with_device,
}

abbrev pub is_none : {A : Type 0} → Option A → Bool
is_none none = true
is_none (some a) = false

-- Time.UnixMilli, which rounds down. The zero time is in year 1.
unfoldable pub unix_milli : Time → ℤ
unix_milli none = negsuc 62135596799999
unix_milli (some (pos n)) = pos (n / 10 ^ 6)
unix_milli (some (negsuc n)) = negsuc (n / 10 ^ 6)

pub record LocationResponse : Type 0 where
  pub dongle_id : Str
  pub lat : Float64
  pub lon : Float64
  pub time : ℤ

abbrev value_or_zero : Option Float64 → Float64
value_or_zero none = 0
value_or_zero (some x) = x

abbrev pub is_share : Device → User → DeviceShare → Bool
is_share device user s = (s.device_id == device.id) && (s.shared_to_user_id == user.id)

abbrev pub new_share : Device → User → User → ℕ → DeviceShare
new_share device owner user id = record {
  id = id;
  device_id = device.id;
  owner_id = owner.id;
  shared_to_user_id = user.id;
}

module _ (gorm : Gorm) where
  abbrev pub invited : Option Database → Fetched User → Early (Outcome (Unit {0})) User
  invited s (fetched u) = value u
  invited s not_found = answer (failed 404 "User not found", s)
  invited s query_failed = answer (server_error s)

  abbrev pub number : Option Database → Str → Early (Outcome (Unit {0})) ℤ
  number s text =
      let (n, err) = parse_int text in
      elim err [ none ↦ value n | some _ ↦ answer (bad_request s "Invalid request") ]

  -- The user whom the text of the request names.
  unfoldable pub find_invited : Option Database → Database → Str → Early (Outcome (Unit {0})) User
  find_invited s db email =
      if has_prefix email (codes "google_")
      then invited s (find_user_by_google_id gorm db (trim_prefix email (codes "google_")))
      else if has_prefix email (codes "github_")
      then elim (number s (trim_prefix email (codes "github_"))) [
        | answer r ↦ answer r
        | value id ↦ invited s (find_user_by_git_hub_id gorm db id)
      ]
      else if has_prefix email (codes "custom_")
      then elim (number s (trim_prefix email (codes "custom_"))) [
        | answer r ↦ answer r
        | value id ↦ invited s (find_user_by_custom_id gorm db id)
      ]
      else answer (bad_request s "Invalid request")

module _ (gorm : Gorm) (writes : Writes) where
  -- `Alias` is written by Updates with a struct, but the answer has it in any case. The body is `none`
  -- where BindJSON fails.
  unfoldable pub update_alias : Context → Option (Option Str) → Database → Device → Outcome Device
  update_alias c body db device = do
    alias ← require body (bad_request c.db "Invalid request")
    devices ←
        require
          (writes.update Device (λ d. d.id == device.id)
            (λ d. record d { alias = writes.assign (Option Str) (is_none alias) alias d.alias })
            db.devices)
          (server_error c.db)
    (answered (record device { alias = alias }), some (record db { devices = devices }))

  unfoldable pub patch_device : Context → Option (Option Str) → Outcome Device
  patch_device c body = with_device gorm c (update_alias c body)

  unfoldable pub share_with : Context → Option Str → Database → Device → Outcome (Unit {0})
  share_with c body db device = do
    email ← require body (bad_request c.db "Invalid request")
    owner ← current_user c
    user ← find_invited gorm c.db db email
    shares ←
        require
          (writes.first_or_create DeviceShare (λ s. s.id) (is_share device user)
            (new_share device owner user) db.device_shares)
          (server_error c.db)
    (answered tt, some (record db { device_shares = shares }))

  unfoldable pub post_device_add_user : Context → Option Str → Outcome (Unit {0})
  post_device_add_user c body = with_device gorm c (share_with c body)

  -- Two updates: the second may fail after the first. A null owner is read back as 0.
  unfoldable pub unpair : Context → Database → Device → Outcome (Unit {0})
  unpair c db device = do
    devices ←
        require
          (writes.update Device (λ d. d.id == device.id) (λ d. record d { is_paired = false })
            db.devices)
          (server_error c.db)
    devices' ←
        require
          (writes.update Device (λ d. d.id == device.id) (λ d. record d { owner_id = 0 }) devices)
          (server_error (some (record db { devices = devices })))
    (answered tt, some (record db { devices = devices' }))

  unfoldable pub post_device_unpair : Context → Outcome (Unit {0})
  post_device_unpair c = with_device gorm c (unpair c)

  unfoldable pub get_device_location : Context → Outcome LocationResponse
  unfolding unix_milli
  get_device_location c =
      if c.demo
      then (
        failed 403
            "You don't have the permission to access the requested resource. It is either read-protected or not readable by the server.",
        c.db,
      )
      else with_device gorm c (λ db device. (
        answered (record {
          dongle_id = device.dongle_id;
          lat = value_or_zero device.last_gps_lat;
          lon = value_or_zero device.last_gps_lng;
          time = elim device.last_gps_time [ none ↦ pos 0 | some t ↦ unix_milli t ];
        }),
        c.db,
      ))
