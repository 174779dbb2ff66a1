-- ===== src/Models/Rows.antt =====
-- The rows of internal/db/models: route.go, device.go, user.go, deviceshare.go, location.go,
-- bootlog.go and crashlog.go. A `time.Time` is its nanoseconds since 1970, `none` its zero value; a
-- float64 is its bit pattern. The columns that gorm keeps by itself (created, updated, deleted) are
-- left out, but for `created_at`, which the handlers read: a table holds the rows not deleted.
use rtz_server.Base.{ℕ, Bool, List, Option, ◌+◌, ◌-◌, ◌%◌, ◌^◌}
use rtz_server.Base.Int.{ℤ}
use rtz_server.GoText.{Str}
use rtz_server.Models.Int64Array.{Int64Array}

abbrev pub Float64 : Type 0
Float64 = ℕ

abbrev pub Time : Type 0
Time = Option ℤ

pub record User : Type 0 where
  pub id : ℕ
  pub github_user_id : Option ℤ
  pub google_user_id : Option Str
  pub custom_user_id : Option ℤ
  pub superuser : Bool
  pub created_at : Time

pub record Device : Type 0 where
  pub id : ℕ
  pub alias : Option Str
  pub dongle_id : Str
  pub serial : Str
  pub public_key : Str
  pub is_paired : Bool
  pub prime : Bool
  pub prime_type : ℕ
  pub trial_claimed : Bool
  pub device_type : Str
  pub last_gps_time : Option Time
  pub last_gps_lat : Option Float64
  pub last_gps_lng : Option Float64
  pub last_gps_speed : Option Float64
  pub last_gps_bearing : Option Float64
  pub openpilot_version : Str
  pub last_athena_ping : ℤ
  pub destination_set : Bool
  pub destination_latitude : Float64
  pub destination_longitude : Float64
  pub destination_place_details : Str
  pub destination_place_name : Str
  pub owner_id : ℕ
  pub created_at : Time

pub record DeviceShare : Type 0 where
  pub id : ℕ
  pub device_id : ℕ
  pub owner_id : ℕ
  pub shared_to_user_id : ℕ

pub record Route : Type 0 where
  pub id : ℕ
  pub device_id : ℕ
  pub first_clock_wall_time_nanos : ℕ
  pub first_clock_log_mono_time : ℕ
  pub all_segments_processed : Bool
  pub route_id : Str
  pub end_lat : Float64
  pub end_lng : Float64
  pub end_time : Time
  pub git_branch : Str
  pub git_commit : Str
  pub git_dirty : Bool
  pub git_remote : Str
  pub init_log_mono_time : ℕ
  pub is_preserved : Bool
  pub is_public : Bool
  pub length : Float64
  pub platform : Str
  pub radar : Bool
  pub start_lat : Float64
  pub start_lng : Float64
  pub start_time : Time
  pub url : Str
  pub version : Str
  pub segment_start_times : Int64Array
  pub segment_end_times : Int64Array
  pub segment_numbers : Int64Array

pub record Location : Type 0 where
  pub id : ℕ
  pub device_id : ℕ
  pub latitude : Float64
  pub longitude : Float64
  pub label : Option Str
  pub place_details : Str
  pub place_name : Str
  pub save_type : Str

pub record BootLog : Type 0 where
  pub id : ℕ
  pub device_id : ℕ
  pub file_name : Str

pub record CrashLog : Type 0 where
  pub id : ℕ
  pub device_id : ℕ
  pub file_name : Str

pub record Database : Type 0 where
  pub devices : List Device
  pub users : List User
  pub locations : List Location
  pub device_shares : List DeviceShare
  pub boot_logs : List BootLog
  pub crash_logs : List CrashLog
  pub routes : List Route

-- `Route.GetWallTimeFromBootTime`, in uint64.
unfoldable pub get_wall_time_from_boot_time : Route → ℕ → ℕ
get_wall_time_from_boot_time u boot_time =
    ((u.first_clock_wall_time_nanos + boot_time) % 2 ^ 64 + 2 ^ 64 - u.first_clock_log_mono_time)
    % 2 ^ 64
