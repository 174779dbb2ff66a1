-- ===== src/LogParser.antt =====
-- internal/logparser: what is read out of a log, how a route is updated with it, and the queue of
-- logs.
pub mod Decoder
pub mod Processing
pub mod Scheduler
mod Tests
use rtz_server.Base.{ℕ, Bool, List, Option}
use rtz_server.GoText.{Str}
use rtz_server.Models.Rows.{Float64}

-- The arithmetic of float64, and the constants of the source: 180, pi and the miles in a metre.
pub record Floats : Type 0 where
  pub plus : Float64 → Float64 → Float64
  pub minus : Float64 → Float64 → Float64
  pub times : Float64 → Float64 → Float64
  pub over : Float64 → Float64 → Float64
  pub square_root : Float64 → Float64
  pub is_zero : Float64 → Bool
  pub is_positive : Float64 → Bool
  pub zero_float : Float64
  pub half_turn : Float64
  pub pi : Float64
  pub miles : Float64

pub record KalmanPosition : Type 0 where
  pub x : Float64
  pub y : Float64
  pub z : Float64
  pub latitude : Float64
  pub longitude : Float64
  pub valid : Bool

pub record SegmentData : Type 0 where
  pub end_log_mono_time : ℕ
  pub first_clock_wall_time_nanos : ℕ
  pub first_clock_log_mono_time : ℕ
  pub git_dirty : Bool
  pub git_commit : Str
  pub version : Str
  pub dongle_id : Str
  pub init_log_mono_time : ℕ
  pub device_type : ℕ
  pub car_model : Str
  pub git_remote : Str
  pub git_branch : Str
  pub start_of_route : Bool
  pub end_of_route : Bool
  pub kalman_positions : List KalmanPosition
  pub total_distance : Float64

-- What the Cap'n Proto accessors give of an event; `none` is an error.
pub record Measurement : Type 0 where
  pub valid : Bool
  pub values : Option (List Float64)

pub record LiveLocation : Type 0 where
  pub position_ecef : Option Measurement
  pub position_geodetic : Option Measurement

pub data SentinelType : Type 0 where
  start_sentinel end_sentinel other_sentinel : SentinelType

pub record Param : Type 0 where
  pub key : Option Str
  pub val : Option Str

-- `entries` is `none` where initData.Params or Entries gives an error.
pub record InitData : Type 0 where
  pub git_remote : Option Str
  pub git_branch : Option Str
  pub dirty : Bool
  pub git_commit : Option Str
  pub version : Option Str
  pub device_type : ℕ
  pub dongle_id : Option Str
  pub entries : Option (List Param)

pub data Which : Type 0 where
  live_location : Option LiveLocation → Which
  sentinel : Option SentinelType → Which
  clocks : Option ℕ → Which
  init_data : Option InitData → Which
  other_event : Which

pub record Event : Type 0 where
  pub log_mono_time : ℕ
  pub which : Which

-- A message of the log, `none` where its root is no event.
abbrev pub Message : Type 0
Message = Option Event
