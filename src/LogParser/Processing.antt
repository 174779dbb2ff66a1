-- ===== src/LogParser/Processing.antt =====
-- internal/logparser/queue.go: `processLog`, which decodes a log and updates its route.
pub mod Segments
use rtz_server.Base.{
  ℕ, suc, ◌-◌, ◌^◌, Bool, true, false, not, ◌&&◌, List, [], ◌∷◌, ◌++◌, Option, none, some, length,
  ltb, leb, ◌==◌, if◌then◌else◌,
}
use rtz_server.Base.Int.{ℤ, pos, negsuc}
use rtz_server.GoText.{Str, codes, str_eq, is_empty}
use rtz_server.Models.Int64Array.{Int64Array}
use rtz_server.Models.Rows.{Device, Route, Database, get_wall_time_from_boot_time}
use rtz_server.Models.Gorm.{Fetched, fetched, not_found, query_failed, Gorm}
use rtz_server.Models.Queries.{find_device_by_dongle_id, find_route_for_segment}
use rtz_server.LogParser.{Floats, SegmentData, KalmanPosition, Message}
use rtz_server.LogParser.Decoder.{decode_segment_data, last_position}
use rtz_server.LogParser.Scheduler.{Work}

-- int64 of an uint64.
abbrev pub to_int64 : ℕ → ℤ
to_int64 n = if ltb n (2 ^ 63) then pos n else negsuc (2 ^ 64 - n - 1)

abbrev pub elements : Int64Array → List ℤ
elements none = []
elements (some xs) = xs

-- append, also to a nil slice.
abbrev pub append_to : Int64Array → ℤ → Int64Array
append_to a x = some (elements a ++ (x ∷ []))

-- filepath.Ext: the text from the last dot on, if no slash follows it.
unfoldable pub ext : Str → Str
ext [] = []
ext (c ∷ s) =
    let later = ext s in
    if not (is_empty later)
    then later
    else if (c == 46) && not (rtz_server.Base.any (λ d. d == 47) s)
    then c ∷ s
    else []

module _ (floats : Floats) where
  open floats use {plus, times, is_zero, is_positive, zero_float, miles}

  -- The route of the first log.
  pub new_route : ℕ → Str → SegmentData → Route
  new_route device_id route segment_data = record {
    id = 0;
    device_id = device_id;
    first_clock_wall_time_nanos = 0;
    first_clock_log_mono_time = 0;
    all_segments_processed = false;
    route_id = route;
    end_lat = zero_float;
    end_lng = zero_float;
    end_time = none;
    git_branch = segment_data.git_branch;
    git_commit = segment_data.git_commit;
    git_dirty = segment_data.git_dirty;
    git_remote = segment_data.git_remote;
    init_log_mono_time = segment_data.init_log_mono_time;
    is_preserved = false;
    is_public = false;
    length = zero_float;
    platform = segment_data.car_model;
    radar = true;
    start_lat = zero_float;
    start_lng = zero_float;
    start_time = none;
    url = [];
    version = segment_data.version;
    segment_start_times = none;
    segment_end_times = none;
    segment_numbers = none;
  }

  pub set_first_clock : SegmentData → Route → Route
  set_first_clock segment_data route =
      let route' =
        if (route.first_clock_log_mono_time == 0)
          && not (segment_data.first_clock_log_mono_time == 0)
        then record route { first_clock_log_mono_time = segment_data.first_clock_log_mono_time }
        else route in
      if (route'.first_clock_wall_time_nanos == 0)
        && not (segment_data.first_clock_wall_time_nanos == 0)
      then record route' { first_clock_wall_time_nanos = segment_data.first_clock_wall_time_nanos }
      else route'

  pub set_start_time : SegmentData → Route → Route
  set_start_time segment_data route = elim route.start_time [
    | some _ ↦ route
    | none ↦
        let wall_time = get_wall_time_from_boot_time route segment_data.init_log_mono_time in
        if not (segment_data.init_log_mono_time == 0) && (ltb 0 wall_time && ltb wall_time (2 ^ 63))
        then record route { start_time = some (pos wall_time) }
        else route
  ]

  pub set_start_position : SegmentData → Route → Route
  set_start_position segment_data route = elim segment_data.kalman_positions [
    | [] ↦ route
    | first ∷ _ ↦
        if is_zero route.start_lat && is_zero route.start_lng
        then record route { start_lat = first.latitude; start_lng = first.longitude }
        else route
  ]

  pub add_segment : SegmentData → Route → Route
  add_segment segment_data route = record route {
    segment_start_times =
        append_to route.segment_start_times
          (to_int64 (get_wall_time_from_boot_time route segment_data.init_log_mono_time));
    segment_end_times =
        append_to route.segment_end_times
          (to_int64 (get_wall_time_from_boot_time route segment_data.end_log_mono_time));
    segment_numbers =
        append_to route.segment_numbers (pos (suc (length (elements route.segment_numbers))));
  }

  pub add_distance : SegmentData → Route → Route
  add_distance segment_data route =
      if is_positive segment_data.total_distance
      then record route { length = plus route.length (times segment_data.total_distance miles) }
      else route

  pub set_end : SegmentData → Route → Route
  set_end segment_data route =
      let route' : Route = elim (last_position segment_data.kalman_positions) [
        | none ↦ route
        | some last_pos ↦ record route { end_lat = last_pos.latitude; end_lng = last_pos.longitude }
      ] in
      if segment_data.end_of_route
      then record route' {
        end_time =
            some (to_int64 (get_wall_time_from_boot_time route' segment_data.end_log_mono_time));
        all_segments_processed = true;
      }
      else route

  -- What `processLog` does to the route.
  pub update_route : SegmentData → Route → Route
  unfolding set_first_clock set_start_time set_start_position add_segment add_distance set_end
  update_route segment_data route = set_end segment_data (
      add_distance segment_data (
        add_segment segment_data (
          set_start_position segment_data
            (set_start_time segment_data (set_first_clock segment_data route)))))

pub data LogError : Type 0 where
  open_file find_device new_zstd_reader unsupported_extension : LogError
  decoding find_route : LogError

-- `saves` is the call of db.Save, with the route.
pub data Processed : Type 0 where
  failed : LogError → Processed
  saves : Route → Processed

-- A stream of messages, and whether it ends with io.EOF.
abbrev pub Stream : Type 0
Stream = List Message × Bool

-- The storage, the decompressors, and gorm with its order of the routes.
pub record Outside : Type 1 where
  pub gorm : Gorm
  pub floats : Floats
  pub newest_first : List Route → List Route
  pub open_log : Str → Str → Option Str
  pub zstd : Str → Option Stream
  pub bzip2 : Str → Stream

module _ (outside : Outside) where
  open outside use {gorm, floats, newest_first, open_log, zstd, bzip2}

  unfoldable pub decompress : Str → Str → Fetched Stream
  decompress extension content =
      if str_eq extension (codes ".zst")
      then elim (zstd content) [ none ↦ query_failed | some stream ↦ fetched stream ]
      else if str_eq extension (codes ".bz2")
      then fetched (bzip2 content)
      else not_found

  unfoldable pub process_device : Database → Work → Device → Stream → Processed
  process_device db work device (messages, eof) = elim (decode_segment_data floats messages eof) [
    | none ↦ failed decoding
    | some segment_data ↦
        elim (find_route_for_segment gorm db newest_first device.id work.route_info.route) [
          | fetched route ↦ saves (update_route floats segment_data route)
          | not_found ↦ saves (
              update_route floats segment_data
                (new_route floats device.id work.route_info.route segment_data))
          | query_failed ↦ failed find_route
        ]
  ]

  unfoldable pub process_log : Database → Work → Processed
  unfolding decompress process_device
  process_log db work = elim (open_log work.dongle_id work.path) [
    | none ↦ failed open_file
    | some content ↦ elim (find_device_by_dongle_id gorm db work.dongle_id) [
      | not_found ↦ failed find_device
      | query_failed ↦ failed find_device
      | fetched device ↦ elim (decompress (ext work.path) content) [
        | query_failed ↦ failed new_zstd_reader
        | not_found ↦ failed unsupported_extension
        | fetched stream ↦ process_device db work device stream
      ]
    ]
  ]
