-- ===== src/LogParser/Decoder.antt =====
-- internal/logparser/parser.go: `DecodeSegmentData`.
pub mod Events
pub mod Facts
use rtz_server.Base.{
  ℕ, Bool, true, false, List, [], ◌∷◌, ◌++◌, Option, none, some, ◌==◌, if◌then◌else◌,
}
use rtz_server.GoText.{Str, codes, str_eq}
use rtz_server.Models.Rows.{Float64}
use rtz_server.LogParser.{
  Floats, KalmanPosition, SegmentData, Measurement, LiveLocation, SentinelType, start_sentinel,
  end_sentinel, other_sentinel, Param, InitData, Which, live_location, sentinel, clocks, init_data,
  other_event, Event, Message,
}

-- `v, err := …; if err != nil { return SegmentData{}, err }`
infixl 5 ◌>>=◌
abbrev pub ◌>>=◌ : {A B : Type 0} → Option A → (A → Option B) → Option B
none >>= f = none
some a >>= f = f a

unfoldable pub last_position : List KalmanPosition → Option KalmanPosition
last_position [] = none
last_position (p ∷ ps) = elim (last_position ps) [ none ↦ some p | some q ↦ some q ]

module _ (floats : Floats) where
  open floats use {plus, minus, times, over, square_root, zero_float, half_turn, pi}

  abbrev pub empty_segment : SegmentData
  empty_segment = record {
    end_log_mono_time = 0;
    first_clock_wall_time_nanos = 0;
    first_clock_log_mono_time = 0;
    git_dirty = false;
    git_commit = [];
    version = [];
    dongle_id = [];
    init_log_mono_time = 0;
    device_type = 0;
    car_model = [];
    git_remote = [];
    git_branch = [];
    start_of_route = false;
    end_of_route = false;
    kalman_positions = [];
    total_distance = zero_float;
  }

  pub calculate_ecef_distance : KalmanPosition → KalmanPosition → Float64
  calculate_ecef_distance pos1 pos2 =
      let dx = minus pos2.x pos1.x in
      let dy = minus pos2.y pos1.y in
      let dz = minus pos2.z pos1.z in
      square_root (plus (plus (times dx dx) (times dy dy)) (times dz dz))

  abbrev pub degrees : Float64 → Float64
  degrees r = over (times r half_turn) pi

  -- Latitude and longitude, 0 where the log has none.
  unfoldable pub geodetic : Option Measurement → Float64 × Float64
  geodetic none = (zero_float, zero_float)
  geodetic (some m) =
      if m.valid
      then elim m.values [
        | none ↦ (zero_float, zero_float)
        | some values ↦ elim values [
          | [] ↦ (zero_float, zero_float)
          | lat ∷ more ↦ elim more [
            | [] ↦ (zero_float, zero_float)
            | lon ∷ _ ↦ (degrees lat, degrees lon)
          ]
        ]
      ]
      else (zero_float, zero_float)

  -- The position of a live location, if it has three coordinates that are valid.
  unfoldable pub position_of : LiveLocation → Option KalmanPosition
  position_of l = do
    ecef ← l.position_ecef
    values ← if ecef.valid then ecef.values else none
    elim values [
      | [] ↦ none
      | x ∷ xs ↦ elim xs [
        | [] ↦ none
        | y ∷ ys ↦ elim ys [
          | [] ↦ none
          | z ∷ _ ↦ some (record {
            x = x;
            y = y;
            z = z;
            latitude = (geodetic l.position_geodetic).0;
            longitude = (geodetic l.position_geodetic).1;
            valid = true;
          })
        ]
      ]
    ]

  unfoldable pub add_position : SegmentData → KalmanPosition → SegmentData
  add_position d position = elim (last_position d.kalman_positions) [
    | none ↦ record d { kalman_positions = d.kalman_positions ++ (position ∷ []) }
    | some last_pos ↦ record d {
      total_distance = plus d.total_distance (calculate_ecef_distance last_pos position);
      kalman_positions = d.kalman_positions ++ (position ∷ []);
    }
  ]

  pub mark_sentinel : SegmentData → SentinelType → SegmentData
  mark_sentinel d start_sentinel = record d { start_of_route = true }
  mark_sentinel d end_sentinel = record d { end_of_route = true }
  mark_sentinel d other_sentinel = d

  unfoldable pub set_clock : SegmentData → ℕ → ℕ → SegmentData
  set_clock d log_mono_time time =
      if d.first_clock_wall_time_nanos == 0
      then record d {
        first_clock_wall_time_nanos = time;
        first_clock_log_mono_time = log_mono_time;
      }
      else d

  -- The loop over the parameters: the last CarModel counts.
  pub read_params : SegmentData → List Param → Option SegmentData
  read_params d [] = some d
  read_params d (p ∷ ps) = elim p.key [
    | none ↦ none
    | some key ↦ elim p.val [
      | none ↦ none
      | some val ↦
          read_params (if str_eq key (codes "CarModel") then record d { car_model = val } else d) ps
    ]
  ]

  pub read_init : SegmentData → ℕ → InitData → Option SegmentData
  read_init d log_mono_time i = do
    remote ← i.git_remote
    branch ← i.git_branch
    commit ← i.git_commit
    vers ← i.version
    dongle_id ← i.dongle_id
    params ← i.entries
    read_params
        (record d {
          git_remote = remote;
          git_branch = branch;
          init_log_mono_time = log_mono_time;
          git_dirty = i.dirty;
          git_commit = commit;
          version = vers;
          device_type = i.device_type;
          dongle_id = dongle_id;
        })
        params

  -- The switch on event.Which.
  unfoldable pub read_which : SegmentData → ℕ → Which → Option SegmentData
  read_which d log_mono_time (live_location l) = do
    location ← l
    elim (position_of location) [ none ↦ some d | some position ↦ some (add_position d position) ]
  read_which d log_mono_time (sentinel s) = s >>= λ kind. some (mark_sentinel d kind)
  read_which d log_mono_time (clocks c) = c >>= λ time. some (set_clock d log_mono_time time)
  read_which d log_mono_time (init_data i) = i >>= λ init. read_init d log_mono_time init
  read_which d log_mono_time other_event = some d

  unfoldable pub read_event : SegmentData → Event → Option SegmentData
  read_event d e =
      read_which (record d { end_log_mono_time = e.log_mono_time }) e.log_mono_time e.which

  -- The loop. The last argument says whether the log ends with io.EOF.
  unfoldable pub decode_from : SegmentData → List Message → Bool → Option SegmentData
  decode_from d [] eof = if eof then some d else none
  decode_from d (m ∷ ms) eof = elim m [
    | none ↦ none
    | some event ↦ elim (read_event d event) [ none ↦ none | some d' ↦ decode_from d' ms eof ]
  ]

  unfoldable pub decode_segment_data : List Message → Bool → Option SegmentData
  decode_segment_data ms eof = decode_from empty_segment ms eof
