-- ===== src/LogParser/Tests.antt =====
-- A log and a queue, as in internal/logparser.
use rtz_server.Base.{ℕ, suc, true, false, ◌≡◌, refl, List, [], ◌∷◌, none, some, arith}
use rtz_server.GoText.{codes, str_eq, is_empty}
use rtz_server.Models.Rows.{Route}
use rtz_server.Models.Fixtures.{sample_gorm, sample_database}
use rtz_server.Models.Queries.{find_device_by_dongle_id, find_route_for_segment}
use rtz_server.LogParser.{Floats, SegmentData, Measurement, live_location, clocks, Message}
use rtz_server.LogParser.Decoder.{
  last_position, empty_segment, geodetic, position_of, add_position, set_clock, read_which,
  read_event, decode_from, decode_segment_data,
}
use rtz_server.LogParser.Decoder.Events.{
  first_nonzero, last_time, clock_times, positions, path_length,
}
use rtz_server.LogParser.Decoder.Facts.{decode_segment_data_lem}
use rtz_server.LogParser.Scheduler.{
  Work, LogQueue, Step, Reachable, new_log_queue, at_start, then_step, add_log, receive_start,
}
use rtz_server.LogParser.Scheduler.Jobs.{jobs, IsBounded, Reachable-IsBounded}
use rtz_server.LogParser.Scheduler.Hazards.{same_device_race, queue_deadlock}
use rtz_server.LogParser.Processing.{
  ext, new_route, update_route, Outside, process_log, process_device, decompress, saves,
}
use rtz_server.LogParser.Processing.Segments.{IsAligned, process_log-IsAligned}

-- Whole numbers in the place of floats.
abbrev sample_floats : Floats
sample_floats = record {
  plus = λ a b. a;
  minus = λ a b. a;
  times = λ a b. a;
  over = λ a b. a;
  square_root = λ a. a;
  is_zero = λ a. false;
  is_positive = λ a. false;
  zero_float = 0;
  half_turn = 0;
  pi = 0;
  miles = 0;
}

abbrev point : Measurement
point = record { valid = true; values = some (1 ∷ 2 ∷ 3 ∷ []) }

abbrev log : List Message
log =
    some (record { log_mono_time = 4; which = clocks (some 0) })
    ∷ some (record { log_mono_time = 5; which = clocks (some 9) })
    ∷ some (record {
      log_mono_time = 6;
      which =
          live_location (some (record { position_ecef = some point; position_geodetic = none }));
    })
    ∷ []

abbrev decoded : SegmentData
decoded = record (empty_segment sample_floats) {
  end_log_mono_time = 6;
  first_clock_wall_time_nanos = 9;
  first_clock_log_mono_time = 5;
  kalman_positions = record { x = 1; y = 2; z = 3; latitude = 0; longitude = 0; valid = true } ∷ [];
}

decodes : decode_segment_data sample_floats log true ≡ some decoded
unfolding decode_segment_data decode_from read_event read_which position_of geodetic add_position
    last_position set_clock
decodes = refl

decode_segment_data_lem_example :
    (decoded.kalman_positions ≡ positions sample_floats log)
    × (decoded.total_distance ≡ path_length sample_floats none 0 (positions sample_floats log))
    × (decoded.first_clock_wall_time_nanos ≡ first_nonzero (clock_times log))
    × (decoded.end_log_mono_time ≡ last_time 0 log)
decode_segment_data_lem_example = decode_segment_data_lem sample_floats log true decoded decodes

abbrev sample_outside : Outside
sample_outside = record {
  gorm = sample_gorm;
  floats = sample_floats;
  newest_first = λ rows. rows;
  open_log = λ id path. some [];
  zstd = λ s. none;
  bzip2 = λ s. (log, true);
}

abbrev sample_work : Work
sample_work = record {
  path = codes "0/rlog.bz2";
  dongle_id = codes "d1";
  route_info = record { motonic = codes "0"; route = codes "r"; segment = codes "0" };
}

abbrev saved : Route
saved = update_route sample_floats decoded (new_route sample_floats 3 (codes "r") decoded)

processes : process_log sample_outside sample_database sample_work ≡ saves saved
unfolding process_log decompress process_device decode_segment_data decode_from read_event
    read_which position_of geodetic add_position last_position set_clock ext str_eq is_empty
    find_device_by_dongle_id find_route_for_segment
processes = refl

process_log-IsAligned_example : (n : ℕ) × IsAligned (suc n) saved
process_log-IsAligned_example =
    process_log-IsAligned sample_outside sample_database sample_work saved (λ r m. elim m [ ])
      processes

abbrev one_started : LogQueue
one_started = record new_log_queue { active_jobs_count = 1; spawned = sample_work ∷ [] }

starts : Reachable 4 one_started
starts =
    then_step (then_step at_start (add_log _ sample_work refl (omega arith)))
      (receive_start _ sample_work [] refl refl refl (omega arith))

Reachable-IsBounded_example : IsBounded 4 one_started
Reachable-IsBounded_example = Reachable-IsBounded 4 one_started starts

same_device_race_example :
    (q : LogQueue) × Reachable 2 q × (q.running ≡ sample_work ∷ sample_work ∷ [])
same_device_race_example = same_device_race 2 sample_work sample_work (omega arith) refl

queue_deadlock_example :
    (q : LogQueue) × Reachable 4 q
    × (q.closed ≡ false)
    × (jobs q ≡ 0)
    × ((q' : LogQueue) → Step 4 q q' → q' ≡ record q { closed = true })
queue_deadlock_example = queue_deadlock 4 sample_work sample_work (omega arith) refl
